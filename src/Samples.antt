-- ===== src/Samples.antt =====
-- The theorems of the development at concrete inputs.
mod Restart
mod Runs
mod Queue
mod Snapshots
mod Journal
mod Slots
mod Lanes
mod Generations
mod Phases
mod Calls
mod Scheduled
mod Subagents
mod Sending
