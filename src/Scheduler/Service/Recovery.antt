-- ===== src/Scheduler/Service/Recovery.antt =====
-- The runs of jobs of agent/scheduler.py that repeat, and what a start of the process leaves overdue.
use kirakira_agent_online.Prelude.{ℕ, ◌+◌, ◌≤◌, ◌≡◌, String, true, Option, some, ok}
use kirakira_agent_online.Scheduler.{is_waiting, ScheduledMessage, seconds, CronFire, grace}

-- A cron expression has no fire time before the instant that it is asked for.
abbrev pub Onward : CronFire → Type 0
Onward cron = (expr tz : String) (after t : ℕ) → cron expr tz after ≡ ok t → after ≤ t

-- The job is recovered, and if it is still pending its run is overdue by the grace at most.
abbrev pub NotOverdue : ℕ → ScheduledMessage → Type 0
NotOverdue now job =
    is_waiting job.status ≡ true → (t : ℕ) × (job.run_at ≡ some t) × (now ≤ t + seconds grace)

abbrev IsRecovered : ℕ → Option ScheduledMessage → Type 0
IsRecovered now r = (job : ScheduledMessage) × (r ≡ some job) × NotOverdue now job
