-- ===== src/Scheduler/Service.antt =====
-- The scheduler as a whole, agent/scheduler.py: its jobs in memory and in the file, the list that `run` is
-- working through, and the messages that it has published. The loop and the tools meet at its awaits, so
-- that a step is one call of a tool, one look for due jobs, one `_fire`, or a start of the process. The file
-- is replaced as a whole, and each `_save` may fail, or the process be killed before it.
pub mod Changes
pub mod Capacity
pub mod Rows
pub mod RunsLeft
pub mod Budget
pub mod Recovery
use kirakira_agent_online.Prelude.{
  ℕ, ◌≡◌, String, Bool, true, false, not, Option, none, some, List, [], ◌∷◌, ◌==◌, any, keep, map,
  find, put, if◌then◌else◌, Result, ok, err,
}
use kirakira_agent_online.Scheduler.{
  JobStatus, cancelled, is_waiting, ScheduledMessage, CronFire, fire_job, is_due, recover_job,
}
use kirakira_agent_online.Scheduler.Asked.{Calendar, ToolContext, ScheduleCall, schedule}

-- `saved` are the jobs in the file; `due` holds the ids of the jobs that are still to be fired in this
-- round; `sent` the ids of the published messages, `unsaved` those after which the file was not written.
pub record SchedulerService : Type 0 where
  pub jobs : List ScheduledMessage
  pub saved : List ScheduledMessage
  pub due : List ℕ
  pub sent : List ℕ
  pub unsaved : List ℕ

abbrev pub no_jobs : SchedulerService
no_jobs = record { jobs = []; saved = []; due = []; sent = []; unsaved = [] }

-- The service after it has changed its jobs and called `_save`, which has `written` the file or not.
abbrev pub after_save : Bool → List ScheduledMessage → SchedulerService → SchedulerService
after_save written jobs s = record s { jobs = jobs; saved = if written then jobs else s.saved }

abbrev pub job_of : ℕ → List ScheduledMessage → Option ScheduledMessage
job_of id jobs = find (λ j. j.id == id) jobs

unfoldable pub write_job : ScheduledMessage → List ScheduledMessage → List ScheduledMessage
unfolding put
write_job job jobs = put (λ j. j.id) job jobs

-- The two error texts of `cancel_schedule`, by what they name.
pub data CancelError : Type 0 where
  schedule_not_found : ℕ → CancelError
  already : JobStatus → CancelError

unfoldable pub cancel_schedule :
    ℕ → List ScheduledMessage → Result CancelError (List ScheduledMessage)
unfolding write_job find is_waiting
cancel_schedule id jobs = elim (job_of id jobs) [
  | none ↦ err (schedule_not_found id)
  | some job ↦
      if not (is_waiting job.status)
      then err (already job.status)
      else ok (write_job (record job { status = cancelled }) jobs)
]

unfoldable pub due_jobs : ℕ → List ScheduledMessage → List ℕ
unfolding is_due
due_jobs now jobs = map (λ j. j.id) (keep (is_due now) jobs)

-- The jobs that `_load` reads, each recovered; `none` for a loop that does not end.
unfoldable pub recover_jobs : CronFire → ℕ → List ScheduledMessage → Option (List ScheduledMessage)
unfolding recover_job
recover_jobs cron now [] = some []
recover_jobs cron now (j ∷ jobs) =
    let rest = recover_jobs cron now jobs in
    elim (recover_job cron now j) [
      | none ↦ none
      | some j' ↦ elim rest [ none ↦ none | some jobs' ↦ some (j' ∷ jobs') ]
    ]

-- The service after `_fire` has published a message, or failed to, and changed its job. A `_save` that fails
-- ends the round.
unfoldable pub fired :
    Bool → Option String → ℕ → List ℕ → ScheduledMessage → SchedulerService → SchedulerService
unfolding write_job
fired written published id rest job s = record {
  jobs = write_job job s.jobs;
  saved = if written then write_job job s.jobs else s.saved;
  due = if written then rest else [];
  sent = elim published [ none ↦ id ∷ s.sent | some e ↦ s.sent ];
  unsaved = elim published [
    | none ↦ if written then s.unsaved else (id ∷ s.unsaved)
    | some e ↦ s.unsaved
  ];
}

-- One step. A new job's id is fresh, as a random UUID is. A process that is killed between a publication
-- and the save is `fires false` before `starts`, which has the file alone.
pub data ServiceStep (cal : Calendar) (s : SchedulerService) : SchedulerService → Type 0 where
  asked :
      (written : Bool) (context : ToolContext) (a : ScheduleCall) (id now now_utc : ℕ)
      (job : ScheduledMessage) (jobs : List ScheduledMessage)
      → any (λ j. j.id == id) s.jobs ≡ false
      → any (λ j. j.id == id) s.saved ≡ false
      → schedule cal context a id now now_utc s.jobs ≡ ok (job, jobs)
      → ServiceStep cal s (after_save written jobs s)
  cancels :
      (written : Bool) (id : ℕ) (jobs : List ScheduledMessage)
      → cancel_schedule id s.jobs ≡ ok jobs
      → ServiceStep cal s (after_save written jobs s)
  looks : (now : ℕ) → s.due ≡ [] → ServiceStep cal s (record s { due = due_jobs now s.jobs })
  fires :
      (written : Bool) (published : Option String) (id : ℕ) (rest : List ℕ) (now : ℕ)
      (job job' : ScheduledMessage)
      → s.due ≡ id ∷ rest
      → job_of id s.jobs ≡ some job
      → fire_job cal.next_cron_fire published now job ≡ some job'
      → ServiceStep cal s (fired written published id rest job' s)
  starts :
      (written : Bool) (now : ℕ) (jobs : List ScheduledMessage)
      → recover_jobs cal.next_cron_fire now s.saved ≡ some jobs
      → ServiceStep cal s (record (after_save written jobs s) { due = [] })

pub data ServiceSteps (cal : Calendar) (s : SchedulerService) : SchedulerService → Type 0 where
  here : ServiceSteps cal s s
  then_step :
      {t u : SchedulerService} → ServiceSteps cal s t → ServiceStep cal t u → ServiceSteps cal s u
