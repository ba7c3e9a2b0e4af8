-- ===== src/Scheduler.antt =====
-- The jobs of the local scheduler: `SchedulerService` of agent/scheduler.py. Instants are microseconds;
-- the reading of dates, the zones and the cron expressions are parameters.
pub mod Duration
pub mod Asked
pub mod Instants
pub mod Service
use kirakira_agent_online.Prelude.{
  ℕ, zero, suc, ◌+◌, ◌-◌, ◌*◌, String, Bool, true, false, ◌&&◌, ◌||◌, not, Option, none, some, List,
  [], ◌∷◌, ◌++◌, ◌==◌, ltb, leb, str_eq, is_empty, if◌then◌else◌, Result, ok, err, ℤ, pos, negsuc,
  keep, map, find, count, put,
}

-- A status, by its text in the file.
pub data JobStatus : Type 0 where
  pending completed failed cancelled missed : JobStatus

unfoldable pub is_waiting : JobStatus → Bool
is_waiting pending = true
is_waiting _ = false

pub data JobTrigger : Type 0 where
  at after every : JobTrigger

abbrev pub is_every : JobTrigger → Bool
is_every every = true
is_every _ = false

-- `run_at` is none for a text that is no date.
pub record ScheduledMessage : Type 0 where
  pub id : ℕ
  pub channel : String
  pub chat_id : String
  pub message : String
  pub run_at : Option ℕ
  pub interval_seconds : ℕ
  pub remaining_runs : ℤ
  pub status : JobStatus
  pub created_at : ℕ
  pub last_error : String
  pub is_soft : Bool
  pub trigger : JobTrigger
  pub cron_expr : String
  pub timezone : String
  pub prompt : String
  pub name : String

-- `timedelta(seconds=n)`
abbrev pub seconds : ℕ → ℕ
seconds n = n * 1_000_000

-- `next_cron_fire(expr, tz, after)`: an instant, or the text of its ValueError.
abbrev pub CronFire : Type 0
CronFire = String → String → ℕ → Result String ℕ

-- `while next_time <= now: next_time += step`; `none` is the end of the fuel.
unfoldable pub past : ℕ → ℕ → ℕ → ℕ → Option ℕ
past zero step now next_time = none
past (suc fuel) step now next_time =
    let rest = past fuel step now (next_time + step) in
    if leb next_time now then rest else some next_time

unfoldable pub next_run : ℕ → ℕ → ℕ → Option ℕ
unfolding past
next_run step now next_time = past (suc (suc (now - next_time))) step now next_time

-- `remaining_runs > 0`
abbrev pub is_positive : ℤ → Bool
is_positive (pos zero) = false
is_positive (pos (suc n)) = true
is_positive (negsuc n) = false

-- `if job.remaining_runs > 0: job.remaining_runs -= 1`
abbrev pub one_run_less : ℤ → ℤ
one_run_less (pos (suc n)) = pos n
one_run_less r = r

unfoldable pub fail_job : String → ScheduledMessage → ScheduledMessage
fail_job error job = record job { last_error = error; status = failed }

-- `fromisoformat` of a job that was read as pending has an instant: a text without one fails the job.
abbrev pub at_instant :
    (ℕ → Option ScheduledMessage) → ScheduledMessage → Option ℕ → Option ScheduledMessage
at_instant f job (some t) = f t
at_instant f job none = some (fail_job "Invalid isoformat string" job)

-- The job whose loop has found the next run; `none` for a loop that does not end.
abbrev pub with_run : ScheduledMessage → Option ℕ → Option ScheduledMessage
with_run job none = none
with_run job (some t) = some (record job { run_at = some t })

abbrev pub with_cron : ScheduledMessage → Result String ℕ → Option ScheduledMessage
with_cron job (ok t) = some (record job { run_at = some t })
with_cron job (err e) = some (fail_job e job)

-- Whether a job that has run goes on by its interval.
abbrev pub repeats : ScheduledMessage → Bool
repeats job = ltb 0 job.interval_seconds && (is_every job.trigger || is_positive job.remaining_runs)

-- What `_fire` does to a job once its message is published.
unfoldable pub after_publish : CronFire → ℕ → ScheduledMessage → Option ScheduledMessage
unfolding next_run fail_job
after_publish cron now job =
    if is_every job.trigger && not (is_empty job.cron_expr)
    then at_instant
        (λ t. with_cron job (cron job.cron_expr job.timezone (if leb t now then now else t))) job
        job.run_at
    else if repeats job
    then at_instant
        (λ t.
          with_run job
            (next_run (seconds job.interval_seconds) now (t + seconds job.interval_seconds)))
        job job.run_at
    else some (record job { status = completed })

-- `_fire`: `published` is none, or the exception of the bus; `now` is read after the publication.
unfoldable pub fire_job : CronFire → Option String → ℕ → ScheduledMessage → Option ScheduledMessage
unfolding after_publish
fire_job cron published now job = elim published [
  | some e ↦ some (fail_job e job)
  | none ↦ after_publish cron now (record job { remaining_runs = one_run_less job.remaining_runs })
]

-- `fromisoformat(job.run_at) <= now` of a pending job
unfoldable pub is_due : ℕ → ScheduledMessage → Bool
unfolding is_waiting
is_due now job = is_waiting job.status && elim job.run_at [ none ↦ false | some t ↦ leb t now ]

abbrev pub grace : ℕ
grace = 300

unfoldable pub missed_job : ScheduledMessage → ScheduledMessage
missed_job job = record job { status = missed; last_error = "missed while runtime was offline" }

-- `_recover_job` of a pending job whose run lies at `t`, not after `now`.
unfoldable pub recover_overdue : CronFire → ℕ → ScheduledMessage → ℕ → Option ScheduledMessage
unfolding next_run fail_job missed_job
recover_overdue cron now job t =
    if is_every job.trigger && not (is_empty job.cron_expr)
    then with_cron job (cron job.cron_expr job.timezone now)
    else if repeats job
    then with_run job (next_run (seconds job.interval_seconds) now t)
    else if ltb (seconds grace) (now - t)
    then some (missed_job job)
    else some job

unfoldable pub recover_at : CronFire → ℕ → ScheduledMessage → Option ℕ → Option ScheduledMessage
unfolding recover_overdue
recover_at cron now job none = some (fail_job "invalid run_at" job)
recover_at cron now job (some t) = if ltb now t then some job else recover_overdue cron now job t

unfoldable pub recover_job : CronFire → ℕ → ScheduledMessage → Option ScheduledMessage
unfolding recover_at is_waiting
recover_job cron now job =
    if not (is_waiting job.status) then some job else recover_at cron now job job.run_at
