-- ===== src/Scheduler/Service/Changes.antt =====
-- What the operations of agent/scheduler.py leave of a job: its id and its trigger; none makes it pending.
use kirakira_agent_online.Prelude.{
  ℕ, ◌+◌, ◌≤◌, ◌≡◌, refl, sym, subst, ◌∙◌, inl, inr, ◌⊎◌, String, true, false, Option, none, some,
  List, [], ◌∷◌, ◌++◌, arith, leb, if◌then◌else◌, Bool-cases, Option-cases, Result, ok, err,
}
use kirakira_agent_online.Scheduler.{
  is_waiting, is_every, ScheduledMessage, seconds, CronFire, next_run, one_run_less, is_positive,
  fail_job, with_run, with_cron, after_publish, fire_job, missed_job, recover_overdue, recover_at,
  recover_job,
}
use kirakira_agent_online.Scheduler.Asked.{
  Calendar, ToolContext, ScheduleCall, Timing, JobText, max_active_jobs, active, needs_interval,
  admit, job_text, timing, schedule,
}

pub record Follows (job job' : ScheduledMessage) : Type 0 where
  pub same_id : job'.id ≡ job.id
  pub same_trigger : job'.trigger ≡ job.trigger
  pub still_pending : is_waiting job'.status ≡ true → is_waiting job.status ≡ true

pub Follows-trans : (a b c : ScheduledMessage) → Follows a b → Follows b c → Follows a c
Follows-trans a b c f g = record {
  same_id = g.same_id ∙ f.same_id;
  same_trigger = g.same_trigger ∙ f.same_trigger;
  still_pending = λ p. f.still_pending (g.still_pending p);
}

abbrev Keeps : ScheduledMessage → Option ScheduledMessage → Type 0
Keeps job r =
    (job' : ScheduledMessage)
    → r ≡ some job'
    → Follows job job' × (job'.remaining_runs ≡ job.remaining_runs)

with_run-Keeps : (job : ScheduledMessage) (r : Option ℕ) → Keeps job (with_run job r)
with_run-Keeps job none job' e = cc
with_run-Keeps job (some t) job' e = ground (arith, e)

with_cron-Keeps : (job : ScheduledMessage) (r : Result String ℕ) → Keeps job (with_cron job r)
unfolding fail_job is_waiting
with_cron-Keeps job (ok t) job' e = ground (arith, e)
with_cron-Keeps job (err t) job' e = ground (arith, e)

after_publish-Keeps :
    (cron : CronFire) (now : ℕ) (job : ScheduledMessage) → Keeps job (after_publish cron now job)
unfolding after_publish fail_job is_waiting
after_publish-Keeps cron now job job' e = elim (Option-cases job.run_at) [
  | inl f ↦ ground (arith, f, e)
  | inr (t, f) ↦ ground (
    arith,
    f,
    e,
    with_cron-Keeps job (cron job.cron_expr job.timezone (if leb t now then now else t)) job',
    with_run-Keeps job
        (next_run (seconds job.interval_seconds) now (t + seconds job.interval_seconds)) job',
  )
]

recover_job-Keeps :
    (cron : CronFire) (now : ℕ) (job : ScheduledMessage) → Keeps job (recover_job cron now job)
unfolding recover_job recover_at recover_overdue fail_job missed_job is_waiting
recover_job-Keeps cron now job job' e = elim (Option-cases job.run_at) [
  | inl f ↦ ground (arith, f, e)
  | inr (t, f) ↦ ground (
    arith,
    f,
    e,
    with_cron-Keeps job (cron job.cron_expr job.timezone now) job',
    with_run-Keeps job (next_run (seconds job.interval_seconds) now t) job',
  )
]

-- A job that is still pending after it was published has runs left, or repeats for ever.
after_publish-pending :
    (cron : CronFire) (now : ℕ) (job job' : ScheduledMessage)
    → after_publish cron now job ≡ some job'
    → is_every job.trigger ≡ false
    → is_waiting job'.status ≡ true
    → is_positive job.remaining_runs ≡ true
unfolding after_publish fail_job is_waiting
after_publish-pending cron now job job' e n p = elim (Option-cases job.run_at) [
  | inl f ↦ ground (arith, f, e, n, p)
  | inr (t, f) ↦ ground (arith, f, e, n, p)
]

pub record Fires (job job' : ScheduledMessage) (published : Option String) : Type 0 where
  pub follows : Follows job job'
  pub left :
      job'.remaining_runs
      ≡ elim published [ none ↦ one_run_less job.remaining_runs | some e ↦ job.remaining_runs ]
  pub goes_on :
      is_every job.trigger ≡ false
      → is_waiting job'.status ≡ true
      → is_positive job'.remaining_runs ≡ true

pub fire_job-Fires :
    (cron : CronFire) (published : Option String) (now : ℕ) (job job' : ScheduledMessage)
    → fire_job cron published now job ≡ some job'
    → Fires job job' published
unfolding fire_job fail_job is_waiting
fire_job-Fires cron (some t) now job job' e = record {
  follows = ground (arith, e);
  left = ground (arith, e);
  goes_on = λ n p. ground (arith, e, p);
}
fire_job-Fires cron none now job job' e =
    let run = record job { remaining_runs = one_run_less job.remaining_runs } in
    let (f, r) = after_publish-Keeps cron now run job' e in
    record {
      follows = record {
        same_id = f.same_id;
        same_trigger = f.same_trigger;
        still_pending = f.still_pending;
      };
      left = r;
      goes_on = λ n p.
          subst (λ z. is_positive z ≡ true) (sym r) (after_publish-pending cron now run job' e n p);
    }

pub recover_job-Follows :
    (cron : CronFire) (now : ℕ) (job job' : ScheduledMessage)
    → recover_job cron now job ≡ some job'
    → Follows job job' × (job'.remaining_runs ≡ job.remaining_runs)
recover_job-Follows cron now job job' e = recover_job-Keeps cron now job job' e

-- What a call of `schedule` that succeeds has checked, and the job that it adds.
pub record Admits (id now_utc : ℕ) (jobs : List ScheduledMessage) (job : ScheduledMessage)
    (jobs' : List ScheduledMessage) : Type 0 where
  pub named : job.id ≡ id
  pub added : jobs' ≡ jobs ++ (job ∷ [])
  pub room : active jobs + 1 ≤ max_active_jobs
  pub waits : is_waiting job.status ≡ true
  pub ahead : (t : ℕ) × (job.run_at ≡ some t) × (now_utc + 1 ≤ t)

admit-Admits :
    (id now_utc : ℕ) (x : JobText) (t : Timing) (jobs : List ScheduledMessage)
    (job : ScheduledMessage) (jobs' : List ScheduledMessage)
    → admit id now_utc x t jobs ≡ ok (job, jobs')
    → Admits id now_utc jobs job jobs'
unfolding admit is_waiting
admit-Admits id now_utc x t jobs job jobs' e = elim (Bool-cases (leb t.scheduled_at now_utc)) [
  | inl a ↦ ground (arith, a, e)
  | inr a ↦ elim (Bool-cases (needs_interval t)) [
    | inl b ↦ ground (arith, a, b, e)
    | inr b ↦ elim (Bool-cases (leb max_active_jobs (active jobs))) [
      | inl c ↦ ground (arith, a, b, c, e)
      | inr c ↦ record {
        named = ground (arith, a, b, c, e);
        added = ground (arith, a, b, c, e);
        room = ground (arith, c);
        waits = ground (arith, a, b, c, e);
        ahead = (t.scheduled_at, ground (arith, a, b, c, e), ground (arith, a));
      }
    ]
  ]
]

Result-cases :
    {A : Type 0} (r : Result String A) → ((a : A) × (r ≡ ok a)) ⊎ ((e : String) × (r ≡ err e))
Result-cases (ok a) = inl (a, refl)
Result-cases (err e) = inr (e, refl)

pub schedule-Admits :
    (cal : Calendar) (context : ToolContext) (a : ScheduleCall) (id now now_utc : ℕ)
    (jobs : List ScheduledMessage) (job : ScheduledMessage) (jobs' : List ScheduledMessage)
    → schedule cal context a id now now_utc jobs ≡ ok (job, jobs')
    → Admits id now_utc jobs job jobs'
unfolding schedule
schedule-Admits cal context a id now now_utc jobs job jobs' e =
    elim (Result-cases (job_text cal context a)) [
      | inr (f, x) ↦ ground (arith, x, e)
      | inl (x, f) ↦ elim (Result-cases (timing cal a x.timezone now)) [
        | inr (g, t) ↦ ground (arith, f, t, e)
        | inl (t, g) ↦ admit-Admits id now_utc x t jobs job jobs' (ground (arith, f, g, e))
      ]
    ]
