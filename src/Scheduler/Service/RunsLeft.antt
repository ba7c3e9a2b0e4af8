-- ===== src/Scheduler/Service/RunsLeft.antt =====
-- The runs that a job of agent/scheduler.py has left, after each operation on the jobs.
use kirakira_agent_online.Prelude.{
  ℕ, ◌-◌, ◌≤◌, ◌≡◌, subst, ap, ◌∙◌, inl, inr, String, true, false, Option, none, some, List, arith,
  ◌==◌, Bool-cases, Option-cases, ok, pos, ==→eq,
}
use kirakira_agent_online.Scheduler.{
  is_waiting, is_every, cancelled, ScheduledMessage, CronFire, fire_job,
}
use kirakira_agent_online.Scheduler.Service.{job_of, write_job, cancel_schedule, recover_jobs}
use kirakira_agent_online.Scheduler.Service.Changes.{fire_job-Fires}
use kirakira_agent_online.Scheduler.Service.Capacity.{job_of-id}
use kirakira_agent_online.Scheduler.Service.Rows.{
  recover_jobs-found, write_job_self, write_job_other, cancel_schedule-written,
}

-- A job that does not repeat for ever, with the runs that it has left.
pub record RowBudget (id left : ℕ) (jobs : List ScheduledMessage) : Type 0 where
  pub row : ScheduledMessage
  pub found : job_of id jobs ≡ some row
  pub finite : is_every row.trigger ≡ false
  pub runs : row.remaining_runs ≡ pos left
  pub goes_on : is_waiting row.status ≡ true → 1 ≤ left

-- A publication uses a run.
abbrev pub used : Option String → ℕ
used none = 1
used (some e) = 0

pub row_kept :
    (id left : ℕ) (jobs jobs' : List ScheduledMessage)
    → job_of id jobs' ≡ job_of id jobs
    → RowBudget id left jobs
    → RowBudget id left jobs'
row_kept id left jobs jobs' e h = record {
  row = h.row;
  found = e ∙ h.found;
  finite = h.finite;
  runs = h.runs;
  goes_on = h.goes_on;
}

pub row_fired :
    (id left : ℕ) (published : Option String) (row job' : ScheduledMessage) (cron : CronFire)
    (now : ℕ) (jobs : List ScheduledMessage)
    → job_of id jobs ≡ some row
    → fire_job cron published now row ≡ some job'
    → 1 ≤ left
    → RowBudget id left jobs
    → RowBudget id (left - used published) (write_job job' jobs)
row_fired id left published row job' cron now jobs f e few h =
    let fi = fire_job-Fires cron published now row job' e in
    let this : h.row ≡ row = ground (arith, h.found, f) in
    let finite' : is_every row.trigger ≡ false =
      subst (λ (x : ScheduledMessage). is_every x.trigger ≡ false) this h.finite in
    let runs' : row.remaining_runs ≡ pos left =
      subst (λ (x : ScheduledMessage). x.remaining_runs ≡ pos left) this h.runs in
    let fewer : job'.remaining_runs ≡ pos (left - used published) = elim (Option-cases published) [
      | inl p ↦ ground (arith, fi.left, runs', few, p)
      | inr (x, p) ↦ ground (arith, fi.left, runs', p)
    ] in
    record {
      row = job';
      found = write_job_self id row job' jobs f (fi.follows.same_id ∙ job_of-id id jobs row f);
      finite = ground (arith, fi.follows.same_trigger, finite');
      runs = fewer;
      goes_on = λ p. ground (arith, fi.goes_on finite' p, fewer);
    }

pub row_cancelled :
    (id left i : ℕ) (jobs jobs' : List ScheduledMessage)
    → cancel_schedule i jobs ≡ ok jobs'
    → RowBudget id left jobs
    → RowBudget id left jobs'
unfolding is_waiting
row_cancelled id left i jobs jobs' e h =
    let (job, f, w) = cancel_schedule-written i jobs jobs' e in
    elim (Bool-cases (i == id)) [
      | inl q ↦
          let this : h.row ≡ job = ground (arith, h.found, f, ==→eq i id q) in
          record {
            row = record job { status = cancelled };
            found =
                ap (job_of id) w
                ∙ write_job_self id job (record job { status = cancelled }) jobs
                    (ground (arith, f, ==→eq i id q)) (job_of-id i jobs job f ∙ ==→eq i id q);
            finite = subst (λ (x : ScheduledMessage). is_every x.trigger ≡ false) this h.finite;
            runs = subst (λ (x : ScheduledMessage). x.remaining_runs ≡ pos left) this h.runs;
            goes_on = λ p. cc;
          }
      | inr q ↦
          row_kept id left jobs jobs'
            (ap (job_of id) w
              ∙ write_job_other id (record job { status = cancelled }) jobs
                  (ground (arith, job_of-id i jobs job f, q)))
            h
    ]

pub row_recovered :
    (id left now : ℕ) (cron : CronFire) (jobs jobs' : List ScheduledMessage)
    → recover_jobs cron now jobs ≡ some jobs'
    → RowBudget id left jobs
    → RowBudget id left jobs'
row_recovered id left now cron jobs jobs' e h =
    let (row', g, v, r) = recover_jobs-found cron now id jobs jobs' h.row e h.found in
    record {
      row = row';
      found = g;
      finite = ground (arith, v.same_trigger, h.finite);
      runs = r ∙ h.runs;
      goes_on = λ p. h.goes_on (v.still_pending p);
    }
