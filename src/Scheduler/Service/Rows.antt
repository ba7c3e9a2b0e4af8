-- ===== src/Scheduler/Service/Rows.antt =====
-- Where a job of agent/scheduler.py is found after an operation, and which ids are due.
use kirakira_agent_online.Prelude.{
  ℕ, ◌≤◌, ◌≡◌, sym, subst, inl, inr, true, false, some, List, [], ◌∷◌, arith, ◌==◌, Bool-cases,
  Option-cases, ok, count, find,
}
use kirakira_agent_online.Prelude.Table.{find_key-put_self, find_key-put_ne}
use kirakira_agent_online.Scheduler.{
  is_waiting, cancelled, ScheduledMessage, CronFire, is_due, recover_job,
}
use kirakira_agent_online.Scheduler.Service.{
  job_of, write_job, cancel_schedule, due_jobs, recover_jobs,
}
use kirakira_agent_online.Scheduler.Service.Changes.{Follows, recover_job-Follows}
use kirakira_agent_online.Scheduler.Service.Capacity.{named}

-- How often an id stands in a list of ids.
abbrev pub times : ℕ → List ℕ → ℕ
times id ids = count (λ i. i == id) ids

pub due_jobs-named :
    (now id : ℕ) (jobs : List ScheduledMessage) → times id (due_jobs now jobs) ≤ named id jobs
unfolding due_jobs
due_jobs-named now id [] = omega arith
due_jobs-named now id (j ∷ jobs) = ground (arith, due_jobs-named now id jobs)

-- Where ids are unique, an id is due only if its job is pending.
pub due_jobs-pending :
    (now id : ℕ) (jobs : List ScheduledMessage) (row : ScheduledMessage)
    → named id jobs ≤ 1
    → job_of id jobs ≡ some row
    → 1 ≤ times id (due_jobs now jobs)
    → is_waiting row.status ≡ true
unfolding due_jobs is_due find
due_jobs-pending now id [] row u f h = cc
due_jobs-pending now id (j ∷ jobs) row u f h = elim (Bool-cases (j.id == id)) [
  | inl e ↦ elim (Bool-cases (is_due now j)) [
    | inl d ↦ ground (arith, e, d, f)
    | inr d ↦ ground (arith, e, d, u, h, due_jobs-named now id jobs)
  ]
  | inr e ↦ ground (arith, e, u, f, h, due_jobs-pending now id jobs row)
]

pub recover_jobs-found :
    (cron : CronFire) (now id : ℕ) (jobs jobs' : List ScheduledMessage) (row : ScheduledMessage)
    → recover_jobs cron now jobs ≡ some jobs'
    → job_of id jobs ≡ some row
    → (row' : ScheduledMessage) × (job_of id jobs' ≡ some row')
      × Follows row row'
      × (row'.remaining_runs ≡ row.remaining_runs)
unfolding recover_jobs find
recover_jobs-found cron now id [] jobs' row e f = cc
recover_jobs-found cron now id (j ∷ jobs) jobs' row e f =
    elim (Option-cases (recover_job cron now j)) [
      | inl a ↦ absurd (ground (arith, a, e))
      | inr (j', a) ↦ elim (Option-cases (recover_jobs cron now jobs)) [
        | inl b ↦ absurd (ground (arith, a, b, e))
        | inr (more, b) ↦
            let (w, r) = recover_job-Follows cron now j j' a in
            let same : jobs' ≡ j' ∷ more = ground (arith, a, b, e) in
            elim (Bool-cases (j.id == id)) [
              | inl i ↦
                  let this : j ≡ row = ground (arith, i, f) in
                  (
                    j',
                    ground (arith, same, i, w.same_id),
                    subst (λ x. Follows x j') this w,
                    subst (λ x. j'.remaining_runs ≡ x.remaining_runs) this r,
                  )
              | inr i ↦
                  let (row', g, w', r') =
                    recover_jobs-found cron now id jobs more row b (ground (arith, i, f)) in
                  (row', ground (arith, same, i, w.same_id, g), w', r')
            ]
      ]
    ]

pub write_job_self :
    (id : ℕ) (job job' : ScheduledMessage) (jobs : List ScheduledMessage)
    → job_of id jobs ≡ some job
    → job'.id ≡ id
    → job_of id (write_job job' jobs) ≡ some job'
unfolding write_job
write_job_self id job job' jobs f e =
    subst (λ i. job_of i (write_job job' jobs) ≡ some job') e
      (find_key-put_self (λ (j : ScheduledMessage). j.id) job' job jobs
        (subst (λ i. job_of i jobs ≡ some job) (sym e) f))

pub write_job_other :
    (id : ℕ) (job' : ScheduledMessage) (jobs : List ScheduledMessage)
    → (job'.id == id) ≡ false
    → job_of id (write_job job' jobs) ≡ job_of id jobs
unfolding write_job
write_job_other id job' jobs e = find_key-put_ne (λ (j : ScheduledMessage). j.id) job' jobs id e

pub cancel_schedule-written :
    (i : ℕ) (jobs jobs' : List ScheduledMessage)
    → cancel_schedule i jobs ≡ ok jobs'
    → (job : ScheduledMessage) × (job_of i jobs ≡ some job)
      × (jobs' ≡ write_job (record job { status = cancelled }) jobs)
unfolding cancel_schedule
cancel_schedule-written i jobs jobs' e = elim (Option-cases (job_of i jobs)) [
  | inl f ↦ absurd (ground (arith, f, e))
  | inr (job, f) ↦ (job, f, ground (arith, f, e))
]
