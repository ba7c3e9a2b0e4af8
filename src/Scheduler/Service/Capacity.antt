-- ===== src/Scheduler/Service/Capacity.antt =====
-- The scheduler of agent/scheduler.py never holds more pending jobs than it may.
use kirakira_agent_online.Prelude.{
  ℕ, ◌≤◌, ◌≡◌, refl, sym, subst, ap, ◌∙◌, inl, inr, Bool, true, false, if◌then◌else◌, not, some,
  List, [], ◌∷◌, arith, ◌==◌, Bool-cases, Option-cases, ok, count, count-append, any-count, ==→eq,
}
use kirakira_agent_online.Prelude.Table.{count-put, count_key-put, find-holds}
use kirakira_agent_online.Scheduler.{is_waiting, cancelled, ScheduledMessage, CronFire, recover_job}
use kirakira_agent_online.Scheduler.Asked.{Calendar, max_active_jobs, active}
use kirakira_agent_online.Scheduler.Service.{
  SchedulerService, no_jobs, job_of, write_job, cancel_schedule, recover_jobs, fired, ServiceStep,
  asked, cancels, looks, fires, starts, ServiceSteps, here, then_step,
}
use kirakira_agent_online.Scheduler.Service.Changes.{
  Follows, fire_job-Fires, recover_job-Follows, schedule-Admits,
}

abbrev pub named : ℕ → List ScheduledMessage → ℕ
named k jobs = count (λ j. j.id == k) jobs

-- Ids are unique, and the pending jobs are within the bound.
pub record JobsWithin (jobs : List ScheduledMessage) : Type 0 where
  pub unique : (k : ℕ) → named k jobs ≤ 1
  pub within : active jobs ≤ max_active_jobs

pub record WithinCapacity (s : SchedulerService) : Type 0 where
  pub memory : JobsWithin s.jobs
  pub file : JobsWithin s.saved

pub job_of-id :
    (id : ℕ) (jobs : List ScheduledMessage) (job : ScheduledMessage)
    → job_of id jobs ≡ some job
    → job.id ≡ id
job_of-id id jobs job h = ==→eq job.id id (find-holds (λ j. j.id == id) jobs job h)

-- A job that follows another one takes its place.
pub write_job-Follows :
    (id : ℕ) (job job' : ScheduledMessage) (jobs : List ScheduledMessage)
    → ((k : ℕ) → named k jobs ≤ 1)
    → job_of id jobs ≡ some job
    → Follows job job'
    → ((k : ℕ) → named k (write_job job' jobs) ≡ named k jobs)
      × (active (write_job job' jobs) ≤ active jobs)
unfolding write_job
write_job-Follows id job job' jobs u f w =
    let here' : job_of job'.id jobs ≡ some job =
      subst (λ i. job_of i jobs ≡ some job) (sym (w.same_id ∙ job_of-id id jobs job f)) f in
    (
      λ k. count_key-put (λ j. j.id) job' jobs k,
      ground (
        arith,
        count-put (λ j. j.id) (λ j. is_waiting j.status) job' job jobs here' (u job'.id),
        w.still_pending,
      ),
    )

recover_jobs-counts :
    (cron : CronFire) (now : ℕ) (jobs jobs' : List ScheduledMessage)
    → recover_jobs cron now jobs ≡ some jobs'
    → ((k : ℕ) → named k jobs' ≡ named k jobs) × (active jobs' ≤ active jobs)
unfolding recover_jobs
recover_jobs-counts cron now [] jobs' e = (λ k. ground (arith, e), ground (arith, e))
recover_jobs-counts cron now (j ∷ jobs) jobs' e = elim (Option-cases (recover_job cron now j)) [
  | inl f ↦ ground (arith, f, e)
  | inr (j', f) ↦ elim (Option-cases (recover_jobs cron now jobs)) [
    | inl g ↦ ground (arith, f, g, e)
    | inr (more, g) ↦
        let (w, r) = recover_job-Follows cron now j j' f in
        let (names, less) = recover_jobs-counts cron now jobs more g in
        (
          λ k. ground (arith, f, g, e, names k, w.same_id),
          ground (arith, f, g, e, less, w.still_pending),
        )
  ]
]

cancel_schedule-counts :
    (id : ℕ) (jobs jobs' : List ScheduledMessage)
    → ((k : ℕ) → named k jobs ≤ 1)
    → cancel_schedule id jobs ≡ ok jobs'
    → ((k : ℕ) → named k jobs' ≡ named k jobs) × (active jobs' ≤ active jobs)
unfolding cancel_schedule is_waiting
cancel_schedule-counts id jobs jobs' u e = elim (Option-cases (job_of id jobs)) [
  | inl f ↦ ground (arith, f, e)
  | inr (job, f) ↦ elim (Bool-cases (not (is_waiting job.status))) [
    | inl p ↦ ground (arith, f, p, e)
    | inr p ↦
        subst (λ l. ((k : ℕ) → named k l ≡ named k jobs) × (active l ≤ active jobs))
          (ground (arith, f, p, e))
          (write_job-Follows id job (record job { status = cancelled }) jobs u f
            (record { same_id = refl; same_trigger = refl; still_pending = λ q. cc }))
  ]
]

JobsWithin-after_save :
    (written : Bool) (jobs saved : List ScheduledMessage)
    → JobsWithin jobs
    → JobsWithin saved
    → JobsWithin (if written then jobs else saved)
JobsWithin-after_save true jobs saved m f = m
JobsWithin-after_save false jobs saved m f = f

-- Jobs that have the same ids and no more pending jobs.
JobsWithin-less :
    (jobs jobs' : List ScheduledMessage)
    → ((k : ℕ) → named k jobs' ≡ named k jobs) × (active jobs' ≤ active jobs)
    → JobsWithin jobs
    → JobsWithin jobs'
JobsWithin-less jobs jobs' (names, less) w = record {
  unique = λ k. omega (arith, names k, w.unique k);
  within = omega (arith, less, w.within);
}

step-JobsWithin :
    (cal : Calendar) (s t : SchedulerService)
    → ServiceStep cal s t
    → WithinCapacity s
    → JobsWithin t.jobs
unfolding fired
step-JobsWithin cal s _ (asked written context a id now now_utc job jobs fresh fresh' e) w =
    let adm = schedule-Admits cal context a id now now_utc s.jobs job jobs e in
    record {
      unique = λ k. ground (
        arith,
        ap (named k) adm.added,
        count-append (λ (j : ScheduledMessage). j.id == k) s.jobs (job ∷ []),
        any-count (λ (j : ScheduledMessage). j.id == id) s.jobs fresh,
        w.memory.unique k,
        adm.named,
      );
      within = ground (
        arith,
        ap active adm.added,
        count-append (λ (j : ScheduledMessage). is_waiting j.status) s.jobs (job ∷ []),
        adm.room,
      );
    }
step-JobsWithin cal s _ (cancels written id jobs e) w =
    JobsWithin-less s.jobs jobs (cancel_schedule-counts id s.jobs jobs w.memory.unique e) w.memory
step-JobsWithin cal s _ (looks now e) w = w.memory
step-JobsWithin cal s _ (fires written published id rest now job job' d f e) w =
    JobsWithin-less s.jobs (write_job job' s.jobs)
      (write_job-Follows id job job' s.jobs w.memory.unique f
        (fire_job-Fires cal.next_cron_fire published now job job' e).follows)
      w.memory
step-JobsWithin cal s _ (starts written now jobs e) w =
    JobsWithin-less s.saved jobs (recover_jobs-counts cal.next_cron_fire now s.saved jobs e) w.file

pub step-WithinCapacity :
    (cal : Calendar) (s t : SchedulerService)
    → ServiceStep cal s t
    → WithinCapacity s
    → WithinCapacity t
unfolding fired
step-WithinCapacity cal s _ (asked written context a id now now_utc job jobs fresh fresh' e) w =
    let m =
      step-JobsWithin cal s _ (asked written context a id now now_utc job jobs fresh fresh' e) w in
    record { memory = m; file = JobsWithin-after_save written jobs s.saved m w.file }
step-WithinCapacity cal s _ (cancels written id jobs e) w =
    let m = step-JobsWithin cal s _ (cancels written id jobs e) w in
    record { memory = m; file = JobsWithin-after_save written jobs s.saved m w.file }
step-WithinCapacity cal s _ (looks now e) w = record { memory = w.memory; file = w.file }
step-WithinCapacity cal s _ (fires written published id rest now job job' d f e) w =
    let m = step-JobsWithin cal s _ (fires written published id rest now job job' d f e) w in
    record {
      memory = m;
      file = JobsWithin-after_save written (write_job job' s.jobs) s.saved m w.file;
    }
step-WithinCapacity cal s _ (starts written now jobs e) w =
    let m = step-JobsWithin cal s _ (starts written now jobs e) w in
    record { memory = m; file = JobsWithin-after_save written jobs s.saved m w.file }

pub steps-WithinCapacity :
    (cal : Calendar) (s t : SchedulerService)
    → ServiceSteps cal s t
    → WithinCapacity s
    → WithinCapacity t
steps-WithinCapacity cal s _ here w = w
steps-WithinCapacity cal s _ (then_step {t} {u} more step) w =
    step-WithinCapacity cal t u step (steps-WithinCapacity cal s t more w)

-- However calls of the tools, rounds of `run` and starts of the process follow one another from an empty
-- scheduler, whether or not each save of the file succeeds, no more than 10 jobs are pending, and no two
-- jobs have one id.
pub active_bounded :
    (cal : Calendar) (t : SchedulerService)
    → ServiceSteps cal no_jobs t
    → (active t.jobs ≤ 10) × ((k : ℕ) → named k t.jobs ≤ 1)
active_bounded cal t steps =
    let none_yet : JobsWithin [] = record { unique = λ k. omega arith; within = omega arith } in
    let w =
      steps-WithinCapacity cal no_jobs t steps (record { memory = none_yet; file = none_yet }) in
    (w.memory.within, w.memory.unique)
