-- ===== src/Scheduler/Service/Budget.antt =====
-- A job of agent/scheduler.py that does not repeat for ever is published as often as it was asked for, at
-- most, and once more for each publication after which the file was not written.
use kirakira_agent_online.Prelude.{
  ℕ, suc, ◌+◌, ◌-◌, ◌≤◌, ◌≡◌, sym, subst, ap, ◌∙◌, inl, inr, String, Bool, true, false, Option,
  none, some, List, [], ◌∷◌, ◌++◌, arith, ◌==◌, Bool-cases, Option-cases, ok, pos, any, find, ==→eq,
  ==_refl,
}
use kirakira_agent_online.Prelude.Table.{find-append_some}
use kirakira_agent_online.Scheduler.{is_every, ScheduledMessage, CronFire, fire_job}
use kirakira_agent_online.Scheduler.Asked.{Calendar, ToolContext, ScheduleCall, schedule}
use kirakira_agent_online.Scheduler.Service.{
  SchedulerService, job_of, write_job, after_save, fired, ServiceStep, asked, cancels, looks, fires,
  starts, ServiceSteps, here, then_step,
}
use kirakira_agent_online.Scheduler.Service.Changes.{fire_job-Fires, schedule-Admits}
use kirakira_agent_online.Scheduler.Service.Capacity.{
  job_of-id, WithinCapacity, step-WithinCapacity, steps-WithinCapacity,
}
use kirakira_agent_online.Scheduler.Service.Rows.{
  times, due_jobs-named, due_jobs-pending, write_job_other,
}
use kirakira_agent_online.Scheduler.Service.RunsLeft.{
  RowBudget, used, row_kept, row_fired, row_cancelled, row_recovered,
}

-- The runs that the job has left, in memory and in the file, and those it has had are within the total and
-- the publications that were not saved, of which `base` were there before.
record HasBudget (id base total : ℕ) (s : SchedulerService) : Type 0 where
  left : ℕ
  left_saved : ℕ
  memory : RowBudget id left s.jobs
  file : RowBudget id left_saved s.saved
  spent : base + times id s.sent + left ≤ total + times id s.unsaved
  spent_saved : base + times id s.sent + left_saved ≤ total + times id s.unsaved
  due_once : times id s.due ≤ 1
  due_left : 1 ≤ times id s.due → 1 ≤ left

-- A change of the jobs in memory that publishes nothing, and the save after it.
saved-HasBudget :
    (id base total : ℕ) (written : Bool) (jobs : List ScheduledMessage) (s : SchedulerService)
    → (h : HasBudget id base total s) → RowBudget id h.left jobs
    → HasBudget id base total (after_save written jobs s)
saved-HasBudget id base total true jobs s h m = record {
  left = h.left;
  left_saved = h.left;
  memory = m;
  file = m;
  spent = h.spent;
  spent_saved = h.spent;
  due_once = h.due_once;
  due_left = h.due_left;
}
saved-HasBudget id base total false jobs s h m = record {
  left = h.left;
  left_saved = h.left_saved;
  memory = m;
  file = h.file;
  spent = h.spent;
  spent_saved = h.spent_saved;
  due_once = h.due_once;
  due_left = h.due_left;
}

-- What a fire of the job itself does to its budget.
fired_self :
    (id base total : ℕ) (written : Bool) (published : Option String) (rest : List ℕ)
    (row job' : ScheduledMessage) (cron : CronFire) (now : ℕ) (s : SchedulerService)
    → s.due ≡ id ∷ rest
    → job_of id s.jobs ≡ some row
    → fire_job cron published now row ≡ some job'
    → HasBudget id base total s
    → HasBudget id base total (fired written published id rest job' s)
unfolding fired
fired_self id base total written published rest row job' cron now s d f e h =
    let few : 1 ≤ h.left = h.due_left (ground (arith, ap (times id) d, ==_refl id)) in
    let m = row_fired id h.left published row job' cron now s.jobs f e few h.memory in
    let once : times id rest ≡ 0 = ground (arith, h.due_once, ap (times id) d, ==_refl id) in
    after written published m few once
  where
    after :
        (written : Bool) (published : Option String)
        → RowBudget id (h.left - used published) (write_job job' s.jobs)
        → 1 ≤ h.left
        → times id rest ≡ 0
        → HasBudget id base total (fired written published id rest job' s)
    after true none m few once = record {
      left = h.left - 1;
      left_saved = h.left - 1;
      memory = m;
      file = m;
      spent = ground (arith, h.spent, few, ==_refl id);
      spent_saved = ground (arith, h.spent, few, ==_refl id);
      due_once = omega (arith, once);
      due_left = λ q. absurd (omega (arith, once, q));
    }
    after false none m few once = record {
      left = h.left - 1;
      left_saved = h.left_saved;
      memory = m;
      file = h.file;
      spent = ground (arith, h.spent, few, ==_refl id);
      spent_saved = ground (arith, h.spent_saved, ==_refl id);
      due_once = omega arith;
      due_left = λ q. absurd (omega (arith, q));
    }
    after true (some x) m few once = record {
      left = h.left - 0;
      left_saved = h.left - 0;
      memory = m;
      file = m;
      spent = omega (arith, h.spent);
      spent_saved = omega (arith, h.spent);
      due_once = omega (arith, once);
      due_left = λ q. absurd (omega (arith, once, q));
    }
    after false (some x) m few once = record {
      left = h.left - 0;
      left_saved = h.left_saved;
      memory = m;
      file = h.file;
      spent = omega (arith, h.spent);
      spent_saved = h.spent_saved;
      due_once = omega arith;
      due_left = λ q. absurd (omega (arith, q));
    }

-- A fire of another job leaves the budget as it is.
fired_other :
    (id i base total : ℕ) (written : Bool) (published : Option String) (rest : List ℕ)
    (job' : ScheduledMessage) (s : SchedulerService)
    → s.due ≡ i ∷ rest
    → job'.id ≡ i
    → (i == id) ≡ false
    → HasBudget id base total s
    → HasBudget id base total (fired written published i rest job' s)
unfolding fired
fired_other id i base total written published rest job' s d e n h =
    let m =
      row_kept id h.left s.jobs (write_job job' s.jobs)
        (write_job_other id job' s.jobs (ground (arith, e, n))) h.memory in
    let same : times id (i ∷ rest) ≡ times id s.due = ap (times id) (sym d) in
    elim written as (λ (b : Bool). HasBudget id base total (fired b published i rest job' s)) [
      | true ↦ record {
        left = h.left;
        left_saved = h.left;
        memory = m;
        file = m;
        spent = spends true h.left h.spent;
        spent_saved = spends true h.left h.spent;
        due_once = ground (arith, h.due_once, same, n);
        due_left = λ q. ground (arith, h.due_left, same, n, q);
      }
      | false ↦ record {
        left = h.left;
        left_saved = h.left_saved;
        memory = m;
        file = h.file;
        spent = spends false h.left h.spent;
        spent_saved = spends false h.left_saved h.spent_saved;
        due_once = omega arith;
        due_left = λ q. absurd (omega (arith, q));
      }
    ]
  where
    spends :
        (b : Bool) (left : ℕ)
        → base + times id s.sent + left ≤ total + times id s.unsaved
        → base + times id (fired b published i rest job' s).sent + left
          ≤ total + times id (fired b published i rest job' s).unsaved
    spends b left p = elim (Option-cases published) [
      | inl q ↦ elim (Bool-cases b) [
        | inl t ↦ ground (arith, q, t, p, n)
        | inr t ↦ ground (arith, q, t, p, n)
      ]
      | inr (x, q) ↦ ground (arith, q, p)
    ]

step-HasBudget :
    (id base total : ℕ) (cal : Calendar) (s t : SchedulerService)
    → ServiceStep cal s t
    → WithinCapacity s
    → HasBudget id base total s
    → HasBudget id base total t
step-HasBudget id base total cal s _ (asked written context a i now now_utc job jobs fresh fresh' e)
      w h =
    let adm = schedule-Admits cal context a i now now_utc s.jobs job jobs e in
    let found =
      ap (job_of id) adm.added
      ∙ find-append_some (λ (j : ScheduledMessage). j.id == id) s.jobs (job ∷ []) h.memory.row
          h.memory.found in
    saved-HasBudget id base total written jobs s h
      (row_kept id h.left s.jobs jobs (found ∙ sym h.memory.found) h.memory)
step-HasBudget id base total cal s _ (cancels written i jobs e) w h =
    saved-HasBudget id base total written jobs s h
      (row_cancelled id h.left i s.jobs jobs e h.memory)
step-HasBudget id base total cal s _ (looks now e) w h = record {
  left = h.left;
  left_saved = h.left_saved;
  memory = h.memory;
  file = h.file;
  spent = h.spent;
  spent_saved = h.spent_saved;
  due_once = omega (arith, due_jobs-named now id s.jobs, w.memory.unique id);
  due_left = λ q.
      h.memory.goes_on
        (due_jobs-pending now id s.jobs h.memory.row (w.memory.unique id) h.memory.found q);
}
step-HasBudget id base total cal s _ (fires written published i rest now job job' d f e) w h =
    elim (Bool-cases (i == id)) [
      | inl q ↦
          subst (λ k. HasBudget id base total (fired written published k rest job' s))
            (sym (==→eq i id q))
            (fired_self id base total written published rest job job' cal.next_cron_fire now s
              (ground (arith, d, ==→eq i id q)) (ground (arith, f, ==→eq i id q)) e h)
      | inr q ↦
          fired_other id i base total written published rest job' s d
            ((fire_job-Fires cal.next_cron_fire published now job job' e).follows.same_id
              ∙ job_of-id i s.jobs job f)
            q h
    ]
step-HasBudget id base total cal s _ (starts written now jobs e) w h =
    let from_file : HasBudget id base total (record s { jobs = s.saved; due = [] }) = record {
      left = h.left_saved;
      left_saved = h.left_saved;
      memory = h.file;
      file = h.file;
      spent = h.spent_saved;
      spent_saved = h.spent_saved;
      due_once = omega arith;
      due_left = λ q. absurd (omega (arith, q));
    } in
    saved-HasBudget id base total written jobs (record s { jobs = s.saved; due = [] }) from_file
      (row_recovered id h.left_saved now cal.next_cron_fire s.saved jobs e h.file)

steps-HasBudget :
    (id base total : ℕ) (cal : Calendar) (s t : SchedulerService)
    → ServiceSteps cal s t
    → WithinCapacity s
    → HasBudget id base total s
    → HasBudget id base total t
steps-HasBudget id base total cal s _ here w h = h
steps-HasBudget id base total cal s _ (then_step {t} {u} more step) w h =
    step-HasBudget id base total cal t u step (steps-WithinCapacity cal s t more w)
      (steps-HasBudget id base total cal s t more w h)

added_found :
    (id : ℕ) (jobs : List ScheduledMessage) (job : ScheduledMessage)
    → any (λ j. j.id == id) jobs ≡ false
    → job.id ≡ id
    → job_of id (jobs ++ (job ∷ [])) ≡ some job
unfolding find
added_found id [] job h e = ground (arith, e, ==_refl id)
added_found id (j ∷ jobs) job h e = ground (arith, added_found id jobs job, h, e)

-- A job that does not repeat for ever is published at most as often as it was asked for, and once more for
-- each publication of it after which the file was not written. Where `schedule` has added a job
-- with `n + 1` runs to a service within its capacity and saved it, and its id was neither in memory nor in
-- the file nor due, every later state of the service has published its messages at most
-- `n + 1` times more, and as many times more as a save failed after a publication of the job or the process
-- was killed before that save, whatever is asked, cancelled, fired or started again in between.
pub sent_bounded :
    (cal : Calendar) (context : ToolContext) (a : ScheduleCall) (id now now_utc n : ℕ)
    (job : ScheduledMessage) (jobs : List ScheduledMessage) (s t : SchedulerService)
    → WithinCapacity s
    → any (λ j. j.id == id) s.jobs ≡ false
    → any (λ j. j.id == id) s.saved ≡ false
    → times id s.due ≡ 0
    → schedule cal context a id now now_utc s.jobs ≡ ok (job, jobs)
    → is_every job.trigger ≡ false
    → job.remaining_runs ≡ pos (suc n)
    → ServiceSteps cal (after_save true jobs s) t
    → times id s.unsaved + times id t.sent ≤ times id s.sent + suc n + times id t.unsaved
sent_bounded cal context a id now now_utc n job jobs s t w fresh fresh' idle e finite runs steps =
    let adm = schedule-Admits cal context a id now now_utc s.jobs job jobs e in
    let row : RowBudget id (suc n) jobs = record {
      row = job;
      found = ap (job_of id) adm.added ∙ added_found id s.jobs job fresh adm.named;
      finite = finite;
      runs = runs;
      goes_on = λ p. omega arith;
    } in
    let start : HasBudget id (times id s.unsaved) (times id s.sent + suc n)
        (after_save true jobs s) =
      record {
        left = suc n;
        left_saved = suc n;
        memory = row;
        file = row;
        spent = omega arith;
        spent_saved = omega arith;
        due_once = omega (arith, idle);
        due_left = λ q. omega arith;
      } in
    let w' =
      step-WithinCapacity cal s _ (asked true context a id now now_utc job jobs fresh fresh' e) w in
    let end =
      steps-HasBudget id (times id s.unsaved) (times id s.sent + suc n) cal _ t steps w' start in
    omega (arith, end.spent)
