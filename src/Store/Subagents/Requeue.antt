-- ===== src/Store/Subagents/Requeue.antt =====
-- The claim of the oldest subagent job of cloud/store.py, with the jobs that it queues again first.
use kirakira_agent_online.Prelude.{
  ℕ, ◌≤◌, ◌≡◌, inl, inr, Bool, true, ◌&&◌, not, some, List, [], ◌∷◌, arith, ◌==◌, leb, Bool-cases,
  any, All, All-map,
}
use kirakira_agent_online.Prelude.Table.{find-rows}
use kirakira_agent_online.Prelude.Updates.{kept_holds}
use kirakira_agent_online.Prelude.Sorting.{first_by-some}
use kirakira_agent_online.Store.Subagents.{
  CloudSubagentJob, is_queued_job, is_running_job, find_job, stale_jobs, requeue_jobs,
  oldest_queued,
}
use kirakira_agent_online.Store.Reaper.{expires_before}
use kirakira_agent_online.Store.Subagents.Moves.{Evolves, ids_of, requeued_job-Moves, Moves-refl}

stale_running :
    (locked : ℕ → Bool) (now : ℕ) (jobs : List CloudSubagentJob) (j : CloudSubagentJob)
    → ids_of j.id jobs ≤ 1
    → find_job j.id jobs ≡ some j
    → any (λ i. i == j.id) (stale_jobs locked now jobs) ≡ true
    → is_running_job j ≡ true
unfolding stale_jobs
stale_running locked now jobs j u f h =
    let passes =
      kept_holds (λ (x : CloudSubagentJob). x.id)
        (λ x. is_running_job x && expires_before x.lease_expires_at now && not (locked x.id)) 20
        j.id jobs j u f h in
    ground (arith, passes)

requeue_by_id :
    (ids : List ℕ) (jobs : List CloudSubagentJob)
    → All (λ j. any (λ i. i == j.id) ids ≡ true → is_running_job j ≡ true) jobs
    → Evolves jobs (requeue_jobs ids jobs)
unfolding requeue_jobs
requeue_by_id ids [] h = tt
requeue_by_id ids (j ∷ jobs) h = elim (Bool-cases (any (λ (i : ℕ). i == j.id) ids)) [
  | inl e ↦ rw e (requeued_job-Moves j (h.0 e), requeue_by_id ids jobs h.1)
  | inr e ↦ rw e (Moves-refl j, requeue_by_id ids jobs h.1)
]

pub requeue_jobs-Evolves :
    (locked : ℕ → Bool) (now : ℕ) (jobs : List CloudSubagentJob)
    → ((k : ℕ) → ids_of k jobs ≤ 1)
    → Evolves jobs (requeue_jobs (stale_jobs locked now jobs) jobs)
requeue_jobs-Evolves locked now jobs u = requeue_by_id (stale_jobs locked now jobs) jobs (
    All-map (λ j. find_job j.id jobs ≡ some j) _ jobs
      (λ j f. stale_running locked now jobs j (u j.id) f) (find-rows (λ j. j.id) jobs u))

-- The job that a claim takes is queued, and is the row of its id.
pub oldest_queued-found :
    (locked : ℕ → Bool) (jobs : List CloudSubagentJob) (j : CloudSubagentJob)
    → ((k : ℕ) → ids_of k jobs ≤ 1)
    → oldest_queued locked jobs ≡ some j
    → (is_queued_job j ≡ true) × (find_job j.id jobs ≡ some j)
unfolding oldest_queued
oldest_queued-found locked jobs j u e =
    let (a, b) =
      first_by-some (λ x y. leb x.created_at y.created_at)
        (λ x. is_queued_job x && not (locked x.id)) (λ x. find_job x.id jobs ≡ some x) jobs j e
        (find-rows (λ x. x.id) jobs u) in
    (ground (arith, a), b)
