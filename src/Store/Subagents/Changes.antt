-- ===== src/Store/Subagents/Changes.antt =====
-- What each transaction of cloud/store.py on the subagent jobs does to their table.
use kirakira_agent_online.Prelude.{
  ℕ, ◌+◌, ◌≤◌, ◌≡◌, refl, sym, subst, inl, inr, ◌⊎◌, String, Bool, true, ◌&&◌, none, some, List, [],
  ◌∷◌, ◌++◌, arith, ◌==◌, leb, is_some, is_text, is_text→eq, cut, if◌then◌else◌, Bool-cases,
  Option-cases, Result, ok, err, any, any-count, ℤ, All,
}
use kirakira_agent_online.Prelude.Table.{find-All}
use kirakira_agent_online.Store.{StoreError, state_error}
use kirakira_agent_online.Store.Subagents.{
  CloudSubagentJob, SubagentDb, SubagentTx, SubagentTask, SubagentFinish, is_queued_job, find_job,
  job_limit, active_of, new_subagent_job, create_subagent_job, cancelled_job, cancel_subagent_job,
  stale_jobs, requeue_jobs, leased_job, oldest_queued, claim_next_subagent_job, claim_subagent_job,
  owned_job, renewed_job, heartbeat_subagent_job, finished_job, deliver_result, finish_subagent_job,
}
use kirakira_agent_online.Store.Subagents.Moves.{
  JobShape, Evolves, ids_of, Evolves-refl, Evolves-trans, change_job-Evolves, cancelled_job-Moves,
  leased_job-Moves, renewed_job-Moves, finished_job-Moves, ids_of-Evolves, active_of-Evolves,
  JobShape-Evolves,
}
use kirakira_agent_online.Store.Subagents.Requeue.{requeue_jobs-Evolves, oldest_queued-found}

-- The tables after a transaction: an error rolls it back.
abbrev pub tables_after {ℓ} :
    {A : Type ℓ} → SubagentDb → Result StoreError (A × SubagentDb) → SubagentDb
tables_after s (ok (a, s')) = s'
tables_after s (err e) = s

-- Ids are unique, every row has its shape, and no user has more active jobs than the limit.
pub record ValidJobs (jobs : List CloudSubagentJob) : Type 0 where
  pub unique : (k : ℕ) → ids_of k jobs ≤ 1
  pub shapes : All JobShape jobs
  pub within : (u : ℕ) → active_of u jobs ≤ job_limit

pub ValidJobs-Evolves :
    (jobs jobs' : List CloudSubagentJob) → Evolves jobs jobs' → ValidJobs jobs → ValidJobs jobs'
ValidJobs-Evolves jobs jobs' e v = record {
  unique = λ k. omega (arith, ids_of-Evolves k jobs jobs' e, v.unique k);
  shapes = JobShape-Evolves jobs jobs' e v.shapes;
  within = λ u. omega (arith, active_of-Evolves u jobs jobs' e, v.within u);
}

pub cancel-Evolves :
    (user id now : ℕ) (s : SubagentDb)
    → ValidJobs s.jobs
    → Evolves s.jobs (tables_after s (cancel_subagent_job user id now s)).jobs
unfolding cancel_subagent_job
cancel-Evolves user id now s v = elim (Option-cases (find_job id s.jobs)) [
  | inl f ↦ subst (Evolves s.jobs) (ground (arith, f)) (Evolves-refl s.jobs)
  | inr (j, f) ↦ elim (Bool-cases (j.user_id == user)) [
    | inr e ↦ subst (Evolves s.jobs) (ground (arith, f, e)) (Evolves-refl s.jobs)
    | inl e ↦ subst (Evolves s.jobs) (ground (arith, f, e)) (
        change_job-Evolves id (cancelled_job now) s.jobs j (v.unique id) f
          (cancelled_job-Moves now j))
  ]
]

pub claim_next-Evolves :
    (locked : ℕ → Bool) (worker : String) (seconds : ℤ) (now : ℕ) (s : SubagentDb)
    → ValidJobs s.jobs
    → Evolves s.jobs (tables_after s (claim_next_subagent_job locked worker seconds now s)).jobs
unfolding claim_next_subagent_job
claim_next-Evolves locked worker seconds now s v =
    let jobs = requeue_jobs (stale_jobs locked now s.jobs) s.jobs in
    let e = requeue_jobs-Evolves locked now s.jobs v.unique in
    let v' = ValidJobs-Evolves s.jobs jobs e v in
    elim (Option-cases (oldest_queued locked jobs)) [
      | inl f ↦ subst (Evolves s.jobs) (ground (arith, f)) e
      | inr (j, f) ↦
          let (q, found) = oldest_queued-found locked jobs j v'.unique f in
          subst (Evolves s.jobs) (ground (arith, f)) (
            Evolves-trans s.jobs jobs _ e (
              change_job-Evolves j.id (leased_job j.started_at worker seconds now) jobs j
                (v'.unique j.id) found (leased_job-Moves j.started_at worker seconds now j q)))
    ]

pub claim-Evolves :
    (id : ℕ) (worker : String) (seconds : ℤ) (now : ℕ) (s : SubagentDb)
    → ValidJobs s.jobs
    → Evolves s.jobs (tables_after s (claim_subagent_job id worker seconds now s)).jobs
unfolding claim_subagent_job
claim-Evolves id worker seconds now s v = elim (Option-cases (find_job id s.jobs)) [
  | inl f ↦ subst (Evolves s.jobs) (ground (arith, f)) (Evolves-refl s.jobs)
  | inr (j, f) ↦ elim (Bool-cases (is_queued_job j)) [
    | inr e ↦ subst (Evolves s.jobs) (ground (arith, f, e)) (Evolves-refl s.jobs)
    | inl e ↦ subst (Evolves s.jobs) (ground (arith, f, e)) (
        change_job-Evolves id (leased_job none worker seconds now) s.jobs j (v.unique id) f
          (leased_job-Moves none worker seconds now j e))
  ]
]

-- The row of an owned job holds a lease.
owned_job-cases :
    (id : ℕ) (worker : String) (jobs : List CloudSubagentJob)
    → ((e : StoreError) × (owned_job id worker jobs ≡ err e))
      ⊎ ((j : CloudSubagentJob) × (owned_job id worker jobs ≡ ok j)
          × (find_job id jobs ≡ some j)
          × (is_some j.lease_owner ≡ true))
unfolding owned_job
owned_job-cases id worker jobs = elim (Option-cases (find_job id jobs)) [
  | inl f ↦ inl (state_error, ground (arith, f))
  | inr (j, f) ↦ elim (Bool-cases (is_text j.lease_owner (cut 200 worker))) [
    | inr e ↦ inl (state_error, ground (arith, f, e))
    | inl e ↦
        inr
          (j, ground (arith, f, e), f, ground (arith, is_text→eq j.lease_owner (cut 200 worker) e))
  ]
]

pub heartbeat-Evolves :
    (id : ℕ) (worker : String) (seconds : ℤ) (now : ℕ) (s : SubagentDb)
    → ValidJobs s.jobs
    → Evolves s.jobs (tables_after s (heartbeat_subagent_job id worker seconds now s)).jobs
unfolding heartbeat_subagent_job
heartbeat-Evolves id worker seconds now s v = elim (owned_job-cases id worker s.jobs) [
  | inl (e, f) ↦ subst (Evolves s.jobs) (ground (arith, f)) (Evolves-refl s.jobs)
  | inr (j, o, f, h) ↦ subst (Evolves s.jobs) (ground (arith, o)) (
      change_job-Evolves id (renewed_job seconds now) s.jobs j (v.unique id) f
        (renewed_job-Moves seconds now j h (find-All JobShape _ s.jobs j v.shapes f)))
]

Result-cases :
    {A : Type 0} (r : Result StoreError A)
    → ((a : A) × (r ≡ ok a)) ⊎ ((e : StoreError) × (r ≡ err e))
Result-cases (ok a) = inl (a, refl)
Result-cases (err e) = inr (e, refl)

pub finish-Evolves :
    (id_text : ℕ → String) (id : ℕ) (worker : String) (a : SubagentFinish) (now : ℕ)
    (s : SubagentDb)
    → ValidJobs s.jobs
    → Evolves s.jobs (tables_after s (finish_subagent_job id_text id worker a now s)).jobs
unfolding finish_subagent_job
finish-Evolves id_text id worker a now s v = elim (owned_job-cases id worker s.jobs) [
  | inl (e, f) ↦ subst (Evolves s.jobs) (ground (arith, f)) (Evolves-refl s.jobs)
  | inr (j, o, f, h) ↦
      let changed =
        change_job-Evolves id (finished_job a now) s.jobs j (v.unique id) f
          (finished_job-Moves a now j h (find-All JobShape _ s.jobs j v.shapes f)) in
      elim (Result-cases
        (if a.deliver then deliver_result id_text a now (finished_job a now j) s.db else ok s.db)) [
          | inl (db, d) ↦ subst (Evolves s.jobs) (rw o (rw d refl)) changed
          | inr (e, d) ↦ subst (Evolves s.jobs) (rw o (rw d refl)) (Evolves-refl s.jobs)
        ]
]

-- A new job, where it is let in.
abbrev pub Creates : SubagentDb → SubagentTx CloudSubagentJob → Type 0
Creates s r =
    ((tables_after s r).jobs ≡ s.jobs)
    ⊎ ((j : CloudSubagentJob) × ((tables_after s r).jobs ≡ s.jobs ++ (j ∷ []))
        × (ids_of j.id s.jobs ≡ 0)
        × JobShape j
        × (active_of j.user_id s.jobs + 1 ≤ job_limit))

new_job-JobShape :
    (id user c : ℕ) (a : SubagentTask) (now : ℕ) → JobShape (new_subagent_job id user c a now)
unfolding new_subagent_job
new_job-JobShape id user c a now = record { leased = λ p. cc; asked = λ p. cc }

new_job-id :
    (id user c : ℕ) (a : SubagentTask) (now : ℕ)
    → ((new_subagent_job id user c a now).id ≡ id)
      × ((new_subagent_job id user c a now).user_id ≡ user)
unfolding new_subagent_job
new_job-id id user c a now = (refl, refl)

pub create-Creates :
    (id user c : ℕ) (a : SubagentTask) (now : ℕ) (s : SubagentDb)
    → Creates s (create_subagent_job id user c a now s)
unfolding create_subagent_job
create-Creates id user c a now s =
    elim (Bool-cases (any (λ x. x.id == c && x.user_id == user) s.db.conversations)) [
      | inr e ↦ inl (ground (arith, e))
      | inl e ↦ elim (Bool-cases (leb job_limit (active_of user s.jobs))) [
        | inl l ↦ inl (ground (arith, e, l))
        | inr l ↦ elim (Bool-cases (any (λ j. j.id == id) s.jobs)) [
          | inl t ↦ inl (ground (arith, e, l, t))
          | inr t ↦
              let (i, u) = new_job-id id user c a now in
              inr (
                new_subagent_job id user c a now,
                ground (arith, e, l, t),
                subst (λ k. ids_of k s.jobs ≡ 0) (sym i)
                    (any-count (λ (j : CloudSubagentJob). j.id == id) s.jobs t),
                new_job-JobShape id user c a now,
                subst (λ k. active_of k s.jobs + 1 ≤ job_limit) (sym u) (ground (arith, l)),
              )
        ]
      ]
    ]
