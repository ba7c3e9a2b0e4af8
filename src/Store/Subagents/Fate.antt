-- ===== src/Store/Subagents/Fate.antt =====
-- The life of the subagent jobs of cloud/store.py under any transactions on them.
use kirakira_agent_online.Prelude.{
  ℕ, ◌+◌, ◌≤◌, ◌≡◌, sym, subst, ap, ◌∙◌, inl, inr, String, Bool, true, false, ◌&&◌, some, List, [],
  ◌∷◌, ◌++◌, arith, ◌==◌, Bool-cases, count-append, ==→eq, ℤ, All,
}
use kirakira_agent_online.Prelude.Table.{find-append_some}
use kirakira_agent_online.Store.Subagents.{
  CloudSubagentJob, SubagentDb, SubagentTask, SubagentFinish, is_active_job, find_job, job_limit,
  active_of, create_subagent_job, cancel_subagent_job, claim_next_subagent_job, claim_subagent_job,
  heartbeat_subagent_job, finish_subagent_job,
}
use kirakira_agent_online.Store.Subagents.Moves.{
  JobShape, is_doomed, Moves, Evolves, ids_of, Evolves-refl, Moves-refl, Moves-trans, find-Evolves,
}
use kirakira_agent_online.Store.Subagents.Changes.{
  tables_after, ValidJobs, ValidJobs-Evolves, create-Creates, cancel-Evolves, claim_next-Evolves,
  claim-Evolves, heartbeat-Evolves, finish-Evolves,
}

-- The transactions as calls.
pub data SubagentCall : Type 0 where
  create : (id user conversation : ℕ) → SubagentTask → (now : ℕ) → SubagentCall
  cancel : (user id now : ℕ) → SubagentCall
  claim_next : (locked : ℕ → Bool) → (worker : String) → (lease : ℤ) → (now : ℕ) → SubagentCall
  claim : (id : ℕ) → (worker : String) → (lease : ℤ) → (now : ℕ) → SubagentCall
  heartbeat : (id : ℕ) → (worker : String) → (lease : ℤ) → (now : ℕ) → SubagentCall
  finish : (id : ℕ) → (worker : String) → SubagentFinish → (now : ℕ) → SubagentCall

unfoldable pub subagent_call : (ℕ → String) → SubagentCall → SubagentDb → SubagentDb
subagent_call id_text (create id user c a now) s =
    tables_after s (create_subagent_job id user c a now s)
subagent_call id_text (cancel user id now) s = tables_after s (cancel_subagent_job user id now s)
subagent_call id_text (claim_next locked w l now) s =
    tables_after s (claim_next_subagent_job locked w l now s)
subagent_call id_text (claim id w l now) s = tables_after s (claim_subagent_job id w l now s)
subagent_call id_text (heartbeat id w l now) s =
    tables_after s (heartbeat_subagent_job id w l now s)
subagent_call id_text (finish id w a now) s =
    tables_after s (finish_subagent_job id_text id w a now s)

unfoldable pub subagent_calls : (ℕ → String) → List SubagentCall → SubagentDb → SubagentDb
unfolding subagent_call
subagent_calls id_text [] s = s
subagent_calls id_text (c ∷ more) s = subagent_calls id_text more (subagent_call id_text c s)

-- A call changes rows that are there, or adds one.
data Grows (jobs : List CloudSubagentJob) : List CloudSubagentJob → Type 0 where
  changes : {jobs' : List CloudSubagentJob} → Evolves jobs jobs' → Grows jobs jobs'
  adds :
      (j : CloudSubagentJob)
      → ids_of j.id jobs ≡ 0
      → JobShape j
      → active_of j.user_id jobs + 1 ≤ job_limit
      → {jobs' : List CloudSubagentJob} → jobs' ≡ jobs ++ (j ∷ [])
      → Grows jobs jobs'

call-Grows :
    (id_text : ℕ → String) (c : SubagentCall) (s : SubagentDb)
    → ValidJobs s.jobs
    → Grows s.jobs (subagent_call id_text c s).jobs
unfolding subagent_call
call-Grows id_text (create id user c a now) s v = elim (create-Creates id user c a now s) [
  | inl e ↦ changes (subst (Evolves s.jobs) (sym e) (Evolves-refl s.jobs))
  | inr (j, e, absent, shape, room) ↦ adds j absent shape room e
]
call-Grows id_text (cancel user id now) s v = changes (cancel-Evolves user id now s v)
call-Grows id_text (claim_next locked w l now) s v = changes (claim_next-Evolves locked w l now s v)
call-Grows id_text (claim id w l now) s v = changes (claim-Evolves id w l now s v)
call-Grows id_text (heartbeat id w l now) s v = changes (heartbeat-Evolves id w l now s v)
call-Grows id_text (finish id w a now) s v = changes (finish-Evolves id_text id w a now s v)

All-snoc {ℓ} :
    (P : CloudSubagentJob → Type ℓ) (jobs : List CloudSubagentJob) (j : CloudSubagentJob)
    → All P jobs
    → P j
    → All P (jobs ++ (j ∷ []))
All-snoc P [] j all h = (h, tt)
All-snoc P (x ∷ jobs) j all h = (all.0, All-snoc P jobs j all.1 h)

Grows-ValidJobs :
    (jobs jobs' : List CloudSubagentJob) → Grows jobs jobs' → ValidJobs jobs → ValidJobs jobs'
Grows-ValidJobs jobs jobs' (changes e) v = ValidJobs-Evolves jobs jobs' e v
Grows-ValidJobs jobs jobs' (adds j absent shape room e) v = subst ValidJobs (sym e) (record {
  unique = λ k. elim (Bool-cases (j.id == k)) [
    | inl i ↦ ground (
      arith,
      count-append (λ (x : CloudSubagentJob). x.id == k) jobs (j ∷ []),
      ==→eq j.id k i,
      absent,
      i,
    )
    | inr i ↦
        ground
          (arith, count-append (λ (x : CloudSubagentJob). x.id == k) jobs (j ∷ []), v.unique k, i)
  ];
  shapes = All-snoc JobShape jobs j v.shapes shape;
  within = λ u. elim (Bool-cases (j.user_id == u)) [
    | inl i ↦
        subst (λ n. active_of n (jobs ++ (j ∷ [])) ≤ job_limit) (==→eq j.user_id u i)
          (ground (
            arith,
            count-append (λ (x : CloudSubagentJob). x.user_id == j.user_id && is_active_job x) jobs
                (j ∷ []),
            room,
          ))
    | inr i ↦ ground (
      arith,
      count-append (λ (x : CloudSubagentJob). x.user_id == u && is_active_job x) jobs (j ∷ []),
      v.within u,
      i,
    )
  ];
})

Grows-found :
    (k : ℕ) (jobs jobs' : List CloudSubagentJob) (j : CloudSubagentJob)
    → Grows jobs jobs'
    → find_job k jobs ≡ some j
    → (j' : CloudSubagentJob) × (find_job k jobs' ≡ some j') × Moves j j'
Grows-found k jobs jobs' j (changes e) f = find-Evolves k jobs jobs' j e f
Grows-found k jobs jobs' j (adds x absent shape room e) f = (
  j,
  ap (find_job k) e ∙ find-append_some (λ (y : CloudSubagentJob). y.id == k) jobs (x ∷ []) j f,
  Moves-refl j,
)

calls-ValidJobs :
    (id_text : ℕ → String) (more : List SubagentCall) (s : SubagentDb)
    → ValidJobs s.jobs
    → ValidJobs (subagent_calls id_text more s).jobs
unfolding subagent_calls
calls-ValidJobs id_text [] s v = v
calls-ValidJobs id_text (c ∷ more) s v =
    calls-ValidJobs id_text more (subagent_call id_text c s)
      (Grows-ValidJobs s.jobs _ (call-Grows id_text c s v) v)

calls-found :
    (id_text : ℕ → String) (more : List SubagentCall) (s : SubagentDb) (k : ℕ)
    (j : CloudSubagentJob)
    → ValidJobs s.jobs
    → find_job k s.jobs ≡ some j
    → (j' : CloudSubagentJob) × (find_job k (subagent_calls id_text more s).jobs ≡ some j')
      × Moves j j'
unfolding subagent_calls
calls-found id_text [] s k j v f = (j, f, Moves-refl j)
calls-found id_text (c ∷ more) s k j v f =
    let g = call-Grows id_text c s v in
    let (j1, f1, m1) = Grows-found k s.jobs _ j g f in
    let (j2, f2, m2) =
      calls-found id_text more (subagent_call id_text c s) k j1 (Grows-ValidJobs s.jobs _ g v) f1 in
    (j2, f2, Moves-trans j j1 j2 m1 m2)

-- Whatever transactions follow one another from an empty table of jobs, no user has more than 3 jobs that
-- are queued or running, no two jobs have one id, and only a running job holds a lease.
pub subagent_calls-ValidJobs :
    (id_text : ℕ → String) (more : List SubagentCall) (s : SubagentDb)
    → s.jobs ≡ []
    → let jobs = (subagent_calls id_text more s).jobs in
      ((user : ℕ) → active_of user jobs ≤ 3) × ((k : ℕ) → ids_of k jobs ≤ 1) × All JobShape jobs
subagent_calls-ValidJobs id_text more s e =
    let v = calls-ValidJobs id_text more s (
      subst ValidJobs (sym e)
        (record { unique = λ k. omega arith; shapes = tt; within = λ u. omega arith })) in
    (v.within, v.unique, v.shapes)

-- The fate of a job, whatever transactions follow on valid tables: its row stays with its user. If its user
-- has cancelled it while it waited or ran, it never ends as completed or failed: it is cancelled, or
-- waits or runs with the request still set. If it has ended, its row never changes again.
pub subagent_fate :
    (id_text : ℕ → String) (more : List SubagentCall) (s : SubagentDb) (k : ℕ)
    (j : CloudSubagentJob)
    → ValidJobs s.jobs
    → find_job k s.jobs ≡ some j
    → (j' : CloudSubagentJob) × (find_job k (subagent_calls id_text more s).jobs ≡ some j')
      × (j'.user_id ≡ j.user_id)
      × (is_doomed j ≡ true → is_doomed j' ≡ true)
      × (is_active_job j ≡ false → j' ≡ j)
subagent_fate id_text more s k j v f =
    let (j', g, m) = calls-found id_text more s k j v f in
    (j', g, m.same_user, m.doomed_after, m.settled_same)
