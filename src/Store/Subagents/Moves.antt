-- ===== src/Store/Subagents/Moves.antt =====
-- What the transactions on the subagent jobs of cloud/store.py leave of each row.
use kirakira_agent_online.Prelude.{
  ℕ, ◌≤◌, ◌≡◌, refl, sym, subst, ◌∙◌, inl, inr, String, Bool, true, false, ◌&&◌, ◌||◌, Option, some,
  List, [], ◌∷◌, arith, ◌==◌, is_some, Bool-cases, count, find, ℤ, All,
}
use kirakira_agent_online.Prelude.Updates.{update_absent}
use kirakira_agent_online.Store.{cancelled}
use kirakira_agent_online.Store.Subagents.{
  CloudSubagentJob, is_queued_job, is_running_job, is_active_job, find_job, change_job, active_of,
  cancelled_job, requeued_job, leased_job, renewed_job, SubagentFinish, finished_job,
}

abbrev pub is_cancelled_job : CloudSubagentJob → Bool
is_cancelled_job j = elim j.status [ cancelled ↦ true | _ ↦ false ]

-- The row is to end as cancelled: its user has cancelled it while it waited or ran.
abbrev pub is_doomed : CloudSubagentJob → Bool
is_doomed j = is_cancelled_job j || (is_some j.cancel_requested_at && is_active_job j)

-- A lease is held by a running job only, and a cancellation is requested of a job that still runs, waits to
-- run again, or is cancelled.
pub record JobShape (j : CloudSubagentJob) : Type 0 where
  pub leased : is_some j.lease_owner ≡ true → is_running_job j ≡ true
  pub asked : is_some j.cancel_requested_at ≡ true → is_doomed j ≡ true

-- One row before and after.
pub record Moves (j j' : CloudSubagentJob) : Type 0 where
  pub same_id : j'.id ≡ j.id
  pub same_user : j'.user_id ≡ j.user_id
  pub active_before : is_active_job j' ≡ true → is_active_job j ≡ true
  pub doomed_after : is_doomed j ≡ true → is_doomed j' ≡ true
  pub shape_after : JobShape j → JobShape j'
  pub settled_same : is_active_job j ≡ false → j' ≡ j

pub Moves-refl : (j : CloudSubagentJob) → Moves j j
Moves-refl j = record {
  same_id = refl;
  same_user = refl;
  active_before = λ h. h;
  doomed_after = λ h. h;
  shape_after = λ h. h;
  settled_same = λ h. refl;
}

pub cancelled_job-Moves : (now : ℕ) (j : CloudSubagentJob) → Moves j (cancelled_job now j)
unfolding cancelled_job is_active_job is_running_job is_queued_job
cancelled_job-Moves now j = record {
  same_id = ground arith;
  same_user = ground arith;
  active_before = λ p. ground arith;
  doomed_after = λ p. ground arith;
  shape_after = λ q. record {
    leased = λ p. ground (arith, q.leased, q.asked);
    asked = λ p. ground (arith, q.leased, q.asked);
  };
  settled_same = λ p. ground arith;
}

pub requeued_job-Moves : (j : CloudSubagentJob) → is_running_job j ≡ true → Moves j (requeued_job j)
unfolding requeued_job is_active_job is_running_job is_queued_job
requeued_job-Moves j h = record {
  same_id = ground arith;
  same_user = ground arith;
  active_before = λ p. ground arith;
  doomed_after = λ p. ground arith;
  shape_after = λ q. record {
    leased = λ p. ground (arith, q.leased, q.asked);
    asked = λ p. ground (arith, q.leased, q.asked);
  };
  settled_same = λ p. ground arith;
}

pub leased_job-Moves :
    (started : Option ℕ) (worker : String) (seconds : ℤ) (now : ℕ) (j : CloudSubagentJob)
    → is_queued_job j ≡ true
    → Moves j (leased_job started worker seconds now j)
unfolding leased_job is_active_job is_running_job is_queued_job
leased_job-Moves started worker seconds now j h = record {
  same_id = ground arith;
  same_user = ground arith;
  active_before = λ p. ground arith;
  doomed_after = λ p. ground arith;
  shape_after = λ q. record {
    leased = λ p. ground (arith, q.leased, q.asked);
    asked = λ p. ground (arith, q.leased, q.asked);
  };
  settled_same = λ p. ground arith;
}

pub renewed_job-Moves :
    (seconds : ℤ) (now : ℕ) (j : CloudSubagentJob)
    → is_some j.lease_owner ≡ true
    → JobShape j
    → Moves j (renewed_job seconds now j)
unfolding renewed_job is_active_job is_running_job is_queued_job
renewed_job-Moves seconds now j h s = record {
  same_id = ground arith;
  same_user = ground arith;
  active_before = λ p. ground arith;
  doomed_after = λ p. ground (arith, s.leased h, s.asked);
  shape_after = λ q. record {
    leased = λ p. ground (arith, s.leased h, s.asked);
    asked = λ p. ground (arith, s.leased h, s.asked);
  };
  settled_same = λ p. ground (arith, s.leased h);
}

pub finished_job-Moves :
    (a : SubagentFinish) (now : ℕ) (j : CloudSubagentJob)
    → is_some j.lease_owner ≡ true
    → JobShape j
    → Moves j (finished_job a now j)
unfolding finished_job is_active_job is_running_job is_queued_job
finished_job-Moves a now j h s = record {
  same_id = ground arith;
  same_user = ground arith;
  active_before = λ p. ground (arith, s.leased h);
  doomed_after = λ p. ground (arith, s.leased h, s.asked);
  shape_after = λ q. record {
    leased = λ p. ground (arith, s.leased h, s.asked);
    asked = λ p. ground (arith, s.leased h, s.asked);
  };
  settled_same = λ p. ground (arith, s.leased h);
}

pub Moves-trans : (a b c : CloudSubagentJob) → Moves a b → Moves b c → Moves a c
Moves-trans a b c m n = record {
  same_id = n.same_id ∙ m.same_id;
  same_user = n.same_user ∙ m.same_user;
  active_before = λ h. m.active_before (n.active_before h);
  doomed_after = λ h. n.doomed_after (m.doomed_after h);
  shape_after = λ h. n.shape_after (m.shape_after h);
  settled_same = λ h.
      let e = m.settled_same h in
      n.settled_same (subst (λ x. is_active_job x ≡ false) (sym e) h) ∙ e;
}

-- A table before and after: row by row.
abbrev pub Evolves : List CloudSubagentJob → List CloudSubagentJob → Type 0
Evolves [] [] = Unit
Evolves [] (j ∷ jobs) = ⊥
Evolves (j ∷ jobs) [] = ⊥
Evolves (j ∷ jobs) (j' ∷ jobs') = Moves j j' × Evolves jobs jobs'

abbrev pub ids_of : ℕ → List CloudSubagentJob → ℕ
ids_of k jobs = count (λ j. j.id == k) jobs

pub Evolves-refl : (jobs : List CloudSubagentJob) → Evolves jobs jobs
Evolves-refl [] = tt
Evolves-refl (j ∷ jobs) = (Moves-refl j, Evolves-refl jobs)

pub Evolves-trans : (a b c : List CloudSubagentJob) → Evolves a b → Evolves b c → Evolves a c
Evolves-trans [] [] c e f = f
Evolves-trans [] (y ∷ b) c e f = absurd e
Evolves-trans (x ∷ a) [] c e f = absurd e
Evolves-trans (x ∷ a) (y ∷ b) [] e f = absurd f
Evolves-trans (x ∷ a) (y ∷ b) (z ∷ c) e f = (Moves-trans x y z e.0 f.0, Evolves-trans a b c e.1 f.1)

-- The change of one row by its unique id.
pub change_job-Evolves :
    (k : ℕ) (f : CloudSubagentJob → CloudSubagentJob) (jobs : List CloudSubagentJob)
    (j : CloudSubagentJob)
    → ids_of k jobs ≤ 1
    → find_job k jobs ≡ some j
    → Moves j (f j)
    → Evolves jobs (change_job k f jobs)
unfolding change_job find
change_job-Evolves k f [] j u e m = cc
change_job-Evolves k f (x ∷ jobs) j u e m = elim (Bool-cases (x.id == k)) [
  | inl i ↦
      let this : x ≡ j = ground (arith, i, e) in
      let rest : change_job k f jobs ≡ jobs =
        update_absent (λ (y : CloudSubagentJob). y.id) f k jobs (ground (arith, u, i)) in
      rw i (
        subst (λ y. Moves y (f y)) (sym this) m,
        subst (Evolves jobs) (sym rest) (Evolves-refl jobs),
      )
  | inr i ↦
      rw i (
        Moves-refl x,
        change_job-Evolves k f jobs j (ground (arith, u, i)) (ground (arith, i, e)) m,
      )
]

pub find-Evolves :
    (k : ℕ) (jobs jobs' : List CloudSubagentJob) (j : CloudSubagentJob)
    → Evolves jobs jobs'
    → find_job k jobs ≡ some j
    → (j' : CloudSubagentJob) × (find_job k jobs' ≡ some j') × Moves j j'
unfolding find
find-Evolves k [] jobs' j e f = cc
find-Evolves k (x ∷ jobs) [] j e f = absurd e
find-Evolves k (x ∷ jobs) (y ∷ jobs') j e f = elim (Bool-cases (x.id == k)) [
  | inl i ↦ (y, ground (arith, i, e.0.same_id), subst (λ z. Moves z y) (ground (arith, i, f)) e.0)
  | inr i ↦
      let (j', g, m) = find-Evolves k jobs jobs' j e.1 (ground (arith, i, f)) in
      (j', ground (arith, i, g, e.0.same_id), m)
]

pub ids_of-Evolves :
    (k : ℕ) (jobs jobs' : List CloudSubagentJob)
    → Evolves jobs jobs'
    → ids_of k jobs' ≡ ids_of k jobs
ids_of-Evolves k [] [] e = refl
ids_of-Evolves k [] (y ∷ jobs') e = absurd e
ids_of-Evolves k (x ∷ jobs) [] e = absurd e
ids_of-Evolves k (x ∷ jobs) (y ∷ jobs') e =
    ground (arith, e.0.same_id, ids_of-Evolves k jobs jobs' e.1)

pub active_of-Evolves :
    (u : ℕ) (jobs jobs' : List CloudSubagentJob)
    → Evolves jobs jobs'
    → active_of u jobs' ≤ active_of u jobs
active_of-Evolves u [] [] e = omega arith
active_of-Evolves u [] (y ∷ jobs') e = absurd e
active_of-Evolves u (x ∷ jobs) [] e = absurd e
active_of-Evolves u (x ∷ jobs) (y ∷ jobs') e =
    ground (arith, e.0.same_user, e.0.active_before, active_of-Evolves u jobs jobs' e.1)

pub JobShape-Evolves :
    (jobs jobs' : List CloudSubagentJob)
    → Evolves jobs jobs'
    → All JobShape jobs
    → All JobShape jobs'
JobShape-Evolves [] [] e h = tt
JobShape-Evolves [] (y ∷ jobs') e h = absurd e
JobShape-Evolves (x ∷ jobs) [] e h = absurd e
JobShape-Evolves (x ∷ jobs) (y ∷ jobs') e h =
    (e.0.shape_after h.0, JobShape-Evolves jobs jobs' e.1 h.1)
