-- ===== src/Scheduler/Instants.antt =====
-- The loops of agent/scheduler.py that look for the next run of a job.
use kirakira_agent_online.Prelude.{
  ℕ, zero, suc, ◌+◌, ◌-◌, ◌*◌, ◌≤◌, ◌<◌, ◌≡◌, inl, inr, some, arith, leb, Bool-cases,
}
use kirakira_agent_online.Scheduler.{past, next_run}

suc_times : (k step : ℕ) → suc k * step ≡ step + k * step
suc_times k step = grind arith

zero_times : (step : ℕ) → 0 * step ≡ 0
zero_times step = grind arith

-- `k` steps lead from `t` past `now`, and no fewer.
pub record IsFirstPast (step now t k : ℕ) : Type 0 where
  pub past_now : now < t + k * step
  pub fewer : (j : ℕ) → j < k → t + j * step ≤ now

first_step : (step now t : ℕ) → now < t → IsFirstPast step now t 0
first_step step now t h = record {
  past_now = omega (arith, zero_times step);
  fewer = λ j l. absurd (omega arith);
}

fewer_step :
    (step now t k : ℕ)
    → t ≤ now
    → IsFirstPast step now (t + step) k
    → (j : ℕ) → j < suc k
    → t + j * step ≤ now
fewer_step step now t k h f zero l = omega (arith, zero_times step)
fewer_step step now t k h f (suc j) l = omega (arith, f.fewer j (omega arith), suc_times j step)

one_more :
    (step now t k : ℕ)
    → t ≤ now
    → IsFirstPast step now (t + step) k
    → IsFirstPast step now t (suc k)
one_more step now t k h f = record {
  past_now = omega (arith, f.past_now, suc_times k step);
  fewer = fewer_step step now t k h f;
}

past_lem :
    (fuel step now t : ℕ)
    → 1 ≤ step
    → suc now - t < fuel
    → (k : ℕ) × (past fuel step now t ≡ some (t + k * step)) × IsFirstPast step now t k
unfolding past
past_lem zero step now t s h = absurd (omega arith)
past_lem (suc fuel) step now t s h = elim (Bool-cases (leb t now)) [
  | inr e ↦ (0, ground (arith, zero_times step), first_step step now t (ground arith))
  | inl e ↦
      let (k, r, f) = past_lem fuel step now (t + step) s (ground arith) in
      (suc k, ground (arith, r, suc_times k step), one_more step now t k (ground arith) f)
]

pub next_run_lem :
    (step now t : ℕ)
    → 1 ≤ step
    → (k : ℕ) × (next_run step now t ≡ some (t + k * step)) × IsFirstPast step now t k
unfolding next_run
next_run_lem step now t s = past_lem (suc (suc (now - t))) step now t s (omega arith)
