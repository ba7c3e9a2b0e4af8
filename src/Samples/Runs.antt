-- ===== src/Samples/Runs.antt =====
-- The run queue of cloud/store.py at concrete inputs.
use kirakira_agent_online.Prelude.{
  ℕ, ◌+◌, ◌≡◌, refl, ◌⊎◌, true, false, Bool, none, some, [], ◌∷◌, arith, any, pos,
}
use kirakira_agent_online.Store.{queued, Run, Db, is_running}
use kirakira_agent_online.Store.Runs.{claimable, claim_next_run, started_run}
use kirakira_agent_online.Store.Valid.{Valid}
use kirakira_agent_online.Store.Claim.{claim_next_run-First, First, Writes, lease_lasts}

-- A queued run.
abbrev pub waiting_run : ℕ → ℕ → ℕ → Run
waiting_run i conversation created = record {
  id = i;
  user_id = 1;
  conversation_id = conversation;
  input_message_id = i;
  output_message_id = none;
  status = queued;
  lease_owner = none;
  lease_expires_at = none;
  heartbeat_at = none;
  attempt = 0;
  cancel_requested_at = none;
  error = none;
  idempotency_key = none;
  created_at = created;
  started_at = none;
  completed_at = none;
}

abbrev pub two_runs : Db
two_runs = record {
  runs = waiting_run 1 10 5 ∷ waiting_run 2 10 4 ∷ [];
  events = [];
  conversations = [];
  messages = [];
  links = [];
  deliveries = [];
  next_delivery_id = 1;
  automations = [];
  files = [];
}

pub two_runs-Valid : Valid two_runs
two_runs-Valid = record {
  rows = (
    record { shape = (refl, refl, refl, refl, refl) },
    (record { shape = (refl, refl, refl, refl, refl) }, tt),
  );
  unique = λ k. ground arith;
  exclusive = λ c. ground arith;
  numbered = λ k. tt;
}

abbrev pub unlocked : ℕ → Bool
unlocked i = false

claim_next_run-First_example :
    ((any (claimable two_runs.runs unlocked) two_runs.runs ≡ false)
      × (claim_next_run two_runs.runs unlocked "w" (pos 60) 100 two_runs ≡ (none, two_runs)))
    ⊎ ((run : Run) × (claimable two_runs.runs unlocked run ≡ true)
        × First (claimable two_runs.runs unlocked) run two_runs.runs
        × ((claim_next_run two_runs.runs unlocked "w" (pos 60) 100 two_runs).0
            ≡ some (started_run "w" (pos 60) 100 run))
        × Writes run
            (started_run "w" (pos 60) 100 run)
            two_runs
            (claim_next_run two_runs.runs unlocked "w" (pos 60) 100 two_runs).1
        × (is_running (started_run "w" (pos 60) 100 run).status ≡ true)
        × ((started_run "w" (pos 60) 100 run).lease_owner ≡ some "w")
        × ((started_run "w" (pos 60) 100 run).attempt ≡ run.attempt + 1)
        × (lease_lasts 110 (started_run "w" (pos 60) 100 run).lease_expires_at ≡ true))
claim_next_run-First_example = claim_next_run-First unlocked "w" (pos 60) 100 two_runs
