-- ===== src/ReloadJournal.antt =====
-- The reload journal of agent/plugins/reload_journal.py: the phases of a plugin's replacement, and what
-- a new process recovers. A `tx_id` and an instant are numbers, fresh and current ones are arguments.
pub mod Loading
pub mod Recovery
pub mod Loops
pub mod Startup
pub mod History
use kirakira_agent_online.Prelude.{
  ℕ, ◌+◌, String, Bool, true, false, ◌&&◌, ◌||◌, not, Option, none, some, List, [], ◌∷◌, ◌++◌, map,
  ◌==◌, ltb, leb, if◌then◌else◌, Result, ok, err, ◌>>=◌, find, put, keep, any, sort_by, Fields, end,
  field, str,
}

pub data ReloadPhase : Type 0 where
  preparing prepared validating commit_started committed draining complete aborted recovered :
      ReloadPhase

pub data RecoveryActionName : Type 0 where
  discard_candidate restore_committed : RecoveryActionName

pub record ReloadTransactionRecord : Type 0 where
  pub tx_id : ℕ
  pub plugin_id : String
  pub base_snapshot_id : Option String
  pub candidate_snapshot_id : Option String
  pub generation_id : String
  pub source_revision : String
  pub config_revision : String
  pub phase : ReloadPhase
  pub started_at : ℕ
  pub updated_at : ℕ
  pub error : String

pub record ReloadJournalEvent : Type 0 where
  pub sequence : ℕ
  pub tx_id : ℕ
  pub phase : ReloadPhase
  pub details : Fields
  pub created_at : ℕ

pub record ReloadRecoveryAction : Type 0 where
  pub tx_id : ℕ
  pub plugin_id : String
  pub generation_id : String
  pub source_revision : String
  pub action : RecoveryActionName

-- The two tables, with the counter of `reload_events.sequence`.
pub record Journal : Type 0 where
  pub transactions : List ReloadTransactionRecord
  pub events : List ReloadJournalEvent
  pub next_sequence : ℕ

pub data JournalError : Type 0 where
  unknown_transaction invalid_transition duplicate_id : JournalError

-- `_TRANSITIONS`
unfoldable pub transitions : ReloadPhase → List ReloadPhase
transitions preparing = prepared ∷ aborted ∷ []
transitions prepared = validating ∷ aborted ∷ []
transitions validating = commit_started ∷ aborted ∷ []
transitions commit_started = committed ∷ aborted ∷ recovered ∷ []
transitions committed = draining ∷ complete ∷ recovered ∷ []
transitions draining = complete ∷ recovered ∷ []
transitions _ = []

-- `_TERMINAL_PHASES`
unfoldable pub is_terminal : ReloadPhase → Bool
is_terminal complete = true
is_terminal aborted = true
is_terminal recovered = true
is_terminal _ = false

-- `==` of phases, which are distinct strings.
unfoldable pub phase_eq : ReloadPhase → ReloadPhase → Bool
phase_eq preparing preparing = true
phase_eq prepared prepared = true
phase_eq validating validating = true
phase_eq commit_started commit_started = true
phase_eq committed committed = true
phase_eq draining draining = true
phase_eq complete complete = true
phase_eq aborted aborted = true
phase_eq recovered recovered = true
phase_eq _ _ = false

unfoldable pub can_advance : ReloadPhase → ReloadPhase → Bool
unfolding transitions phase_eq
can_advance current phase = any (λ p. phase_eq p phase) (transitions current)

-- `_append_event`
unfoldable pub append_event : ℕ → ReloadPhase → Fields → ℕ → Journal → Journal
append_event tx_id phase details created_at j = record j {
  events =
      j.events
      ++ (record {
        sequence = j.next_sequence;
        tx_id = tx_id;
        phase = phase;
        details = details;
        created_at = created_at;
      }
          ∷ []);
  next_sequence = j.next_sequence + 1;
}

-- The arguments of `begin`, with the fresh id.
pub record Opening : Type 0 where
  pub tx_id : ℕ
  pub plugin_id : String
  pub base_snapshot_id : Option String
  pub generation_id : String
  pub source_revision : String
  pub config_revision : String

unfoldable pub opened : Opening → ℕ → ReloadTransactionRecord
opened a now = record {
  tx_id = a.tx_id;
  plugin_id = a.plugin_id;
  base_snapshot_id = a.base_snapshot_id;
  candidate_snapshot_id = none;
  generation_id = a.generation_id;
  source_revision = a.source_revision;
  config_revision = a.config_revision;
  phase = preparing;
  started_at = now;
  updated_at = now;
  error = "";
}

-- `begin`; the primary key refuses an id that is taken.
unfoldable pub begin : Opening → ℕ → Journal → Result JournalError Journal
unfolding append_event opened
begin a now j =
    if any (λ t. t.tx_id == a.tx_id) j.transactions
    then err duplicate_id
    else ok (
        append_event a.tx_id preparing end now
          (record j { transactions = j.transactions ++ (opened a now ∷ []) }))

unfoldable pub find_transaction : ℕ → Journal → Option ReloadTransactionRecord
find_transaction tx_id j = find (λ t. t.tx_id == tx_id) j.transactions

-- The arguments of `advance` besides the transaction.
pub record Step : Type 0 where
  pub phase : ReloadPhase
  pub candidate_snapshot_id : Option String
  pub details : Fields
  pub error : String

-- The row after the UPDATE, with `COALESCE(?, candidate_snapshot_id)`.
unfoldable pub advanced : Step → ℕ → ReloadTransactionRecord → ReloadTransactionRecord
advanced a now t = record t {
  phase = a.phase;
  candidate_snapshot_id = elim a.candidate_snapshot_id [
    | none ↦ t.candidate_snapshot_id
    | some c ↦ some c
  ];
  updated_at = now;
  error = a.error;
}

unfoldable pub advance_row :
    Step → ℕ → ReloadTransactionRecord → Journal → Result JournalError Journal
unfolding advanced append_event can_advance
advance_row a now t j =
    if not (can_advance t.phase a.phase)
    then err invalid_transition
    else ok (
        append_event t.tx_id a.phase a.details now
          (record j { transactions = put (λ r. r.tx_id) (advanced a now t) j.transactions }))

unfoldable pub advance : ℕ → Step → ℕ → Journal → Result JournalError Journal
unfolding find_transaction advance_row
advance tx_id a now j = elim (find_transaction tx_id j) [
  | none ↦ err unknown_transaction
  | some t ↦ advance_row a now t j
]

unfoldable pub get : ℕ → Journal → Result JournalError ReloadTransactionRecord
unfolding find_transaction
get tx_id j = elim (find_transaction tx_id j) [ none ↦ err unknown_transaction | some t ↦ ok t ]

-- `events`: the rows stand in the order of their sequence numbers.
unfoldable pub events_of : ℕ → Journal → List ReloadJournalEvent
events_of tx_id j = keep (λ e. e.tx_id == tx_id) j.events

-- `row[4] in {"commit_started", "committed", "draining"}`
unfoldable pub action_of : ReloadPhase → RecoveryActionName
action_of commit_started = restore_committed
action_of committed = restore_committed
action_of draining = restore_committed
action_of _ = discard_candidate

unfoldable pub recovery_action : ReloadTransactionRecord → ReloadRecoveryAction
unfolding action_of
recovery_action t = record {
  tx_id = t.tx_id;
  plugin_id = t.plugin_id;
  generation_id = t.generation_id;
  source_revision = t.source_revision;
  action = action_of t.phase;
}

abbrev pub restores : RecoveryActionName → Bool
restores restore_committed = true
restores discard_candidate = false

-- `ORDER BY started_at, tx_id`
unfoldable pub starts_before : ReloadTransactionRecord → ReloadTransactionRecord → Bool
starts_before a b =
    ltb a.started_at b.started_at || (a.started_at == b.started_at && leb a.tx_id b.tx_id)

-- The key `(item.action != "restore_committed", item.tx_id)`
unfoldable pub acts_before : ReloadRecoveryAction → ReloadRecoveryAction → Bool
acts_before a b =
    if restores a.action
    then not (restores b.action) || leb a.tx_id b.tx_id
    else not (restores b.action) && leb a.tx_id b.tx_id

unfoldable pub pending_recovery : Journal → List ReloadRecoveryAction
unfolding starts_before acts_before recovery_action is_terminal
pending_recovery j = sort_by acts_before (
    map recovery_action
      (sort_by starts_before (keep (λ t. not (is_terminal t.phase)) j.transactions)))

abbrev pub recovery_phase : RecoveryActionName → ReloadPhase
recovery_phase restore_committed = recovered
recovery_phase discard_candidate = aborted

abbrev action_name : RecoveryActionName → String
action_name restore_committed = "restore_committed"
action_name discard_candidate = "discard_candidate"

unfoldable pub recovery_step : ReloadRecoveryAction → Step
recovery_step a = record {
  phase = recovery_phase a.action;
  candidate_snapshot_id = none;
  details = field "recovery_action" (str (action_name a.action)) end;
  error = "startup recovery";
}

unfoldable pub finish_recovery : ReloadRecoveryAction → ℕ → Journal → Result JournalError Journal
unfolding recovery_step advance
finish_recovery a now j = advance a.tx_id (recovery_step a) now j
