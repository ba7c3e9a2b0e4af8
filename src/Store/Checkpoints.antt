-- ===== src/Store/Checkpoints.antt =====
-- The tool checkpoints of cloud/store.py (`begin_tool_checkpoint`, `finish_tool_checkpoint`): one slot
-- for each tool call of a run, which fences its side effect. `runs` are the rows of the run table.
pub mod Fence
use kirakira_agent_online.Prelude.{
  ℕ, String, Bool, true, false, ◌&&◌, ◌||◌, not, Option, none, some, List, [], ◌∷◌, ◌++◌, ◌==◌,
  str_eq, cut, if◌then◌else◌, Result, ok, err, any, find, update, ℤ, at_least, Fields,
}
use kirakira_agent_online.Store.{StoreError, not_found_error, state_error, value_error, Run}

pub record RunToolCheckpoint : Type 0 where
  pub run_id : ℕ
  pub iteration : ℕ
  pub call_index : ℕ
  pub signature : String
  pub tool_name : String
  pub arguments : Fields
  pub status : String
  pub output : Option String
  pub mobile_attention : Option String
  pub started_at : ℕ
  pub completed_at : Option ℕ

-- What `begin_tool_checkpoint` answers of a slot.
pub data SlotAnswer : Type 0 where
  fresh replay ambiguous diverged : SlotAnswer

-- The slot of a call.
pub record Slot : Type 0 where
  pub run_id : ℕ
  pub iteration : ℤ
  pub call_index : ℤ

unfoldable pub in_slot : Slot → RunToolCheckpoint → Bool
in_slot s c =
    c.run_id == s.run_id
    && c.iteration == at_least 0 s.iteration
    && c.call_index == at_least 0 s.call_index

unfoldable pub started : Slot → String → String → Fields → ℕ → RunToolCheckpoint
started s signature tool_name arguments now = record {
  run_id = s.run_id;
  iteration = at_least 0 s.iteration;
  call_index = at_least 0 s.call_index;
  signature = signature;
  tool_name = cut 200 tool_name;
  arguments = arguments;
  status = "started";
  output = none;
  mobile_attention = none;
  started_at = now;
  completed_at = none;
}

-- The answer for a slot that has a row.
unfoldable pub answer : String → RunToolCheckpoint → SlotAnswer
answer signature c =
    if not (str_eq c.signature signature)
    then diverged
    else if str_eq c.status "started"
    then ambiguous
    else replay

-- A transaction on the checkpoints: its value and the rows, or an error.
abbrev pub SlotTx : Type 0 → Type 0
SlotTx A = Result StoreError (A × List RunToolCheckpoint)

unfoldable pub begin_tool_checkpoint :
    Slot
    → String
    → String
    → Fields
    → ℕ
    → List Run
    → List RunToolCheckpoint
    → SlotTx (SlotAnswer × RunToolCheckpoint)
unfolding started answer
begin_tool_checkpoint s signature tool_name arguments now runs rows =
    if not (any (λ r. r.id == s.run_id) runs)
    then err not_found_error
    else elim (find (in_slot s) rows) [
      | none ↦ ok (
        (fresh, started s signature tool_name arguments now),
        rows ++ (started s signature tool_name arguments now ∷ []),
      )
      | some c ↦ ok ((answer signature c, c), rows)
    ]

unfoldable pub finished :
    String → String → Option String → ℕ → RunToolCheckpoint → RunToolCheckpoint
finished status output mobile_attention now c = record c {
  status = status;
  output = some output;
  mobile_attention = mobile_attention;
  completed_at = some now;
}

unfoldable pub finish_slot :
    Slot
    → String
    → String
    → String
    → Option String
    → ℕ
    → RunToolCheckpoint
    → List RunToolCheckpoint
    → SlotTx RunToolCheckpoint
unfolding finished
finish_slot s signature status output mobile_attention now c rows =
    if not (str_eq c.signature signature)
    then err state_error
    else ok (
      finished status output mobile_attention now c,
      update (in_slot s) (finished status output mobile_attention now) rows,
    )

unfoldable pub finish_tool_checkpoint :
    Slot
    → String
    → String
    → String
    → Option String
    → ℕ
    → List RunToolCheckpoint
    → SlotTx RunToolCheckpoint
unfolding finish_slot
finish_tool_checkpoint s signature status output mobile_attention now rows =
    if not (str_eq status "success") && not (str_eq status "error")
    then err value_error
    else elim (find (in_slot s) rows) [
      | none ↦ err state_error
      | some c ↦ finish_slot s signature status output mobile_attention now c rows
    ]
