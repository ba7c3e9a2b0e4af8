-- ===== src/Hooks/Cloud.antt =====
-- The hooks of cloud/tool_checkpoints.py, which put the tool calls of a worker under the checkpoints of
-- cloud/store.py. The digest of a call, the reading of a UUID and the text of a store's exception are
-- parameters.
use kirakira_agent_online.Prelude.{
  ℕ, String, not, Option, none, some, List, [], ◌∷◌, str_append, is_empty, Result, ok, err, Fields,
}
use kirakira_agent_online.Store.{StoreError, Run}
use kirakira_agent_online.Store.Checkpoints.{
  RunToolCheckpoint, SlotAnswer, SlotTx, Slot, begin_tool_checkpoint, finish_tool_checkpoint,
}
use kirakira_agent_online.Hooks.{
  HookEvent, pre_tool_use, post_tool_use, post_tool_error, HookContext, HookOutcome, HookDecision,
  allowed_outcome, ToolHook,
}

-- What the hooks and the tools act on: the two tables, the clock, and the tools' own state.
pub record CloudWorld (T : Type 0) : Type 0 where
  pub runs : List Run
  pub checkpoints : List RunToolCheckpoint
  pub now : ℕ
  pub tools : T

-- The text of `_signature`'s digest, `UUID(text)`, and `str(exc)`.
pub record Codec : Type 0 where
  pub signature : String → Fields → String
  pub uuid_of : String → Option ℕ
  pub describe : StoreError → String

abbrev pub event_name : HookEvent → String
event_name pre_tool_use = "pre_tool_use"
event_name post_tool_use = "post_tool_use"
event_name post_tool_error = "post_tool_error"

unfoldable pub outcome_of : SlotAnswer × RunToolCheckpoint → HookOutcome
outcome_of (SlotAnswer.fresh, c) = allowed_outcome
outcome_of (SlotAnswer.replay, c) = record allowed_outcome {
  decision = HookDecision.replay;
  replay_status = c.status;
  replay_output = elim c.output [ none ↦ "" | some o ↦ o ];
  replay_mobile_attention = c.mobile_attention;
}
outcome_of (SlotAnswer.ambiguous, c) = record allowed_outcome {
  decision = HookDecision.abort;
  reason = "tool outcome is ambiguous after worker interruption; refusing duplicate execution";
}
outcome_of (SlotAnswer.diverged, c) = record allowed_outcome {
  decision = HookDecision.abort;
  reason = "tool checkpoint diverged during retry";
}

-- `str(ctx.result or "")`
abbrev pub result_text : HookContext → String
result_text ctx = elim ctx.result [ none ↦ "" | some r ↦ r ]

abbrev pub slot_of : ℕ → HookContext → Slot
slot_of id ctx = record {
  run_id = id;
  iteration = ctx.request.iteration;
  call_index = ctx.request.call_index;
}

abbrev pub signature_of : Codec → HookContext → String
signature_of codec ctx = codec.signature ctx.request.tool_name ctx.current_arguments

module _ {T : Type 0} (codec : Codec) where
  abbrev pub began_checkpoint :
      CloudWorld T
      → SlotTx (SlotAnswer × RunToolCheckpoint)
      → Result String HookOutcome × CloudWorld T
  began_checkpoint w (err e) = (err (codec.describe e), w)
  began_checkpoint w (ok (a, rows)) = (ok (outcome_of a), record w { checkpoints = rows })

  abbrev pub ended_checkpoint :
      CloudWorld T → SlotTx RunToolCheckpoint → Result String HookOutcome × CloudWorld T
  ended_checkpoint w (err e) = (err (codec.describe e), w)
  ended_checkpoint w (ok (c, rows)) = (ok allowed_outcome, record w { checkpoints = rows })

  unfoldable pub end_checkpoint :
      ℕ → String → HookContext → CloudWorld T → Result String HookOutcome × CloudWorld T
  end_checkpoint id status ctx w = ended_checkpoint w (
      finish_tool_checkpoint (slot_of id ctx) (signature_of codec ctx) status (result_text ctx) none
        w.now w.checkpoints)

  unfoldable pub run_checkpoint_hook :
      HookEvent → ℕ → HookContext → CloudWorld T → Result String HookOutcome × CloudWorld T
  unfolding outcome_of end_checkpoint
  run_checkpoint_hook pre_tool_use id ctx w = began_checkpoint w (
      begin_tool_checkpoint (slot_of id ctx) (signature_of codec ctx) ctx.request.tool_name
        ctx.current_arguments w.now w.runs w.checkpoints)
  run_checkpoint_hook post_tool_use id ctx w = end_checkpoint id "success" ctx w
  run_checkpoint_hook post_tool_error id ctx w = end_checkpoint id "error" ctx w

  -- `CloudToolCheckpointHook(store, event)`
  unfoldable pub checkpoint_hook : HookEvent → ToolHook (CloudWorld T)
  unfolding run_checkpoint_hook
  checkpoint_hook event = record {
    name = str_append "cloud-tool-checkpoint-" (event_name event);
    event = event;
    matches = λ ctx w. ok (not (is_empty ctx.request.chat_id));
    run = λ ctx w. elim (codec.uuid_of ctx.request.chat_id) [
      | none ↦ (err "badly formed hexadecimal UUID string", w)
      | some id ↦ run_checkpoint_hook event id ctx w
    ];
  }

  unfoldable pub build_cloud_tool_checkpoint_hooks : List (ToolHook (CloudWorld T))
  unfolding checkpoint_hook
  build_cloud_tool_checkpoint_hooks =
      checkpoint_hook pre_tool_use
      ∷ checkpoint_hook post_tool_use
      ∷ checkpoint_hook post_tool_error
      ∷ []
