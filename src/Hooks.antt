-- ===== src/Hooks.antt =====
-- The execution of a tool call between its hooks: `ToolExecutor` of agent/tool_hooks/__init__.py. A hook
-- and the tool itself are parameters that act on a state `S`; an exception of theirs is its text.
pub mod Execute
pub mod Rules
pub mod Cloud
pub mod Fenced
pub mod Once
pub mod Passing
pub mod Ending
pub mod Replay
use kirakira_agent_online.Prelude.{
  ℕ, String, Bool, true, false, ◌&&◌, not, Option, none, some, List, [], ◌∷◌, ◌++◌, str_append,
  is_empty, text_or, if◌then◌else◌, Result, ok, err, ℤ, Fields,
}

pub data HookEvent : Type 0 where
  pre_tool_use post_tool_use post_tool_error : HookEvent

unfoldable pub same_event : HookEvent → HookEvent → Bool
same_event pre_tool_use pre_tool_use = true
same_event post_tool_use post_tool_use = true
same_event post_tool_error post_tool_error = true
same_event _ _ = false

pub record ToolExecutionRequest : Type 0 where
  pub session_key : String
  pub channel : String
  pub chat_id : String
  pub tool_name : String
  pub arguments : Fields
  pub call_id : String
  pub request_text : String
  pub iteration : ℤ
  pub call_index : ℤ

pub record HookContext : Type 0 where
  pub event : HookEvent
  pub request : ToolExecutionRequest
  pub current_arguments : Fields
  pub result : Option String
  pub error : String

pub data HookDecision : Type 0 where
  allow deny replay abort : HookDecision

pub record HookOutcome : Type 0 where
  pub decision : HookDecision
  pub updated_input : Option Fields
  pub reason : String
  pub extra_message : String
  pub replay_status : String
  pub replay_output : String
  pub replay_mobile_attention : Option String

-- `HookOutcome()`
abbrev pub allowed_outcome : HookOutcome
allowed_outcome = record {
  decision = allow;
  updated_input = none;
  reason = "";
  extra_message = "";
  replay_status = "success";
  replay_output = "";
  replay_mobile_attention = none;
}

pub record ToolExecutionResult : Type 0 where
  pub status : String
  pub output : String
  pub final_arguments : Fields
  pub extra_messages : List String
  pub mobile_attention : Option String

pub record ToolHook (S : Type 0) : Type 0 where
  pub name : String
  pub event : HookEvent
  pub matches : HookContext → S → Result String Bool
  pub run : HookContext → S → Result String HookOutcome × S

-- What became of the call of the tool: a TimeoutError (also of `asyncio.timeout`), another exception, or it returned a `ToolResult`
-- or any other value, as its text.
pub data Invoked : Type 0 where
  timed_out : Invoked
  raised returned : String → Invoked
  tool_result : (content : String) → (is_error : Bool) → (attention : Option String) → Invoked

-- What the hooks before a call decide: to go on, to answer for the tool, or to stop the run.
pub data PreStep : Type 0 where
  proceed : (args : Fields) → (extra : List String) → PreStep
  stop : ToolExecutionResult → PreStep
  aborted : String → PreStep

abbrev pub plain_result : String → String → Fields → List String → ToolExecutionResult
plain_result status output args extra = record {
  status = status;
  output = output;
  final_arguments = args;
  extra_messages = extra;
  mobile_attention = none;
}

-- `if outcome.extra_message: extra.append(...)`
abbrev pub with_extra : HookOutcome → List String → List String
with_extra o extra = if is_empty o.extra_message then extra else extra ++ (o.extra_message ∷ [])

unfoldable pub pre_outcome : HookOutcome → Fields → List String → PreStep
pre_outcome o args extra =
    let input : Fields = elim o.updated_input [ none ↦ args | some a ↦ a ] in
    let messages = with_extra o extra in
    elim o.decision [
      | allow ↦ proceed input messages
      | deny ↦ stop (plain_result "denied" (text_or o.reason "工具调用被拦截") input messages)
      | replay ↦ stop (record {
        status = o.replay_status;
        output = o.replay_output;
        final_arguments = input;
        extra_messages = messages;
        mobile_attention = o.replay_mobile_attention;
      })
      | abort ↦ aborted (text_or o.reason "tool execution cannot be safely resumed")
    ]

unfoldable pub hook_failed : String → String → Fields → List String → PreStep
hook_failed name exc args extra = stop (
    plain_result "error"
      (str_append "Error: Pre-tool hook '" (str_append name (str_append "' failed: " exc))) args
      extra)

-- `hook.matches(ctx)` may raise; a hook that does not match is passed over.
abbrev pub when_matches {ℓ} : {A : Type ℓ} → Result String Bool → (String → A) → A → A → A
when_matches (err e) failed run skip = failed e
when_matches (ok fits) failed run skip = if fits then run else skip

abbrev pub pre_context : ToolExecutionRequest → Fields → HookContext
pre_context request args = record {
  event = pre_tool_use;
  request = request;
  current_arguments = args;
  result = none;
  error = "";
}

module _ {S : Type 0} where
  abbrev pub pre_ran :
      ToolHook S → Fields → List String → Result String HookOutcome × S → PreStep × S
  pre_ran h args extra (ok o, s) = (pre_outcome o args extra, s)
  pre_ran h args extra (err e, s) = (hook_failed h.name e args extra, s)

  unfoldable pub pre_hook :
      ToolHook S → ToolExecutionRequest → Fields → List String → S → PreStep × S
  unfolding pre_outcome hook_failed same_event
  pre_hook h request args extra s =
      if not (same_event h.event pre_tool_use)
      then (proceed args extra, s)
      else when_matches (h.matches (pre_context request args) s)
          (λ e. (hook_failed h.name e args extra, s))
          (pre_ran h args extra (h.run (pre_context request args) s)) (proceed args extra, s)

  -- The loop over the hooks before the call.
  unfoldable pub pre_hooks :
      List (ToolHook S) → ToolExecutionRequest → Fields → List String → S → PreStep × S
  unfolding pre_hook
  pre_hooks [] request args extra s = (proceed args extra, s)
  pre_hooks (h ∷ hooks) request args extra s =
      let step = pre_hook h request args extra s in
      elim step.0 [
        | proceed args' extra' ↦ pre_hooks hooks request args' extra' step.1
        | stop r ↦ (stop r, step.1)
        | aborted t ↦ (aborted t, step.1)
      ]

  abbrev pub post_ran : List String → Result String HookOutcome × S → List String × S
  post_ran extra (ok o, s) = (with_extra o extra, s)
  post_ran extra (err e, s) = (extra, s)

  -- One hook after the call; an exception is logged.
  unfoldable pub post_hook : HookContext → ToolHook S → List String → S → List String × S
  unfolding same_event
  post_hook ctx h extra s =
      if not (same_event h.event ctx.event)
      then (extra, s)
      else when_matches (h.matches ctx s) (λ e. (extra, s)) (post_ran extra (h.run ctx s))
          (extra, s)

  -- `_run_error_hooks`, and the loop over the `post_tool_use` hooks: they differ in the event.
  unfoldable pub run_post_hooks :
      HookContext → List (ToolHook S) → List String → S → List String × S
  unfolding post_hook
  run_post_hooks ctx [] extra s = (extra, s)
  run_post_hooks ctx (h ∷ hooks) extra s =
      let step = post_hook ctx h extra s in run_post_hooks ctx hooks step.0 step.1
