-- ===== src/Samples/Calls.antt =====
-- Tool calls under the checkpoint hooks at concrete inputs.
use kirakira_agent_online.Prelude.{
  ℕ, ◌+◌, ◌≡◌, ◌⊎◌, refl, String, false, some, List, [], ◌∷◌, true, map, ok, Result, Fields, end,
  pos, find,
}
use kirakira_agent_online.Store.Checkpoints.Fence.{slot_calls}
use kirakira_agent_online.Hooks.{
  post_tool_use, allowed_outcome, pre_hook, ToolExecutionRequest, ToolExecutionResult, plain_result,
  ToolHook, Invoked, timed_out, tool_result,
}
use kirakira_agent_online.Hooks.Execute.{execute}
use kirakira_agent_online.Hooks.Cloud.{CloudWorld, Codec}
use kirakira_agent_online.Hooks.Once.{cloud_executor, on_tools, tool_call, invoked_once}
use kirakira_agent_online.Hooks.Passing.{LetsPass}
use kirakira_agent_online.Hooks.Replay.{call_replayed}
use kirakira_agent_online.Samples.Slots.{one_run}

-- A digest that is the tool's name, and one run.
abbrev names : Codec
names = record {
  signature = λ name args. name;
  uuid_of = λ text. some 1;
  describe = λ e. "store error";
}

abbrev send_request : ToolExecutionRequest
send_request = record {
  session_key = "cloud:1";
  channel = "web";
  chat_id = "1";
  tool_name = "send_mail";
  arguments = end;
  call_id = "c1";
  request_text = "";
  iteration = pos 0;
  call_index = pos 2;
}

-- Counts the mails; it asks for the user's attention.
abbrev send_mail : String → Fields → ℕ → Invoked × ℕ
send_mail name args sent = (tool_result "sent" false (some "confirmation"), sent + 1)

-- A tool that never answers in time.
abbrev slow_mail : String → Fields → ℕ → Invoked × ℕ
slow_mail name args sent = (timed_out, sent + 1)

abbrev no_hooks : List (ToolHook ℕ)
no_hooks = []

abbrev first_world : CloudWorld ℕ
first_world = record { runs = one_run; checkpoints = []; now = 10; tools = 0 }

first_call : Result String ToolExecutionResult × CloudWorld ℕ
first_call =
    execute (cloud_executor names "300.0") send_request (tool_call send_mail)
      (map on_tools no_hooks) first_world

-- The rows after the first call, in a worker that starts again.
second_world : CloudWorld ℕ
unfolding first_call
second_world = record {
  runs = one_run;
  checkpoints = first_call.1.checkpoints;
  now = 20;
  tools = 5;
}

invoked_once_example :
    (first_call.1.tools ≡ first_world.tools)
    ⊎ ((execute
          (cloud_executor names "300.0")
          send_request
          (tool_call slow_mail)
          (map on_tools no_hooks)
          second_world).1
        ≡ second_world)
unfolding first_call second_world slot_calls
invoked_once_example =
    invoked_once names "300.0" "300.0" send_request send_request send_mail slow_mail no_hooks
      no_hooks first_world second_world one_run [] refl refl refl refl refl

-- A hook that only looks, after the call.
abbrev counts_calls : ToolHook ℕ
counts_calls = record {
  name = "counts_calls";
  event = post_tool_use;
  matches = λ ctx n. ok true;
  run = λ ctx n. (ok allowed_outcome, n + 1);
}

counts_calls-LetsPass : LetsPass counts_calls
unfolding pre_hook
counts_calls-LetsPass request args extra n = (extra, refl)

counted_call : Result String ToolExecutionResult × CloudWorld ℕ
counted_call =
    execute (cloud_executor names "300.0") send_request (tool_call send_mail)
      (map on_tools (counts_calls ∷ [])) first_world

third_world : CloudWorld ℕ
unfolding counted_call
third_world = record {
  runs = one_run;
  checkpoints = counted_call.1.checkpoints;
  now = 20;
  tools = 5;
}

call_replayed_example :
    (r : ToolExecutionResult) × (counted_call.0 ≡ ok r)
    × (execute
          (cloud_executor names "300.0")
          send_request
          (tool_call slow_mail)
          (map on_tools no_hooks)
          third_world
        ≡ (ok (plain_result r.status r.output end []), third_world))
unfolding counted_call third_world find
call_replayed_example =
    call_replayed names "300.0" "300.0" send_request 1 send_mail slow_mail (counts_calls ∷ [])
      no_hooks first_world third_world refl refl refl refl refl (counts_calls-LetsPass, tt) refl
