-- ===== src/Hooks/Execute.antt =====
-- `ToolExecutor.execute` of agent/tool_hooks/__init__.py.
use kirakira_agent_online.Prelude.{
  String, Option, none, some, List, [], ◌++◌, str_append, if◌then◌else◌, Result, ok, err, Fields,
}
use kirakira_agent_online.Hooks.{
  post_tool_use, post_tool_error, ToolExecutionRequest, ToolExecutionResult, ToolHook, Invoked,
  timed_out, raised, returned, tool_result, proceed, stop, aborted, pre_hooks, run_post_hooks,
}

-- `timeout_text` is `"%.1f" % timeout_seconds`.
pub record ToolExecutor (S : Type 0) : Type 0 where
  pub hooks : List (ToolHook S)
  pub timeout_text : String

unfoldable pub add_hooks : {S : Type 0} → ToolExecutor S → List (ToolHook S) → ToolExecutor S
add_hooks ex more = record ex { hooks = ex.hooks ++ more }

module _ {S : Type 0} (hooks : List (ToolHook S)) (request : ToolExecutionRequest) where
  unfoldable pub failed_call :
      Fields
      → (error output : String) → Option String
      → List String
      → S
      → Result String ToolExecutionResult × S
  unfolding run_post_hooks
  failed_call args error output attention extra s =
      let after =
        run_post_hooks
          (record {
            event = post_tool_error;
            request = request;
            current_arguments = args;
            result = some output;
            error = error;
          })
          hooks extra s in
      (
        ok (record {
          status = "error";
          output = output;
          final_arguments = args;
          extra_messages = after.0;
          mobile_attention = attention;
        }),
        after.1,
      )

  unfoldable pub successful_call :
      Fields
      → (output : String) → Option String
      → List String
      → S
      → Result String ToolExecutionResult × S
  unfolding run_post_hooks
  successful_call args output attention extra s =
      let after =
        run_post_hooks
          (record {
            event = post_tool_use;
            request = request;
            current_arguments = args;
            result = some output;
            error = "";
          })
          hooks extra s in
      (
        ok (record {
          status = "success";
          output = output;
          final_arguments = args;
          extra_messages = after.0;
          mobile_attention = attention;
        }),
        after.1,
      )

  unfoldable pub conclude :
      (timeout_text : String)
      → Fields
      → List String
      → Invoked × S
      → Result String ToolExecutionResult × S
  unfolding failed_call successful_call
  conclude timeout_text args extra (timed_out, s) =
      let error = str_append "tool timed out after " (str_append timeout_text " seconds") in
      failed_call args error (str_append "Error: " error) none extra s
  conclude timeout_text args extra (raised error, s) =
      failed_call args error (str_append "工具执行出错: " error) none extra s
  conclude timeout_text args extra (returned output, s) = successful_call args output none extra s
  conclude timeout_text args extra (tool_result content is_error attention, s) =
      if is_error
      then failed_call args content content attention extra s
      else successful_call args content attention extra s

-- `ToolExecutor.execute`; an error is `ToolExecutionAbortedError`.
unfoldable pub execute :
    {S : Type 0}
    → ToolExecutor S
    → ToolExecutionRequest
    → (String → Fields → S → Invoked × S)
    → List (ToolHook S)
    → S
    → Result String ToolExecutionResult × S
unfolding pre_hooks conclude
execute ex request invoker additional_hooks s =
    let hooks = ex.hooks ++ additional_hooks in
    let pre = pre_hooks hooks request request.arguments [] s in
    elim pre.0 [
      | stop r ↦ (ok r, pre.1)
      | aborted t ↦ (err t, pre.1)
      | proceed args extra ↦
          conclude hooks request ex.timeout_text args extra (invoker request.tool_name args pre.1)
    ]
