-- ===== src/Hooks/Ending.antt =====
-- How a tool call under the checkpoint hooks of cloud/tool_checkpoints.py ends: with its slot finished.
use kirakira_agent_online.Prelude.{
  ℕ, ◌≡◌, refl, sym, subst, ◌∙◌, String, true, false, not, ◌&&◌, Option, none, some, List, [], ◌∷◌,
  ◌++◌, arith, is_empty, Result, ok, Fields, any, find, update, All, map, ap, str_eq, eq_refl, ◌==◌,
}
use kirakira_agent_online.Prelude.Table.{find-append_none}
use kirakira_agent_online.Store.Checkpoints.{
  RunToolCheckpoint, Slot, in_slot, started, finished, begin_tool_checkpoint,
  finish_tool_checkpoint, finish_slot,
}
use kirakira_agent_online.Store.Checkpoints.Fence.{started_found, started-signature}
use kirakira_agent_online.Hooks.{
  HookEvent, pre_tool_use, post_tool_use, post_tool_error, ToolExecutionRequest,
  ToolExecutionResult, HookContext, ToolHook, Invoked, timed_out, raised, returned, tool_result,
  proceed, pre_context, pre_hook, pre_hooks, same_event, run_post_hooks, post_hook,
}
use kirakira_agent_online.Hooks.Execute.{
  ToolExecutor, failed_call, successful_call, conclude, execute,
}
use kirakira_agent_online.Hooks.Cloud.{
  CloudWorld, Codec, slot_of, end_checkpoint, checkpoint_hook, build_cloud_tool_checkpoint_hooks,
}
use kirakira_agent_online.Hooks.Once.{cloud_executor, on_tools, tool_call}
use kirakira_agent_online.Hooks.Passing.{
  LetsPass, SameRows, pre_hooks-LetsPass, pre_hooks-SameRows, run_post_hooks-SameRows,
}

-- The event after a call, with the status that it stores.
data Ends : HookEvent → String → Type 0 where
  with_success : Ends post_tool_use "success"
  with_error : Ends post_tool_error "error"

Ends-valid :
    {e : HookEvent} {t : String}
    → Ends e t
    → (not (str_eq t "success") && not (str_eq t "error")) ≡ false
Ends-valid with_success = refl
Ends-valid with_error = refl

finish_found :
    (s : Slot) (g t o : String) (now : ℕ) (rows : List RunToolCheckpoint) (d : RunToolCheckpoint)
    → (not (str_eq t "success") && not (str_eq t "error")) ≡ false
    → find (in_slot s) rows ≡ some d
    → str_eq d.signature g ≡ true
    → finish_tool_checkpoint s g t o none now rows
      ≡ ok (finished t o none now d, update (in_slot s) (finished t o none now) rows)
unfolding finish_tool_checkpoint finish_slot
finish_found s g t o now rows d v f i = ground (arith, v, f, i)

abbrev pub call_slot : ℕ → ToolExecutionRequest → Slot
call_slot id request = slot_of id (pre_context request request.arguments)

abbrev pub digest : Codec → ToolExecutionRequest → String
digest codec request = codec.signature request.tool_name request.arguments

abbrev post_context : HookEvent → ToolExecutionRequest → String → String → HookContext
post_context e request o error = record {
  event = e;
  request = request;
  current_arguments = request.arguments;
  result = some o;
  error = error;
}

-- A checkpoint hook of another event is passed over.
post_hook-other :
    {T : Type 0} (codec : Codec) (e : HookEvent) (ctx : HookContext) (extra : List String)
    (w : CloudWorld T)
    → same_event e ctx.event ≡ false
    → post_hook ctx (checkpoint_hook codec e) extra w ≡ (extra, w)
unfolding post_hook checkpoint_hook
post_hook-other codec e ctx extra w h = ground (arith, h)

execute-proceed :
    {S : Type 0} (ex : ToolExecutor S) (additional : List (ToolHook S))
    (request : ToolExecutionRequest) (invoker : String → Fields → S → Invoked × S) (s : S)
    (args : Fields) (extra : List String)
    → let pre = pre_hooks (ex.hooks ++ additional) request request.arguments [] s in
      pre.0 ≡ proceed args extra
      → execute ex request invoker additional s
        ≡ conclude
            (ex.hooks ++ additional)
            request
            ex.timeout_text
            args
            extra
            (invoker request.tool_name args pre.1)
unfolding execute
execute-proceed ex additional request invoker s args extra h = ground (arith, h)

pre_hook-other :
    {T : Type 0} (codec : Codec) (e : HookEvent) (request : ToolExecutionRequest) (args : Fields)
    (extra : List String) (w : CloudWorld T)
    → same_event e pre_tool_use ≡ false
    → pre_hook (checkpoint_hook codec e) request args extra w ≡ (proceed args extra, w)
unfolding pre_hook checkpoint_hook
pre_hook-other codec e request args extra w h = ground (arith, h)

module _ {T : Type 0} (codec : Codec) (request : ToolExecutionRequest) (id : ℕ)
    (named : is_empty request.chat_id ≡ false) (u : codec.uuid_of request.chat_id ≡ some id) where
  abbrev pub ended_rows : String → String → CloudWorld T → List RunToolCheckpoint
  ended_rows t o w = update (in_slot (call_slot id request)) (finished t o none w.now) w.checkpoints

  abbrev pub IsStarted : CloudWorld T → RunToolCheckpoint → Type 0
  IsStarted w d =
      (find (in_slot (call_slot id request)) w.checkpoints ≡ some d)
      × (str_eq d.signature (digest codec request) ≡ true)

  post_hook-own :
      (e : HookEvent) (t o error : String) (extra : List String) (w : CloudWorld T)
      (d : RunToolCheckpoint)
      → Ends e t
      → IsStarted w d
      → post_hook (post_context e request o error) (checkpoint_hook codec e) extra w
        ≡ (extra, record w { checkpoints = ended_rows t o w })
  unfolding post_hook checkpoint_hook end_checkpoint
  post_hook-own e t o error extra w d with_success (f, i) =
      rw (named, u)
        (rw
          (finish_found (call_slot id request) (digest codec request) "success" o w.now
            w.checkpoints d refl f i)
          refl)
  post_hook-own e t o error extra w d with_error (f, i) =
      rw (named, u)
        (rw
          (finish_found (call_slot id request) (digest codec request) "error" o w.now w.checkpoints
            d refl f i)
          refl)

  -- The loop over the hooks after the call finishes the slot, before the other hooks.
  post_hooks_finish :
      (e : HookEvent) (t o error : String) (extra : List String) (others : List (ToolHook T))
      (w : CloudWorld T) (d : RunToolCheckpoint)
      → Ends e t
      → IsStarted w d
      → run_post_hooks
          (post_context e request o error)
          (build_cloud_tool_checkpoint_hooks codec ++ map on_tools others)
          extra
          w
        ≡ run_post_hooks
            (post_context e request o error)
            (map on_tools others)
            extra
            (record w { checkpoints = ended_rows t o w })
  unfolding run_post_hooks build_cloud_tool_checkpoint_hooks
  post_hooks_finish e t o error extra others w d with_success h = ground (
    arith,
    post_hook-other codec pre_tool_use (post_context e request o error) extra w refl,
    post_hook-own e t o error extra w d with_success h,
    post_hook-other codec post_tool_error (post_context e request o error) extra
        (record w { checkpoints = ended_rows t o w }) refl,
  )
  post_hooks_finish e t o error extra others w d with_error h = ground (
    arith,
    post_hook-other codec pre_tool_use (post_context e request o error) extra w refl,
    post_hook-other codec post_tool_use (post_context e request o error) extra w refl,
    post_hook-own e t o error extra w d with_error h,
  )

  post_rows :
      (e : HookEvent) (t o error : String) (extra : List String) (others : List (ToolHook T))
      (w : CloudWorld T) (d : RunToolCheckpoint)
      → Ends e t
      → IsStarted w d
      → (run_post_hooks
          (post_context e request o error)
          (build_cloud_tool_checkpoint_hooks codec ++ map on_tools others)
          extra
          w).1.checkpoints
        ≡ ended_rows t o w
  post_rows e t o error extra others w d ends h =
      ap (λ x. x.1.checkpoints) (post_hooks_finish e t o error extra others w d ends h)
      ∙ (run_post_hooks-SameRows others (post_context e request o error) extra
          (record w { checkpoints = ended_rows t o w })).0

  -- The call is over: its slot is finished with the status and the output of the result.
  abbrev pub IsOver : Result String ToolExecutionResult × CloudWorld T → CloudWorld T → Type 0
  IsOver x w =
      (r : ToolExecutionResult) × (x.0 ≡ ok r)
      × (x.1.checkpoints ≡ ended_rows r.status r.output w)
      × ((not (str_eq r.status "success") && not (str_eq r.status "error")) ≡ false)

  module _ (others : List (ToolHook T)) (extra : List String) (w : CloudWorld T)
      (d : RunToolCheckpoint) (h : IsStarted w d) where
    abbrev all_hooks : List (ToolHook (CloudWorld T))
    all_hooks = build_cloud_tool_checkpoint_hooks codec ++ map on_tools others

    failed_call-IsOver :
        (error output : String) (attention : Option String)
        → IsOver (failed_call all_hooks request request.arguments error output attention extra w) w
    unfolding failed_call
    failed_call-IsOver error output attention = (
      record {
        status = "error";
        output = output;
        final_arguments = request.arguments;
        extra_messages =
            (run_post_hooks (post_context post_tool_error request output error) all_hooks extra
              w).0;
        mobile_attention = attention;
      },
      refl,
      post_rows post_tool_error "error" output error extra others w d with_error h,
      refl,
    )

    successful_call-IsOver :
        (output : String) (attention : Option String)
        → IsOver (successful_call all_hooks request request.arguments output attention extra w) w
    unfolding successful_call
    successful_call-IsOver output attention = (
      record {
        status = "success";
        output = output;
        final_arguments = request.arguments;
        extra_messages =
            (run_post_hooks (post_context post_tool_use request output "") all_hooks extra w).0;
        mobile_attention = attention;
      },
      refl,
      post_rows post_tool_use "success" output "" extra others w d with_success h,
      refl,
    )

    -- However the tool's call ends, it is over then.
    conclude-IsOver :
        (t : String) (call : Invoked)
        → IsOver (conclude all_hooks request t request.arguments extra (call, w)) w
    unfolding conclude
    conclude-IsOver t timed_out = failed_call-IsOver _ _ none
    conclude-IsOver t (raised e) = failed_call-IsOver _ _ none
    conclude-IsOver t (returned o) = successful_call-IsOver o none
    conclude-IsOver t (tool_result o true a) = failed_call-IsOver o o a
    conclude-IsOver t (tool_result o false a) = successful_call-IsOver o a

  unfoldable pub begun : CloudWorld T → RunToolCheckpoint
  begun w =
      started (call_slot id request) (digest codec request) request.tool_name request.arguments
        w.now

  abbrev pub begun_world : CloudWorld T → CloudWorld T
  begun_world w = record w { checkpoints = w.checkpoints ++ (begun w ∷ []) }

  pre_hook-own :
      (w : CloudWorld T)
      → any (λ r. r.id == id) w.runs ≡ true
      → find (in_slot (call_slot id request)) w.checkpoints ≡ none
      → pre_hook (checkpoint_hook codec pre_tool_use) request request.arguments [] w
        ≡ (proceed request.arguments [], begun_world w)
  unfolding pre_hook checkpoint_hook begun begin_tool_checkpoint
  pre_hook-own w r f = rw (named, u) (rw (r, f) refl)

  -- The hooks before the call begin a slot that no row has, and leave the call to the other hooks.
  pre_hooks_begin :
      (others : List (ToolHook T)) (w : CloudWorld T)
      → any (λ r. r.id == id) w.runs ≡ true
      → find (in_slot (call_slot id request)) w.checkpoints ≡ none
      → pre_hooks
          (build_cloud_tool_checkpoint_hooks codec ++ map on_tools others)
          request
          request.arguments
          []
          w
        ≡ pre_hooks (map on_tools others) request request.arguments [] (begun_world w)
  unfolding pre_hooks build_cloud_tool_checkpoint_hooks
  pre_hooks_begin others w r f = ground (
    arith,
    pre_hook-own w r f,
    pre_hook-other codec post_tool_use request request.arguments [] (begun_world w) refl,
    pre_hook-other codec post_tool_error request request.arguments [] (begun_world w) refl,
  )

  pub begun-IsStarted :
      (w x : CloudWorld T)
      → SameRows (begun_world w) x
      → find (in_slot (call_slot id request)) w.checkpoints ≡ none
      → IsStarted x (begun w)
  unfolding begun
  begun-IsStarted w x same f = (
    ap (find (in_slot (call_slot id request))) same.0
        ∙ find-append_none (in_slot (call_slot id request)) w.checkpoints (begun w ∷ []) f
        ∙ started_found (call_slot id request) (digest codec request) request.tool_name
            request.arguments w.now,
    ground (
      arith,
      started-signature (call_slot id request) (digest codec request) request.tool_name
          request.arguments w.now,
      eq_refl (digest codec request),
    ),
  )

  ended_rows-SameRows :
      (t o : String) (w x : CloudWorld T) → SameRows w x → ended_rows t o x ≡ ended_rows t o w
  ended_rows-SameRows t o w x same =
      ap (λ c. update (in_slot (call_slot id request)) (finished t o none x.now) c) same.0
      ∙ ap (λ n. update (in_slot (call_slot id request)) (finished t o none n) w.checkpoints) same.1

  -- The first execution of a call whose slot no row has, where the other hooks let it pass: the call is made
  -- and over.
  pub execute-IsOver :
      (t : String) (tool : String → Fields → T → Invoked × T) (others : List (ToolHook T))
      (w : CloudWorld T)
      → All LetsPass others
      → any (λ r. r.id == id) w.runs ≡ true
      → find (in_slot (call_slot id request)) w.checkpoints ≡ none
      → IsOver
          (execute (cloud_executor codec t) request (tool_call tool) (map on_tools others) w)
          (begun_world w)
  execute-IsOver t tool others w pass r f =
      let begins = pre_hooks_begin others w r f in
      let (extra, p) =
        pre_hooks-LetsPass others request request.arguments [] (begun_world w) pass in
      let w2 =
        (pre_hooks (build_cloud_tool_checkpoint_hooks codec ++ map on_tools others) request
          request.arguments [] w).1 in
      let same : SameRows (begun_world w) w2 =
        subst (λ x. SameRows (begun_world w) x.1) (sym begins)
          (pre_hooks-SameRows others request request.arguments [] (begun_world w)) in
      let made =
        execute-proceed (cloud_executor codec t) (map on_tools others) request (tool_call tool) w
          request.arguments extra (ap (λ x. x.0) begins ∙ p) in
      let call = tool request.tool_name request.arguments w2.tools in
      let wt = record w2 { tools = call.1 } in
      let (result, answer, rows, v) =
        conclude-IsOver others extra wt (begun w) (begun-IsStarted w wt same f) t call.0 in
      (
        result,
        ap (λ x. x.0) made ∙ answer,
        ap (λ x. x.1.checkpoints) made
            ∙ rows
            ∙ ended_rows-SameRows result.status result.output (begun_world w) wt same,
        v,
      )
