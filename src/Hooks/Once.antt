-- ===== src/Hooks/Once.antt =====
-- A tool call under the checkpoint hooks of cloud/tool_checkpoints.py happens at most once.
use kirakira_agent_online.Prelude.{
  ℕ, ◌≡◌, ◌⊎◌, sym, subst, ap, ◌∙◌, inl, inr, String, false, List, [], ◌∷◌, map, arith, is_empty,
  Option-cases, ok, err, Fields, All,
}
use kirakira_agent_online.Store.{Run}
use kirakira_agent_online.Store.Checkpoints.{RunToolCheckpoint, SlotAnswer, SlotTx, Slot}
use kirakira_agent_online.Store.Checkpoints.Fence.{
  SlotCall, slot_calls, rows_after, Held, begin-Held, finish-Held, slot_calls-Held,
}
use kirakira_agent_online.Hooks.{
  HookEvent, pre_tool_use, post_tool_use, post_tool_error, ToolExecutionRequest, HookContext,
  ToolHook, Invoked, pre_context,
}
use kirakira_agent_online.Hooks.Execute.{ToolExecutor, execute}
use kirakira_agent_online.Hooks.Rules.{Keeps, execute-Keeps}
use kirakira_agent_online.Hooks.Cloud.{
  CloudWorld, Codec, slot_of, began_checkpoint, ended_checkpoint, end_checkpoint,
  run_checkpoint_hook, checkpoint_hook, build_cloud_tool_checkpoint_hooks,
}
use kirakira_agent_online.Hooks.Fenced.{
  execute_unchanged, first_hook, first_hook_holds, first_hook_again,
}

-- The worker's executor, with the checkpoint hooks first.
abbrev pub cloud_executor : {T : Type 0} → Codec → String → ToolExecutor (CloudWorld T)
cloud_executor codec timeout_text = record {
  hooks = build_cloud_tool_checkpoint_hooks codec;
  timeout_text = timeout_text;
}

-- Any other hook, and the tool, act on the tools' own state.
abbrev pub on_tools : {T : Type 0} → ToolHook T → ToolHook (CloudWorld T)
on_tools h = record {
  name = h.name;
  event = h.event;
  matches = λ ctx w. h.matches ctx w.tools;
  run = λ ctx w. let r = h.run ctx w.tools in (r.0, record w { tools = r.1 });
}

abbrev pub tool_call :
    {T : Type 0}
    → (String → Fields → T → Invoked × T)
    → String
    → Fields
    → CloudWorld T
    → Invoked × CloudWorld T
tool_call tool name args w = let r = tool name args w.tools in (r.0, record w { tools = r.1 })

module _ {T : Type 0} (codec : Codec) (s : Slot) (g : String) where
  abbrev InWorld : CloudWorld T → Type 0
  InWorld w = Held s g w.checkpoints

  began-InWorld :
      (w : CloudWorld T) (r : SlotTx (SlotAnswer × RunToolCheckpoint))
      → Held s g (rows_after w.checkpoints r)
      → InWorld (began_checkpoint codec w r).1
  unfolding rows_after
  began-InWorld w (err e) h = h
  began-InWorld w (ok (a, rows)) h = h

  ended-InWorld :
      (w : CloudWorld T) (r : SlotTx RunToolCheckpoint)
      → Held s g (rows_after w.checkpoints r)
      → InWorld (ended_checkpoint codec w r).1
  unfolding rows_after
  ended-InWorld w (err e) h = h
  ended-InWorld w (ok (a, rows)) h = h

  run_checkpoint_hook-InWorld :
      (event : HookEvent) (id : ℕ) (ctx : HookContext) (w : CloudWorld T)
      → InWorld w
      → InWorld (run_checkpoint_hook codec event id ctx w).1
  unfolding run_checkpoint_hook end_checkpoint
  run_checkpoint_hook-InWorld pre_tool_use id ctx w h =
      began-InWorld w _ (begin-Held s g _ _ _ _ _ _ _ h)
  run_checkpoint_hook-InWorld post_tool_use id ctx w h =
      ended-InWorld w _ (finish-Held s g _ _ _ _ _ _ _ h)
  run_checkpoint_hook-InWorld post_tool_error id ctx w h =
      ended-InWorld w _ (finish-Held s g _ _ _ _ _ _ _ h)

  checkpoint_hook-InWorld : (event : HookEvent) → Keeps InWorld (checkpoint_hook codec event)
  unfolding checkpoint_hook
  checkpoint_hook-InWorld event ctx w h = elim (Option-cases (codec.uuid_of ctx.request.chat_id)) [
    | inl e ↦ rw e h
    | inr (id, e) ↦ rw e (run_checkpoint_hook-InWorld event id ctx w h)
  ]

  others-InWorld : (others : List (ToolHook T)) → All (Keeps InWorld) (map on_tools others)
  others-InWorld [] = tt
  others-InWorld (o ∷ others) = (λ ctx w h. h, others-InWorld others)

-- A tool call happens at most once: of two executions of calls in one slot of a run, where only the
-- store's checkpoint calls and whatever the tools do themselves lie between, either the first one left the
-- tools alone, or the second one changes nothing at all, whatever its arguments, its other hooks and the
-- tool. The chat of the calls is named, as it is for every run of a worker.
pub invoked_once :
    {T : Type 0} (codec : Codec) (t t' : String) (request request' : ToolExecutionRequest)
    (tool tool' : String → Fields → T → Invoked × T) (others others' : List (ToolHook T))
    (w w' : CloudWorld T) (runs : List Run) (calls : List SlotCall)
    → is_empty request.chat_id ≡ false
    → request'.chat_id ≡ request.chat_id
    → request'.iteration ≡ request.iteration
    → request'.call_index ≡ request.call_index
    → w'.checkpoints
      ≡ slot_calls runs calls
          (execute
            (cloud_executor codec t)
            request
            (tool_call tool)
            (map on_tools others)
            w).1.checkpoints
    → ((execute (cloud_executor codec t) request (tool_call tool) (map on_tools others) w).1.tools
        ≡ w.tools)
      ⊎ ((execute (cloud_executor codec t') request' (tool_call tool') (map on_tools others') w').1
          ≡ w')
unfolding build_cloud_tool_checkpoint_hooks first_hook
invoked_once {T} codec t t' request request' tool tool' others others' w w' runs calls n c i j e =
    elim (first_hook_holds codec request n w) [
      | inl (st, q) ↦ inl (
          ap (λ (x : CloudWorld T). x.tools)
            (execute_unchanged tail pre t request (tool_call tool) (map on_tools others) w st)
          ∙ q)
      | inr (id, u, h) ↦
          let s = slot_of id (pre_context request request.arguments) in
          let g = codec.signature request.tool_name request.arguments in
          let kept =
            execute-Keeps (InWorld codec s g) pre tail (map on_tools others) t request
              (tool_call tool) w (λ name args x p. p)
              (
                checkpoint_hook-InWorld codec s g pre_tool_use,
                (
                  checkpoint_hook-InWorld codec s g post_tool_use,
                  (
                    checkpoint_hook-InWorld codec s g post_tool_error,
                    others-InWorld codec s g others,
                  ),
                ),
              )
              h in
          let now = subst (Held s g) (sym e) (slot_calls-Held s g runs calls _ kept) in
          let same : slot_of id (pre_context request' request'.arguments) ≡ s = ground (arith) in
          let (st, q) =
            first_hook_again codec request' (ap is_empty c ∙ n) w' id g (ap codec.uuid_of c ∙ u)
              (subst (λ x. Held x g w'.checkpoints) (sym same) now) in
          inr (
            execute_unchanged tail pre t' request' (tool_call tool') (map on_tools others') w' st
            ∙ q)
    ]
  where
    pre : ToolHook (CloudWorld T)
    pre = checkpoint_hook codec pre_tool_use

    tail : List (ToolHook (CloudWorld T))
    tail = checkpoint_hook codec post_tool_use ∷ checkpoint_hook codec post_tool_error ∷ []
