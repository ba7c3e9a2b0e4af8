-- ===== src/Hooks/Replay.antt =====
-- A tool call that has ended is answered again from its checkpoint: cloud/tool_checkpoints.py.
use kirakira_agent_online.Prelude.{
  ℕ, ◌≡◌, refl, ap, ◌∙◌, String, true, false, not, ◌&&◌, none, some, List, [], ◌∷◌, arith, is_empty,
  ok, Fields, All, any, find, update, str_eq, ◌==◌, map,
}
use kirakira_agent_online.Store.Checkpoints.{RunToolCheckpoint, SlotAnswer, in_slot, finished}
use kirakira_agent_online.Store.Checkpoints.Fence.{finished_row, replayed, ended_status}
use kirakira_agent_online.Hooks.{
  pre_tool_use, ToolExecutionRequest, ToolExecutionResult, plain_result, ToolHook, Invoked, stop,
  pre_outcome, pre_hook, pre_hooks,
}
use kirakira_agent_online.Hooks.Execute.{execute}
use kirakira_agent_online.Hooks.Cloud.{
  CloudWorld, Codec, outcome_of, checkpoint_hook, build_cloud_tool_checkpoint_hooks,
}
use kirakira_agent_online.Hooks.Once.{cloud_executor, on_tools, tool_call}
use kirakira_agent_online.Hooks.Ending.{
  call_slot, digest, begun, begun_world, begun-IsStarted, execute-IsOver,
}
use kirakira_agent_online.Hooks.Passing.{LetsPass}

execute-stop :
    {S : Type 0} (h : ToolHook S) (hooks additional : List (ToolHook S)) (t : String)
    (request : ToolExecutionRequest) (invoker : String → Fields → S → Invoked × S) (s s' : S)
    (r : ToolExecutionResult)
    → pre_hook h request request.arguments [] s ≡ (stop r, s')
    → execute (record { hooks = h ∷ hooks; timeout_text = t }) request invoker additional s
      ≡ (ok r, s')
unfolding execute pre_hooks
execute-stop h hooks additional t request invoker s s' r e = ground (arith, e)

module _ {T : Type 0} (codec : Codec) (request : ToolExecutionRequest) (id : ℕ)
    (named : is_empty request.chat_id ≡ false) (u : codec.uuid_of request.chat_id ≡ some id) where
  replay_step :
      (w : CloudWorld T) (d : RunToolCheckpoint)
      → any (λ r. r.id == id) w.runs ≡ true
      → find (in_slot (call_slot id request)) w.checkpoints ≡ some d
      → str_eq d.signature (digest codec request) ≡ true
      → str_eq d.status "started" ≡ false
      → pre_hook (checkpoint_hook codec pre_tool_use) request request.arguments [] w
        ≡ (pre_outcome (outcome_of (SlotAnswer.replay, d)) request.arguments [], w)
  unfolding pre_hook checkpoint_hook
  replay_step w d r f i j =
      rw (named, u)
        (rw
          (replayed (call_slot id request) (digest codec request) request.tool_name
            request.arguments w.now w.runs w.checkpoints d r f i j)
          refl)

  finished_step :
      (w : CloudWorld T) (now : ℕ) (rows : List RunToolCheckpoint) (d : RunToolCheckpoint)
      (status output : String)
      → any (λ r. r.id == id) w.runs ≡ true
      → find (in_slot (call_slot id request)) rows ≡ some d
      → str_eq d.signature (digest codec request) ≡ true
      → (not (str_eq status "success") && not (str_eq status "error")) ≡ false
      → w.checkpoints
        ≡ update (in_slot (call_slot id request)) (finished status output none now) rows
      → pre_hook (checkpoint_hook codec pre_tool_use) request request.arguments [] w
        ≡ (stop (plain_result status output request.arguments []), w)
  unfolding finished pre_outcome outcome_of
  finished_step w now rows d status output r f i v e =
      replay_step w (finished status output none now d) r
        (ap (find (in_slot (call_slot id request))) e
          ∙ finished_row (call_slot id request) status output none now rows d f)
        i (ended_status status v)

-- A call that is over is replayed: where no row has the slot of a call of an existing run, and each other
-- hook of the first execution lets every call pass with the arguments that it has (a hook that changes or
-- refuses them leaves the slot begun), that execution ends with a result, however the tool ends and whatever
-- the hooks do after it; and an execution of the same call on the rows that this left, with any other hooks
-- and in any other state, answers with that result's status and output, and calls neither the tool nor a
-- later hook. Its result has no `mobile_attention` and no messages, whatever the first one had.
pub call_replayed :
    {T : Type 0} (codec : Codec) (t t' : String) (request : ToolExecutionRequest) (id : ℕ)
    (tool tool' : String → Fields → T → Invoked × T) (others others' : List (ToolHook T))
    (w w' : CloudWorld T)
    → is_empty request.chat_id ≡ false
    → codec.uuid_of request.chat_id ≡ some id
    → any (λ r. r.id == id) w.runs ≡ true
    → any (λ r. r.id == id) w'.runs ≡ true
    → find (in_slot (call_slot id request)) w.checkpoints ≡ none
    → All LetsPass others
    → w'.checkpoints
      ≡ (execute
          (cloud_executor codec t)
          request
          (tool_call tool)
          (map on_tools others)
          w).1.checkpoints
    → (r : ToolExecutionResult) × ((execute
          (cloud_executor codec t)
          request
          (tool_call tool)
          (map on_tools others)
          w).0
        ≡ ok r)
      × (execute (cloud_executor codec t') request (tool_call tool') (map on_tools others') w'
          ≡ (ok (plain_result r.status r.output request.arguments []), w'))
unfolding build_cloud_tool_checkpoint_hooks begun
call_replayed codec t t' request id tool tool' others others' w w' n u r r' f pass e =
    let (result, answer, rows, v) = execute-IsOver codec request id n u t tool others w pass r f in
    let (g, i) =
      begun-IsStarted codec request id n u w (begun_world codec request id n u w) (refl, refl) f in
    (
      result,
      answer,
      execute-stop (checkpoint_hook codec pre_tool_use) _ (map on_tools others') t' request
          (tool_call tool') w' w' (plain_result result.status result.output request.arguments [])
          (finished_step codec request id n u w' w.now _ (begun codec request id n u w)
            result.status result.output r' g i v (e ∙ rows)),
    )
