-- ===== src/Hooks/Passing.antt =====
-- Hooks of agent/tool_hooks/__init__.py that let a call pass with the arguments that it has, and what the
-- hooks that act on the tools' own state leave of the checkpoints.
use kirakira_agent_online.Prelude.{
  ◌≡◌, refl, ◌∙◌, String, Bool, true, false, not, List, [], ◌∷◌, map, Bool-cases, inl, inr, Result,
  ok, err, Fields, All,
}
use kirakira_agent_online.Hooks.{
  pre_tool_use, same_event, ToolExecutionRequest, HookContext, HookOutcome, ToolHook, proceed,
  when_matches, pre_context, hook_failed, pre_ran, pre_hook, pre_hooks, run_post_hooks,
}
use kirakira_agent_online.Hooks.Cloud.{CloudWorld}
use kirakira_agent_online.Hooks.Rules.{Keeps, pre_hooks-Keeps, run_post_hooks-Keeps}
use kirakira_agent_online.Hooks.Once.{on_tools}

-- Before a call the hook is not run, or allows the call with the arguments as they are; it may add a message.
abbrev pub LetsPass : {T : Type 0} → ToolHook T → Type 0
LetsPass {T} h =
    (request : ToolExecutionRequest) (args : Fields) (extra : List String) (s : T)
    → (extra' : List String) × ((pre_hook h request args extra s).0 ≡ proceed args extra')

module _ {T : Type 0} where
  pre_ran-on_tools :
      (h : ToolHook T) (args : Fields) (extra : List String) (w : CloudWorld T)
      (r : Result String HookOutcome × T)
      → (pre_ran (on_tools h) args extra (r.0, record w { tools = r.1 })).0
        ≡ (pre_ran h args extra r).0
  pre_ran-on_tools h args extra w (ok o, t) = refl
  pre_ran-on_tools h args extra w (err e, t) = refl

  pre_hook-on_tools :
      (h : ToolHook T) (request : ToolExecutionRequest) (args : Fields) (extra : List String)
      (w : CloudWorld T)
      → (pre_hook (on_tools h) request args extra w).0 ≡ (pre_hook h request args extra w.tools).0
  unfolding pre_hook
  pre_hook-on_tools h request args extra w =
      elim (Bool-cases (not (same_event h.event pre_tool_use))) [
        | inl e ↦ rw e refl
        | inr e ↦ rw e (fits (h.matches (pre_context request args) w.tools))
      ]
    where
      fits :
          (m : Result String Bool)
          → (when_matches m
              (λ e. (hook_failed h.name e args extra, w))
              (pre_ran (on_tools h) args extra ((on_tools h).run (pre_context request args) w))
              (proceed args extra, w)).0
            ≡ (when_matches m
                (λ e. (hook_failed h.name e args extra, w.tools))
                (pre_ran h args extra (h.run (pre_context request args) w.tools))
                (proceed args extra, w.tools)).0
      fits (err e) = refl
      fits (ok true) = pre_ran-on_tools h args extra w (h.run (pre_context request args) w.tools)
      fits (ok false) = refl

  -- Hooks that let a call pass let it pass one after the other.
  pub pre_hooks-LetsPass :
      (hooks : List (ToolHook T)) (request : ToolExecutionRequest) (args : Fields)
      (extra : List String) (w : CloudWorld T)
      → All LetsPass hooks
      → (extra' : List String) × ((pre_hooks (map on_tools hooks) request args extra w).0
          ≡ proceed args extra')
  unfolding pre_hooks
  pre_hooks-LetsPass [] request args extra w all = (extra, refl)
  pre_hooks-LetsPass (h ∷ hooks) request args extra w all =
      let (x, e) = all.0 request args extra w.tools in
      let step = pre_hook-on_tools h request args extra w ∙ e in
      let (y, f) =
        pre_hooks-LetsPass hooks request args x (pre_hook (on_tools h) request args extra w).1
          all.1 in
      (y, rw (step, pre_hooks) f)

  -- The checkpoints and the clock as they are.
  abbrev pub SameRows : CloudWorld T → CloudWorld T → Type 0
  SameRows w x = (x.checkpoints ≡ w.checkpoints) × (x.now ≡ w.now)

  on_tools-SameRows :
      (w : CloudWorld T) (hooks : List (ToolHook T)) → All (Keeps (SameRows w)) (map on_tools hooks)
  on_tools-SameRows w [] = tt
  on_tools-SameRows w (h ∷ hooks) = (λ ctx x p. p, on_tools-SameRows w hooks)

  pub pre_hooks-SameRows :
      (hooks : List (ToolHook T)) (request : ToolExecutionRequest) (args : Fields)
      (extra : List String) (w : CloudWorld T)
      → SameRows w (pre_hooks (map on_tools hooks) request args extra w).1
  pre_hooks-SameRows hooks request args extra w =
      pre_hooks-Keeps (SameRows w) (map on_tools hooks) request args extra w
        (on_tools-SameRows w hooks) (refl, refl)

  pub run_post_hooks-SameRows :
      (hooks : List (ToolHook T)) (ctx : HookContext) (extra : List String) (w : CloudWorld T)
      → SameRows w (run_post_hooks ctx (map on_tools hooks) extra w).1
  run_post_hooks-SameRows hooks ctx extra w =
      run_post_hooks-Keeps (SameRows w) ctx (map on_tools hooks) extra w (on_tools-SameRows w hooks)
        (refl, refl)
