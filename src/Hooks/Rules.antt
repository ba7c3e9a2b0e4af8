-- ===== src/Hooks/Rules.antt =====
-- What the hooks and the tool of a call all keep, the call keeps.
use kirakira_agent_online.Prelude.{
  ◌≡◌, ◌⊎◌, refl, subst, inl, inr, String, Bool, not, List, [], ◌∷◌, ◌++◌, arith, if_ind, Result,
  ok, err, Fields, All,
}
use kirakira_agent_online.Hooks.{
  pre_tool_use, same_event, ToolExecutionRequest, HookContext, HookOutcome, ToolExecutionResult,
  ToolHook, Invoked, timed_out, raised, returned, tool_result, PreStep, proceed, stop, aborted,
  when_matches, pre_context, pre_ran, pre_hook, pre_hooks, post_ran, post_hook, run_post_hooks,
}
use kirakira_agent_online.Hooks.Execute.{conclude, execute}

-- A run of the hook keeps the property, whatever it answers.
abbrev pub Keeps {ℓ} : {S : Type 0} → (S → Type ℓ) → ToolHook S → Type ℓ
Keeps {S} P h = (ctx : HookContext) (s : S) → P s → P (h.run ctx s).1

pub PreStep-cases :
    (p : PreStep)
    → ((a : Fields) × (x : List String) × (p ≡ proceed a x))
      ⊎ (((r : ToolExecutionResult) × (p ≡ stop r)) ⊎ ((t : String) × (p ≡ aborted t)))
PreStep-cases (proceed a x) = inl (a, x, refl)
PreStep-cases (stop r) = inr (inl (r, refl))
PreStep-cases (aborted t) = inr (inr (t, refl))

module _ {ℓ} {S : Type 0} (P : S → Type ℓ) where
  pre_ran-Keeps :
      (h : ToolHook S) (args : Fields) (extra : List String) (r : Result String HookOutcome × S)
      → P r.1
      → P (pre_ran h args extra r).1
  pre_ran-Keeps h args extra (ok o, s) p = p
  pre_ran-Keeps h args extra (err e, s) p = p

  post_ran-Keeps :
      (extra : List String) (r : Result String HookOutcome × S) → P r.1 → P (post_ran extra r).1
  post_ran-Keeps extra (ok o, s) p = p
  post_ran-Keeps extra (err e, s) p = p

  when_matches-Keeps {κ} :
      {A : Type κ} (m : Result String Bool) (failed : String → A × S) (run skip : A × S)
      → ((e : String) → P (failed e).1)
      → P run.1
      → P skip.1
      → P (when_matches m failed run skip).1
  when_matches-Keeps (err e) failed run skip f r k = f e
  when_matches-Keeps {A} (ok fits) failed run skip f r k =
      if_ind (λ (x : A × S). P x.1) fits (λ _. r) (λ _. k)

  pre_hook-Keeps :
      (h : ToolHook S) (request : ToolExecutionRequest) (args : Fields) (extra : List String)
      (s : S)
      → Keeps P h
      → P s
      → P (pre_hook h request args extra s).1
  unfolding pre_hook
  pre_hook-Keeps h request args extra s k p =
      if_ind (λ (r : PreStep × S). P r.1) (not (same_event h.event pre_tool_use)) (λ _. p)
        (λ _.
          when_matches-Keeps (h.matches (pre_context request args) s) _ _ _ (λ e. p)
            (pre_ran-Keeps h args extra (h.run (pre_context request args) s)
              (k (pre_context request args) s p))
            p)

  pub pre_hooks-Keeps :
      (hooks : List (ToolHook S)) (request : ToolExecutionRequest) (args : Fields)
      (extra : List String) (s : S)
      → All (Keeps P) hooks
      → P s
      → P (pre_hooks hooks request args extra s).1
  unfolding pre_hooks
  pre_hooks-Keeps [] request args extra s k p = p
  pre_hooks-Keeps (h ∷ hooks) request args extra s k p =
      let q = pre_hook-Keeps h request args extra s k.0 p in
      elim (PreStep-cases (pre_hook h request args extra s).0) [
        | inl (a, x, e) ↦ rw (e, pre_hooks) (pre_hooks-Keeps hooks request a x _ k.1 q)
        | inr (inl (r, e)) ↦ rw (e, pre_hooks) q
        | inr (inr (t, e)) ↦ rw (e, pre_hooks) q
      ]

  post_hook-Keeps :
      (ctx : HookContext) (h : ToolHook S) (extra : List String) (s : S)
      → Keeps P h
      → P s
      → P (post_hook ctx h extra s).1
  unfolding post_hook
  post_hook-Keeps ctx h extra s k p =
      if_ind (λ (r : List String × S). P r.1) (not (same_event h.event ctx.event)) (λ _. p)
        (λ _.
          when_matches-Keeps (h.matches ctx s) _ _ _ (λ e. p)
            (post_ran-Keeps extra (h.run ctx s) (k ctx s p)) p)

  pub run_post_hooks-Keeps :
      (ctx : HookContext) (hooks : List (ToolHook S)) (extra : List String) (s : S)
      → All (Keeps P) hooks
      → P s
      → P (run_post_hooks ctx hooks extra s).1
  unfolding run_post_hooks
  run_post_hooks-Keeps ctx [] extra s k p = p
  run_post_hooks-Keeps ctx (h ∷ hooks) extra s k p =
      run_post_hooks-Keeps ctx hooks _ _ k.1 (post_hook-Keeps ctx h extra s k.0 p)

  pub conclude-Keeps :
      (hooks : List (ToolHook S)) (request : ToolExecutionRequest) (timeout_text : String)
      (args : Fields) (extra : List String) (call : Invoked × S)
      → All (Keeps P) hooks
      → P call.1
      → P (conclude hooks request timeout_text args extra call).1
  unfolding conclude
  conclude-Keeps hooks request t args extra (timed_out, s) k p =
      run_post_hooks-Keeps _ hooks extra s k p
  conclude-Keeps hooks request t args extra (raised e, s) k p =
      run_post_hooks-Keeps _ hooks extra s k p
  conclude-Keeps hooks request t args extra (returned o, s) k p =
      run_post_hooks-Keeps _ hooks extra s k p
  conclude-Keeps hooks request t args extra (tool_result o b a, s) k p =
      if_ind (λ (r : Result String ToolExecutionResult × S). P r.1) b
        (λ _. run_post_hooks-Keeps _ hooks extra s k p)
        (λ _. run_post_hooks-Keeps _ hooks extra s k p)

  -- What holds after the first hook, and all that follows keeps, holds at the end of the call.
  pub execute-Keeps :
      (h : ToolHook S) (hooks additional : List (ToolHook S)) (t : String)
      (request : ToolExecutionRequest) (invoker : String → Fields → S → Invoked × S) (s : S)
      → ((name : String) (args : Fields) (s' : S) → P s' → P (invoker name args s').1)
      → All (Keeps P) (h ∷ hooks ++ additional)
      → P (pre_hook h request request.arguments [] s).1
      → P (execute (record { hooks = h ∷ hooks; timeout_text = t }) request invoker additional s).1
  unfolding execute pre_hooks
  execute-Keeps h hooks additional t request invoker s call k p =
      elim (PreStep-cases (pre_hook h request request.arguments [] s).0) [
        | inr (inl (r, e)) ↦ subst P (ground (arith, e)) p
        | inr (inr (r, e)) ↦ subst P (ground (arith, e)) p
        | inl (a, x, e) ↦
            let s1 = (pre_hook h request request.arguments [] s).1 in
            let more = hooks ++ additional in
            let q = pre_hooks-Keeps more request a x s1 k.1 p in
            elim (PreStep-cases (pre_hooks more request a x s1).0) [
              | inr (inl (r, f)) ↦ subst P (ground (arith, e, f)) q
              | inr (inr (r, f)) ↦ subst P (ground (arith, e, f)) q
              | inl (a', x', f) ↦ subst P (ground (arith, e, f)) (
                  conclude-Keeps (h ∷ more) request t a' x'
                    (invoker request.tool_name a' (pre_hooks more request a x s1).1) k
                    (call request.tool_name a' _ q))
            ]
      ]
