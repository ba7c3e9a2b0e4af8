-- ===== src/Hooks/Fenced.antt =====
-- The first checkpoint hook of a call, for the hooks of cloud/tool_checkpoints.py: it fences the call.
use kirakira_agent_online.Prelude.{
  ℕ, ◌≡◌, ◌⊎◌, refl, subst, ap, ◌∙◌, inl, inr, String, false, none, some, List, [], ◌∷◌, arith,
  is_empty, Option-cases, ok, err, Fields,
}
use kirakira_agent_online.Store.{StoreError, Run}
use kirakira_agent_online.Store.Checkpoints.{
  RunToolCheckpoint, SlotAnswer, SlotTx, Slot, begin_tool_checkpoint,
}
use kirakira_agent_online.Store.Checkpoints.Fence.{Held, begun-Held, answer-fresh}
use kirakira_agent_online.Hooks.{
  pre_tool_use, ToolExecutionRequest, ToolHook, Invoked, PreStep, proceed, stop, aborted,
  pre_context, pre_outcome, pre_hook, pre_hooks,
}
use kirakira_agent_online.Hooks.Execute.{execute}
use kirakira_agent_online.Hooks.Rules.{PreStep-cases}
use kirakira_agent_online.Hooks.Cloud.{CloudWorld, Codec, slot_of, outcome_of, checkpoint_hook}

abbrev pub Stopped : PreStep → Type 0
Stopped (proceed args extra) = ⊥
Stopped (stop r) = Unit
Stopped (aborted t) = Unit

outcome_of-Stopped :
    (a : SlotAnswer) (c : RunToolCheckpoint) (args : Fields) (extra : List String)
    → (a ≡ SlotAnswer.fresh → ⊥)
    → Stopped (pre_outcome (outcome_of (a, c)) args extra)
unfolding outcome_of pre_outcome
outcome_of-Stopped SlotAnswer.fresh c args extra h = absurd (h refl)
outcome_of-Stopped SlotAnswer.replay c args extra h = tt
outcome_of-Stopped SlotAnswer.ambiguous c args extra h = tt
outcome_of-Stopped SlotAnswer.diverged c args extra h = tt

-- A step that stops leaves the world as it is after the hook that stopped it.
pub execute_unchanged :
    {T : Type 0} (hooks : List (ToolHook T)) (h : ToolHook T) (t : String)
    (request : ToolExecutionRequest) (tool : String → Fields → T → Invoked × T)
    (others : List (ToolHook T)) (w : T)
    → Stopped (pre_hook h request request.arguments [] w).0
    → (execute (record { hooks = h ∷ hooks; timeout_text = t }) request tool others w).1
      ≡ (pre_hook h request request.arguments [] w).1
unfolding execute pre_hooks
execute_unchanged hooks h t request tool others w st =
    elim (PreStep-cases (pre_hook h request request.arguments [] w).0) [
      | inl (a, x, e) ↦ absurd (subst Stopped e st)
      | inr (inl (r, e)) ↦ ground (arith, e)
      | inr (inr (r, e)) ↦ ground (arith, e)
    ]

SlotTx-cases :
    (r : SlotTx (SlotAnswer × RunToolCheckpoint))
    → ((e : StoreError) × (r ≡ err e))
      ⊎ ((a : SlotAnswer) × (c : RunToolCheckpoint) × (rows : List RunToolCheckpoint) × (r
            ≡ ok ((a, c), rows)))
SlotTx-cases (err e) = inl (e, refl)
SlotTx-cases (ok ((a, c), rows)) = inr (a, c, rows, refl)

-- A slot that is held gives no fresh answer, and beginning it writes nothing.
begin_again :
    (s : Slot) (g g' n : String) (args : Fields) (now : ℕ) (runs : List Run)
    (rows : List RunToolCheckpoint) (a : SlotAnswer) (c : RunToolCheckpoint)
    (rows' : List RunToolCheckpoint)
    → Held s g rows
    → begin_tool_checkpoint s g' n args now runs rows ≡ ok ((a, c), rows')
    → (a ≡ SlotAnswer.fresh → ⊥) × (rows' ≡ rows)
unfolding begin_tool_checkpoint
begin_again s g g' n args now runs rows a c rows' h e =
    (λ f. answer-fresh g' h.row (ground (arith, h.found, f)), ground (arith, h.found))

fresh-cases : (a : SlotAnswer) → (a ≡ SlotAnswer.fresh) ⊎ (a ≡ SlotAnswer.fresh → ⊥)
fresh-cases SlotAnswer.fresh = inl refl
fresh-cases SlotAnswer.replay = inr (λ e. cc)
fresh-cases SlotAnswer.ambiguous = inr (λ e. cc)
fresh-cases SlotAnswer.diverged = inr (λ e. cc)

-- The first hook of a call: its outcome and the world after it.
unfoldable pub first_hook :
    {T : Type 0} → Codec → ToolExecutionRequest → CloudWorld T → PreStep × CloudWorld T
first_hook codec request w =
    pre_hook (checkpoint_hook codec pre_tool_use) request request.arguments [] w

module _ {T : Type 0} (codec : Codec) (request : ToolExecutionRequest)
    (named : is_empty request.chat_id ≡ false) where
  begins : ℕ → CloudWorld T → SlotTx (SlotAnswer × RunToolCheckpoint)
  begins id w =
      begin_tool_checkpoint (slot_of id (pre_context request request.arguments))
        (codec.signature request.tool_name request.arguments) request.tool_name request.arguments
        w.now w.runs w.checkpoints

  first_hook-no_uuid :
      (w : CloudWorld T)
      → codec.uuid_of request.chat_id ≡ none
      → Stopped (first_hook codec request w).0 × ((first_hook codec request w).1 ≡ w)
  unfolding first_hook pre_hook checkpoint_hook
  first_hook-no_uuid w e = rw (named, e) (tt, refl)

  first_hook-refused :
      (w : CloudWorld T) (id : ℕ) (e : StoreError)
      → codec.uuid_of request.chat_id ≡ some id
      → begins id w ≡ err e
      → Stopped (first_hook codec request w).0 × ((first_hook codec request w).1 ≡ w)
  unfolding first_hook pre_hook checkpoint_hook begins
  first_hook-refused w id e u b = rw (named, u) (rw b (tt, refl))

  first_hook-answered :
      (w : CloudWorld T) (id : ℕ) (a : SlotAnswer) (c : RunToolCheckpoint)
      (rows : List RunToolCheckpoint)
      → codec.uuid_of request.chat_id ≡ some id
      → begins id w ≡ ok ((a, c), rows)
      → first_hook codec request w
        ≡ (pre_outcome (outcome_of (a, c)) request.arguments [], record w { checkpoints = rows })
  unfolding first_hook pre_hook checkpoint_hook begins
  first_hook-answered w id a c rows u b = rw (named, u) (rw b refl)

  -- The first hook stops the call and leaves the tools as they are, or the slot is held from here on.
  pub first_hook_holds :
      (w : CloudWorld T)
      → (Stopped (first_hook codec request w).0 × ((first_hook codec request w).1.tools ≡ w.tools))
        ⊎ ((id : ℕ) × (codec.uuid_of request.chat_id ≡ some id)
            × Held
                (slot_of id (pre_context request request.arguments))
                (codec.signature request.tool_name request.arguments)
                (first_hook codec request w).1.checkpoints)
  unfolding begins
  first_hook_holds w = elim (Option-cases (codec.uuid_of request.chat_id)) [
    | inl u ↦ let (st, e) = first_hook-no_uuid w u in inl (st, ap (λ (x : CloudWorld T). x.tools) e)
    | inr (id, u) ↦ elim (SlotTx-cases (begins id w)) [
      | inl (e, b) ↦
          let (st, q) = first_hook-refused w id e u b in
          inl (st, ap (λ (x : CloudWorld T). x.tools) q)
      | inr (a, c, rows, b) ↦ elim (fresh-cases a) [
        | inr f ↦ inl (
          rw (first_hook-answered w id a c rows u b)
              (outcome_of-Stopped a c request.arguments [] f),
          ap (λ (x : PreStep × CloudWorld T). x.1.tools) (first_hook-answered w id a c rows u b),
        )
        | inl f ↦ inr (
          id,
          u,
          rw (first_hook-answered w id a c rows u b)
              (begun-Held (slot_of id (pre_context request request.arguments))
                (codec.signature request.tool_name request.arguments) request.tool_name
                request.arguments w.now w.runs w.checkpoints c rows
                (subst (λ x. begins id w ≡ ok ((x, c), rows)) f b)).1,
        )
      ]
    ]
  ]

  -- Where the slot is held, the first hook stops the call and changes nothing.
  pub first_hook_again :
      (w : CloudWorld T) (id : ℕ) (g : String)
      → codec.uuid_of request.chat_id ≡ some id
      → Held (slot_of id (pre_context request request.arguments)) g w.checkpoints
      → Stopped (first_hook codec request w).0 × ((first_hook codec request w).1 ≡ w)
  unfolding begins
  first_hook_again w id g u h = elim (SlotTx-cases (begins id w)) [
    | inl (e, b) ↦ first_hook-refused w id e u b
    | inr (a, c, rows, b) ↦
        let (f, r) =
          begin_again (slot_of id (pre_context request request.arguments)) g
            (codec.signature request.tool_name request.arguments) request.tool_name
            request.arguments w.now w.runs w.checkpoints a c rows h b in
        (
          rw (first_hook-answered w id a c rows u b)
              (outcome_of-Stopped a c request.arguments [] f),
          ap (λ (x : PreStep × CloudWorld T). x.1) (first_hook-answered w id a c rows u b)
              ∙ ap (λ (l : List RunToolCheckpoint). record w { checkpoints = l }) r,
        )
  ]
