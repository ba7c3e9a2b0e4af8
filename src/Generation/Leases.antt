-- ===== src/Generation/Leases.antt =====
-- What the leases of agent/plugins/generation.py promise: no generation of a turn is quiesced under it.
use kirakira_agent_online.Prelude.{
  ℕ, ◌≤◌, String, ◌≡◌, refl, sym, subst, inl, inr, Bool, true, false, not, Option, List, [], ◌∷◌,
  arith, ◌==◌, if◌then◌else◌, if_ind, Result, any, keep, Bool-cases, Option-cases, ==→eq,
}
use kirakira_agent_online.Generation.{
  GenerationState, active, retired, quiesced, PluginGeneration, CurrentGeneration, Registry,
  GenerationError, is_passed, is_quiesced, modify, enter_state, can_quiesce, current_of,
  without_plugin, set_current, retire_generation, publish, retire, drain_quiescible, retire_each,
  retire_all, begin_publication, finish_publication, RegistryCall, publish_call, leave_call,
  retire_call, lease_call, drain_call, retire_all_call, begin_call, finish_call, registry_call,
  registry_calls, new_registry,
}
use kirakira_agent_online.Generation.Counts.{held_in, Counted, Inv, lease_active-Inv, leave-Inv}

enter_state-Counted :
    (held : ℕ → ℕ) (state : GenerationState) (k : ℕ) (r : Registry)
    → is_quiesced state ≡ false
    → Counted held r
    → Counted held (enter_state state k r)
unfolding enter_state modify
enter_state-Counted held state k r n v = record {
  counted = λ j. ground (arith, v.counted j, ==→eq j k);
  quiet = λ j q. ground (arith, v.quiet j);
}

any-keep : (p : ℕ → Bool) (j : ℕ) (xs : List ℕ) → any (λ k. k == j) (keep p xs) ≡ true → p j ≡ true
any-keep p j [] h = cc
any-keep p j (x ∷ xs) h = elim (Bool-cases (p x)) [
  | inr n ↦ any-keep p j xs (ground arith)
  | inl y ↦ elim (Bool-cases (x == j)) [
    | inl e ↦ subst (λ i. p i ≡ true) (==→eq x j e) y
    | inr e ↦ any-keep p j xs (ground arith)
  ]
]

can_quiesce-count : (g : PluginGeneration) → can_quiesce g ≡ true → g.lease_count ≡ 0
unfolding can_quiesce
can_quiesce-count g h = ==→eq g.lease_count 0 (ground arith)

drain_quiet :
    (j : ℕ) (b : Bool) (r : Registry)
    → Inv r
    → any (λ k. k == j) (keep (λ k. can_quiesce (r.objects k)) r.retired_list) ≡ b
    → is_quiesced (if b then record (r.objects j) { state = quiesced } else r.objects j).state
      ≡ true
    → (if b then record (r.objects j) { state = quiesced } else r.objects j).lease_count ≡ 0
unfolding Inv
drain_quiet j true r v e q =
    can_quiesce-count (r.objects j) (any-keep (λ k. can_quiesce (r.objects k)) j r.retired_list e)
drain_quiet j false r v e q = v.quiet j q

drain-Inv : (r : Registry) → Inv r → Inv (drain_quiescible r).1
unfolding drain_quiescible Inv
drain-Inv r v = record {
  counted = λ j. ground (arith, v.counted j);
  quiet = λ j q.
      drain_quiet j (any (λ k. k == j) (keep (λ k. can_quiesce (r.objects k)) r.retired_list)) r v
        refl q;
}

retire_generation-Inv : (k : ℕ) (r : Registry) → Inv r → Inv (retire_generation k r)
unfolding Inv retire_generation enter_state modify
retire_generation-Inv k r v =
    let w = enter_state-Counted (λ j. held_in j r.turns) retired k r refl v in
    record { counted = w.counted; quiet = w.quiet }

-- The registry once a generation is published, before the previous one is retired.
abbrev published : ℕ → Registry → Registry
published k r = record (enter_state active k r) {
  current = set_current (r.objects k).plugin_id k r.current;
}

published-Inv : (k : ℕ) (r : Registry) → Inv r → Inv (published k r)
unfolding Inv enter_state modify
published-Inv k r v =
    let w = enter_state-Counted (λ j. held_in j r.turns) active k r refl v in
    record { counted = w.counted; quiet = w.quiet }

removed-Inv :
    (p : String) (r : Registry) → Inv r → Inv (record r { current = without_plugin p r.current })
unfolding Inv
removed-Inv p r v = record { counted = v.counted; quiet = v.quiet }

publish-Inv : (k : ℕ) (r : Registry) → Inv r → Inv (publish k r).1
unfolding publish
publish-Inv k r v =
    let id = (r.objects k).plugin_id in
    let r' = published k r in
    if_ind (λ (x : Result GenerationError (Option ℕ) × Registry). Inv x.1)
      (not (is_passed (r.objects k).gate_result)) (λ e. v)
      (λ e. elim (Option-cases (current_of id r)) [
        | inl f ↦ subst Inv (sym (ground arith)) (published-Inv k r v)
        | inr (c, f) ↦
            subst Inv (sym (ground arith))
              (retire_generation-Inv c.generation r' (published-Inv k r v))
      ])

retire-Inv : (p : String) (r : Registry) → Inv r → Inv (retire p r).1
unfolding retire
retire-Inv p r v = elim (Option-cases (current_of p r)) [
  | inl f ↦ subst Inv (sym (ground arith)) v
  | inr (c, f) ↦ subst Inv (sym (ground arith)) (
      retire_generation-Inv c.generation (record r { current = without_plugin p r.current })
        (removed-Inv p r v))
]

retire_each-Inv :
    (entries : List CurrentGeneration) (r : Registry) → Inv r → Inv (retire_each entries r)
unfolding retire_each
retire_each-Inv [] r v = v
retire_each-Inv (c ∷ entries) r v =
    retire_each-Inv entries (retire_generation c.generation r)
      (retire_generation-Inv c.generation r v)

retire_all-Inv : (r : Registry) → Inv r → Inv (retire_all r).1
unfolding Inv retire_all
retire_all-Inv r v =
    let w = retire_each-Inv r.current r v in record { counted = w.counted; quiet = w.quiet }

begin-Inv : (r : Registry) → Inv r → Inv (begin_publication r).1
unfolding begin_publication Inv
begin-Inv r v =
    if_ind (λ (x : Result GenerationError (Unit {0}) × Registry). Inv x.1) r.publication_in_progress
      (λ e. v) (λ e. record { counted = v.counted; quiet = v.quiet })

registry_call-Inv : (c : RegistryCall) (r : Registry) → Inv r → Inv (registry_call c r)
unfolding registry_call Inv finish_publication
registry_call-Inv (publish_call k) r v = publish-Inv k r v
registry_call-Inv (leave_call n) r v = leave-Inv n r v
registry_call-Inv (retire_call p) r v = retire-Inv p r v
registry_call-Inv lease_call r v = lease_active-Inv r v
registry_call-Inv drain_call r v = drain-Inv r v
registry_call-Inv retire_all_call r v = retire_all-Inv r v
registry_call-Inv begin_call r v = begin-Inv r v
registry_call-Inv finish_call r v = record { counted = v.counted; quiet = v.quiet }

registry_calls-Inv : (more : List RegistryCall) (r : Registry) → Inv r → Inv (registry_calls more r)
unfolding registry_calls
registry_calls-Inv [] r v = v
registry_calls-Inv (c ∷ more) r v =
    registry_calls-Inv more (registry_call c r) (registry_call-Inv c r v)

-- Generation objects that nobody leased.
pub record Unleased (objects : ℕ → PluginGeneration) : Type 0 where
  pub none_leased : (k : ℕ) → (objects k).lease_count ≡ 0

new_registry-Inv : (objects : ℕ → PluginGeneration) → Unleased objects → Inv (new_registry objects)
unfolding Inv new_registry held_in
new_registry-Inv objects u = record { counted = u.none_leased; quiet = λ k q. u.none_leased k }

-- Whatever publications, retirements and drains happen while turns enter and leave `lease_active`, the
-- lease count of a generation is the number of leases that the open turns hold of it, and a generation
-- that an open turn holds is not quiesced.
pub turn_keeps :
    (objects : ℕ → PluginGeneration) (more : List RegistryCall) (k : ℕ)
    → Unleased objects
    → 1 ≤ held_in k (registry_calls more (new_registry objects)).turns
    → let r = registry_calls more (new_registry objects) in
      ((r.objects k).lease_count ≡ held_in k r.turns) × (is_quiesced (r.objects k).state ≡ false)
unfolding Inv
turn_keeps objects more k u h =
    let r = registry_calls more (new_registry objects) in
    let v = registry_calls-Inv more (new_registry objects) (new_registry-Inv objects u) in
    (
      v.counted k,
      elim (Bool-cases (is_quiesced (r.objects k).state)) [
        | inl q ↦ absurd (omega (arith, h, v.counted k, v.quiet k q))
        | inr q ↦ q
      ],
    )
