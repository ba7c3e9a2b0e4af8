-- ===== src/Phase/Active.antt =====
-- Which modules stay active: the cascade of `_active_module_slots` in agent/lifecycle/phase.py.
use kirakira_agent_online.Prelude.{
  ℕ, zero, suc, ◌≤◌, ◌<◌, ◌≡◌, refl, subst, inl, inr, String, Bool, true, false, ◌&&◌, not, some,
  List, [], ◌∷◌, arith, str_eq, str_eq→eq, eq_refl, Bool-cases, keep, length, All, All-map,
  All-keep, listed, without, List-cases, listed-All,
}
use kirakira_agent_online.Phase.{
  SlotModule, slots, is_builtin_slot, is_module_slot, missing_module_requires, is_nil, is_disabled,
  disabled, active_from, active_module_slots,
}

-- Nothing that a module needs is missing from the set.
abbrev pub NeedsMet : List String → SlotModule → Type 0
NeedsMet set m = All (λ r. is_module_slot r ≡ true → listed set r ≡ true) m.requires

-- A set of slots in which every plugin module has what it needs.
pub record Supported (slot_map : List SlotModule) (set : List String) : Type 0 where
  pub known : (s : String) → listed set s ≡ true → listed (slots slot_map) s ≡ true
  pub closed :
      All (λ m. listed set m.slot ≡ true → is_builtin_slot m.slot ≡ false → NeedsMet set m) slot_map

keep-nil {ℓ} :
    {A : Type ℓ} (p : A → Bool) (xs : List A) → keep p xs ≡ [] → All (λ x. p x ≡ false) xs
keep-nil p [] h = tt
keep-nil p (x ∷ xs) h = elim (Bool-cases (p x)) [
  | inl e ↦ ground arith
  | inr e ↦ (e, keep-nil p xs (ground arith))
]

All-slots {ℓ} :
    (P : String → Type ℓ) (ms : List SlotModule) → All (λ m. P m.slot) ms → All P (slots ms)
All-slots P [] h = tt
All-slots P (m ∷ ms) h = (h.0, All-slots P ms h.1)

length-keep_le {ℓ} : {A : Type ℓ} (p : A → Bool) (xs : List A) → length (keep p xs) ≤ length xs
length-keep_le p [] = omega arith
length-keep_le p (x ∷ xs) = ground (arith, length-keep_le p xs)

length-without :
    (gone names : List String) (s : String)
    → listed gone s ≡ true
    → listed names s ≡ true
    → length (without gone names) < length names
length-without gone [] s g h = cc
length-without gone (n ∷ names) s g h = elim (Bool-cases (str_eq n s)) [
  | inl e ↦
      ground (arith, str_eq→eq n s e, length-keep_le (λ (x : String). not (listed gone x)) names)
  | inr e ↦ ground (arith, length-without gone names s)
]

listed-without :
    (gone names : List String) (s : String)
    → listed names s ≡ true
    → listed gone s ≡ false
    → listed (without gone names) s ≡ true
listed-without gone [] s h g = cc
listed-without gone (n ∷ names) s h g = elim (Bool-cases (str_eq n s)) [
  | inl e ↦ ground (arith, str_eq→eq n s e)
  | inr e ↦ ground (arith, listed-without gone names s)
]

remaining_member :
    (gone names : List String) (s : String)
    → listed (without gone names) s ≡ true
    → listed names s ≡ true
remaining_member gone [] s h = h
remaining_member gone (n ∷ names) s h = ground (arith, remaining_member gone names s)

disabled_active :
    (slot_map : List SlotModule) (active : List String)
    → All (λ s. listed active s ≡ true) (disabled slot_map active)
unfolding disabled is_disabled
disabled_active slot_map active =
    All-slots (λ s. listed active s ≡ true) (keep (is_disabled active) slot_map)
      (All-map (λ m. is_disabled active m ≡ true) _ _ (λ m h. ground arith)
        (All-keep (is_disabled active) slot_map))

-- An invariant of the loop holds of its result, where no module is disabled any more.
module _ {ℓ} (slot_map : List SlotModule) (P : List String → Type ℓ)
    (step : (active : List String) → P active → P (without (disabled slot_map active) active)) where
  active_from_rule :
      (fuel : ℕ) (active : List String)
      → length active < fuel
      → P active
      → (set : List String) × (active_from fuel slot_map active ≡ some set)
        × P set
        × (disabled slot_map set ≡ [])
  unfolding active_from
  active_from_rule zero active h p = absurd (omega arith)
  active_from_rule (suc fuel) active h p = elim (List-cases (disabled slot_map active)) [
    | inl e ↦ (active, rw (e, active_from), p, e)
    | inr (s, more, e) ↦
        let here : listed active s ≡ true =
          listed-All (λ t. listed active t ≡ true) (s ∷ more) s
            (subst (All (λ t. listed active t ≡ true)) e (disabled_active slot_map active))
            (ground (arith, eq_refl s)) in
        let (set, r, q, d) =
          active_from_rule fuel (without (s ∷ more) active)
            (omega (arith, length-without (s ∷ more) active s (ground (arith, eq_refl s)) here))
            (subst (λ l. P (without l active)) e (step active p)) in
        (set, rw (e, active_from) r, q, d)
  ]

met_of_keep :
    (set : List String) (reqs : List String)
    → All (λ r. (is_module_slot r && not (listed set r)) ≡ false) reqs
    → All (λ r. is_module_slot r ≡ true → listed set r ≡ true) reqs
met_of_keep set reqs =
    All-map _ (λ r. is_module_slot r ≡ true → listed set r ≡ true) reqs (λ r h k. ground arith)

-- A module that stays in the last round has what it needs.
disabled_closed :
    (slot_map : List SlotModule) (set : List String)
    → disabled slot_map set ≡ []
    → All (λ m. listed set m.slot ≡ true → is_builtin_slot m.slot ≡ false → NeedsMet set m) slot_map
unfolding disabled is_disabled missing_module_requires
disabled_closed slot_map set h =
    All-map (λ m. is_disabled set m ≡ false) _ slot_map
      (λ m f a b. met_of_keep set m.requires (
        keep-nil (λ r. is_module_slot r && not (listed set r)) m.requires
          (is_nil-eq _ (ground arith))))
      (keep-nil (is_disabled set) slot_map (slots-nil (keep (is_disabled set) slot_map) h))
  where
    is_nil-eq : (xs : List String) → is_nil xs ≡ true → xs ≡ []
    is_nil-eq [] e = refl
    is_nil-eq (x ∷ xs) e = cc

    slots-nil : (ms : List SlotModule) → slots ms ≡ [] → ms ≡ []
    slots-nil [] e = refl
    slots-nil (m ∷ ms) e = cc

nil_of_met :
    (set : List String) (reqs : List String)
    → All (λ r. is_module_slot r ≡ true → listed set r ≡ true) reqs
    → keep (λ r. is_module_slot r && not (listed set r)) reqs ≡ []
nil_of_met set [] h = refl
nil_of_met set (r ∷ reqs) h = elim (Bool-cases (is_module_slot r)) [
  | inl e ↦ ground (arith, h.0 e, nil_of_met set reqs h.1)
  | inr e ↦ ground (arith, nil_of_met set reqs h.1)
]

-- A supported set loses no member in a round, if it has lost none before.
kept_round :
    (slot_map : List SlotModule) (set active : List String)
    → Supported slot_map set
    → ((s : String) → listed set s ≡ true → listed active s ≡ true)
    → (s : String) → listed set s ≡ true
    → listed (without (disabled slot_map active) active) s ≡ true
unfolding disabled is_disabled missing_module_requires
kept_round slot_map set active sup below s h =
    listed-without (disabled slot_map active) active s (below s h)
      (elim (Bool-cases (listed (disabled slot_map active) s)) [
        | inl e ↦ absurd (listed-All (λ t. listed set t ≡ true → ⊥) _ s gone e h)
        | inr e ↦ e
      ])
  where
    stays :
        (m : SlotModule)
        → (listed set m.slot ≡ true → is_builtin_slot m.slot ≡ false → NeedsMet set m)
        → is_disabled active m ≡ true
        → listed set m.slot ≡ true
        → ⊥
    stays m closed d l =
        let met = closed l (ground arith) in
        let none_missing = nil_of_met active m.requires (
          All-map (λ r. is_module_slot r ≡ true → listed set r ≡ true) _ m.requires
            (λ r f k. below r (f k)) met) in
        ground (arith, none_missing)

    keep_all :
        (ms : List SlotModule)
        → All (λ m. listed set m.slot ≡ true → is_builtin_slot m.slot ≡ false → NeedsMet set m) ms
        → All (λ m. listed set m.slot ≡ true → ⊥) (keep (is_disabled active) ms)
    keep_all [] c = tt
    keep_all (m ∷ ms) c = elim (Bool-cases (is_disabled active m)) [
      | inl e ↦ rw e (stays m c.0 e, keep_all ms c.1)
      | inr e ↦ rw e (keep_all ms c.1)
    ]

    gone : All (λ t. listed set t ≡ true → ⊥) (disabled slot_map active)
    gone =
        All-slots (λ t. listed set t ≡ true → ⊥) (keep (is_disabled active) slot_map)
          (keep_all slot_map sup.closed)

-- `_active_module_slots` ends, and its result is the greatest set of slots in which each plugin module has
-- every module slot that it requires: the result is such a set, and contains each such set.
pub active_module_slots-Greatest :
    (slot_map : List SlotModule)
    → (active : List String) × (active_module_slots slot_map ≡ some active)
      × Supported slot_map active
      × ((set : List String)
          → Supported slot_map set
          → (s : String) → listed set s ≡ true
          → listed active s ≡ true)
unfolding active_module_slots
active_module_slots-Greatest slot_map =
    let (active, r, (inside, above), d) =
      active_from_rule slot_map
        (λ active.
          ((s : String) → listed active s ≡ true → listed (slots slot_map) s ≡ true)
          × ((set : List String)
              → Supported slot_map set
              → (s : String) → listed set s ≡ true
              → listed active s ≡ true))
        (λ active (inside, above). (
          λ s h. inside s (remaining_member (disabled slot_map active) active s h),
          λ set sup. kept_round slot_map set active sup (above set sup),
        ))
        (suc (length slot_map)) (slots slot_map) (omega (arith, length-slots slot_map))
        (λ s h. h, λ set sup. sup.known) in
    (active, r, record { known = inside; closed = disabled_closed slot_map active d }, above)
  where
    length-slots : (ms : List SlotModule) → length (slots ms) ≡ length ms
    length-slots [] = refl
    length-slots (m ∷ ms) = omega (arith, length-slots ms)
