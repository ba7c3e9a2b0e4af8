-- ===== src/Phase/Sorted.antt =====
-- `topo_sort_modules` of agent/lifecycle/phase.py, from the declared modules to the order they run in.
use kirakira_agent_online.Prelude.{
  ℕ, suc, ◌≡◌, ◌⊎◌, refl, sym, subst, ap, inl, inr, String, true, false, some, List, [], ◌∷◌, ◌++◌,
  arith, str_eq, str_eq→eq, count-append, is_empty, listed, occ, occ-none, occ-keep, Bool-cases,
  Option-cases, Result, ok, err, All, All-map, All-keep, All-zip, keep, keep-All, listed-All,
  listed-keep, All-listed, ◌>>=◌,
}
use kirakira_agent_online.Prelude.Table.{find-All}
use kirakira_agent_online.Phase.{
  PhaseModule, SlotModule, slots, is_builtin_slot, is_module_slot, module_requires, PhaseError,
  missing_slot, duplicate_slot, module_cycle, declared, active_module_slots, keep_active, entry,
  topo_sort_modules,
}
use kirakira_agent_online.Phase.Active.{NeedsMet, Supported, active_module_slots-Greatest}
use kirakira_agent_online.Phase.Ordered.{Ordered, slots-snoc}
use kirakira_agent_online.Phase.Plan.{IsPlan, IsRanked, Distinct, sort_active_decides}

-- Each plugin module stands behind every module slot that it requires.
abbrev pub Supplied : List String → List SlotModule → Type 0
Supplied seen [] = Unit
Supplied seen (m ∷ ms) =
    (is_builtin_slot m.slot ≡ false → NeedsMet seen m) × Supplied (seen ++ (m.slot ∷ [])) ms

added_Distinct :
    (ms : List SlotModule) (m : SlotModule)
    → Distinct ms
    → listed (slots ms) m.slot ≡ false
    → Distinct (ms ++ (m ∷ []))
added_Distinct ms m d h s = elim (Bool-cases (str_eq m.slot s)) [
  | inl e ↦ ground (
    arith,
    ap (occ s) (slots-snoc ms m),
    count-append (λ (n : String). str_eq n s) (slots ms) (m.slot ∷ []),
    occ-none (slots ms) s,
    str_eq→eq m.slot s e,
  )
  | inr e ↦ ground (
    arith,
    d s,
    ap (occ s) (slots-snoc ms m),
    count-append (λ (n : String). str_eq n s) (slots ms) (m.slot ∷ []),
  )
]

-- The first loop ends with distinct slots, or with one of its two errors.
abbrev Declares : Result PhaseError (List SlotModule) → Type 0
Declares r =
    ((ms : List SlotModule) × (r ≡ ok ms) × Distinct ms)
    ⊎ ((r ≡ err missing_slot) ⊎ ((s : String) × (r ≡ err (duplicate_slot s))))

declared-Declares :
    (index : ℕ) (modules : List PhaseModule) (ms : List SlotModule)
    → Distinct ms
    → Declares (declared index modules ms)
unfolding declared
declared-Declares index [] ms d = inl (ms, refl, d)
declared-Declares index (m ∷ modules) ms d = elim (Option-cases m.slot) [
  | inl e ↦ rw (e) (inr (inl refl))
  | inr (slot, e) ↦
      let new : SlotModule = record { slot = slot; requires = m.requires; order = index } in
      elim (Bool-cases (is_empty slot)) [
        | inl i ↦ inr (inl (ground arith))
        | inr i ↦ elim (Bool-cases (listed (slots ms) slot)) [
          | inl l ↦ inr (inr (slot, ground arith))
          | inr l ↦
              subst Declares (sym (ground arith)) (
                declared-Declares (suc index) modules (ms ++ (new ∷ []))
                  (added_Distinct ms new d l))
        ]
      ]
]

slots-keep_active :
    (ms : List SlotModule) (active : List String)
    → slots (keep_active ms active) ≡ keep (listed active) (slots ms)
unfolding keep_active
slots-keep_active [] active = refl
slots-keep_active (m ∷ ms) active = elim (Bool-cases (listed active m.slot)) [
  | inl e ↦ rw e (ap (λ l. m.slot ∷ l) (slots-keep_active ms active))
  | inr e ↦ rw e (slots-keep_active ms active)
]

keep_active-Distinct :
    (ms : List SlotModule) (active : List String) → Distinct ms → Distinct (keep_active ms active)
keep_active-Distinct ms active d s =
    ground
      (arith, d s, ap (occ s) (slots-keep_active ms active), occ-keep (listed active) s (slots ms))

-- Where the active set supports its modules, an ordered plan supplies them.
plan-Supplied :
    (known seen : List String) (plan : List SlotModule)
    → All (λ m. is_builtin_slot m.slot ≡ false → NeedsMet known m) plan
    → Ordered known seen plan
    → Supplied seen plan
unfolding module_requires
plan-Supplied known seen [] h o = tt
plan-Supplied known seen (m ∷ plan) h o = (
  λ b.
      All-listed (λ r. is_module_slot r ≡ true → listed seen r ≡ true) m.requires
        (λ r l k.
          listed-All (λ t. listed seen t ≡ true) (module_requires m known) r o.0
            (listed-keep (listed known) m.requires r l (
              listed-All (λ t. is_module_slot t ≡ true → listed known t ≡ true) m.requires r (h.0 b)
                l k))),
  plan-Supplied known (seen ++ (m.slot ∷ [])) plan h.1 o.1,
)

-- Which modules run, and in which order: the active ones, each once, behind their known requirements and,
-- if they are plugin modules, behind every module slot that they require.
pub record IsOrder (slot_map : List SlotModule) (active : List String) (plan : List SlotModule)
    : Type 0 where
  pub chosen : active_module_slots slot_map ≡ some active
  pub ordered : IsPlan (keep_active slot_map active) plan
  pub supplied : Supplied [] plan

kept_needs :
    (slot_map : List SlotModule) (active : List String) (plan : List SlotModule)
    → Supported slot_map active
    → IsPlan (keep_active slot_map active) plan
    → All
        (λ m. is_builtin_slot m.slot ≡ false → NeedsMet (slots (keep_active slot_map active)) m)
        plan
unfolding keep_active
kept_needs slot_map active plan sup ord =
    All-map (λ m. entry (keep_active slot_map active) m.slot ≡ some m) _ plan
      (λ m e. find-All Needs (λ x. str_eq x.slot m.slot) (keep_active slot_map active) m all_kept e)
      ord.inside
  where
    Needs : SlotModule → Type 0
    Needs m = is_builtin_slot m.slot ≡ false → NeedsMet (slots (keep_active slot_map active)) m

    all_kept : All Needs (keep_active slot_map active)
    all_kept =
        All-zip
          (λ m. listed active m.slot ≡ true → is_builtin_slot m.slot ≡ false → NeedsMet active m)
          (λ m. listed active m.slot ≡ true) Needs (keep_active slot_map active)
          (λ m c l b.
            All-map (λ r. is_module_slot r ≡ true → listed active r ≡ true) _ m.requires
              (λ r f k.
                subst (λ t. listed t r ≡ true) (sym (slots-keep_active slot_map active))
                  (listed-keep (listed active) (slots slot_map) r (sup.known r (f k)) (f k)))
              (c l b))
          (keep-All _ (λ m. listed active m.slot) slot_map sup.closed)
          (All-keep (λ m. listed active m.slot) slot_map)

-- The sort of a phase's modules always answers: with the order in which its active modules run, with a
-- cycle error where the active modules have no ranking that puts each known requirement below its
-- module, or with the error of a module that names no slot or one that is taken. It never runs out of
-- rounds and never looks up a slot that is not there.
pub topo_sort_modules_decides :
    (modules : List PhaseModule)
    → ((slot_map : List SlotModule) × (active : List String) × (declared 0 modules [] ≡ ok slot_map)
        × (((plan : List SlotModule) × (topo_sort_modules modules ≡ ok plan)
              × IsOrder slot_map active plan)
            ⊎ ((left : List String) × (topo_sort_modules modules ≡ err (module_cycle left))
                × ((rank : String → ℕ) → IsRanked rank (keep_active slot_map active) → ⊥))))
      ⊎ ((topo_sort_modules modules ≡ err missing_slot)
          ⊎ ((s : String) × (topo_sort_modules modules ≡ err (duplicate_slot s))))
unfolding topo_sort_modules
topo_sort_modules_decides modules = elim (declared-Declares 0 modules [] (λ s. omega arith)) [
  | inr (inl e) ↦ inr (inl (rw e refl))
  | inr (inr (s, e)) ↦ inr (inr (s, rw e refl))
  | inl (slot_map, e, d) ↦
      let (active, a, sup, above) = active_module_slots-Greatest slot_map in
      inl (
        slot_map,
        active,
        e,
        elim (sort_active_decides (keep_active slot_map active)
            (keep_active-Distinct slot_map active d)) [
              | inl (plan, p, ord) ↦ inl (
                plan,
                rw (e, ◌>>=◌) (rw a p),
                record {
                  chosen = a;
                  ordered = ord;
                  supplied =
                      plan-Supplied (slots (keep_active slot_map active)) [] plan
                        (kept_needs slot_map active plan sup ord) ord.ordered;
                },
              )
              | inr (left, p, none_ranks) ↦ inr (left, rw (e, ◌>>=◌) (rw a p), none_ranks)
            ],
      )
]
