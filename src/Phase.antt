-- ===== src/Phase.antt =====
-- The dependency graph of the phase modules: agent/lifecycle/phase.py.
pub mod Active
pub mod Links
pub mod Ordered
pub mod Loop
pub mod Plan
pub mod Sorted
use kirakira_agent_online.Prelude.{
  ℕ, zero, suc, ◌-◌, String, Bool, true, false, ◌&&◌, ◌||◌, not, Option, none, some, List, [], ◌∷◌,
  ◌++◌, map, ◌==◌, ltb, leb, str_eq, str_le, find, is_empty, starts_with, has_char, if◌then◌else◌,
  Result, ok, err, any, keep, length, sort_by, listed, without, ◌>>=◌,
}

-- What a module declares: `slot` may be missing.
pub record PhaseModule : Type 0 where
  pub slot : Option String
  pub requires : List String

-- An entry of `slot_map`, with its entry of `slot_order`.
pub record SlotModule : Type 0 where
  pub slot : String
  pub requires : List String
  pub order : ℕ

pub data PhaseError : Type 0 where
  missing_slot out_of_fuel : PhaseError
  key_error duplicate_slot : String → PhaseError
  module_cycle : List String → PhaseError

abbrev pub builtin_slot_prefixes : List String
builtin_slot_prefixes =
    "before_turn." ∷ "before_reasoning." ∷ "prompt_render." ∷ "before_step." ∷ "after_step."
    ∷ "after_reasoning." ∷ "after_turn." ∷ []

unfoldable pub is_builtin_slot : String → Bool
unfolding starts_with
is_builtin_slot slot = any (λ p. starts_with p slot) builtin_slot_prefixes

unfoldable pub is_module_slot : String → Bool
unfolding has_char
is_module_slot slot = has_char b'.' slot && not (has_char b':' slot)

abbrev pub slots : List SlotModule → List String
slots ms = map (λ m. m.slot) ms

unfoldable pub module_requires : SlotModule → List String → List String
module_requires m known_slots = keep (listed known_slots) m.requires

unfoldable pub missing_module_requires : SlotModule → List String → List String
missing_module_requires m active_slots =
    keep (λ r. is_module_slot r && not (listed active_slots r)) m.requires

abbrev pub is_nil {ℓ} : {A : Type ℓ} → List A → Bool
is_nil [] = true
is_nil (x ∷ xs) = false

-- One pass of the `for` loop: the module is disabled.
unfoldable pub is_disabled : List String → SlotModule → Bool
is_disabled active m =
    listed active m.slot
    && not (is_builtin_slot m.slot)
    && not (is_nil (missing_module_requires m active))

unfoldable pub disabled : List SlotModule → List String → List String
unfolding is_disabled
disabled slot_map active = slots (keep (is_disabled active) slot_map)

-- The `while` loop of `_active_module_slots`; `none` is the end of the fuel.
unfoldable pub active_from : ℕ → List SlotModule → List String → Option (List String)
unfolding disabled
active_from zero slot_map active = none
active_from (suc fuel) slot_map active = elim (disabled slot_map active) [
  | [] ↦ some active
  | s ∷ more ↦ active_from fuel slot_map (without (s ∷ more) active)
]

unfoldable pub active_module_slots : List SlotModule → Option (List String)
unfolding active_from
active_module_slots slot_map = active_from (suc (length slot_map)) slot_map (slots slot_map)

-- The first loop of `topo_sort_modules`, which fills `slot_map` and `slot_order`.
unfoldable pub declared :
    ℕ → List PhaseModule → List SlotModule → Result PhaseError (List SlotModule)
declared index [] slot_map = ok slot_map
declared index (m ∷ modules) slot_map = elim m.slot [
  | none ↦ err missing_slot
  | some slot ↦
      let rest =
        declared (suc index) modules
          (slot_map ++ (record { slot = slot; requires = m.requires; order = index } ∷ [])) in
      if is_empty slot
      then err missing_slot
      else if listed (slots slot_map) slot
      then err (duplicate_slot slot)
      else rest
]

-- `in_degree` and `dependents`, two maps with the slots of `slot_map` for keys.
pub record Edges : Type 0 where
  pub in_degree : String → ℕ
  pub dependents : String → List String

abbrev pub no_edges : Edges
no_edges = record { in_degree = λ s. 0; dependents = λ s. [] }

unfoldable pub add_edge : String → String → Edges → Edges
add_edge slot req e = record {
  in_degree = λ s. let n = e.in_degree s in if str_eq slot s then suc n else n;
  dependents = λ r. let ds = e.dependents r in if str_eq req r then ds ++ (slot ∷ []) else ds;
}

unfoldable pub add_edges : String → List String → Edges → Edges
unfolding add_edge
add_edges slot [] e = e
add_edges slot (req ∷ reqs) e = add_edges slot reqs (add_edge slot req e)

unfoldable pub edges : List String → List SlotModule → Edges → Edges
unfolding add_edges
edges known [] e = e
edges known (m ∷ ms) e = edges known ms (add_edges m.slot (module_requires m known) e)

-- The entry of `slot_map` under a slot.
abbrev pub entry : List SlotModule → String → Option SlotModule
entry slot_map s = find (λ m. str_eq m.slot s) slot_map

-- `slot_order[item]`, for the slots of `slot_map`
unfoldable pub slot_order : List SlotModule → String → ℕ
unfolding find
slot_order slot_map s = elim (entry slot_map s) [ none ↦ 0 | some m ↦ m.order ]

-- The queue's sort key, `(is_builtin_slot(item), slot_order[item])`, puts `a` no later than `b`.
unfoldable pub before : List SlotModule → String → String → Bool
unfolding is_builtin_slot slot_order
before slot_map a b =
    let in_order = leb (slot_order slot_map a) (slot_order slot_map b) in
    if is_builtin_slot a then is_builtin_slot b && in_order else is_builtin_slot b || in_order

-- `in_degree[dependent] -= 1`
unfoldable pub lower : String → (String → ℕ) → String → ℕ
lower d degree s = let n = degree s in if str_eq d s then n - 1 else n

-- The `for` loop over the dependents of the slot that left the queue.
unfoldable pub release : List String → (String → ℕ) → List String → (String → ℕ) × List String
unfolding lower
release [] degree queue = (degree, queue)
release (d ∷ ds) degree queue =
    release ds (lower d degree) (if lower d degree d == 0 then queue ++ (d ∷ []) else queue)

-- The `while queue` loop.
unfoldable pub run_queue :
    ℕ
    → List SlotModule
    → (String → List String)
    → (String → ℕ)
    → List String
    → List SlotModule
    → Result PhaseError ((String → ℕ) × List SlotModule)
unfolding release before sort_by find
run_queue zero slot_map dependents degree [] sorted_modules = ok (degree, sorted_modules)
run_queue zero slot_map dependents degree (s ∷ queue) sorted_modules = err out_of_fuel
run_queue (suc fuel) slot_map dependents degree queue sorted_modules =
    elim (sort_by (before slot_map) queue) [
      | [] ↦ ok (degree, sorted_modules)
      | slot ∷ rest ↦ elim (entry slot_map slot) [
        | none ↦ err (key_error slot)
        | some m ↦
            let next = release (dependents slot) degree rest in
            run_queue fuel slot_map dependents next.0 next.1 (sorted_modules ++ (m ∷ []))
      ]
    ]

-- The last check of `topo_sort_modules`.
unfoldable pub resolved :
    List SlotModule → (String → ℕ) × List SlotModule → Result PhaseError (List SlotModule)
unfolding sort_by str_le
resolved slot_map (degree, sorted_modules) =
    if length sorted_modules == length slot_map
    then ok sorted_modules
    else err (module_cycle (sort_by str_le (keep (λ s. ltb 0 (degree s)) (slots slot_map))))

-- `topo_sort_modules` on the active modules.
unfoldable pub sort_active : List SlotModule → Result PhaseError (List SlotModule)
unfolding edges run_queue resolved
sort_active slot_map =
    let e = edges (slots slot_map) slot_map no_edges in
    run_queue (length slot_map) slot_map e.dependents e.in_degree
      (keep (λ s. e.in_degree s == 0) (slots slot_map)) []
    >>= resolved slot_map

unfoldable pub keep_active : List SlotModule → List String → List SlotModule
keep_active slot_map active = keep (λ m. listed active m.slot) slot_map

unfoldable pub topo_sort_modules : List PhaseModule → Result PhaseError (List SlotModule)
unfolding declared active_module_slots sort_active keep_active
topo_sort_modules modules = declared 0 modules [] >>= λ slot_map.
    elim (active_module_slots slot_map) [
      | none ↦ err out_of_fuel
      | some active ↦ sort_active (keep_active slot_map active)
    ]
