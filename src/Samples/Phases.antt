-- ===== src/Samples/Phases.antt =====
-- Phase modules at concrete inputs.
use kirakira_agent_online.Prelude.{
  ℕ, ◌≡◌, ◌⊎◌, refl, String, true, List, [], ◌∷◌, some, ok, err, listed,
}
use kirakira_agent_online.Phase.{
  PhaseModule, SlotModule, missing_slot, duplicate_slot, module_cycle, declared, keep_active,
  active_module_slots, topo_sort_modules, missing_module_requires, is_module_slot, module_requires,
  is_builtin_slot,
}
use kirakira_agent_online.Phase.Active.{Supported, active_module_slots-Greatest}
use kirakira_agent_online.Phase.Plan.{IsRanked}
use kirakira_agent_online.Phase.Sorted.{IsOrder, topo_sort_modules_decides}

abbrev phase_module : String → List String → PhaseModule
phase_module slot requires = record { slot = some slot; requires = requires }

-- `memo.save` waits for `notes.load` and a builtin slot; `audit.log` needs a module that is not there, and
-- `audit.mail` needs `audit.log`.
abbrev phase_modules : List PhaseModule
phase_modules =
    phase_module "memo.save" ("notes.load" ∷ "before_turn.context" ∷ "db:notes" ∷ [])
    ∷ phase_module "before_turn.context" []
    ∷ phase_module "audit.log" ("audit.sink" ∷ [])
    ∷ phase_module "audit.mail" ("audit.log" ∷ [])
    ∷ phase_module "notes.load" []
    ∷ []

topo_sort_modules_runs :
    topo_sort_modules phase_modules
    ≡ ok (
        record { slot = "notes.load"; requires = []; order = 4 }
        ∷ record { slot = "before_turn.context"; requires = []; order = 1 }
        ∷ record {
          slot = "memo.save";
          requires = "notes.load" ∷ "before_turn.context" ∷ "db:notes" ∷ [];
          order = 0;
        }
        ∷ [])
unfolding topo_sort_modules missing_module_requires is_module_slot module_requires
topo_sort_modules_runs = refl

topo_sort_modules_cycle :
    topo_sort_modules (phase_module "b.x" ("a.x" ∷ []) ∷ phase_module "a.x" ("b.x" ∷ []) ∷ [])
    ≡ err (module_cycle ("a.x" ∷ "b.x" ∷ []))
unfolding topo_sort_modules missing_module_requires is_module_slot module_requires
topo_sort_modules_cycle = refl

topo_sort_modules_decides_example :
    ((slot_map : List SlotModule) × (active : List String) × (declared 0 phase_modules []
        ≡ ok slot_map)
      × (((plan : List SlotModule) × (topo_sort_modules phase_modules ≡ ok plan)
            × IsOrder slot_map active plan)
          ⊎ ((left : List String) × (topo_sort_modules phase_modules ≡ err (module_cycle left))
              × ((rank : String → ℕ) → IsRanked rank (keep_active slot_map active) → ⊥))))
    ⊎ ((topo_sort_modules phase_modules ≡ err missing_slot)
        ⊎ ((s : String) × (topo_sort_modules phase_modules ≡ err (duplicate_slot s))))
topo_sort_modules_decides_example = topo_sort_modules_decides phase_modules

abbrev cascade : List SlotModule
cascade =
    record { slot = "audit.log"; requires = "audit.sink" ∷ []; order = 0 }
    ∷ record { slot = "audit.mail"; requires = "audit.log" ∷ []; order = 1 }
    ∷ record { slot = "notes.load"; requires = []; order = 2 }
    ∷ []

active_module_slots_runs : active_module_slots cascade ≡ some ("notes.load" ∷ [])
unfolding active_module_slots is_builtin_slot missing_module_requires is_module_slot
active_module_slots_runs = refl

active_module_slots-Greatest_example :
    (active : List String) × (active_module_slots cascade ≡ some active)
    × Supported cascade active
    × ((set : List String)
        → Supported cascade set
        → (s : String) → listed set s ≡ true
        → listed active s ≡ true)
active_module_slots-Greatest_example = active_module_slots-Greatest cascade
