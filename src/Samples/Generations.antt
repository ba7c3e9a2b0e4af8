-- ===== src/Samples/Generations.antt =====
-- The generation registry of agent/plugins/generation.py at concrete inputs.
use kirakira_agent_online.Prelude.{ℕ, ◌≡◌, refl, arith, false, List, [], ◌∷◌, find, sort_by}
use kirakira_agent_online.Generation.{
  gate_passed, compiled, PluginGeneration, is_quiesced, RegistryCall, publish_call, lease_call,
  drain_call, registry_call, registry_calls, new_registry, publish, retire, lease_active,
  enter_turn, acquire_each, active_generations, add_lease, modify, enter_state, retire_generation,
  set_current, current_of, drain_quiescible, can_quiesce, str_leb,
}
use kirakira_agent_online.Generation.Counts.{held_in}
use kirakira_agent_online.Generation.Leases.{Unleased, turn_keeps}

abbrev calendar : ℕ → PluginGeneration
calendar k = record {
  plugin_id = "calendar";
  generation_id = "g";
  source_revision = "s";
  config_revision = "c";
  gate_result = gate_passed;
  state = compiled;
  lease_count = 0;
}

calendar-Unleased : Unleased calendar
calendar-Unleased = record { none_leased = λ k. refl }

-- Generation 2 replaces generation 1 while a turn holds the latter.
abbrev replacement : List RegistryCall
replacement = publish_call 1 ∷ lease_call ∷ publish_call 2 ∷ drain_call ∷ []

held_one : held_in 1 (registry_calls replacement (new_registry calendar)).turns ≡ 1
unfolding held_in registry_calls registry_call new_registry publish retire lease_active enter_turn
    acquire_each active_generations add_lease modify enter_state retire_generation set_current
    current_of drain_quiescible can_quiesce str_leb find sort_by
held_one = refl

turn_keeps_example :
    let r = registry_calls replacement (new_registry calendar) in
    ((r.objects 1).lease_count ≡ held_in 1 r.turns) × (is_quiesced (r.objects 1).state ≡ false)
turn_keeps_example = turn_keeps calendar replacement 1 calendar-Unleased (omega (arith, held_one))
