-- ===== src/Samples/Snapshots.antt =====
-- The snapshot store of agent/plugins/snapshot.py at concrete inputs.
use kirakira_agent_online.Prelude.{
  ℕ, ◌≡◌, refl, false, ◌&&◌, not, none, some, List, [], ◌∷◌, ◌==◌, ok, err, count, ind,
}
use kirakira_agent_online.Snapshot.{
  compiled, RuntimeSnapshot, no_snapshot, unknown_lease, is_compiled, lease, nth_lease, release,
  Call, publish_call, commit_call, lease_call, release_call, calls, new,
}
use kirakira_agent_online.Snapshot.Invariant.{holds, in_use}
use kirakira_agent_online.Snapshot.Drain.{Fresh, drained_exactly, leases_answer}

-- A snapshot without contributions, as `compile_snapshot` makes it.
abbrev bare_snapshot : RuntimeSnapshot
bare_snapshot = record {
  snapshot_id = "0";
  before_turn_modules = [];
  before_reasoning_modules = [];
  prompt_render_modules = [];
  before_step_modules = [];
  after_step_modules = [];
  after_reasoning_modules = [];
  after_turn_modules = [];
  tool_hooks = [];
  mcp_tools = [];
  mcp_generation_id = none;
  state = compiled;
  lease_count = 0;
}

abbrev bare : ℕ → RuntimeSnapshot
bare k = bare_snapshot

bare-Fresh : Fresh bare
bare-Fresh = record { compiled_state = λ k. refl; unleased = λ k. refl }

-- A turn on snapshot 1 is under way while snapshot 2 takes over, and ends afterwards.
abbrev takeover : List Call
takeover =
    publish_call 1
    ∷ commit_call (record { previous = none; candidate = 1 })
    ∷ lease_call
    ∷ publish_call 2
    ∷ commit_call (record { previous = some 1; candidate = 2 })
    ∷ release_call 0
    ∷ []

drained_exactly_example :
    let s = calls takeover (new bare) in
    count (λ j. j == 1) s.drains
    ≡ ind
        (not (is_compiled (s.objects 1).state) && not (in_use 1 s) && count (holds 1) s.leases == 0)
drained_exactly_example = drained_exactly bare takeover 1 bare-Fresh

leases_answer_example :
    let s = calls takeover (new bare) in
    ((lease s).0 ≡ elim s.current [
      | none ↦ err no_snapshot
      | some k ↦ ok (record { snapshot = k; released = false })
    ])
    × ((release 0 s).0 ≡ elim (nth_lease 0 s.leases) [ none ↦ err unknown_lease | some l ↦ ok tt ])
leases_answer_example = leases_answer bare takeover 0 bare-Fresh
