-- ===== src/Samples/Restart.antt =====
-- The restart handshake of agent/restart.py at concrete inputs.
use kirakira_agent_online.Prelude.{
  ◌+◌, ◌≡◌, refl, true, false, none, some, List, [], ◌∷◌, ◌++◌, is_some, ok, count, any, ind, strip,
}
use kirakira_agent_online.Restart.{
  bind_admission, arm_pending, fits_reason, lacks_context, mark_delivered, mark_turn_terminal,
  commit_if_ready, commit_pending, holds_turn, ArmCall, arm, request_of, RestartState,
  RestartRequest, Coordinator, committed, cancelled, resume, sent, is_committed, new, run, step,
  Event, bind, request, terminal, delivery, watchdog,
}
use kirakira_agent_online.Restart.Invariant.{Inv, run-Inv, is_quiesce, is_resume, is_sent}
use kirakira_agent_online.Restart.Handshake.{
  new-Inv, admission_balanced, committed_absorbs, watchdog_recovers, confirmations_commit,
  commit_needs_both, is_completion, is_delivery,
}

abbrev ask : ArmCall
ask = record {
  turn_id = "t1";
  session_key = "s";
  channel = "web";
  chat_id = "c";
  reason = " upgrade ";
  fresh = 7;
  quiesce_raises = none;
}

abbrev start : Coordinator
start = record {
  boot_id = "boot";
  supervised = true;
  has_commit = true;
  bound = false;
  delivery_timeout_s = 15;
  timeout_text = "15";
  state = RestartState.idle;
  pending = none;
  last_error = none;
  turn_completed = false;
  delivered = false;
  committed_event = false;
  timeout_task = none;
  log = [];
}

start_is_new : new "boot" true true 15 "15" ≡ ok start
unfolding new strip
start_is_new = refl

abbrev both : List Event
both = bind ∷ request ask ∷ delivery "t1" none ∷ terminal "t1" "completed" none ∷ []

admission_balanced_example :
    (count is_quiesce (run start both).log
      ≡ count is_resume (run start both).log + ind (is_some (run start both).pending))
    × (count is_sent (run start both).log ≡ ind (is_committed (run start both).state))
admission_balanced_example = admission_balanced "boot" true true 15 "15" start both start_is_new

-- The coordinator with the request pending.
abbrev waiting : Coordinator
waiting = run start (bind ∷ request ask ∷ [])

start-Inv : Inv start
start-Inv = new-Inv "boot" true true 15 "15" start_is_new

waiting-Inv : Inv waiting
waiting-Inv = run-Inv start (bind ∷ request ask ∷ []) start-Inv

abbrev asked : RestartRequest
asked = request_of ask "boot"

waiting_pending : waiting.pending ≡ some asked
unfolding run step bind_admission arm arm_pending fits_reason lacks_context strip
waiting_pending = refl

waiting_armed : waiting.state ≡ RestartState.armed
unfolding run step bind_admission arm arm_pending fits_reason lacks_context strip
waiting_armed = refl

waiting_undelivered : waiting.delivered ≡ false
unfolding run step bind_admission arm arm_pending fits_reason lacks_context strip
waiting_undelivered = refl

both_commits : (run start both).state ≡ committed
unfolding run step bind_admission arm arm_pending fits_reason lacks_context strip mark_delivered
    mark_turn_terminal commit_if_ready commit_pending is_committed holds_turn
both_commits = refl

committed_absorbs_example : run (run start both) (watchdog 7 ∷ bind ∷ []) ≡ run start both
committed_absorbs_example =
    committed_absorbs (run start both) (watchdog 7 ∷ bind ∷ []) (run-Inv start both start-Inv)
      both_commits

watchdog_recovers_example :
    let d = step waiting (watchdog 7) in
    (d.state ≡ cancelled) × (d.pending ≡ none) × (d.log ≡ waiting.log ++ (resume "t1" ∷ []))
watchdog_recovers_example =
    watchdog_recovers waiting asked waiting-Inv waiting_pending (λ e. cc (e, waiting_armed))

abbrev other : ArmCall
other = record ask { turn_id = "t2" }

confirmations_commit_example :
    let first = run waiting (terminal "t1" "completed" none ∷ delivery "t1" none ∷ []) in
    let second = run waiting (delivery "t1" none ∷ terminal "t1" "completed" none ∷ []) in
    (first.state ≡ committed)
    × (first.log ≡ waiting.log ++ (sent asked ∷ []))
    × (second.state ≡ committed)
    × (second.log ≡ waiting.log ++ (sent asked ∷ []))
confirmations_commit_example =
    confirmations_commit waiting asked waiting-Inv waiting_pending waiting_armed waiting_undelivered

commit_needs_both_example :
    (any (is_completion (run start both).pending) both ≡ true)
    × (any (is_delivery (run start both).pending) both ≡ true)
commit_needs_both_example =
    commit_needs_both "boot" true true 15 "15" start both start_is_new both_commits
