-- ===== src/Restart/Handshake.antt =====
-- What the restart handshake of agent/restart.py promises over every sequence of calls.
use kirakira_agent_online.Prelude.{
  ℕ, ◌+◌, String, ◌≡◌, ◌≢◌, refl, Bool, true, false, ◌||◌, ◌&&◌, Option, none, some, List, [], ◌∷◌,
  ◌++◌, arith, is_some, ok, count, any, ind, Option-cases, inl, inr, str_eq, eq_refl,
}
use kirakira_agent_online.Restart.{
  arm_pending, arm, bind_admission, mark_turn_terminal, mark_delivered, mark_delivery_failed,
  delivery_watchdog, wake, is_live, fire, holds_turn, cancel, commit_if_ready, commit_ready,
  is_committed, commit_pending, armed, committed, cancelled, RestartRequest, resume, sent,
  Coordinator, new, step, run, Event, bind, request, terminal, delivery, delivery_failure, watchdog,
}
use kirakira_agent_online.Restart.Invariant.{Inv, step-Inv, run-Inv, is_quiesce, is_resume, is_sent}

pub new-Inv :
    (boot_id : String) (supervised has_commit : Bool) (timeout : ℕ) (text : String)
    {c : Coordinator}
    → new boot_id supervised has_commit timeout text ≡ ok c
    → Inv c
unfolding new
new-Inv b s h t x e = ground arith

-- After any sequence of calls on a new coordinator, the admission has been frozen once more than it
-- was resumed if a request is pending and exactly as often if not, and the commit channel has taken
-- one commit if the coordinator is committed and none if not.
pub admission_balanced :
    (boot_id : String) (supervised has_commit : Bool) (timeout : ℕ) (text : String)
    (c : Coordinator) (es : List Event)
    → new boot_id supervised has_commit timeout text ≡ ok c
    → let d = run c es in
      (count is_quiesce d.log ≡ count is_resume d.log + ind (is_some d.pending))
      × (count is_sent d.log ≡ ind (is_committed d.state))
unfolding is_committed
admission_balanced b s h t x c es e =
    let v = run-Inv c es (new-Inv b s h t x e) in (v.frozen, ground arith)

committed_step : (c : Coordinator) (e : Event) → Inv c → c.state ≡ committed → step c e ≡ c
unfolding step is_committed
committed_step c bind v h = unfold bind_admission in ground arith
committed_step c (request a) v h = elim (Option-cases c.pending) [
  | inl n ↦ absurd (ground arith)
  | inr (r, p) ↦ unfold arm arm_pending in ground arith
]
committed_step c (terminal t s o) v h = unfold mark_turn_terminal in ground arith
committed_step c (delivery t o) v h = unfold mark_delivered in ground arith
committed_step c (delivery_failure t reason) v h = unfold mark_delivery_failed in ground arith
committed_step c (watchdog i) v h = unfold wake is_live in ground arith

-- A committed coordinator is left as it is by every sequence of calls, so the request that was
-- committed stays and is not committed twice.
pub committed_absorbs :
    (c : Coordinator) (es : List Event) → Inv c → c.state ≡ committed → run c es ≡ c
unfolding run
committed_absorbs c [] v h = refl
committed_absorbs c (e ∷ es) v h = rw (committed_step c e v h) (committed_absorbs c es v h)

-- A pending request that is not committed is given up by its watchdog: the coordinator is cancelled,
-- holds no request and has resumed the admission for the turn of the request.
pub watchdog_recovers :
    (c : Coordinator) (r : RestartRequest)
    → Inv c
    → c.pending ≡ some r
    → c.state ≢ committed
    → let d = step c (watchdog r.request_id) in
      (d.state ≡ cancelled) × (d.pending ≡ none) × (d.log ≡ c.log ++ (resume r.turn_id ∷ []))
unfolding step wake delivery_watchdog fire cancel is_live
watchdog_recovers c r v p n = ground arith

-- The two confirmations of an armed request, in either order and with a channel that takes the
-- commit, commit the restart: the request is sent last.
pub confirmations_commit :
    (c : Coordinator) (r : RestartRequest)
    → Inv c
    → c.pending ≡ some r
    → c.state ≡ armed
    → c.delivered ≡ false
    → let first = run c (terminal r.turn_id "completed" none ∷ delivery r.turn_id none ∷ []) in
      let second = run c (delivery r.turn_id none ∷ terminal r.turn_id "completed" none ∷ []) in
      (first.state ≡ committed)
      × (first.log ≡ c.log ++ (sent r ∷ []))
      × (second.state ≡ committed)
      × (second.log ≡ c.log ++ (sent r ∷ []))
unfolding run step mark_turn_terminal mark_delivered commit_if_ready commit_pending holds_turn
    is_committed
confirmations_commit c r v p s d = ground (arith, eq_refl r.turn_id)

-- Whether an event is the completion, or the delivery, of the turn of the request.
abbrev pub is_completion : Option RestartRequest → Event → Bool
is_completion (some r) (terminal t s o) = str_eq r.turn_id t && str_eq s "completed"
is_completion _ _ = false

abbrev pub is_delivery : Option RestartRequest → Event → Bool
is_delivery (some r) (delivery t o) = str_eq r.turn_id t
is_delivery _ _ = false

-- The flags of the coordinator are backed by events of the past.
record Backed (past : List Event) (c : Coordinator) : Type 0 where
  completion : c.turn_completed ≡ true → any (is_completion c.pending) past ≡ true
  delivery : c.delivered ≡ true → any (is_delivery c.pending) past ≡ true

Backed-step :
    (past : List Event) (c : Coordinator) (e : Event)
    → Inv c
    → Backed past c
    → Backed (e ∷ past) (step c e)
unfolding step
Backed-step past c bind v b = unfold bind_admission in ground arith
Backed-step past c (request a) v b = unfold arm arm_pending in ground arith
Backed-step past c (terminal t s o) v b =
    unfold mark_turn_terminal holds_turn is_committed cancel commit_if_ready commit_ready
      commit_pending in
    ground arith
Backed-step past c (delivery t o) v b =
    unfold mark_delivered holds_turn is_committed cancel commit_if_ready commit_ready
      commit_pending in
    ground arith
Backed-step past c (delivery_failure t reason) v b =
    unfold mark_delivery_failed holds_turn is_committed cancel in ground arith
Backed-step past c (watchdog i) v b = unfold wake delivery_watchdog fire cancel in ground arith

rev_onto : List Event → List Event → List Event
rev_onto [] past = past
rev_onto (e ∷ es) past = rev_onto es (e ∷ past)

any-rev_onto :
    (p : Event → Bool) (es past : List Event)
    → any p (rev_onto es past) ≡ true
    → (any p es || any p past) ≡ true
unfolding rev_onto
any-rev_onto p [] past h = h
any-rev_onto p (e ∷ es) past h = ground (arith, any-rev_onto p es (e ∷ past) h)

Backed-run :
    (past : List Event) (c : Coordinator) (es : List Event)
    → Inv c
    → Backed past c
    → Backed (rev_onto es past) (run c es)
unfolding run rev_onto
Backed-run past c [] v b = b
Backed-run past c (e ∷ es) v b =
    Backed-run (e ∷ past) (step c e) es (step-Inv c e v) (Backed-step past c e v b)

any_in_run : (p : Event → Bool) (es : List Event) → any p (rev_onto es []) ≡ true → any p es ≡ true
any_in_run p es h = ground (arith, any-rev_onto p es [])

new_flags :
    (boot_id : String) (supervised has_commit : Bool) (timeout : ℕ) (text : String)
    {c : Coordinator}
    → new boot_id supervised has_commit timeout text ≡ ok c
    → Backed [] c
unfolding new
new_flags b s h t x e = ground arith

-- A new coordinator is committed after a sequence of calls only if that sequence completed the turn
-- of the committed request and delivered the response of that same turn.
pub commit_needs_both :
    (boot_id : String) (supervised has_commit : Bool) (timeout : ℕ) (text : String)
    (c : Coordinator) (es : List Event)
    → new boot_id supervised has_commit timeout text ≡ ok c
    → (run c es).state ≡ committed
    → (any (is_completion (run c es).pending) es ≡ true)
      × (any (is_delivery (run c es).pending) es ≡ true)
commit_needs_both bi s h t x c es e m =
    let v = run-Inv c es (new-Inv bi s h t x e) in
    let b = Backed-run [] c es (new-Inv bi s h t x e) (new_flags bi s h t x e) in
    (
      any_in_run (is_completion (run c es).pending) es (b.completion (v.committed_done m)),
      any_in_run (is_delivery (run c es).pending) es (b.delivery (v.committed_delivered m)),
    )
