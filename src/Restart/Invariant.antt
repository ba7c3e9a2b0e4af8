-- ===== src/Restart/Invariant.antt =====
-- What holds of the coordinator of agent/restart.py after any calls.
use kirakira_agent_online.Prelude.{
  ℕ, ◌+◌, String, ◌≡◌, refl, Bool, true, false, Option, none, some, List, [], ◌∷◌, ◌++◌, arith,
  is_some, count, count-append, ind, Option-cases, Bool-cases, inl, inr, if_ind, not, ◌==◌, str_eq,
  strip,
}
use kirakira_agent_online.Restart.{
  fits_reason, lacks_context, ArmCall, arm_pending, arm, bind_admission, mark_turn_terminal,
  mark_delivered, mark_delivery_failed, delivery_watchdog, wake, is_live, fire, holds_turn, cancel,
  commit_if_ready, is_committed, commit_pending, RestartState, idle, armed, waiting_delivery,
  committed, cancelled, RestartRequest, Call, quiesce, resume, sent, Coordinator, Outcome, step,
  run, Event, bind, request, terminal, delivery, delivery_failure, watchdog,
}

abbrev pub is_quiesce : Call → Bool
is_quiesce (quiesce t) = true
is_quiesce _ = false

abbrev pub is_resume : Call → Bool
is_resume (resume t) = true
is_resume _ = false

abbrev pub is_sent : Call → Bool
is_sent (sent r) = true
is_sent _ = false

-- The watchdog that is live: that of the pending request, until it is committed.
abbrev pub live_watchdog : RestartState → Option RestartRequest → Option ℕ
live_watchdog committed r = none
live_watchdog _ none = none
live_watchdog _ (some r) = some r.request_id

-- The admission is frozen exactly while a request is pending, and one commit is sent exactly when
-- the coordinator is committed.
pub record Inv (c : Coordinator) : Type 0 where
  pub channel : c.supervised ≡ c.has_commit
  pub frozen : count is_quiesce c.log ≡ count is_resume c.log + ind (is_some c.pending)
  pub idle_free : c.state ≡ idle → c.pending ≡ none
  pub cancelled_free : c.state ≡ cancelled → c.pending ≡ none
  pub armed_held : c.state ≡ armed → is_some c.pending ≡ true
  pub armed_open : c.state ≡ armed → c.turn_completed ≡ false
  pub waiting_held : c.state ≡ waiting_delivery → is_some c.pending ≡ true
  pub waiting_done : c.state ≡ waiting_delivery → c.turn_completed ≡ true
  pub waiting_open : c.state ≡ waiting_delivery → c.delivered ≡ false
  pub committed_held : c.state ≡ committed → is_some c.pending ≡ true
  pub committed_done : c.state ≡ committed → c.turn_completed ≡ true
  pub committed_delivered : c.state ≡ committed → c.delivered ≡ true
  pub committed_sent : c.state ≡ committed → count is_sent c.log ≡ 1
  pub uncommitted : (c.state ≡ committed → ⊥) → count is_sent c.log ≡ 0
  pub timer : c.timeout_task ≡ live_watchdog c.state c.pending
  pub held_bound : is_some c.pending ≡ true → c.bound ≡ true
  pub held_supervised : is_some c.pending ≡ true → c.supervised ≡ true

-- One more call at the end of the log.
quiesce_counts :
    (log : List Call) (t : String)
    → (count is_quiesce (log ++ (quiesce t ∷ [])) ≡ count is_quiesce log + 1)
      × (count is_resume (log ++ (quiesce t ∷ [])) ≡ count is_resume log)
      × (count is_sent (log ++ (quiesce t ∷ [])) ≡ count is_sent log)
quiesce_counts log t = (
  count-append is_quiesce log (quiesce t ∷ []),
  omega (arith, count-append is_resume log (quiesce t ∷ [])),
  omega (arith, count-append is_sent log (quiesce t ∷ [])),
)

resume_counts :
    (log : List Call) (t : String)
    → (count is_quiesce (log ++ (resume t ∷ [])) ≡ count is_quiesce log)
      × (count is_resume (log ++ (resume t ∷ [])) ≡ count is_resume log + 1)
      × (count is_sent (log ++ (resume t ∷ [])) ≡ count is_sent log)
resume_counts log t = (
  omega (arith, count-append is_quiesce log (resume t ∷ [])),
  count-append is_resume log (resume t ∷ []),
  omega (arith, count-append is_sent log (resume t ∷ [])),
)

sent_counts :
    (log : List Call) (r : RestartRequest)
    → (count is_quiesce (log ++ (sent r ∷ [])) ≡ count is_quiesce log)
      × (count is_resume (log ++ (sent r ∷ [])) ≡ count is_resume log)
      × (count is_sent (log ++ (sent r ∷ [])) ≡ count is_sent log + 1)
sent_counts log r = (
  omega (arith, count-append is_quiesce log (sent r ∷ [])),
  omega (arith, count-append is_resume log (sent r ∷ [])),
  count-append is_sent log (sent r ∷ []),
)

arm_pending-Inv :
    (a : ArmCall) (p : Option RestartRequest) (raises : Option String) (c : Coordinator)
    → Inv c
    → c.pending ≡ p
    → c.supervised ≡ true
    → c.bound ≡ true
    → Inv (arm_pending a p raises c).1
unfolding arm_pending
arm_pending-Inv a (some r) raises c v e s b = ground arith
arm_pending-Inv a none (some exc) c v e s b = v
arm_pending-Inv a none none c v e s b = ground (arith, quiesce_counts c.log a.turn_id)

cancel-Inv :
    (reason : String) (c : Coordinator)
    → Inv c
    → is_committed c.state ≡ false
    → Inv (cancel reason c).1
unfolding cancel is_committed
cancel-Inv reason c v s = elim (Option-cases c.pending) [
  | inl e ↦ rw e (ground arith)
  | inr (r, e) ↦ ground (arith, resume_counts c.log r.turn_id)
]

-- What a commit needs of the coordinator.
record Ready (r : RestartRequest) (c : Coordinator) : Type 0 where
  channel : c.supervised ≡ c.has_commit
  held : c.pending ≡ some r
  frozen : count is_quiesce c.log ≡ count is_resume c.log + 1
  unsent : count is_sent c.log ≡ 0
  bound : c.bound ≡ true
  supervised : c.supervised ≡ true
  completed : c.turn_completed ≡ true
  delivered : c.delivered ≡ true

commit_pending-Inv :
    (outcome : Option String) (r : RestartRequest) (c : Coordinator)
    → Ready r c
    → Inv (commit_pending outcome r c).1
unfolding commit_pending cancel
commit_pending-Inv (some exc) r c y = ground (arith, resume_counts c.log r.turn_id)
commit_pending-Inv none r c y = ground (arith, sent_counts c.log r)

commit_if_ready-Inv :
    (outcome : Option String) (r : RestartRequest) (c : Coordinator)
    → Ready r c
    → is_committed c.state ≡ false
    → Inv (commit_if_ready outcome c).1
unfolding commit_if_ready
commit_if_ready-Inv outcome r c y n = ground (arith, commit_pending-Inv outcome r c)

-- What the confirmations find of a coordinator that is not committed and has the request `r`.
record Held (r : RestartRequest) (c : Coordinator) : Type 0 where
  inv : Inv c
  held : c.pending ≡ some r
  open_state : is_committed c.state ≡ false

terminal-Ready :
    {r : RestartRequest} {c : Coordinator}
    → Held r c
    → c.delivered ≡ true
    → Ready r (record c { turn_completed = true; state = waiting_delivery })
unfolding is_committed
terminal-Ready h d = ground arith

terminal_waits :
    {r : RestartRequest} {c : Coordinator}
    → Held r c
    → c.delivered ≡ false
    → Inv (record c { turn_completed = true; state = waiting_delivery })
unfolding is_committed
terminal_waits h d = ground arith

delivery-Ready :
    {r : RestartRequest} {c : Coordinator}
    → Held r c
    → c.turn_completed ≡ true
    → Ready r (record c { delivered = true })
unfolding is_committed
delivery-Ready h d = ground arith

delivery_waits :
    {r : RestartRequest} {c : Coordinator}
    → Held r c
    → c.turn_completed ≡ false
    → Inv (record c { delivered = true })
unfolding is_committed
delivery_waits h d = ground arith

terminal-Inv :
    (o : Option String) {r : RestartRequest} {c : Coordinator}
    → Held r c
    → Inv (commit_if_ready o (record c { turn_completed = true; state = waiting_delivery })).1
unfolding is_committed
terminal-Inv o {r} {c} h =
    let c' = record c { turn_completed = true; state = waiting_delivery } in
    elim (Bool-cases c.delivered) [
      | inl d ↦ commit_if_ready-Inv o r c' (terminal-Ready h d) refl
      | inr d ↦ unfold commit_if_ready in ground (arith, terminal_waits h d)
    ]

delivery-Inv :
    (o : Option String) {r : RestartRequest} {c : Coordinator}
    → Held r c
    → Inv (commit_if_ready o (record c { delivered = true })).1
delivery-Inv o {r} {c} h = elim (Bool-cases c.turn_completed) [
  | inl d ↦
      commit_if_ready-Inv o r (record c { delivered = true }) (delivery-Ready h d) h.open_state
  | inr d ↦ unfold commit_if_ready in ground (arith, delivery_waits h d)
]

bind_Inv : {c : Coordinator} → Inv c → Inv (record c { bound = true })
bind_Inv v = record {
  channel = v.channel;
  frozen = v.frozen;
  idle_free = v.idle_free;
  cancelled_free = v.cancelled_free;
  armed_held = v.armed_held;
  armed_open = v.armed_open;
  waiting_held = v.waiting_held;
  waiting_done = v.waiting_done;
  waiting_open = v.waiting_open;
  committed_held = v.committed_held;
  committed_done = v.committed_done;
  committed_delivered = v.committed_delivered;
  committed_sent = v.committed_sent;
  uncommitted = v.uncommitted;
  timer = v.timer;
  held_bound = λ _. refl;
  held_supervised = v.held_supervised;
}

-- The coordinator that an operation leaves satisfies the invariant.
pub record Keeps {A : Type 0} (o : Outcome A) : Type 0 where
  pub inv : Inv o.1

not-false : {b : Bool} → not b ≡ false → b ≡ true
not-false {b = true} h = refl
not-false {b = false} h = cc

bind_admission-Inv : (c : Coordinator) → Inv c → Keeps (bind_admission c)
unfolding bind_admission
bind_admission-Inv c v =
    if_ind Keeps c.bound (λ _. record { inv = v }) (λ _. record { inv = bind_Inv v })

arm-Inv : (a : ArmCall) (c : Coordinator) → Inv c → Keeps (arm a c)
unfolding arm
arm-Inv a c v =
    if_ind Keeps (not c.supervised) (λ _. record { inv = v })
      λ s.
        if_ind Keeps (not c.bound) (λ _. record { inv = v })
          λ b.
            if_ind Keeps (not (fits_reason (strip a.reason))) (λ _. record { inv = v })
              λ _.
                if_ind Keeps (lacks_context a) (λ _. record { inv = v })
                  λ _. record {
                    inv =
                        arm_pending-Inv a c.pending a.quiesce_raises c v refl (not-false s)
                          (not-false b);
                  }

holds_turn-some :
    (p : Option RestartRequest) (t : String)
    → not (holds_turn p t) ≡ false
    → (r : RestartRequest) × (p ≡ some r)
unfolding holds_turn
holds_turn-some none t h = absurd (ground arith)
holds_turn-some (some r) t h = (r, refl)

mark_turn_terminal-Inv :
    (t s : String) (o : Option String) (c : Coordinator)
    → Inv c
    → Keeps (mark_turn_terminal t s o c)
unfolding mark_turn_terminal
mark_turn_terminal-Inv t s o c v =
    if_ind Keeps (is_committed c.state) (λ _. record { inv = v })
      λ n.
        if_ind Keeps (not (holds_turn c.pending t)) (λ _. record { inv = v })
          λ h.
            if_ind Keeps (not (str_eq s "completed")) (λ _. record { inv = cancel-Inv _ c v n })
              λ _.
                let (r, e) = holds_turn-some c.pending t h in
                record {
                  inv = terminal-Inv o {r = r} (record { inv = v; held = e; open_state = n });
                }

mark_delivered-Inv :
    (t : String) (o : Option String) (c : Coordinator) → Inv c → Keeps (mark_delivered t o c)
unfolding mark_delivered
mark_delivered-Inv t o c v =
    if_ind Keeps (is_committed c.state) (λ _. record { inv = v })
      λ n.
        if_ind Keeps (not (holds_turn c.pending t)) (λ _. record { inv = v })
          λ h.
            let (r, e) = holds_turn-some c.pending t h in
            record { inv = delivery-Inv o {r = r} (record { inv = v; held = e; open_state = n }) }

mark_delivery_failed-Inv :
    (t reason : String) (c : Coordinator) → Inv c → Keeps (mark_delivery_failed t reason c)
unfolding mark_delivery_failed
mark_delivery_failed-Inv t reason c v =
    if_ind Keeps (is_committed c.state) (λ _. record { inv = v })
      λ n.
        if_ind Keeps (not (holds_turn c.pending t)) (λ _. record { inv = v })
          λ _. record { inv = cancel-Inv _ c v n }

live_open :
    (s : RestartState) (p : Option RestartRequest) (o : Option ℕ) (i : ℕ)
    → o ≡ live_watchdog s p
    → is_live o i ≡ true
    → is_committed s ≡ false
unfolding is_live is_committed
live_open s p o i e h = ground arith

fire-Inv :
    (i : ℕ) (p : Option RestartRequest) (c : Coordinator)
    → Inv c
    → is_committed c.state ≡ false
    → Inv (fire i p c).1
unfolding fire
fire-Inv i none c v n = v
fire-Inv i (some r) c v n =
    (if_ind Keeps (r.request_id == i) (λ _. record { inv = cancel-Inv _ c v n })
      (λ _. record { inv = v })).inv

wake-Inv : (i : ℕ) (c : Coordinator) → Inv c → Inv (wake i c)
unfolding wake delivery_watchdog
wake-Inv i c v =
    if_ind Inv _
      (λ h. fire-Inv i c.pending c v (live_open c.state c.pending c.timeout_task i v.timer h))
      (λ _. v)

pub step-Inv : (c : Coordinator) (e : Event) → Inv c → Inv (step c e)
unfolding step
step-Inv c bind v = (bind_admission-Inv c v).inv
step-Inv c (request a) v = (arm-Inv a c v).inv
step-Inv c (terminal t s o) v = (mark_turn_terminal-Inv t s o c v).inv
step-Inv c (delivery t o) v = (mark_delivered-Inv t o c v).inv
step-Inv c (delivery_failure t reason) v = (mark_delivery_failed-Inv t reason c v).inv
step-Inv c (watchdog i) v = wake-Inv i c v

pub run-Inv : (c : Coordinator) (es : List Event) → Inv c → Inv (run c es)
unfolding run
run-Inv c [] v = v
run-Inv c (e ∷ es) v = run-Inv (step c e) es (step-Inv c e v)
