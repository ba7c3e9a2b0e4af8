-- ===== src/ChatLane/Order.antt =====
-- The order of bus/queue.py's sends: the lane is not stuck, and its tickets are served in their order.
use kirakira_agent_online.Prelude.{
  ℕ, ◌≤◌, ◌≡◌, ap, sym, ◌∙◌, inl, inr, true, false, not, List, arith, ◌==◌, if◌then◌else◌,
  any-count, Bool-cases, ==→eq, ==_refl,
}
use kirakira_agent_online.ChatLane.{
  LaneState, nobody, non_passive, Lane, has_ticket, can_start, LaneStep, wake, lane_step,
  lane_steps, new_lane,
}
use kirakira_agent_online.ChatLane.Tickets.{has_ticket-times}
use kirakira_agent_online.ChatLane.Invariant.{idle, starting, wake_looks, reached-Inv, Inv}

-- Of the tickets that wait none is before the one that is served.
waiting_after :
    (w : Lane) (t : ℕ)
    → Inv w
    → has_ticket t w.waiting ≡ true
    → w.lane.serving_non_passive_ticket ≤ t
waiting_after w t v h = ground (arith, v.held.once t, has_ticket-times t w.waiting h)

-- The ticket that is served waits, if one does and nobody sends.
served_waits :
    (w : Lane) (t : ℕ)
    → Inv w
    → w.lane.sending ≡ false
    → has_ticket t w.waiting ≡ true
    → has_ticket w.lane.serving_non_passive_ticket w.waiting ≡ true
served_waits w t v e h =
    elim (Bool-cases (has_ticket w.lane.serving_non_passive_ticket w.waiting)) [
      | inl y ↦ y
      | inr n ↦
          let i : w.sender ≡ nobody = idle w.sender (sym v.sends ∙ e) in
          absurd (
            ground (
              arith,
              i,
              any-count (λ x. x == w.lane.serving_non_passive_ticket) w.waiting n,
              v.held.once w.lane.serving_non_passive_ticket,
              v.held.once t,
              v.settled.settled,
              has_ticket-times t w.waiting h,
            ))
    ]

-- The lane is not stuck: whatever steps the coroutines took, if a send waits while nobody sends and no
-- passive turn or send is pending, then the oldest of the waiting sends starts as soon as it is woken.
pub oldest_starts :
    (more : List LaneStep) (t : ℕ)
    → (lane_steps more new_lane).lane.sending ≡ false
    → (lane_steps more new_lane).lane.passive_turns ≡ 0
    → (lane_steps more new_lane).lane.passive_sends ≡ 0
    → has_ticket t (lane_steps more new_lane).waiting ≡ true
    → let w = lane_steps more new_lane in
      let oldest = w.lane.serving_non_passive_ticket in
      ((lane_step (wake oldest) w).sender ≡ non_passive oldest) × (oldest ≤ t)
unfolding lane_step can_start
oldest_starts more t e p q h =
    let w = lane_steps more new_lane in
    let v = reached-Inv more in
    (
      ap (λ x. x.sender) (wake_looks w.lane.serving_non_passive_ticket w v.settled)
          ∙ ground
              (arith, e, p, q, served_waits w t v e h, ==_refl w.lane.serving_non_passive_ticket),
      waiting_after w t v h,
    )

looked_start :
    (w : Lane) (t : ℕ)
    → w.sender ≡ nobody
    → (if not (has_ticket t w.waiting)
        then w
        else if can_start t w.lane
        then starting t w
        else w).sender
      ≡ non_passive t
    → can_start t w.lane ≡ true
looked_start w t n h = elim (Bool-cases (can_start t w.lane)) [
  | inl e ↦ e
  | inr e ↦ absurd (ground arith)
]

started_at :
    (t : ℕ) (s : LaneState)
    → can_start t s ≡ true
    → (t ≡ s.serving_non_passive_ticket) × (s.passive_turns ≡ 0) × (s.passive_sends ≡ 0)
unfolding can_start
started_at t s h = (
  ==→eq t s.serving_non_passive_ticket (ground arith),
  ==→eq s.passive_turns 0 (ground arith),
  ==→eq s.passive_sends 0 (ground arith),
)

-- A woken send that starts was the oldest: whatever steps the coroutines took, if nobody
-- was sending, no send that waits has an earlier ticket and no passive turn or send is pending.
pub start_in_order :
    (more : List LaneStep) (t u : ℕ)
    → (lane_steps more new_lane).sender ≡ nobody
    → (lane_step (wake t) (lane_steps more new_lane)).sender ≡ non_passive t
    → has_ticket u (lane_steps more new_lane).waiting ≡ true
    → let w = lane_steps more new_lane in
      (t ≤ u) × (w.lane.passive_turns ≡ 0) × (w.lane.passive_sends ≡ 0)
unfolding lane_step
start_in_order more t u n s h =
    let w = lane_steps more new_lane in
    let v = reached-Inv more in
    let (i, p, q) =
      started_at t w.lane
        (looked_start w t n (ap (λ x. x.sender) (sym (wake_looks t w v.settled)) ∙ s)) in
    (omega (arith, i, waiting_after w u v h), p, q)
