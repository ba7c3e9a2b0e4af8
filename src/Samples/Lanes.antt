-- ===== src/Samples/Lanes.antt =====
-- The chat lane of bus/queue.py at concrete inputs.
use kirakira_agent_online.Prelude.{◌≤◌, ◌≡◌, refl, List, [], ◌∷◌}
use kirakira_agent_online.ChatLane.{
  non_passive, LaneStep, turn_pending, turn_done, enter, wake, cancel, lane_step, lane_steps,
  new_lane, mark_passive_pending, mark_passive_done, enter_non_passive, cancel_non_passive,
  wake_non_passive, skip_cancelled_non_passive, skip_rounds, can_start,
}
use kirakira_agent_online.ChatLane.Order.{oldest_starts, start_in_order}

-- Three sends wait for a passive turn; the first one is cancelled and the turn ends.
abbrev three_sends : List LaneStep
three_sends = turn_pending ∷ enter ∷ enter ∷ enter ∷ wake 0 ∷ cancel 0 ∷ turn_done ∷ []

oldest_starts_example :
    let w = lane_steps three_sends new_lane in
    let oldest = w.lane.serving_non_passive_ticket in
    ((lane_step (wake oldest) w).sender ≡ non_passive oldest) × (oldest ≤ 2)
unfolding lane_steps lane_step new_lane mark_passive_pending mark_passive_done enter_non_passive
    cancel_non_passive wake_non_passive skip_cancelled_non_passive skip_rounds can_start
oldest_starts_example = oldest_starts three_sends 2 refl refl refl refl

start_in_order_example :
    let w = lane_steps three_sends new_lane in
    (1 ≤ 2) × (w.lane.passive_turns ≡ 0) × (w.lane.passive_sends ≡ 0)
unfolding lane_steps lane_step new_lane mark_passive_pending mark_passive_done enter_non_passive
    cancel_non_passive wake_non_passive skip_cancelled_non_passive skip_rounds can_start
start_in_order_example = start_in_order three_sends 1 2 refl refl refl
