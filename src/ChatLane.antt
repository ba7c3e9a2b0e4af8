-- ===== src/ChatLane.antt =====
-- The send order of one chat in bus/queue.py (`ChatLane`): the state of the lane and the coroutines on
-- it, which take turns at the condition's lock. A step is what one of them does while it holds it.
pub mod Tickets
pub mod Invariant
pub mod Order
use kirakira_agent_online.Prelude.{
  ℕ, zero, suc, ◌+◌, ◌-◌, Bool, true, false, ◌&&◌, ◌||◌, not, Option, none, some, List, [], ◌∷◌,
  ◌++◌, ◌==◌, if◌then◌else◌, any, keep, length,
}

pub record LaneState : Type 0 where
  pub passive_turns : ℕ
  pub passive_sends : ℕ
  pub sending : Bool
  pub next_ticket : ℕ
  pub serving_ticket : ℕ
  pub next_non_passive_ticket : ℕ
  pub serving_non_passive_ticket : ℕ
  pub cancelled_non_passive_tickets : List ℕ  -- a set

-- Who sends, with its ticket.
pub data Sender : Type 0 where
  nobody : Sender
  passive non_passive : (ticket : ℕ) → Sender

-- The lane with its coroutines: the passive and the other sends that wait, by their tickets.
pub record Lane : Type 0 where
  pub lane : LaneState
  pub passive_waiting : List ℕ
  pub waiting : List ℕ
  pub sender : Sender

abbrev pub has_ticket : ℕ → List ℕ → Bool
has_ticket t tickets = any (λ x. x == t) tickets

abbrev pub without : ℕ → List ℕ → List ℕ
without t tickets = keep (λ x. not (x == t)) tickets

-- The loop of `_skip_cancelled_non_passive`; each round removes a ticket, so that their number is fuel
-- enough.
unfoldable pub skip_rounds : ℕ → LaneState → LaneState
skip_rounds zero s = s
skip_rounds (suc n) s =
    let rest = skip_rounds n (record s {
      cancelled_non_passive_tickets =
          without s.serving_non_passive_ticket s.cancelled_non_passive_tickets;
      serving_non_passive_ticket = s.serving_non_passive_ticket + 1;
    }) in
    if has_ticket s.serving_non_passive_ticket s.cancelled_non_passive_tickets then rest else s

unfoldable pub skip_cancelled_non_passive : LaneState → LaneState
unfolding skip_rounds
skip_cancelled_non_passive s = skip_rounds (length s.cancelled_non_passive_tickets) s

unfoldable pub mark_passive_pending : Lane → Lane
mark_passive_pending w = record w {
  lane = record w.lane { passive_turns = w.lane.passive_turns + 1 };
}

-- `max(0, passive_turns - 1)`
unfoldable pub mark_passive_done : Lane → Lane
mark_passive_done w = record w { lane = record w.lane { passive_turns = w.lane.passive_turns - 1 } }

unfoldable pub mark_passive_send_pending : Lane → Lane
mark_passive_send_pending w = record w {
  lane = record w.lane {
    next_ticket = w.lane.next_ticket + 1;
    passive_sends = w.lane.passive_sends + 1;
  };
  passive_waiting = w.passive_waiting ++ (w.lane.next_ticket ∷ []);
}

-- `run_passive`: the loop ends for a ticket.
unfoldable pub start_passive : ℕ → Lane → Lane
start_passive t w =
    if not (has_ticket t w.passive_waiting) || w.lane.sending || not (t == w.lane.serving_ticket)
    then w
    else record w {
      lane = record w.lane { sending = true };
      passive_waiting = without t w.passive_waiting;
      sender = passive t;
    }

-- Its `finally`, after the send or its failure.
unfoldable pub end_passive : Lane → Lane
end_passive w = record w {
  lane = record w.lane {
    passive_sends = w.lane.passive_sends - 1;
    serving_ticket = w.lane.serving_ticket + 1;
    sending = false;
  };
  sender = nobody;
}

-- `run_non_passive`: the ticket is taken.
unfoldable pub enter_non_passive : Lane → Lane
unfolding skip_cancelled_non_passive
enter_non_passive w = record w {
  lane =
      skip_cancelled_non_passive
        (record w.lane { next_non_passive_ticket = w.lane.next_non_passive_ticket + 1 });
  waiting = w.waiting ++ (w.lane.next_non_passive_ticket ∷ []);
}

-- The condition under which its loop ends for a ticket.
unfoldable pub can_start : ℕ → LaneState → Bool
can_start t s = not (
    s.sending
    || not (s.passive_turns == 0)
    || not (s.passive_sends == 0)
    || not (t == s.serving_non_passive_ticket))

-- A waiting coroutine is woken: it skips the cancelled tickets and looks at the condition.
unfoldable pub wake_non_passive : ℕ → Lane → Lane
unfolding skip_cancelled_non_passive can_start
wake_non_passive t w =
    let s = skip_cancelled_non_passive w.lane in
    if not (has_ticket t w.waiting)
    then w
    else if can_start t s
    then record w {
      lane = record s { sending = true };
      waiting = without t w.waiting;
      sender = non_passive t;
    }
    else record w { lane = s }

-- Its `finally` after the send or its failure.
unfoldable pub end_non_passive : Lane → Lane
unfolding skip_cancelled_non_passive
end_non_passive w = record w {
  lane = skip_cancelled_non_passive (record w.lane {
    serving_non_passive_ticket = w.lane.serving_non_passive_ticket + 1;
    sending = false;
  });
  sender = nobody;
}

-- Its `finally` where the coroutine is cancelled while it waits.
unfoldable pub cancel_non_passive : ℕ → Lane → Lane
unfolding skip_cancelled_non_passive
cancel_non_passive t w = if not (has_ticket t w.waiting) then w else record w {
  lane =
      skip_cancelled_non_passive (record w.lane {
        cancelled_non_passive_tickets = t ∷ w.lane.cancelled_non_passive_tickets;
      });
  waiting = without t w.waiting;
}

-- The end of the send that is under way.
unfoldable pub end_send : Lane → Lane
unfolding end_passive end_non_passive
end_send w = elim w.sender [
  | nobody ↦ w
  | passive t ↦ end_passive w
  | non_passive t ↦ end_non_passive w
]

pub data LaneStep : Type 0 where
  turn_pending turn_done send_pending enter end_of_send : LaneStep
  passive_start wake cancel : ℕ → LaneStep

unfoldable pub lane_step : LaneStep → Lane → Lane
lane_step turn_pending w = mark_passive_pending w
lane_step turn_done w = mark_passive_done w
lane_step send_pending w = mark_passive_send_pending w
lane_step enter w = enter_non_passive w
lane_step end_of_send w = end_send w
lane_step (passive_start t) w = start_passive t w
lane_step (wake t) w = wake_non_passive t w
lane_step (cancel t) w = cancel_non_passive t w

unfoldable pub lane_steps : List LaneStep → Lane → Lane
lane_steps [] w = w
lane_steps (a ∷ more) w = lane_steps more (lane_step a w)

unfoldable pub new_lane : Lane
new_lane = record {
  lane = record {
    passive_turns = 0;
    passive_sends = 0;
    sending = false;
    next_ticket = 0;
    serving_ticket = 0;
    next_non_passive_ticket = 0;
    serving_non_passive_ticket = 0;
    cancelled_non_passive_tickets = [];
  };
  passive_waiting = [];
  waiting = [];
  sender = nobody;
}
