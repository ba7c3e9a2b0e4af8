-- ===== src/ChatLane/Invariant.antt =====
-- What every step of the lane of bus/queue.py keeps, so that its tickets match the sends that wait.
use kirakira_agent_online.Prelude.{
  ◌⊎◌, ℕ, zero, suc, ◌+◌, ◌≡◌, refl, sym, subst, ◌∙◌, inl, inr, true, false, ◌||◌, not, List, [],
  ◌∷◌, ◌++◌, arith, ◌==◌, if◌then◌else◌, if_ind, length, count-append, Bool-cases, ==→eq, ==_refl,
}
use kirakira_agent_online.ChatLane.{
  LaneState, Sender, nobody, passive, non_passive, Lane, has_ticket, without, skip_rounds,
  skip_cancelled_non_passive, mark_passive_pending, mark_passive_done, mark_passive_send_pending,
  start_passive, end_passive, enter_non_passive, can_start, wake_non_passive, end_non_passive,
  cancel_non_passive, end_send, LaneStep, turn_pending, turn_done, send_pending, enter, end_of_send,
  passive_start, wake, cancel, lane_step, lane_steps, new_lane,
}
use kirakira_agent_online.ChatLane.Tickets.{
  is_non_passive, is_sending, Held, Settled, has_ticket-times, times-without, skip_rounds-Settled,
  skip_rounds-Held,
}

pub record Inv (w : Lane) : Type 0 where
  pub held : Held w.lane w.waiting (is_non_passive w.sender)
  pub settled : Settled w.lane
  pub sends : w.lane.sending ≡ is_sending w.sender

skip_rounds-sending : (n : ℕ) (s : LaneState) → (skip_rounds n s).sending ≡ s.sending
unfolding skip_rounds
skip_rounds-sending zero s = refl
skip_rounds-sending (suc n) s =
    if_ind (λ (s' : LaneState). s'.sending ≡ s.sending)
      (has_ticket s.serving_non_passive_ticket s.cancelled_non_passive_tickets)
      (λ e. skip_rounds-sending n _) (λ e. refl)

-- A lane whose cancelled tickets are skipped.
skip-Inv :
    (s : LaneState) (passive_waiting waiting : List ℕ) (sender : Sender)
    → Held s waiting (is_non_passive sender)
    → s.sending ≡ is_sending sender
    → Inv (record {
      lane = skip_cancelled_non_passive s;
      passive_waiting = passive_waiting;
      waiting = waiting;
      sender = sender;
    })
unfolding skip_cancelled_non_passive
skip-Inv s passive_waiting waiting sender h e = record {
  held =
      skip_rounds-Held (length s.cancelled_non_passive_tickets) s waiting (is_non_passive sender) h;
  settled = skip_rounds-Settled (length s.cancelled_non_passive_tickets) s (omega arith);
  sends = skip_rounds-sending (length s.cancelled_non_passive_tickets) s ∙ e;
}

skip_rounds_stop : (n : ℕ) (s : LaneState) → Settled s → skip_rounds n s ≡ s
unfolding skip_rounds
skip_rounds_stop zero s h = refl
skip_rounds_stop (suc n) s h =
    elim (Bool-cases (has_ticket s.serving_non_passive_ticket s.cancelled_non_passive_tickets)) [
      | inl e ↦
          absurd (ground (arith, h.settled, has_ticket-times _ s.cancelled_non_passive_tickets e))
      | inr e ↦ rw e refl
    ]

pub idle : (x : Sender) → is_sending x ≡ false → x ≡ nobody
idle nobody h = refl
idle (passive t) h = cc
idle (non_passive t) h = cc

start_passive-Inv : (t : ℕ) (w : Lane) → Inv w → Inv (start_passive t w)
unfolding start_passive
start_passive-Inv t w v =
    if_ind Inv
      (not (has_ticket t w.passive_waiting) || w.lane.sending || not (t == w.lane.serving_ticket))
      (λ e. v)
      (λ e. record {
        held =
            subst (λ x. Held (record w.lane { sending = true }) w.waiting (is_non_passive x))
              (idle w.sender (sym v.sends ∙ ground arith))
              (record { once = v.held.once; within = v.held.within });
        settled = record { settled = v.settled.settled };
        sends = refl;
      })

end_non_passive-Inv :
    (w : Lane) (t : ℕ) → Inv w → w.sender ≡ non_passive t → Inv (end_non_passive w)
unfolding end_non_passive
end_non_passive-Inv w t v e =
    skip-Inv
      (record w.lane {
        serving_non_passive_ticket = w.lane.serving_non_passive_ticket + 1;
        sending = false;
      })
      w.passive_waiting w.waiting nobody
      (record {
        once = λ u. ground (
          arith,
          v.held.once u,
          v.held.once w.lane.serving_non_passive_ticket,
          ==→eq u w.lane.serving_non_passive_ticket,
          ==_refl w.lane.serving_non_passive_ticket,
        );
        within = ground (
          arith,
          v.held.once w.lane.serving_non_passive_ticket,
          ==_refl w.lane.serving_non_passive_ticket,
        );
      })
      refl

end_passive-Inv : (w : Lane) (t : ℕ) → Inv w → w.sender ≡ passive t → Inv (end_passive w)
unfolding end_passive
end_passive-Inv w t v e = record {
  held = record { once = λ u. ground (arith, v.held.once u); within = v.held.within };
  settled = record { settled = v.settled.settled };
  sends = refl;
}

sender_cases :
    (x : Sender) → (x ≡ nobody) ⊎ (((t : ℕ) × (x ≡ passive t)) ⊎ ((t : ℕ) × (x ≡ non_passive t)))
sender_cases nobody = inl refl
sender_cases (passive t) = inr (inl (t, refl))
sender_cases (non_passive t) = inr (inr (t, refl))

end_send-Inv : (w : Lane) → Inv w → Inv (end_send w)
unfolding end_send
end_send-Inv w v = elim (sender_cases w.sender) [
  | inl e ↦ subst Inv (sym (ground arith)) v
  | inr (inl (t, e)) ↦ subst Inv (sym (ground arith)) (end_passive-Inv w t v e)
  | inr (inr (t, e)) ↦ subst Inv (sym (ground arith)) (end_non_passive-Inv w t v e)
]

enter-Inv : (w : Lane) → Inv w → Inv (enter_non_passive w)
unfolding enter_non_passive
enter-Inv w v =
    skip-Inv (record w.lane { next_non_passive_ticket = w.lane.next_non_passive_ticket + 1 })
      w.passive_waiting (w.waiting ++ (w.lane.next_non_passive_ticket ∷ [])) w.sender
      (record {
        once = λ t. ground (
          arith,
          v.held.once t,
          v.held.within,
          count-append (λ x. x == t) w.waiting (w.lane.next_non_passive_ticket ∷ []),
        );
        within = omega (arith, v.held.within);
      })
      v.sends

-- A send whose turn it is.
abbrev pub starting : ℕ → Lane → Lane
starting t w = record w {
  lane = record w.lane { sending = true };
  waiting = without t w.waiting;
  sender = non_passive t;
}

-- No cancelled ticket is left to skip, so that a woken coroutine only looks at the condition.
pub wake_looks :
    (t : ℕ) (w : Lane)
    → Settled w.lane
    → wake_non_passive t w
      ≡ (if not (has_ticket t w.waiting) then w else if can_start t w.lane then starting t w else w)
unfolding wake_non_passive skip_cancelled_non_passive can_start
wake_looks t w h = rw (skip_rounds_stop (length w.lane.cancelled_non_passive_tickets) w.lane h) refl

starting-Inv :
    (t : ℕ) (w : Lane)
    → Inv w
    → has_ticket t w.waiting ≡ true
    → can_start t w.lane ≡ true
    → Inv (starting t w)
unfolding can_start
starting-Inv t w v h c =
    let k = has_ticket-times t w.waiting h in
    let n : w.sender ≡ nobody = idle w.sender (sym v.sends ∙ ground arith) in
    record {
      held = record {
        once = λ u. elim (Bool-cases (t == u)) [
          | inl e ↦ ground (
            arith,
            n,
            v.held.once t,
            k,
            times-without u t w.waiting,
            ==→eq t u e,
            ==→eq t w.lane.serving_non_passive_ticket,
          )
          | inr e ↦ ground (
            arith,
            n,
            v.held.once u,
            times-without u t w.waiting,
            ==→eq t w.lane.serving_non_passive_ticket,
            ==→eq u w.lane.serving_non_passive_ticket,
            ==→eq t u,
            ==_refl t,
          )
        ];
        within = v.held.within;
      };
      settled = record { settled = v.settled.settled };
      sends = refl;
    }

wake-Inv : (t : ℕ) (w : Lane) → Inv w → Inv (wake_non_passive t w)
wake-Inv t w v = subst Inv (sym (wake_looks t w v.settled)) (
    if_ind Inv (not (has_ticket t w.waiting)) (λ e. v)
      (λ e. if_ind Inv (can_start t w.lane) (λ c. starting-Inv t w v (ground arith) c) (λ c. v)))

cancel-Inv : (t : ℕ) (w : Lane) → Inv w → Inv (cancel_non_passive t w)
unfolding cancel_non_passive
cancel-Inv t w v =
    if_ind Inv (not (has_ticket t w.waiting)) (λ e. v)
      (λ e.
        skip-Inv
          (record w.lane {
            cancelled_non_passive_tickets = t ∷ w.lane.cancelled_non_passive_tickets;
          })
          w.passive_waiting (without t w.waiting) w.sender
          (record {
            once = λ u. elim (Bool-cases (t == u)) [
              | inl i ↦ ground (
                arith,
                v.held.once t,
                has_ticket-times t w.waiting,
                times-without u t w.waiting,
                ==→eq t u i,
              )
              | inr i ↦ ground (arith, v.held.once u, times-without u t w.waiting)
            ];
            within = v.held.within;
          })
          v.sends)

lane_step-Inv : (a : LaneStep) (w : Lane) → Inv w → Inv (lane_step a w)
unfolding lane_step mark_passive_pending mark_passive_done mark_passive_send_pending
lane_step-Inv turn_pending w v = record {
  held = record { once = v.held.once; within = v.held.within };
  settled = record { settled = v.settled.settled };
  sends = v.sends;
}
lane_step-Inv turn_done w v = record {
  held = record { once = v.held.once; within = v.held.within };
  settled = record { settled = v.settled.settled };
  sends = v.sends;
}
lane_step-Inv send_pending w v = record {
  held = record { once = v.held.once; within = v.held.within };
  settled = record { settled = v.settled.settled };
  sends = v.sends;
}
lane_step-Inv enter w v = enter-Inv w v
lane_step-Inv end_of_send w v = end_send-Inv w v
lane_step-Inv (passive_start t) w v = start_passive-Inv t w v
lane_step-Inv (wake t) w v = wake-Inv t w v
lane_step-Inv (cancel t) w v = cancel-Inv t w v

lane_steps-Inv : (more : List LaneStep) (w : Lane) → Inv w → Inv (lane_steps more w)
unfolding lane_steps
lane_steps-Inv [] w v = v
lane_steps-Inv (a ∷ more) w v = lane_steps-Inv more (lane_step a w) (lane_step-Inv a w v)

pub reached-Inv : (more : List LaneStep) → Inv (lane_steps more new_lane)
unfolding new_lane
reached-Inv more = lane_steps-Inv more new_lane (record {
  held = record { once = λ t. ground arith; within = omega arith };
  settled = record { settled = refl };
  sends = refl;
})
