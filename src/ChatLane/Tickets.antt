-- ===== src/ChatLane/Tickets.antt =====
-- The tickets of bus/queue.py: each ticket that was taken and not yet served belongs to one coroutine,
-- which waits, was cancelled, or sends.
use kirakira_agent_online.Prelude.{
  ℕ, zero, suc, ◌+◌, ◌≤◌, ◌≡◌, refl, subst, inl, inr, Bool, true, false, ◌&&◌, List, [], ◌∷◌, arith,
  ◌==◌, ltb, leb, if◌then◌else◌, if_ind, count, length, any-count, ind, Bool-cases, ==→eq, ==_refl,
}
use kirakira_agent_online.ChatLane.{
  LaneState, Sender, nobody, non_passive, has_ticket, without, skip_rounds,
}

abbrev pub is_non_passive : Sender → Bool
is_non_passive (non_passive t) = true
is_non_passive _ = false

abbrev pub is_sending : Sender → Bool
is_sending nobody = false
is_sending _ = true

-- How often a ticket is held: by a coroutine that waits or sends, or as cancelled.
abbrev pub times : ℕ → List ℕ → ℕ
times t tickets = count (λ x. x == t) tickets

-- The tickets from the one that is served to the last one that was taken are held once, others never.
pub record Held (s : LaneState) (waiting : List ℕ) (sends : Bool) : Type 0 where
  pub once :
      (t : ℕ)
      → times t waiting
          + times t s.cancelled_non_passive_tickets
          + ind (sends && t == s.serving_non_passive_ticket)
        ≡ ind (leb s.serving_non_passive_ticket t && ltb t s.next_non_passive_ticket)
  pub within : s.serving_non_passive_ticket ≤ s.next_non_passive_ticket

-- The ticket that is served is not a cancelled one.
pub record Settled (s : LaneState) : Type 0 where
  pub settled : times s.serving_non_passive_ticket s.cancelled_non_passive_tickets ≡ 0

pub has_ticket-times :
    (t : ℕ) (tickets : List ℕ) → has_ticket t tickets ≡ true → 1 ≤ times t tickets
has_ticket-times t [] h = cc
has_ticket-times t (x ∷ tickets) h = ground (arith, has_ticket-times t tickets)

pub times-without :
    (u t : ℕ) (tickets : List ℕ)
    → times u (without t tickets) ≡ (if t == u then 0 else times u tickets)
times-without u t [] = ground arith
times-without u t (x ∷ tickets) =
    ground (arith, times-without u t tickets, ==→eq x t, ==→eq x u, ==→eq t u, ==_refl u)

length-without : (t : ℕ) (tickets : List ℕ) → length (without t tickets) ≤ length tickets
length-without t [] = omega arith
length-without t (x ∷ tickets) = ground (arith, length-without t tickets)

fewer-without :
    (t : ℕ) (tickets : List ℕ)
    → has_ticket t tickets ≡ true
    → length (without t tickets) + 1 ≤ length tickets
fewer-without t [] h = cc
fewer-without t (x ∷ tickets) h = ground (arith, fewer-without t tickets, length-without t tickets)

times-length : (t : ℕ) (tickets : List ℕ) → times t tickets ≤ length tickets
times-length t [] = omega arith
times-length t (x ∷ tickets) = ground (arith, times-length t tickets)

-- While the served ticket is a cancelled one, nobody sends with it.
cancelled-idle :
    (s : LaneState) (waiting : List ℕ) (sends : Bool)
    → Held s waiting sends
    → 1 ≤ times s.serving_non_passive_ticket s.cancelled_non_passive_tickets
    → (sends ≡ false)
      × (times s.serving_non_passive_ticket waiting ≡ 0)
      × (times s.serving_non_passive_ticket s.cancelled_non_passive_tickets ≡ 1)
cancelled-idle s waiting false v h = (
  refl,
  ground (arith, v.once s.serving_non_passive_ticket, ==_refl s.serving_non_passive_ticket),
  ground (arith, v.once s.serving_non_passive_ticket, ==_refl s.serving_non_passive_ticket),
)
cancelled-idle s waiting true v h =
    absurd
      (ground (arith, v.once s.serving_non_passive_ticket, ==_refl s.serving_non_passive_ticket))

skipped-once :
    (s : LaneState) (waiting : List ℕ) (sends : Bool)
    → Held s waiting sends
    → 1 ≤ times s.serving_non_passive_ticket s.cancelled_non_passive_tickets
    → (t : ℕ)
    → times t waiting
        + times t (without s.serving_non_passive_ticket s.cancelled_non_passive_tickets)
        + ind (sends && t == s.serving_non_passive_ticket + 1)
      ≡ ind (leb (s.serving_non_passive_ticket + 1) t && ltb t s.next_non_passive_ticket)
skipped-once s waiting sends v h t =
    let (i, w, c) = cancelled-idle s waiting sends v h in
    elim (Bool-cases (s.serving_non_passive_ticket == t)) [
      | inl e ↦ ground (
        arith,
        i,
        times-without t s.serving_non_passive_ticket s.cancelled_non_passive_tickets,
        subst (λ u. times u waiting ≡ 0) (==→eq _ t e) w,
      )
      | inr e ↦ ground (
        arith,
        i,
        times-without t s.serving_non_passive_ticket s.cancelled_non_passive_tickets,
        v.once t,
      )
    ]

below_next :
    (s : LaneState) (waiting : List ℕ) (sends : Bool)
    → Held s waiting sends
    → 1 ≤ times s.serving_non_passive_ticket s.cancelled_non_passive_tickets
    → s.serving_non_passive_ticket + 1 ≤ s.next_non_passive_ticket
below_next s waiting sends v h = ground (arith, v.once s.serving_non_passive_ticket)

-- Enough rounds reach a ticket that is not cancelled.
pub skip_rounds-Settled :
    (n : ℕ) (s : LaneState) → length s.cancelled_non_passive_tickets ≤ n → Settled (skip_rounds n s)
unfolding skip_rounds
skip_rounds-Settled zero s h = record {
  settled =
      omega (arith, h, times-length s.serving_non_passive_ticket s.cancelled_non_passive_tickets);
}
skip_rounds-Settled (suc n) s h =
    if_ind Settled (has_ticket s.serving_non_passive_ticket s.cancelled_non_passive_tickets)
      (λ e. skip_rounds-Settled n _ (
        omega
          (arith, fewer-without s.serving_non_passive_ticket s.cancelled_non_passive_tickets e)))
      (λ e. record { settled = any-count _ s.cancelled_non_passive_tickets e })

-- A round serves the next ticket and forgets the one that was cancelled.
pub skip_rounds-Held :
    (n : ℕ) (s : LaneState) (waiting : List ℕ) (sends : Bool)
    → Held s waiting sends
    → Held (skip_rounds n s) waiting sends
unfolding skip_rounds
skip_rounds-Held zero s waiting sends v = v
skip_rounds-Held (suc n) s waiting sends v =
    if_ind (λ s'. Held s' waiting sends)
      (has_ticket s.serving_non_passive_ticket s.cancelled_non_passive_tickets)
      (λ e. skip_rounds-Held n _ waiting sends (record {
        once =
            skipped-once s waiting sends v (has_ticket-times _ s.cancelled_non_passive_tickets e);
        within =
            below_next s waiting sends v (has_ticket-times _ s.cancelled_non_passive_tickets e);
      }))
      (λ e. v)
