-- ===== src/Samples/Sending.antt =====
-- The deliveries of cloud/store.py at concrete inputs.
use kirakira_agent_online.Prelude.{
  ℕ, ◌≡◌, refl, true, false, none, some, List, [], ◌∷◌, arith, ◌==◌, ok, count, All, end, find, pos,
}
use kirakira_agent_online.Store.{Message, DeliveryStatus, ChannelDelivery, Db}
use kirakira_agent_online.Store.Deliveries.{is_pending_delivery, in_delivery, find_delivery}
use kirakira_agent_online.Store.Deliveries.Rounds.{ReadyTables}
use kirakira_agent_online.Store.Deliveries.Calls.{
  DeliveryCall, claims, finishes, posts, delivery_calls, NumberedDeliveries,
}
use kirakira_agent_online.Store.Deliveries.Exclusive.{delivery_calls-find}
use kirakira_agent_online.Store.Deliveries.Drained.{Round, run_rounds, Ended, run_rounds-Ended}

abbrev waiting_delivery : ℕ → ℕ → ℕ → ChannelDelivery
waiting_delivery i message tries = record {
  id = i;
  link_id = 3;
  message_id = message;
  status = DeliveryStatus.pending;
  attempt = tries;
  lease_owner = none;
  lease_expires_at = none;
  last_error = "";
  created_at = 100;
  sent_at = none;
}

abbrev greeting : Message
greeting = record {
  id = 70;
  conversation_id = 10;
  seq = 1;
  role = "assistant";
  content = "hello";
  agent_metadata = end;
  delivery_key = none;
}

-- The message of the second delivery is gone.
abbrev two_waiting : Db
two_waiting = record {
  runs = [];
  events = [];
  conversations = [];
  messages = greeting ∷ [];
  links = record { id = 3; conversation_id = 10; enabled = true } ∷ [];
  deliveries = waiting_delivery 1 70 0 ∷ waiting_delivery 2 71 4 ∷ [];
  next_delivery_id = 3;
  automations = [];
  files = [];
}

two_waiting-ReadyTables : ReadyTables two_waiting
unfolding is_pending_delivery in_delivery
two_waiting-ReadyTables = record {
  unique = λ k. ground arith;
  rows = (
    record { free = refl; may_try = λ h. ground arith; gave_up = λ h. absurd (ground arith) },
    (record { free = refl; may_try = λ h. ground arith; gave_up = λ h. absurd (ground arith) }, tt),
  );
}

abbrev fails : Round
fails = record { send = λ link message. some "timeout"; now = 200; later = 210 }

abbrev succeeds : Round
succeeds = record { send = λ link message. none; now = 220; later = 230 }

abbrev ten_rounds : List Round
ten_rounds = fails ∷ fails ∷ succeeds ∷ fails ∷ fails ∷ fails ∷ fails ∷ fails ∷ fails ∷ fails ∷ []

run_rounds-Ended_example :
    (db' : Db) × (run_rounds "w" ten_rounds two_waiting ≡ ok db')
    × All (Ended db') db'.deliveries
    × ((k : ℕ)
        → count (λ (x : ChannelDelivery). x.id == k) db'.deliveries
          ≡ count (λ (x : ChannelDelivery). x.id == k) two_waiting.deliveries)
unfolding is_pending_delivery
run_rounds-Ended_example =
    run_rounds-Ended "w" ten_rounds two_waiting two_waiting-ReadyTables (omega arith)

-- A delivery that a worker has until 260.
abbrev leased_row : ChannelDelivery
leased_row = record (waiting_delivery 1 70 1) {
  status = DeliveryStatus.running;
  lease_owner = some "w";
  lease_expires_at = some 260;
}

abbrev one_leased : Db
one_leased = record two_waiting { deliveries = leased_row ∷ waiting_delivery 2 70 0 ∷ [] }

one_leased-NumberedDeliveries : NumberedDeliveries one_leased
one_leased-NumberedDeliveries = record { unique = λ k. ground arith; fresh = λ k h. ground arith }

-- Another worker claims, and reports on the delivery that is not its own.
abbrev other_calls : List DeliveryCall
other_calls =
    claims (λ i. false) "v" (pos 60) 250
    ∷ finishes 1 "v" none 255
    ∷ posts 256 greeting
    ∷ claims (λ i. false) "v" (pos 60) 260
    ∷ []

delivery_calls-find_example :
    find_delivery 1 (delivery_calls other_calls one_leased).deliveries ≡ some leased_row
unfolding find in_delivery
delivery_calls-find_example =
    delivery_calls-find other_calls one_leased leased_row one_leased-NumberedDeliveries refl refl
      (refl, (refl, (refl, (refl, tt))))
