-- ===== src/Store/Deliveries.antt =====
-- The deliveries of messages to linked chats: `claim_channel_delivery` and `finish_channel_delivery` of
-- cloud/store.py, and the round of the worker in cloud/channel_gateway.py that sends them.
pub mod Rounds
pub mod Drained
pub mod Calls
pub mod Exclusive
use kirakira_agent_online.Prelude.{
  ℕ, ◌+◌, String, Bool, true, false, ◌&&◌, ◌||◌, not, Option, none, some, List, [], map, ◌==◌, ltb,
  leb, is_text, cut, if◌then◌else◌, Result, ok, err, any, find, update, keep, take, first_by, ℤ,
  at_least, pos, ◌>>=◌,
}
use kirakira_agent_online.Store.{
  StoreError, state_error, Message, ChannelLink, DeliveryStatus, pending, running, sent, failed,
  ChannelDelivery, Db, Tx,
}
use kirakira_agent_online.Store.Reaper.{expires_before}

unfoldable pub is_pending_delivery : ChannelDelivery → Bool
is_pending_delivery d = elim d.status [ pending ↦ true | _ ↦ false ]

unfoldable pub in_delivery : ChannelDelivery → Bool
in_delivery d = elim d.status [ running ↦ true | _ ↦ false ]

abbrev pub find_delivery : ℕ → List ChannelDelivery → Option ChannelDelivery
find_delivery id rows = find (λ d. d.id == id) rows

-- The `UPDATE` of one row.
unfoldable pub change_delivery :
    ℕ → (ChannelDelivery → ChannelDelivery) → List ChannelDelivery → List ChannelDelivery
unfolding update
change_delivery id f rows = update (λ d. d.id == id) f rows

-- At most 20 deliveries whose lease is over. `locked` are the rows that SKIP LOCKED passes over.
unfoldable pub expired_deliveries : (ℕ → Bool) → ℕ → List ChannelDelivery → List ℕ
unfolding in_delivery
expired_deliveries locked now rows = take 20 (
    map (λ d. d.id)
      (keep (λ d. in_delivery d && expires_before d.lease_expires_at now && not (locked d.id))
        rows))

unfoldable pub returned : ChannelDelivery → ChannelDelivery
returned d = record d {
  status = DeliveryStatus.pending;
  lease_owner = none;
  lease_expires_at = none;
}

unfoldable pub return_deliveries : List ℕ → List ChannelDelivery → List ChannelDelivery
unfolding update returned
return_deliveries ids rows = update (λ d. any (λ i. i == d.id) ids) returned rows

-- `.order_by(ChannelDelivery.created_at, ChannelDelivery.id)`
unfoldable pub precedes_delivery : ChannelDelivery → ChannelDelivery → Bool
precedes_delivery a b =
    ltb a.created_at b.created_at || (a.created_at == b.created_at && leb a.id b.id)

unfoldable pub oldest_pending : (ℕ → Bool) → List ChannelDelivery → Option ChannelDelivery
unfolding first_by precedes_delivery is_pending_delivery
oldest_pending locked rows =
    first_by precedes_delivery (λ d. is_pending_delivery d && not (locked d.id)) rows

unfoldable pub leased_delivery : String → ℤ → ℕ → ChannelDelivery → ChannelDelivery
leased_delivery worker_id lease_seconds now d = record d {
  status = running;
  lease_owner = some (cut 200 worker_id);
  lease_expires_at = some (now + at_least 10 lease_seconds);
  attempt = d.attempt + 1;
}

-- A delivery whose link or message is gone.
unfoldable pub orphaned : ChannelDelivery → ChannelDelivery
orphaned d = record d { status = failed; last_error = "delivery dependency is missing" }

-- The link and the message of a delivery, if both are there.
unfoldable pub dependencies : ChannelDelivery → Db → Option (ChannelLink × Message)
unfolding find
dependencies d db = elim (find (λ l. l.id == d.link_id) db.links) [
  | none ↦ none
  | some l ↦ elim (find (λ m. m.id == d.message_id) db.messages) [
    | none ↦ none
    | some m ↦ some (l, m)
  ]
]

unfoldable pub claim_channel_delivery :
    (ℕ → Bool) → String → ℤ → ℕ → Db → Option (ChannelDelivery × ChannelLink × Message) × Db
unfolding expired_deliveries return_deliveries oldest_pending leased_delivery orphaned dependencies
    change_delivery
claim_channel_delivery locked worker_id lease_seconds now db =
    let rows = return_deliveries (expired_deliveries locked now db.deliveries) db.deliveries in
    elim (oldest_pending locked rows) [
      | none ↦ (none, record db { deliveries = rows })
      | some d ↦
          let taken = leased_delivery worker_id lease_seconds now in
          elim (dependencies d db) [
            | none ↦ (
              none,
              record db { deliveries = change_delivery d.id (λ x. orphaned (taken x)) rows },
            )
            | some (link, message) ↦ (
              some (taken d, link, message),
              record db { deliveries = change_delivery d.id taken rows },
            )
          ]
    ]

abbrev pub max_attempts : ℕ
max_attempts = 5

-- `error` is the text of the failure, none when the message was sent.
unfoldable pub finished_delivery : Option String → ℕ → ChannelDelivery → ChannelDelivery
finished_delivery none now d = record d {
  status = sent;
  last_error = "";
  sent_at = some now;
  lease_owner = none;
  lease_expires_at = none;
}
finished_delivery (some error) now d = record d {
  status = if ltb d.attempt max_attempts then DeliveryStatus.pending else failed;
  last_error = cut 500 error;
  sent_at = none;
  lease_owner = none;
  lease_expires_at = none;
}

unfoldable pub finish_channel_delivery : ℕ → String → Option String → ℕ → Db → Tx Unit
unfolding finished_delivery change_delivery
finish_channel_delivery id worker_id error now db = elim (find_delivery id db.deliveries) [
  | none ↦ err state_error
  | some d ↦
      if not (is_text d.lease_owner (cut 200 worker_id))
      then err state_error
      else ok (
        tt,
        record db { deliveries = change_delivery id (finished_delivery error now) db.deliveries },
      )
]

-- One round of a worker, which no other worker disturbs: `send` is what sending the message to the chat of
-- the link comes to, the text of its failure or none; `now` and `later` are the clock at the claim and at
-- the end.
unfoldable pub run_once :
    String → (ChannelLink → Message → Option String) → ℕ → ℕ → Db → Result StoreError (Bool × Db)
unfolding claim_channel_delivery finish_channel_delivery
run_once worker_id send now later db =
    let (claimed, db1) = claim_channel_delivery (λ i. false) worker_id (pos 60) now db in
    elim claimed [
      | none ↦ ok (false, db1)
      | some (d, link, message) ↦
          finish_channel_delivery d.id worker_id (send link message) later db1 >>= λ end.
          ok (true, end.1)
    ]
