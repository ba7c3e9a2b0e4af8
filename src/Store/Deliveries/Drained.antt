-- ===== src/Store/Deliveries/Drained.antt =====
-- The rounds of one worker of cloud/channel_gateway.py until no delivery waits.
use kirakira_agent_online.Prelude.{
  ℕ, ◌+◌, ◌*◌, ◌≤◌, ◌≡◌, refl, ◌∙◌, ◌⊎◌, inl, inr, String, true, false, Option, none, some, List,
  [], ◌∷◌, arith, ◌==◌, Result, ok, ◌>>=◌, count, length, All,
}
use kirakira_agent_online.Prelude.Updates.{total, total-update, update-All, count-update}
use kirakira_agent_online.Store.{StoreError, Message, ChannelLink, ChannelDelivery, Db}
use kirakira_agent_online.Store.Deliveries.{
  is_pending_delivery, in_delivery, find_delivery, change_delivery, dependencies, max_attempts,
  run_once,
}
use kirakira_agent_online.Store.Deliveries.Rounds.{
  is_failed, Ready, ReadyTables, tries_left, Tried, round-Tried,
}

-- What a round meets: the outcomes of sending, and the clock at the claim and at the end.
pub record Round : Type 0 where
  pub send : ChannelLink → Message → Option String
  pub now : ℕ
  pub later : ℕ

-- The loop of the worker.
unfoldable pub run_rounds : String → List Round → Db → Result StoreError Db
run_rounds worker [] db = ok db
run_rounds worker (r ∷ rounds) db =
    run_once worker r.send r.now r.later db >>= λ next. run_rounds worker rounds next.1

Ready-same :
    (db : Db) (deliveries rows : List ChannelDelivery)
    → All (Ready db) rows
    → All (Ready (record db { deliveries = deliveries })) rows
unfolding dependencies
Ready-same db deliveries [] h = tt
Ready-same db deliveries (d ∷ rows) h = (
  record { free = h.0.free; may_try = h.0.may_try; gave_up = h.0.gave_up },
  Ready-same db deliveries rows h.1,
)

-- A delivery that has been tried leaves ready tables with fewer tries, and with the same deliveries.
change_delivery-ReadyTables :
    (db : Db) (f : ChannelDelivery → ChannelDelivery) (d : ChannelDelivery)
    → ReadyTables db
    → find_delivery d.id db.deliveries ≡ some d
    → Tried db f d
    → let db' = record db { deliveries = change_delivery d.id f db.deliveries } in
      ReadyTables db'
      × (total tries_left db'.deliveries + 1 ≤ total tries_left db.deliveries)
      × ((k : ℕ)
          → count (λ (x : ChannelDelivery). x.id == k) db'.deliveries
            ≡ count (λ (x : ChannelDelivery). x.id == k) db.deliveries)
unfolding change_delivery
change_delivery-ReadyTables db f d v e t =
    let same = λ (k : ℕ).
      count-update (λ (x : ChannelDelivery). x.id) f (λ x. x.id == k)
        (λ x. ground (arith, t.same_id x)) (λ x. x.id == d.id) db.deliveries in
    (
      record {
        unique = λ k. omega (arith, same k, v.unique k);
        rows = Ready-same db _ _ (
            update-All (λ (x : ChannelDelivery). x.id) f (Ready db) d.id db.deliveries d
              (v.unique d.id) e t.ready_after v.rows);
      },
      omega (
        arith,
        total-update (λ (x : ChannelDelivery). x.id) f tries_left d.id db.deliveries d
            (v.unique d.id) e,
        t.one_less,
      ),
      same,
    )

-- A delivery that has ended: it is sent, or it is given up after its last try or for want of its link or
-- its message.
abbrev pub Ended : Db → ChannelDelivery → Type 0
Ended db d =
    (is_pending_delivery d ≡ false)
    × (in_delivery d ≡ false)
    × (is_failed d ≡ true → (max_attempts ≤ d.attempt) ⊎ (dependencies d db ≡ none))

Ready-Ended :
    (db : Db) (rows : List ChannelDelivery)
    → All (Ready db) rows
    → count is_pending_delivery rows ≡ 0
    → All (Ended db) rows
Ready-Ended db [] h n = tt
Ready-Ended db (d ∷ rows) h n =
    ((ground (arith, n), h.0.free, h.0.gave_up), Ready-Ended db rows h.1 (ground (arith, n)))

none_left :
    (rows : List ChannelDelivery) → total tries_left rows ≤ 5 * count is_pending_delivery rows
none_left [] = omega arith
none_left (d ∷ rows) = ground (arith, none_left rows)

tries_pending :
    (db : Db) (rows : List ChannelDelivery)
    → All (Ready db) rows
    → total tries_left rows ≡ 0
    → count is_pending_delivery rows ≡ 0
tries_pending db [] h n = refl
tries_pending db (d ∷ rows) h n = ground (arith, n, h.0.may_try, tries_pending db rows h.1)

abbrev SameIds : Db → Db → Type 0
SameIds db db' =
    (k : ℕ)
    → count (λ (x : ChannelDelivery). x.id == k) db'.deliveries
      ≡ count (λ (x : ChannelDelivery). x.id == k) db.deliveries

drained :
    (worker : String) (rounds : List Round) (db : Db)
    → ReadyTables db
    → total tries_left db.deliveries ≤ length rounds
    → (db' : Db) × (run_rounds worker rounds db ≡ ok db')
      × All (Ended db') db'.deliveries
      × SameIds db db'
unfolding run_rounds
drained worker [] db v n = (
  db,
  refl,
  Ready-Ended db db.deliveries v.rows (tries_pending db db.deliveries v.rows (omega (arith, n))),
  λ k. refl,
)
drained worker (r ∷ rounds) db v n = elim (round-Tried worker r.send r.now r.later db v) [
  | inl (none_waits, e) ↦
      let (db', e', all, same) =
        drained worker rounds db v (omega (arith, none_left db.deliveries, none_waits)) in
      (db', rw e e', all, same)
  | inr (d, found, f, t, tried, e) ↦
      let (v1, less, same1) = change_delivery-ReadyTables db f d v found t in
      let (db', e', all, same) = drained worker rounds _ v1 (omega (arith, less, n)) in
      (db', rw e e', all, λ k. same k ∙ same1 k)
]

-- A worker that is alone with the deliveries drains them: after 5 rounds for each delivery that waits, and
-- whatever sending comes to in each, every delivery is sent or failed; one that failed has been tried 5
-- times, or its link or its message is gone; none is lost or added, and no round fails. The deliveries start
-- with unique ids and in no worker's hands, those that wait with fewer than 5 tries.
pub run_rounds-Ended :
    (worker : String) (rounds : List Round) (db : Db)
    → ReadyTables db
    → 5 * count is_pending_delivery db.deliveries ≤ length rounds
    → (db' : Db) × (run_rounds worker rounds db ≡ ok db')
      × All (Ended db') db'.deliveries
      × ((k : ℕ)
          → count (λ (x : ChannelDelivery). x.id == k) db'.deliveries
            ≡ count (λ (x : ChannelDelivery). x.id == k) db.deliveries)
run_rounds-Ended worker rounds db v n =
    drained worker rounds db v (omega (arith, none_left db.deliveries, n))
