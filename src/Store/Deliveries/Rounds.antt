-- ===== src/Store/Deliveries/Rounds.antt =====
-- One round of the worker that sends the deliveries of cloud/store.py, on tables where no delivery is
-- left in the hands of a worker.
use kirakira_agent_online.Prelude.{
  ℕ, ◌+◌, ◌-◌, ◌≤◌, ◌≡◌, refl, ap, ◌⊎◌, inl, inr, String, Bool, true, false, ◌&&◌, not, Option,
  none, some, List, [], ◌∷◌, arith, ◌==◌, ==_refl, eq_refl, cut, if◌then◌else◌, ok, Option-cases,
  count, keep, All, pos,
}
use kirakira_agent_online.Prelude.Table.{find-All, find-rows, find-update}
use kirakira_agent_online.Prelude.Sorting.{first_by-none, first_by-some}
use kirakira_agent_online.Prelude.Updates.{update-update}
use kirakira_agent_online.Store.{Message, ChannelLink, ChannelDelivery, Db, failed}
use kirakira_agent_online.Store.Reaper.{expires_before}
use kirakira_agent_online.Store.Deliveries.{
  is_pending_delivery, in_delivery, find_delivery, change_delivery, expired_deliveries,
  return_deliveries, precedes_delivery, oldest_pending, leased_delivery, orphaned, dependencies,
  claim_channel_delivery, max_attempts, finished_delivery, finish_channel_delivery, run_once,
}

abbrev pub is_failed : ChannelDelivery → Bool
is_failed d = elim d.status [ failed ↦ true | _ ↦ false ]

-- No worker has the delivery; if it waits, a try is left; if it has failed, no try was left, or its link or
-- its message is gone.
pub record Ready (db : Db) (d : ChannelDelivery) : Type 0 where
  pub free : in_delivery d ≡ false
  pub may_try : is_pending_delivery d ≡ true → d.attempt + 1 ≤ max_attempts
  pub gave_up : is_failed d ≡ true → (max_attempts ≤ d.attempt) ⊎ (dependencies d db ≡ none)

pub record ReadyTables (db : Db) : Type 0 where
  pub unique : (k : ℕ) → count (λ (d : ChannelDelivery). d.id == k) db.deliveries ≤ 1
  pub rows : All (Ready db) db.deliveries

-- The tries that a delivery has left.
abbrev pub tries_left : ChannelDelivery → ℕ
tries_left d = if is_pending_delivery d then max_attempts - d.attempt else 0

none_kept :
    (db : Db) (p : ChannelDelivery → Bool)
    → ((d : ChannelDelivery) → in_delivery d ≡ false → p d ≡ false)
    → (rows : List ChannelDelivery) → All (Ready db) rows
    → keep p rows ≡ []
none_kept db p q [] h = refl
none_kept db p q (d ∷ rows) h = ground (arith, q d h.0.free, none_kept db p q rows h.1)

return_deliveries_empty : (rows : List ChannelDelivery) → return_deliveries [] rows ≡ rows
unfolding return_deliveries
return_deliveries_empty [] = refl
return_deliveries_empty (d ∷ rows) = ap (λ r. d ∷ r) (return_deliveries_empty rows)

-- A claim gives no delivery back where no worker has one.
return_deliveries_none :
    (db : Db) (locked : ℕ → Bool) (now : ℕ) (rows : List ChannelDelivery)
    → All (Ready db) rows
    → return_deliveries (expired_deliveries locked now rows) rows ≡ rows
unfolding expired_deliveries
return_deliveries_none db locked now rows h =
    let stale = λ (d : ChannelDelivery).
      in_delivery d && expires_before d.lease_expires_at now && not (locked d.id) in
    rw (none_kept db stale (λ d e. ground (arith, e)) rows h) (return_deliveries_empty rows)

pub oldest_pending-found :
    (locked : ℕ → Bool) (rows : List ChannelDelivery) (d : ChannelDelivery)
    → ((k : ℕ) → count (λ (x : ChannelDelivery). x.id == k) rows ≤ 1)
    → oldest_pending locked rows ≡ some d
    → (is_pending_delivery d ≡ true) × (find_delivery d.id rows ≡ some d)
unfolding oldest_pending
oldest_pending-found locked rows d u e =
    let (a, b) =
      first_by-some precedes_delivery (λ x. is_pending_delivery x && not (locked x.id))
        (λ x. find_delivery x.id rows ≡ some x) rows d e (find-rows (λ x. x.id) rows u) in
    (ground (arith, a), b)

none_pending :
    (rows : List ChannelDelivery)
    → oldest_pending (λ i. false) rows ≡ none
    → count is_pending_delivery rows ≡ 0
unfolding oldest_pending
none_pending rows h = count-free rows (first_by-none precedes_delivery _ rows h)
  where
    count-free :
        (xs : List ChannelDelivery)
        → count (λ x. is_pending_delivery x && not false) xs ≡ 0
        → count is_pending_delivery xs ≡ 0
    count-free [] e = refl
    count-free (x ∷ xs) e = ground (arith, e, count-free xs)

-- The change of the oldest pending delivery in a round: it keeps its place, and a try is used or it ends.
pub record Tried (db : Db) (f : ChannelDelivery → ChannelDelivery) (d : ChannelDelivery)
    : Type 0 where
  pub same_id : (x : ChannelDelivery) → (f x).id ≡ x.id
  pub ready_after : Ready db (f d)
  pub one_less : tries_left (f d) + 1 ≤ tries_left d

orphaned-Tried :
    (db : Db) (worker : String) (now : ℕ) (d : ChannelDelivery)
    → is_pending_delivery d ≡ true
    → Ready db d
    → dependencies d db ≡ none
    → Tried db (λ x. orphaned (leased_delivery worker (pos 60) now x)) d
unfolding orphaned dependencies leased_delivery is_pending_delivery in_delivery
orphaned-Tried db worker now d p r n = record {
  same_id = λ x. refl;
  ready_after = record { free = refl; may_try = λ h. ground arith; gave_up = λ h. inr n };
  one_less = ground (arith, p, r.may_try);
}

finished-Tried :
    (db : Db) (worker : String) (now later : ℕ) (error : Option String) (d : ChannelDelivery)
    → is_pending_delivery d ≡ true
    → Ready db d
    → Tried db (λ x. finished_delivery error later (leased_delivery worker (pos 60) now x)) d
unfolding finished_delivery leased_delivery is_pending_delivery in_delivery
finished-Tried db worker now later none d p r = record {
  same_id = λ x. refl;
  ready_after = record {
    free = refl;
    may_try = λ h. ground arith;
    gave_up = λ h. inl (ground arith);
  };
  one_less = ground (arith, p, r.may_try);
}
finished-Tried db worker now later (some e) d p r = record {
  same_id = λ x. refl;
  ready_after = record {
    free = ground arith;
    may_try = λ h. ground arith;
    gave_up = λ h. inl (ground arith);
  };
  one_less = ground (arith, p, r.may_try);
}

-- The end of a round finds the delivery that the claim has leased, with the worker as its owner.
finished_after :
    (worker : String) (error : Option String) (now later : ℕ) (d : ChannelDelivery) (db : Db)
    → find_delivery d.id db.deliveries ≡ some d
    → finish_channel_delivery d.id worker error later (record db {
      deliveries = change_delivery d.id (leased_delivery worker (pos 60) now) db.deliveries;
    })
      ≡ ok (
        tt,
        record db {
          deliveries =
              change_delivery d.id
                (λ x. finished_delivery error later (leased_delivery worker (pos 60) now x))
                db.deliveries;
        },
      )
unfolding finish_channel_delivery change_delivery leased_delivery
finished_after worker error now later d db f =
    let leased = leased_delivery worker (pos 60) now in
    let found =
      find-update (λ (x : ChannelDelivery). x.id == d.id) leased
        (λ (x : ChannelDelivery). x.id == d.id) (λ x. refl) db.deliveries d f in
    let twice =
      update-update (λ (x : ChannelDelivery). x.id == d.id) leased (finished_delivery error later)
        (λ x. refl) db.deliveries in
    rw (found, finish_channel_delivery)
      (rw (==_refl d.id) (rw (eq_refl (cut 200 worker)) (rw twice refl)))

module _ (worker : String) (now : ℕ) (db : Db) (v : ReadyTables db) where
  claim_nothing :
      oldest_pending (λ i. false) db.deliveries ≡ none
      → claim_channel_delivery (λ i. false) worker (pos 60) now db ≡ (none, db)
  unfolding claim_channel_delivery
  claim_nothing e =
      rw (return_deliveries_none db (λ i. false) now db.deliveries v.rows, claim_channel_delivery)
        (rw e (rw (return_deliveries_none db (λ i. false) now db.deliveries v.rows) refl))

  claim_orphan :
      (d : ChannelDelivery)
      → oldest_pending (λ i. false) db.deliveries ≡ some d
      → dependencies d db ≡ none
      → claim_channel_delivery (λ i. false) worker (pos 60) now db ≡ (
        none,
        record db {
          deliveries =
              change_delivery d.id
                (λ x. orphaned (leased_delivery worker (pos 60) now x))
                db.deliveries;
        },
      )
  unfolding claim_channel_delivery
  claim_orphan d e n =
      rw (return_deliveries_none db (λ i. false) now db.deliveries v.rows, claim_channel_delivery)
        (rw e (rw n (rw (return_deliveries_none db (λ i. false) now db.deliveries v.rows) refl)))

  claim_taken :
      (d : ChannelDelivery) (link : ChannelLink) (message : Message)
      → oldest_pending (λ i. false) db.deliveries ≡ some d
      → dependencies d db ≡ some (link, message)
      → claim_channel_delivery (λ i. false) worker (pos 60) now db ≡ (
        some (leased_delivery worker (pos 60) now d, link, message),
        record db {
          deliveries = change_delivery d.id (leased_delivery worker (pos 60) now) db.deliveries;
        },
      )
  unfolding claim_channel_delivery
  claim_taken d link message e n =
      rw (return_deliveries_none db (λ i. false) now db.deliveries v.rows, claim_channel_delivery)
        (rw e (rw n (rw (return_deliveries_none db (λ i. false) now db.deliveries v.rows) refl)))

-- A round on ready tables: nothing waits, or the oldest delivery that waits is tried.
pub round-Tried :
    (worker : String) (send : ChannelLink → Message → Option String) (now later : ℕ) (db : Db)
    → ReadyTables db
    → ((count is_pending_delivery db.deliveries ≡ 0)
        × (run_once worker send now later db ≡ ok (false, db)))
      ⊎ ((d : ChannelDelivery) × (find_delivery d.id db.deliveries ≡ some d)
          × (f : ChannelDelivery → ChannelDelivery) × Tried db f d
          × (tried : Bool) × (run_once worker send now later db
              ≡ ok (tried, record db { deliveries = change_delivery d.id f db.deliveries })))
unfolding run_once leased_delivery
round-Tried worker send now later db v =
    elim (Option-cases (oldest_pending (λ i. false) db.deliveries)) [
      | inl e ↦ inl (
        none_pending db.deliveries e,
        rw (claim_nothing worker now db v e, run_once) (rw (claim_nothing worker now db v e) refl),
      )
      | inr (d, e) ↦
          let (p, f) = oldest_pending-found (λ i. false) db.deliveries d v.unique e in
          let r =
            find-All (Ready db) (λ (x : ChannelDelivery). x.id == d.id) db.deliveries d v.rows f in
          elim (Option-cases (dependencies d db)) [
            | inl n ↦ inr (
              d,
              f,
              (λ x. orphaned (leased_delivery worker (pos 60) now x)),
              orphaned-Tried db worker now d p r n,
              false,
              rw (claim_orphan worker now db v d e n, run_once)
                  (rw (claim_orphan worker now db v d e n) refl),
            )
            | inr ((link, message), n) ↦ inr (
              d,
              f,
              (λ x.
                  finished_delivery (send link message) later
                    (leased_delivery worker (pos 60) now x)),
              finished-Tried db worker now later (send link message) d p r,
              true,
              rw (claim_taken worker now db v d link message e n, run_once)
                  (rw (claim_taken worker now db v d link message e n)
                    (rw (finished_after worker (send link message) now later d db f) refl)),
            )
          ]
    ]
