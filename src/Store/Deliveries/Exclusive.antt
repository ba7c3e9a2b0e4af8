-- ===== src/Store/Deliveries/Exclusive.antt =====
-- The lease of a delivery of cloud/store.py under any calls of any workers.
use kirakira_agent_online.Prelude.{
  ℕ, ◌≤◌, ◌≡◌, refl, ap, subst, ◌∙◌, inl, inr, Bool, true, false, ◌&&◌, not, some, List, [], ◌∷◌,
  arith, ◌==◌, ==→eq, ==_refl, is_text, cut, Bool-cases, any, keep, All,
}
use kirakira_agent_online.Prelude.Table.{find-update, find-append_some}
use kirakira_agent_online.Prelude.Updates.{kept_holds}
use kirakira_agent_online.Store.Deliveries.Rounds.{oldest_pending-found}
use kirakira_agent_online.Store.{
  ChannelLink, ChannelDelivery, Db, enqueue_links, enqueue_channel_deliveries,
}
use kirakira_agent_online.Store.Reaper.{expires_before}
use kirakira_agent_online.Store.Deliveries.{
  is_pending_delivery, in_delivery, find_delivery, change_delivery, expired_deliveries, returned,
  return_deliveries, oldest_pending, finished_delivery,
}
use kirakira_agent_online.Store.Deliveries.Calls.{
  DeliveryCall, claims, finishes, posts, delivery_call, delivery_calls, ids_at, NumberedDeliveries,
  claim_channel_delivery-rows, return_deliveries_ids, finished_same, finish_channel_delivery-rows,
  delivery_call-NumberedDeliveries,
}

-- The call comes after the end of the lease, or from the worker that has it.
abbrev pub may_end_lease : ChannelDelivery → DeliveryCall → Bool
may_end_lease d (claims locked w l now) = expires_before d.lease_expires_at now
may_end_lease d (finishes id w error now) = (id == d.id) && is_text d.lease_owner (cut 200 w)
may_end_lease d (posts now message) = false

find-enqueue_links :
    (now m k : ℕ) (links : List ChannelLink) (db : Db) (d : ChannelDelivery)
    → find_delivery k db.deliveries ≡ some d
    → find_delivery k (enqueue_links now m links db).deliveries ≡ some d
unfolding enqueue_links
find-enqueue_links now m k [] db d f = f
find-enqueue_links now m k (l ∷ links) db d f =
    find-enqueue_links now m k links _ d
      (find-append_some (λ (x : ChannelDelivery). x.id == k) db.deliveries _ d f)

-- A delivery whose lease is not over stays when lost leases are taken back.
find-return_deliveries :
    (locked : ℕ → Bool) (now : ℕ) (rows : List ChannelDelivery) (d : ChannelDelivery)
    → ids_at d.id rows ≤ 1
    → find_delivery d.id rows ≡ some d
    → expires_before d.lease_expires_at now ≡ false
    → find_delivery d.id (return_deliveries (expired_deliveries locked now rows) rows) ≡ some d
unfolding return_deliveries expired_deliveries returned
find-return_deliveries locked now rows d u f e =
    let stale = λ (x : ChannelDelivery).
      in_delivery x && expires_before x.lease_expires_at now && not (locked x.id) in
    let ids = expired_deliveries locked now rows in
    let kept = kept_holds (λ (x : ChannelDelivery). x.id) stale 20 d.id rows d u f in
    let changed =
      find-update (λ (x : ChannelDelivery). any (λ i. i == x.id) ids) returned
        (λ (x : ChannelDelivery). x.id == d.id) (λ x. refl) rows d f in
    elim (Bool-cases (any (λ i. i == d.id) ids)) [
      | inl t ↦ absurd (ground (arith, kept t, e))
      | inr t ↦ ground (arith, changed, t)
    ]

-- The row that a claim changes is not one that a worker has.
find-change_oldest :
    (locked : ℕ → Bool) (rows : List ChannelDelivery) (d x : ChannelDelivery)
    (g : ChannelDelivery → ChannelDelivery)
    → ((k : ℕ) → ids_at k rows ≤ 1)
    → find_delivery d.id rows ≡ some d
    → in_delivery d ≡ true
    → oldest_pending locked rows ≡ some x
    → ((y : ChannelDelivery) → (g y).id ≡ y.id)
    → find_delivery d.id (change_delivery x.id g rows) ≡ some d
unfolding change_delivery is_pending_delivery in_delivery
find-change_oldest locked rows d x g u f r e same =
    let (p, found) = oldest_pending-found locked rows x u e in
    let changed =
      find-update (λ (y : ChannelDelivery). y.id == x.id) g (λ (y : ChannelDelivery). y.id == d.id)
        (λ y. ground (arith, same y)) rows d f in
    elim (Bool-cases (d.id == x.id)) [
      | inl t ↦
          let here = subst (λ k. find_delivery k rows ≡ some d) (==→eq d.id x.id t) f in
          absurd (ground (arith, here, found, p, r))
      | inr t ↦ ground (arith, changed, t)
    ]

-- A call that may not end the lease of a delivery leaves its row as it is.
delivery_call-find :
    (c : DeliveryCall) (db : Db) (d : ChannelDelivery)
    → NumberedDeliveries db
    → find_delivery d.id db.deliveries ≡ some d
    → in_delivery d ≡ true
    → may_end_lease d c ≡ false
    → find_delivery d.id (delivery_call c db).deliveries ≡ some d
unfolding delivery_call change_delivery enqueue_channel_deliveries
delivery_call-find (claims locked w l now) db d v f r h =
    let rows = return_deliveries (expired_deliveries locked now db.deliveries) db.deliveries in
    let back = find-return_deliveries locked now db.deliveries d (v.unique d.id) f h in
    elim (claim_channel_delivery-rows locked w l now db).1 [
      | inl e ↦ ap (find_delivery d.id) e ∙ back
      | inr (x, g, o, same, e) ↦
          ap (find_delivery d.id) e
          ∙ find-change_oldest locked rows d x g
              (λ k. omega (arith, return_deliveries_ids locked now db.deliveries k, v.unique k))
              back r o same
    ]
delivery_call-find (finishes id w error now) db d v f r h =
    elim (finish_channel_delivery-rows id w error now db) [
      | inl e ↦ ap (λ t. find_delivery d.id t.deliveries) e ∙ f
      | inr (x, g, o, e) ↦
          let changed =
            find-update (λ (y : ChannelDelivery). y.id == id) (finished_delivery error now)
              (λ (y : ChannelDelivery). y.id == d.id) (λ y. finished_same d.id error now y)
              db.deliveries d f in
          ap (λ t. find_delivery d.id t.deliveries) e ∙ elim (Bool-cases (d.id == id)) [
            | inl t ↦
                let here =
                  subst (λ k. find_delivery k db.deliveries ≡ some d) (==→eq d.id id t) f in
                absurd (ground (arith, here, g, o, h, ==→eq d.id id t, ==_refl id))
            | inr t ↦ ground (arith, changed, t)
          ]
    ]
delivery_call-find (posts now message) db d v f r h =
    find-enqueue_links now message.id d.id
      (keep (λ l. l.conversation_id == message.conversation_id && l.enabled) db.links) db d f

-- A delivery is in one worker's hands at a time. While a worker has the lease of a delivery, and until a claim
-- comes after the end of the lease or that worker reports the end, no calls of any workers change its row: no
-- claim hands it out again, and no other worker's report counts.
pub delivery_calls-find :
    (calls : List DeliveryCall) (db : Db) (d : ChannelDelivery)
    → NumberedDeliveries db
    → find_delivery d.id db.deliveries ≡ some d
    → in_delivery d ≡ true
    → All (λ c. may_end_lease d c ≡ false) calls
    → find_delivery d.id (delivery_calls calls db).deliveries ≡ some d
unfolding delivery_calls
delivery_calls-find [] db d v f r h = f
delivery_calls-find (c ∷ calls) db d v f r h =
    delivery_calls-find calls (delivery_call c db) d (delivery_call-NumberedDeliveries c db v)
      (delivery_call-find c db d v f r h.0) r h.1
