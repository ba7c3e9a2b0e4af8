-- ===== src/Store/Deliveries/Calls.antt =====
-- The calls on the deliveries of cloud/store.py, in any order, and what each writes.
use kirakira_agent_online.Prelude.{
  ℕ, ◌≤◌, ◌≡◌, refl, sym, ap, subst, ◌∙◌, ◌⊎◌, inl, inr, String, Bool, true, ◌&&◌, Option, none,
  some, List, [], ◌∷◌, arith, ◌==◌, ==→eq, is_text, cut, Bool-cases, Option-cases, any, count,
  count-append, keep, ℤ,
}
use kirakira_agent_online.Prelude.Updates.{count-update}
use kirakira_agent_online.Store.{
  Message, ChannelLink, DeliveryStatus, ChannelDelivery, Db, after, enqueue_links,
  enqueue_channel_deliveries,
}
use kirakira_agent_online.Store.Deliveries.{
  find_delivery, change_delivery, expired_deliveries, returned, return_deliveries, oldest_pending,
  leased_delivery, orphaned, dependencies, claim_channel_delivery, finished_delivery,
  finish_channel_delivery,
}

-- The calls on the deliveries.
pub data DeliveryCall : Type 0 where
  claims : (locked : ℕ → Bool) → (worker : String) → (lease : ℤ) → (now : ℕ) → DeliveryCall
  finishes : (id : ℕ) → (worker : String) → (error : Option String) → (now : ℕ) → DeliveryCall
  posts : (now : ℕ) → Message → DeliveryCall

unfoldable pub delivery_call : DeliveryCall → Db → Db
delivery_call (claims locked w l now) db = (claim_channel_delivery locked w l now db).1
delivery_call (finishes id w error now) db = after db (finish_channel_delivery id w error now db)
delivery_call (posts now message) db = enqueue_channel_deliveries now message db

unfoldable pub delivery_calls : List DeliveryCall → Db → Db
unfolding delivery_call
delivery_calls [] db = db
delivery_calls (c ∷ more) db = delivery_calls more (delivery_call c db)

abbrev pub ids_at : ℕ → List ChannelDelivery → ℕ
ids_at k rows = count (λ d. d.id == k) rows

-- The ids are unique, and the next one is not taken.
pub record NumberedDeliveries (db : Db) : Type 0 where
  pub unique : (k : ℕ) → ids_at k db.deliveries ≤ 1
  pub fresh : (k : ℕ) → db.next_delivery_id ≤ k → ids_at k db.deliveries ≡ 0

-- The row of a message that waits to be sent to a link.
abbrev posted_row : ℕ → ℕ → ChannelLink → Db → ChannelDelivery
posted_row now m l db = record {
  id = db.next_delivery_id;
  link_id = l.id;
  message_id = m;
  status = DeliveryStatus.pending;
  attempt = 0;
  lease_owner = none;
  lease_expires_at = none;
  last_error = "";
  created_at = now;
  sent_at = none;
}

enqueue_links-NumberedDeliveries :
    (now m : ℕ) (links : List ChannelLink) (db : Db)
    → NumberedDeliveries db
    → NumberedDeliveries (enqueue_links now m links db)
unfolding enqueue_links
enqueue_links-NumberedDeliveries now m [] db v = v
enqueue_links-NumberedDeliveries now m (l ∷ links) db v =
    enqueue_links-NumberedDeliveries now m links _ (record {
      unique = λ k. ground (
        arith,
        count-append (λ (d : ChannelDelivery). d.id == k) db.deliveries
            (posted_row now m l db ∷ []),
        v.unique k,
        v.fresh k,
        ==→eq db.next_delivery_id k,
      );
      fresh = λ k h. ground (
        arith,
        count-append (λ (d : ChannelDelivery). d.id == k) db.deliveries
            (posted_row now m l db ∷ []),
        v.fresh k,
        ==→eq db.next_delivery_id k,
        h,
      );
    })

-- What a claim writes: the rows with the lost leases taken back, and one of them changed.
pub claim_channel_delivery-rows :
    (locked : ℕ → Bool) (w : String) (l : ℤ) (now : ℕ) (db : Db)
    → let rows = return_deliveries (expired_deliveries locked now db.deliveries) db.deliveries in
      let db' = (claim_channel_delivery locked w l now db).1 in
      (db'.next_delivery_id ≡ db.next_delivery_id)
      × ((db'.deliveries ≡ rows)
          ⊎ ((x : ChannelDelivery) × (g : ChannelDelivery → ChannelDelivery) × (oldest_pending
                  locked rows
                ≡ some x)
              × ((y : ChannelDelivery) → (g y).id ≡ y.id)
              × (db'.deliveries ≡ change_delivery x.id g rows)))
unfolding claim_channel_delivery leased_delivery orphaned
claim_channel_delivery-rows locked w l now db =
    let rows = return_deliveries (expired_deliveries locked now db.deliveries) db.deliveries in
    elim (Option-cases (oldest_pending locked rows)) [
      | inl e ↦ (rw (e, claim_channel_delivery) refl, inl (rw (e, claim_channel_delivery) refl))
      | inr (x, e) ↦ elim (Option-cases (dependencies x db)) [
        | inl n ↦ (
          rw (e, claim_channel_delivery) (rw n refl),
          inr (
            x,
            (λ y. orphaned (leased_delivery w l now y)),
            e,
            (λ y. refl),
            rw (e, claim_channel_delivery) (rw n refl),
          ),
        )
        | inr ((link, message), n) ↦ (
          rw (e, claim_channel_delivery) (rw n refl),
          inr (
            x,
            leased_delivery w l now,
            e,
            (λ y. refl),
            rw (e, claim_channel_delivery) (rw n refl),
          ),
        )
      ]
    ]

pub return_deliveries_ids :
    (locked : ℕ → Bool) (now : ℕ) (rows : List ChannelDelivery) (k : ℕ)
    → ids_at k (return_deliveries (expired_deliveries locked now rows) rows) ≡ ids_at k rows
unfolding return_deliveries returned
return_deliveries_ids locked now rows k =
    count-update (λ (x : ChannelDelivery). x.id) returned (λ x. x.id == k) (λ x. refl)
      (λ x. any (λ i. i == x.id) (expired_deliveries locked now rows)) rows

claim_channel_delivery_ids :
    (locked : ℕ → Bool) (w : String) (l : ℤ) (now : ℕ) (db : Db) (k : ℕ)
    → ids_at k (claim_channel_delivery locked w l now db).1.deliveries ≡ ids_at k db.deliveries
unfolding change_delivery
claim_channel_delivery_ids locked w l now db k =
    elim (claim_channel_delivery-rows locked w l now db).1 [
      | inl e ↦ ap (ids_at k) e ∙ return_deliveries_ids locked now db.deliveries k
      | inr (x, g, o, same, e) ↦
          ap (ids_at k) e
          ∙ count-update (λ (y : ChannelDelivery). y.id) g (λ y. y.id == k)
              (λ y. ground (arith, same y)) (λ y. y.id == x.id)
              (return_deliveries (expired_deliveries locked now db.deliveries) db.deliveries)
          ∙ return_deliveries_ids locked now db.deliveries k
    ]

pub finished_same :
    (k : ℕ) (error : Option String) (now : ℕ) (x : ChannelDelivery)
    → ((finished_delivery error now x).id == k) ≡ (x.id == k)
unfolding finished_delivery
finished_same k none now x = refl
finished_same k (some e) now x = refl

-- The end of a delivery changes nothing, or the row of its worker.
pub finish_channel_delivery-rows :
    (id : ℕ) (w : String) (error : Option String) (now : ℕ) (db : Db)
    → (after db (finish_channel_delivery id w error now db) ≡ db)
      ⊎ ((d : ChannelDelivery) × (find_delivery id db.deliveries ≡ some d)
          × (is_text d.lease_owner (cut 200 w) ≡ true)
          × (after db (finish_channel_delivery id w error now db) ≡ record db {
            deliveries = change_delivery id (finished_delivery error now) db.deliveries;
          }))
unfolding finish_channel_delivery
finish_channel_delivery-rows id w error now db =
    elim (Option-cases (find_delivery id db.deliveries)) [
      | inl f ↦ inl (rw (f, finish_channel_delivery) refl)
      | inr (d, f) ↦ elim (Bool-cases (is_text d.lease_owner (cut 200 w))) [
        | inl o ↦ inr (d, f, o, rw (f, finish_channel_delivery) (rw o refl))
        | inr o ↦ inl (rw (f, finish_channel_delivery) (rw o refl))
      ]
    ]

pub delivery_call-NumberedDeliveries :
    (c : DeliveryCall) (db : Db) → NumberedDeliveries db → NumberedDeliveries (delivery_call c db)
unfolding delivery_call finish_channel_delivery change_delivery finished_delivery
    enqueue_channel_deliveries
delivery_call-NumberedDeliveries (claims locked w l now) db v =
    let same = claim_channel_delivery_ids locked w l now db in
    let next = (claim_channel_delivery-rows locked w l now db).0 in
    record {
      unique = λ k. omega (arith, same k, v.unique k);
      fresh = λ k h. omega (arith, same k, v.fresh k (omega (arith, next, h)));
    }
delivery_call-NumberedDeliveries (finishes id w error now) db v =
    elim (finish_channel_delivery-rows id w error now db) [
      | inl e ↦ subst NumberedDeliveries (sym e) v
      | inr (d, f, o, e) ↦
          let same = λ (k : ℕ).
            count-update (λ (x : ChannelDelivery). x.id) (finished_delivery error now)
              (λ x. x.id == k) (λ x. finished_same k error now x) (λ x. x.id == id) db.deliveries in
          subst NumberedDeliveries (sym e) (record {
            unique = λ k. omega (arith, same k, v.unique k);
            fresh = λ k h. omega (arith, same k, v.fresh k h);
          })
    ]
delivery_call-NumberedDeliveries (posts now message) db v =
    enqueue_links-NumberedDeliveries now message.id
      (keep (λ l. l.conversation_id == message.conversation_id && l.enabled) db.links) db v
