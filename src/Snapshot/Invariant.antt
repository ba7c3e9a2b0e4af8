-- ===== src/Snapshot/Invariant.antt =====
-- What holds in every state of the snapshot store of agent/plugins/snapshot.py.
use kirakira_agent_online.Prelude.{
  ℕ, ◌+◌, ◌≤◌, ◌≡◌, refl, sym, subst, inl, inr, Bool, true, false, ◌&&◌, ◌||◌, not, Option, none,
  some, List, [], ◌∷◌, ◌++◌, arith, ◌==◌, if_ind, count, count-append, ind, Bool-cases, ==→eq,
  ==_refl,
}
use kirakira_agent_online.Snapshot.{
  SnapshotState, compiled, published, retired, drained, SnapshotTransaction, SnapshotLease,
  SnapshotStore, is_compiled, is_published, is_retired, is_drained, is_ref, assign, set_state,
  drain_if_ready, retire, unregister,
}

-- A lease in use on a snapshot.
abbrev pub holds : ℕ → SnapshotLease → Bool
holds k l = l.snapshot == k && not l.released

abbrev pub previous_of : Option SnapshotTransaction → Option ℕ
previous_of none = none
previous_of (some t) = t.previous

-- The snapshot serves new turns, or a rollback may bring it back.
abbrev pub in_use : ℕ → SnapshotStore → Bool
in_use k s = is_ref s.current k || is_ref (previous_of s.pending) k

-- What holds of the snapshot of one reference.
pub record Sound (s : SnapshotStore) (k : ℕ) : Type 0 where
  pub counted : (s.objects k).lease_count ≡ count (holds k) s.leases
  pub times : count (λ j. j == k) s.drains ≡ ind (is_drained (s.objects k).state)
  pub used : is_published (s.objects k).state ≡ in_use k s
  pub idle :
      (is_compiled (s.objects k).state || is_drained (s.objects k).state) ≡ true
      → (s.objects k).lease_count ≡ 0
  pub held : is_retired (s.objects k).state ≡ true → 1 ≤ (s.objects k).lease_count

-- What holds of the store: the open transaction is the one of the current snapshot.
pub record Inv (s : SnapshotStore) : Type 0 where
  pub sound : (k : ℕ) → Sound s k
  pub open_candidate : (t : SnapshotTransaction) → s.pending ≡ some t → s.current ≡ some t.candidate
  pub open_previous :
      (t : SnapshotTransaction) → s.pending ≡ some t → is_ref t.previous t.candidate ≡ false

pub published-drained :
    (state : SnapshotState) → is_published state ≡ true → is_drained state ≡ false
published-drained published h = refl
published-drained compiled h = cc
published-drained retired h = cc
published-drained drained h = cc

pub compiled-drained :
    (state : SnapshotState)
    → is_compiled state ≡ true
    → (is_drained state ≡ false) × (is_published state ≡ false)
compiled-drained compiled h = (refl, refl)
compiled-drained published h = cc
compiled-drained retired h = cc
compiled-drained drained h = cc

count_ref-append :
    (k j : ℕ) (refs : List ℕ)
    → count (λ i. i == j) (refs ++ (k ∷ [])) ≡ count (λ i. i == j) refs + ind (k == j)
count_ref-append k j refs = ground (arith, count-append (λ i. i == j) refs (k ∷ []))

-- What holds of a snapshot just before its drain is considered.
pub record Loose (s : SnapshotStore) (k : ℕ) : Type 0 where
  pub counted : (s.objects k).lease_count ≡ count (holds k) s.leases
  pub times : count (λ j. j == k) s.drains ≡ ind (is_drained (s.objects k).state)
  pub used : is_published (s.objects k).state ≡ in_use k s
  pub idle :
      (is_compiled (s.objects k).state || is_drained (s.objects k).state) ≡ true
      → (s.objects k).lease_count ≡ 0

pub retired-drained :
    (state : SnapshotState)
    → is_retired state ≡ true
    → (is_drained state ≡ false) × (is_published state ≡ false)
retired-drained retired h = (refl, refl)
retired-drained compiled h = cc
retired-drained published h = cc
retired-drained drained h = cc

-- The store after a drain.
abbrev drained_store : ℕ → SnapshotStore → SnapshotStore
drained_store k s = record (set_state k drained s) {
  snapshots = unregister (s.objects k).snapshot_id s.snapshots;
  drains = s.drains ++ (k ∷ []);
}

drained-Sound :
    (k : ℕ) (s : SnapshotStore)
    → Loose s k
    → is_retired (s.objects k).state ≡ true
    → (s.objects k).lease_count ≡ 0
    → ((j : ℕ) → (j == k) ≡ false → Sound s j)
    → (j : ℕ) → Sound (drained_store k s) j
unfolding set_state assign
drained-Sound k s l r n others j = elim (Bool-cases (j == k)) [
  | inl e ↦ subst (Sound (drained_store k s)) (sym (==→eq j k e)) (record {
    counted = ground (arith, ==_refl k, l.counted);
    times = ground (
      arith,
      ==_refl k,
      l.times,
      count_ref-append k k s.drains,
      retired-drained (s.objects k).state r,
    );
    used = ground (arith, ==_refl k, l.used, retired-drained (s.objects k).state r);
    idle = λ h. ground (arith, ==_refl k);
    held = λ h. absurd (ground (arith, ==_refl k));
  })
  | inr e ↦ record {
    counted = ground (arith, (others j e).counted);
    times = ground (arith, (others j e).times, count_ref-append k j s.drains, ==→eq k j, ==_refl k);
    used = ground (arith, (others j e).used);
    idle = λ h. ground (arith, (others j e).idle);
    held = λ h. ground (arith, (others j e).held);
  }
]

pub drain_if_ready-Sound :
    (k : ℕ) (s : SnapshotStore)
    → Loose s k
    → ((j : ℕ) → (j == k) ≡ false → Sound s j)
    → (j : ℕ) → Sound (drain_if_ready k s) j
unfolding drain_if_ready
drain_if_ready-Sound k s l others j =
    if_ind (λ s'. Sound s' j)
      (not (is_retired (s.objects k).state) || not ((s.objects k).lease_count == 0))
      (λ h. elim (Bool-cases (j == k)) [
        | inl e ↦ subst (Sound s) (sym (==→eq j k e)) (record {
          counted = l.counted;
          times = l.times;
          used = l.used;
          idle = l.idle;
          held = λ r. ground arith;
        })
        | inr e ↦ others j e
      ])
      (λ h.
        drained-Sound k s l (ground arith) (ground (arith, ==→eq (s.objects k).lease_count 0))
          others j)

-- A snapshot that goes out of use.
pub retire-Sound :
    (k : ℕ) (s : SnapshotStore)
    → (s.objects k).lease_count ≡ count (holds k) s.leases
    → count (λ j. j == k) s.drains ≡ 0
    → in_use k s ≡ false
    → ((j : ℕ) → (j == k) ≡ false → Sound s j)
    → (j : ℕ) → Sound (retire k s) j
unfolding retire set_state assign
retire-Sound k s c d u others =
    drain_if_ready-Sound k (set_state k retired s)
      (record {
        counted = ground (arith, ==_refl k);
        times = ground (arith, ==_refl k);
        used = ground (arith, ==_refl k);
        idle = λ h. absurd (ground (arith, ==_refl k));
      })
      λ j e. record {
        counted = ground (arith, (others j e).counted);
        times = ground (arith, (others j e).times);
        used = ground (arith, (others j e).used);
        idle = λ h. ground (arith, (others j e).idle);
        held = λ h. ground (arith, (others j e).held);
      }
