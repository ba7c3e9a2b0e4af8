-- ===== src/Snapshot/Drain.antt =====
-- What the snapshot store of agent/plugins/snapshot.py promises: when the resources of a snapshot are
-- drained, and that its leases can be taken and given back.
use kirakira_agent_online.Prelude.{
  ℕ, ◌≤◌, ◌≡◌, refl, ap, ◌∙◌, inl, inr, Bool, true, false, ◌&&◌, ◌||◌, not, none, some, List, arith,
  ◌==◌, ok, err, count, ind, Bool-cases, Option-cases, ==→eq, ==_refl,
}
use kirakira_agent_online.Snapshot.{
  SnapshotState, compiled, published, retired, drained, RuntimeSnapshot, SnapshotStore, no_snapshot,
  unknown_lease, is_compiled, is_published, is_retired, is_drained, claim_snapshot, lease,
  release_lease, nth_lease, release, Call, calls, new,
}
use kirakira_agent_online.Snapshot.Invariant.{holds, in_use, Inv}
use kirakira_agent_online.Snapshot.Leases.{active_counts, calls-Inv}

-- The memory as `compile_snapshot` leaves it.
pub record Fresh (objects : ℕ → RuntimeSnapshot) : Type 0 where
  pub compiled_state : (k : ℕ) → (objects k).state ≡ compiled
  pub unleased : (k : ℕ) → (objects k).lease_count ≡ 0

new-Inv : (objects : ℕ → RuntimeSnapshot) → Fresh objects → Inv (new objects)
unfolding new
new-Inv objects f = record {
  sound = λ k. record {
    counted = f.unleased k;
    times = ground (arith, f.compiled_state k);
    used = ground (arith, f.compiled_state k);
    idle = λ h. f.unleased k;
    held = λ h. absurd (ground (arith, f.compiled_state k));
  };
  open_candidate = λ t e. cc;
  open_previous = λ t e. cc;
}

reached-Inv :
    (objects : ℕ → RuntimeSnapshot) (more : List Call)
    → Fresh objects
    → Inv (calls more (new objects))
reached-Inv objects more f = calls-Inv more (new objects) (new-Inv objects f)

drained_when :
    (state : SnapshotState) (n : ℕ) (u : Bool)
    → is_published state ≡ u
    → ((is_compiled state || is_drained state) ≡ true → n ≡ 0)
    → (is_retired state ≡ true → 1 ≤ n)
    → ind (is_drained state) ≡ ind (not (is_compiled state) && not u && n == 0)
drained_when compiled n u p i h = ground arith
drained_when published n u p i h = ground arith
drained_when retired n u p i h = ground (arith, h refl)
drained_when drained n u p i h = ground (arith, i refl)

-- After any calls of the store, the resources of a snapshot were drained once if it was published, no
-- lease on it is in use, and it is neither the current one nor the one that a rollback of the open
-- transaction would bring back; in every other case they were not drained.
pub drained_exactly :
    (objects : ℕ → RuntimeSnapshot) (more : List Call) (k : ℕ)
    → Fresh objects
    → let s = calls more (new objects) in
      count (λ j. j == k) s.drains
      ≡ ind (
          not (is_compiled (s.objects k).state)
          && not (in_use k s)
          && count (holds k) s.leases == 0)
drained_exactly objects more k f =
    let s = calls more (new objects) in
    let v = (reached-Inv objects more f).sound k in
    v.times
    ∙ drained_when (s.objects k).state (s.objects k).lease_count (in_use k s) v.used v.idle v.held
    ∙ ap (λ n. ind (not (is_compiled (s.objects k).state) && not (in_use k s) && n == 0)) v.counted

lease_answers :
    (s : SnapshotStore)
    → Inv s
    → (lease s).0 ≡ elim s.current [
      | none ↦ err no_snapshot
      | some k ↦ ok (record { snapshot = k; released = false })
    ]
unfolding lease claim_snapshot
lease_answers s v = elim (Option-cases s.current) [
  | inl e ↦ ground arith
  | inr (k, e) ↦ ground (arith, (v.sound k).used, ==_refl k)
]

release_answers :
    (n : ℕ) (s : SnapshotStore)
    → Inv s
    → (release n s).0 ≡ elim (nth_lease n s.leases) [ none ↦ err unknown_lease | some l ↦ ok tt ]
unfolding release release_lease
release_answers n s v = elim (Option-cases (nth_lease n s.leases)) [
  | inl e ↦ ground arith
  | inr (l, e) ↦ elim (Bool-cases l.released) [
    | inl r ↦ ground arith
    | inr r ↦ ground (arith, active_counts n s l v e r, ==→eq (s.objects l.snapshot).lease_count 0)
  ]
]

-- After any calls of the store, a new turn gets a lease on the current snapshot whenever there is one,
-- and what `release` of a given lease answers is never an error.
pub leases_answer :
    (objects : ℕ → RuntimeSnapshot) (more : List Call) (n : ℕ)
    → Fresh objects
    → let s = calls more (new objects) in
      ((lease s).0 ≡ elim s.current [
        | none ↦ err no_snapshot
        | some k ↦ ok (record { snapshot = k; released = false })
      ])
      × ((release n s).0
          ≡ elim (nth_lease n s.leases) [ none ↦ err unknown_lease | some l ↦ ok tt ])
leases_answer objects more n f =
    let v = reached-Inv objects more f in
    (lease_answers (calls more (new objects)) v, release_answers n (calls more (new objects)) v)
