-- ===== src/Snapshot/Leases.antt =====
-- The leases of agent/plugins/snapshot.py, and every sequence of calls of the store.
use mathlib.Core.Option.{some-injective}
use kirakira_agent_online.Prelude.{
  ℕ, zero, suc, ◌+◌, ◌-◌, ◌≤◌, ◌≡◌, refl, sym, subst, ◌∙◌, inl, inr, true, false, ◌||◌, not, some,
  List, [], ◌∷◌, arith, ◌==◌, count, count-append, ind, Bool-cases, Option-cases, ==→eq, ==_refl,
}
use kirakira_agent_online.Snapshot.{
  SnapshotState, compiled, published, retired, drained, SnapshotLease, SnapshotStore, is_compiled,
  is_published, is_drained, is_registered, assign, set_state, set_count, drain_if_ready,
  claim_snapshot, lease, fork_lease, release_lease, nth_lease, mark_released, release, fork, Call,
  publish_call, commit_call, rollback_call, lease_call, close_call, fork_call, release_call, call,
  calls,
}
use kirakira_agent_online.Snapshot.Invariant.{holds, Sound, Inv, drain_if_ready-Sound}
use kirakira_agent_online.Snapshot.Switch.{publish-Inv, commit-Inv, rollback-Inv, close-Inv}

count-mark_released :
    (k n : ℕ) (leases : List SnapshotLease) (l : SnapshotLease)
    → nth_lease n leases ≡ some l
    → l.released ≡ false
    → count (holds k) (mark_released n leases) + ind (l.snapshot == k) ≡ count (holds k) leases
unfolding nth_lease mark_released
count-mark_released k n [] l f r = cc
count-mark_released k zero (x ∷ leases) l f r = ground (arith, some-injective x l f)
count-mark_released k (suc n) (x ∷ leases) l f r =
    ground (arith, count-mark_released k n leases l f r)

claim_snapshot-Inv :
    (k : ℕ) (s : SnapshotStore)
    → Inv s
    → (is_compiled (s.objects k).state || is_drained (s.objects k).state) ≡ false
    → Inv (claim_snapshot k s).1
unfolding claim_snapshot set_count assign
claim_snapshot-Inv k s v a = record {
  sound = λ j. elim (Bool-cases (j == k)) [
    | inl e ↦ subst (Sound (claim_snapshot k s).1) (sym (==→eq j k e)) (record {
      counted = ground (
        arith,
        ==_refl k,
        (v.sound k).counted,
        count-append (holds k) s.leases (record { snapshot = k; released = false } ∷ []),
      );
      times = ground (arith, ==_refl k, (v.sound k).times);
      used = ground (arith, ==_refl k, (v.sound k).used);
      idle = λ h. absurd (ground (arith, ==_refl k));
      held = λ h. ground (arith, ==_refl k);
    })
    | inr e ↦ record {
      counted = ground (
        arith,
        (v.sound j).counted,
        count-append (holds j) s.leases (record { snapshot = k; released = false } ∷ []),
        ==→eq k j,
        ==_refl k,
      );
      times = ground (arith, (v.sound j).times);
      used = ground (arith, (v.sound j).used);
      idle = λ h. ground (arith, (v.sound j).idle);
      held = λ h. ground (arith, (v.sound j).held);
    }
  ];
  open_candidate = v.open_candidate;
  open_previous = v.open_previous;
}

published-fits :
    (state : SnapshotState)
    → is_published state ≡ true
    → (is_compiled state || is_drained state) ≡ false
published-fits published h = refl
published-fits compiled h = cc
published-fits retired h = cc
published-fits drained h = cc

lease-Inv : (s : SnapshotStore) → Inv s → Inv (lease s).1
unfolding lease
lease-Inv s v = elim (Option-cases s.current) [
  | inl e ↦ subst Inv (sym (ground arith)) v
  | inr (k, e) ↦ elim (Bool-cases (is_published (s.objects k).state)) [
    | inl p ↦
        subst Inv (sym (ground arith))
          (claim_snapshot-Inv k s v (published-fits (s.objects k).state p))
    | inr p ↦ subst Inv (sym (ground arith)) v
  ]
]

-- A lease in use counts.
pub active_counts :
    (n : ℕ) (s : SnapshotStore) (l : SnapshotLease)
    → Inv s
    → nth_lease n s.leases ≡ some l
    → l.released ≡ false
    → 1 ≤ (s.objects l.snapshot).lease_count
active_counts n s l v f r = ground (
  arith,
  (v.sound l.snapshot).counted,
  count-mark_released l.snapshot n s.leases l f r,
  ==_refl l.snapshot,
)

fork_lease-Inv :
    (l : SnapshotLease) (s : SnapshotStore)
    → Inv s
    → (l.released ≡ false → 1 ≤ (s.objects l.snapshot).lease_count)
    → Inv (fork_lease l s).1
unfolding fork_lease
fork_lease-Inv l s v a = elim (Bool-cases (l.released || not (is_registered l.snapshot s))) [
  | inl f ↦ subst Inv (sym (ground arith)) v
  | inr f ↦
      subst Inv (sym (ground arith))
        (claim_snapshot-Inv l.snapshot s v (ground (arith, (v.sound l.snapshot).idle)))
]

fork-Inv : (n : ℕ) (s : SnapshotStore) → Inv s → Inv (fork n s).1
unfolding fork
fork-Inv n s v = elim (Option-cases (nth_lease n s.leases)) [
  | inl e ↦ subst Inv (sym (ground arith)) v
  | inr (l, e) ↦ subst Inv (sym (ground arith)) (fork_lease-Inv l s v (active_counts n s l v e))
]

-- The store once a lease in use is released.
abbrev less_store : ℕ → SnapshotLease → SnapshotStore → SnapshotStore
less_store n l s =
    set_count l.snapshot ((s.objects l.snapshot).lease_count - 1)
      (record s { leases = mark_released n s.leases })

drain_if_ready-keeps :
    (k : ℕ) (s : SnapshotStore)
    → ((drain_if_ready k s).current ≡ s.current) × ((drain_if_ready k s).pending ≡ s.pending)
unfolding drain_if_ready set_state
drain_if_ready-keeps k s = (ground arith, ground arith)

released-Inv :
    (n : ℕ) (s : SnapshotStore) (l : SnapshotLease)
    → Inv s
    → nth_lease n s.leases ≡ some l
    → l.released ≡ false
    → Inv (drain_if_ready l.snapshot (less_store n l s))
unfolding set_count assign
released-Inv n s l v f r =
    let a = active_counts n s l v f r in
    record {
      sound =
          drain_if_ready-Sound l.snapshot (less_store n l s)
            (record {
              counted = ground (
                arith,
                (v.sound l.snapshot).counted,
                count-mark_released l.snapshot n s.leases l f r,
                ==_refl l.snapshot,
              );
              times = ground (arith, (v.sound l.snapshot).times, ==_refl l.snapshot);
              used = ground (arith, (v.sound l.snapshot).used, ==_refl l.snapshot);
              idle = λ h. ground (arith, (v.sound l.snapshot).idle, ==_refl l.snapshot);
            })
            λ j e. record {
              counted = ground (
                arith,
                (v.sound j).counted,
                count-mark_released j n s.leases l f r,
                ==→eq l.snapshot j,
                ==_refl j,
              );
              times = ground (arith, (v.sound j).times);
              used = ground (arith, (v.sound j).used);
              idle = λ h. ground (arith, (v.sound j).idle);
              held = λ h. ground (arith, (v.sound j).held);
            };
      open_candidate = λ t e.
          (drain_if_ready-keeps l.snapshot (less_store n l s)).0
          ∙ v.open_candidate t (sym (drain_if_ready-keeps l.snapshot (less_store n l s)).1 ∙ e);
      open_previous =
          λ t e. v.open_previous t (sym (drain_if_ready-keeps l.snapshot (less_store n l s)).1 ∙ e);
    }

release-Inv : (n : ℕ) (s : SnapshotStore) → Inv s → Inv (release n s).1
unfolding release release_lease
release-Inv n s v = elim (Option-cases (nth_lease n s.leases)) [
  | inl e ↦ subst Inv (sym (ground arith)) v
  | inr (l, e) ↦ elim (Bool-cases l.released) [
    | inl r ↦ subst Inv (sym (ground arith)) v
    | inr r ↦
        subst Inv
          (sym
            (ground (arith, active_counts n s l v e r, ==→eq (s.objects l.snapshot).lease_count 0)))
          (released-Inv n s l v e r)
  ]
]

pub call-Inv : (c : Call) (s : SnapshotStore) → Inv s → Inv (call c s)
unfolding call
call-Inv (publish_call k) s v = publish-Inv k s v
call-Inv (commit_call t) s v = commit-Inv t s v
call-Inv (rollback_call t) s v = rollback-Inv t s v
call-Inv lease_call s v = lease-Inv s v
call-Inv close_call s v = close-Inv s v
call-Inv (fork_call n) s v = fork-Inv n s v
call-Inv (release_call n) s v = release-Inv n s v

pub calls-Inv : (more : List Call) (s : SnapshotStore) → Inv s → Inv (calls more s)
unfolding calls
calls-Inv [] s v = v
calls-Inv (c ∷ more) s v = calls-Inv more (call c s) (call-Inv c s v)
