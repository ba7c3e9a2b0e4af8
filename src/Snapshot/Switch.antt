-- ===== src/Snapshot/Switch.antt =====
-- Publication, commit, rollback and close of the snapshot store of agent/plugins/snapshot.py.
use mathlib.Core.Option.{some-injective}
use kirakira_agent_online.Prelude.{
  ℕ, ◌≡◌, refl, ap, sym, subst, ◌∙◌, inl, inr, true, false, ◌||◌, Option, none, some, arith, ◌==◌,
  Bool-cases, Option-cases, ==→eq, ==_refl,
}
use kirakira_agent_online.Snapshot.{
  published, SnapshotTransaction, SnapshotStore, is_compiled, is_ref, assign, set_state,
  drain_if_ready, retire, publish, is_pending, retire_previous, commit, rollback, close, same_ref,
  register,
}
use kirakira_agent_online.Snapshot.Invariant.{
  in_use, Sound, Inv, published-drained, compiled-drained, retire-Sound,
}

-- The store after a publication.
abbrev published_store : ℕ → SnapshotStore → SnapshotStore
published_store k s = record (set_state k published s) {
  snapshots = register (s.objects k).snapshot_id k s.snapshots;
  current = some k;
  pending = some (record { previous = s.current; candidate = k });
}

published-Inv :
    (k : ℕ) (s : SnapshotStore)
    → Inv s
    → s.pending ≡ none
    → is_compiled (s.objects k).state ≡ true
    → Inv (published_store k s)
unfolding set_state assign
published-Inv k s v p c = record {
  sound = λ j. elim (Bool-cases (j == k)) [
    | inl e ↦ subst (Sound (published_store k s)) (sym (==→eq j k e)) (record {
      counted = ground (arith, ==_refl k, (v.sound k).counted);
      times = ground (arith, ==_refl k, (v.sound k).times, compiled-drained (s.objects k).state c);
      used = ground (arith, ==_refl k);
      idle = λ h. absurd (ground (arith, ==_refl k));
      held = λ h. absurd (ground (arith, ==_refl k));
    })
    | inr e ↦ record {
      counted = ground (arith, (v.sound j).counted);
      times = ground (arith, (v.sound j).times);
      used = ground (arith, (v.sound j).used, ==→eq k j, ==_refl k);
      idle = λ h. ground (arith, (v.sound j).idle);
      held = λ h. ground (arith, (v.sound j).held);
    }
  ];
  open_candidate = λ t e. ap (λ t'. some t'.candidate) (some-injective _ t e);
  open_previous = λ t e.
      subst (λ t'. is_ref t'.previous t'.candidate ≡ false) (some-injective _ t e)
        (ground (arith, (v.sound k).used, compiled-drained (s.objects k).state c));
}

pub publish-Inv : (k : ℕ) (s : SnapshotStore) → Inv s → Inv (publish k s).1
unfolding publish
publish-Inv k s v = elim (Option-cases s.pending) [
  | inr (t, e) ↦ subst Inv (sym (ground arith)) v
  | inl e ↦ elim (Bool-cases (is_compiled (s.objects k).state)) [
    | inl c ↦ subst Inv (sym (ground arith)) (published-Inv k s v e c)
    | inr c ↦ subst Inv (sym (ground arith)) v
  ]
]

retire-pending : (k : ℕ) (s : SnapshotStore) → (retire k s).pending ≡ s.pending
unfolding retire drain_if_ready set_state
retire-pending k s = ground arith

pub none≢some {ℓ} : {A : Type ℓ} (x : A) → none ≡ some x → ⊥
none≢some x e = cc

-- A snapshot that a closed transaction or the store gives up, once it is neither current nor kept.
pub give_up-Inv :
    (k : ℕ) (s : SnapshotStore) (current : Option ℕ)
    → Inv s
    → in_use k s ≡ true
    → is_ref current k ≡ false
    → ((j : ℕ) → (j == k) ≡ false → in_use j s ≡ is_ref current j)
    → Inv (retire k (record s { current = current; pending = none }))
give_up-Inv k s current v u n others = record {
  sound =
      retire-Sound k (record s { current = current; pending = none }) (v.sound k).counted
        (ground (arith, (v.sound k).times, (v.sound k).used, published-drained (s.objects k).state))
        (ground arith)
        λ j e. record {
          counted = (v.sound j).counted;
          times = (v.sound j).times;
          used = ground (arith, (v.sound j).used, others j e);
          idle = (v.sound j).idle;
          held = (v.sound j).held;
        };
  open_candidate = λ t e. absurd (none≢some t (sym (retire-pending k _) ∙ e));
  open_previous = λ t e. absurd (none≢some t (sym (retire-pending k _) ∙ e));
}

is_pending→eq :
    (o : Option SnapshotTransaction) (t : SnapshotTransaction) → is_pending o t ≡ true → o ≡ some t
is_pending→eq none t h = cc
is_pending→eq (some p) t h = ap some (same p t (ground arith) (ground arith))
  where
    same_refs : (x y : Option ℕ) → same_ref x y ≡ true → x ≡ y
    same_refs none none h = refl
    same_refs (some j) (some k) h = ap some (==→eq j k h)
    same_refs none (some k) h = cc
    same_refs (some j) none h = cc

    same :
        (p t : SnapshotTransaction)
        → (p.candidate == t.candidate) ≡ true
        → same_ref p.previous t.previous ≡ true
        → p ≡ t
    same p t c r = λ i. record {
      previous = same_refs p.previous t.previous r i;
      candidate = ==→eq p.candidate t.candidate c i;
    }

in_use_pending :
    (k : ℕ) (s : SnapshotStore) (t : SnapshotTransaction)
    → Inv s
    → s.pending ≡ some t
    → in_use k s ≡ (t.candidate == k || is_ref t.previous k)
in_use_pending k s t v e = ground (arith, v.open_candidate t e)

-- Without a previous snapshot a commit only closes the transaction.
committed-Inv :
    (t : SnapshotTransaction) (s : SnapshotStore)
    → Inv s
    → s.pending ≡ some t
    → t.previous ≡ none
    → Inv (record s { pending = none })
committed-Inv t s v e n = record {
  sound = λ j. record {
    counted = (v.sound j).counted;
    times = (v.sound j).times;
    used = ground (arith, (v.sound j).used);
    idle = (v.sound j).idle;
    held = (v.sound j).held;
  };
  open_candidate = λ t e. cc;
  open_previous = λ t e. cc;
}

retire_previous-Inv :
    (t : SnapshotTransaction) (s : SnapshotStore)
    → Inv s
    → s.pending ≡ some t
    → Inv (retire_previous t (record s { pending = none }))
unfolding retire_previous
retire_previous-Inv t s v e = elim (Option-cases t.previous) [
  | inl n ↦ subst Inv (sym (ground arith)) (committed-Inv t s v e n)
  | inr (p, n) ↦
      subst Inv (sym (ground (arith, v.open_previous t e, ==→eq p t.candidate, ==_refl p))) (
        give_up-Inv p s s.current v (ground (arith, ==_refl p, in_use_pending p s t v e))
          (ground (
            arith,
            v.open_candidate t e,
            v.open_previous t e,
            ==→eq p t.candidate,
            ==→eq t.candidate p,
            ==_refl p,
          ))
          λ j h. ground (arith, ==→eq p j, ==_refl p))
]

pub commit-Inv : (t : SnapshotTransaction) (s : SnapshotStore) → Inv s → Inv (commit t s).1
unfolding commit
commit-Inv t s v = elim (Bool-cases (is_pending s.pending t)) [
  | inr f ↦ subst Inv (sym (ground arith)) v
  | inl f ↦ subst Inv (sym (ground arith)) (retire_previous-Inv t s v (is_pending→eq s.pending t f))
]

pub rollback-Inv : (t : SnapshotTransaction) (s : SnapshotStore) → Inv s → Inv (rollback t s).1
unfolding rollback
rollback-Inv t s v = elim (Bool-cases (is_pending s.pending t)) [
  | inr f ↦ subst Inv (sym (ground arith)) v
  | inl f ↦
      let e = is_pending→eq s.pending t f in
      subst Inv (sym (ground arith)) (
        give_up-Inv t.candidate s t.previous v
          (ground (arith, ==_refl t.candidate, in_use_pending t.candidate s t v e))
          (v.open_previous t e)
          λ j h. ground (arith, in_use_pending j s t v e, ==→eq t.candidate j, ==_refl j))
]

closed :
    (s : SnapshotStore) (k : ℕ)
    → s.pending ≡ none
    → s.current ≡ some k
    → (close s).1 ≡ retire k (record s { current = none })
unfolding close
closed s k e c = ground arith

pub close-Inv : (s : SnapshotStore) → Inv s → Inv (close s).1
unfolding close
close-Inv s v = elim (Option-cases s.pending) [
  | inr (t, e) ↦ subst Inv (sym (ground arith)) v
  | inl e ↦ elim (Option-cases s.current) [
    | inl c ↦ subst Inv (sym (ground arith)) v
    | inr (k, c) ↦ subst Inv (sym (closed_store s k e c)) (
        give_up-Inv k s none v (ground (arith, ==_refl k)) refl
          λ j h. ground (arith, ==→eq k j, ==_refl k))
  ]
]
  where
    closed_store :
        (s : SnapshotStore) (k : ℕ)
        → s.pending ≡ none
        → s.current ≡ some k
        → (close s).1 ≡ retire k (record s { current = none; pending = none })
    closed_store s k e c =
        closed s k e c ∙ ap (λ p. retire k (record s { current = none; pending = p })) e
