-- ===== src/Generation/Counts.antt =====
-- The lease counts of agent/plugins/generation.py: each is the number of turns that hold the generation, whichever turns enter and leave.
use mathlib.Core.Option.{some-injective}
use kirakira_agent_online.Prelude.{
  ℕ, zero, suc, ◌+◌, ◌-◌, ◌≡◌, refl, ap, sym, subst, ◌∙◌, inl, inr, true, false, Option, none, some,
  List, [], ◌∷◌, ◌++◌, arith, ◌==◌, if◌then◌else◌, if_ind, count, count-append, ind, Bool-cases,
  Option-cases, ==→eq, ==_refl,
}
use kirakira_agent_online.Generation.{
  GenerationState, compiled, active, retired, quiesced, Turn, Registry, accepts, is_quiesced,
  modify, add_lease, release, reversed, release_each, active_generations, acquire_each, enter_turn,
  lease_active, nth_turn, close_turn, leave,
}

abbrev pub times : ℕ → List ℕ → ℕ
times k refs = count (λ j. j == k) refs

-- How many leases the open turns hold of a generation.
unfoldable pub held_in : ℕ → List Turn → ℕ
held_in k [] = 0
held_in k (x ∷ turns) =
    let rest = held_in k turns in if x.is_open then times k x.leased + rest else rest

-- The lease counts are those of a count, and what is quiesced has none.
pub record Counted (held : ℕ → ℕ) (r : Registry) : Type 0 where
  pub counted : (k : ℕ) → (r.objects k).lease_count ≡ held k
  pub quiet : (k : ℕ) → is_quiesced (r.objects k).state ≡ true → (r.objects k).lease_count ≡ 0

Counted-same : (f g : ℕ → ℕ) (r : Registry) → ((k : ℕ) → f k ≡ g k) → Counted f r → Counted g r
Counted-same f g r e v = record { counted = λ k. v.counted k ∙ e k; quiet = v.quiet }

accepts-quiesced : (s : GenerationState) → accepts s ≡ true → is_quiesced s ≡ false
accepts-quiesced compiled h = refl
accepts-quiesced active h = refl
accepts-quiesced retired h = refl
accepts-quiesced quiesced h = cc

add_lease-Counted :
    (held : ℕ → ℕ) (k : ℕ) (r : Registry)
    → accepts (r.objects k).state ≡ true
    → Counted held r
    → Counted (λ j. held j + ind (k == j)) (add_lease k r)
unfolding add_lease modify
add_lease-Counted held k r a v = record {
  counted = λ j. ground (arith, v.counted j, ==→eq j k, ==→eq k j, ==_refl k);
  quiet = λ j q. ground (arith, v.quiet j, accepts-quiesced (r.objects k).state a, ==→eq j k);
}

release-Counted :
    (held : ℕ → ℕ) (k : ℕ) (r : Registry)
    → Counted held r
    → Counted (λ j. held j - ind (k == j)) (release k r)
unfolding release modify
release-Counted held k r v =
    if_ind (Counted (λ j. held j - ind (k == j))) ((r.objects k).lease_count == 0)
      (λ e. record {
        counted = λ j.
            ground
              (arith, v.counted j, v.counted k, ==→eq (r.objects k).lease_count 0 e, ==→eq k j);
        quiet = v.quiet;
      })
      (λ e. record {
        counted = λ j. ground (arith, v.counted j, ==→eq j k, ==→eq k j, ==_refl k);
        quiet = λ j q. ground (arith, v.quiet j);
      })

release_each-Counted :
    (held : ℕ → ℕ) (ks : List ℕ) (r : Registry)
    → Counted held r
    → Counted (λ j. held j - times j ks) (release_each ks r)
unfolding release_each
release_each-Counted held [] r v = Counted-same held (λ j. held j - 0) r (λ j. omega arith) v
release_each-Counted held (k ∷ ks) r v =
    Counted-same (λ j. held j - ind (k == j) - times j ks) (λ j. held j - times j (k ∷ ks))
      (release_each ks (release k r)) (λ j. ground arith)
      (release_each-Counted (λ j. held j - ind (k == j)) ks (release k r)
        (release-Counted held k r v))

times-reversed : (j : ℕ) (ks : List ℕ) → times j (reversed ks) ≡ times j ks
unfolding reversed
times-reversed j [] = refl
times-reversed j (k ∷ ks) =
    ground (arith, count-append (λ x. x == j) (reversed ks) (k ∷ []), times-reversed j ks)

-- What the loop of `lease_active` took: all or nothing.
abbrev taken : ℕ → Option (List ℕ) → ℕ
taken j none = 0
taken j (some leased) = times j leased

acquire_each-Counted :
    (held : ℕ → ℕ) (ks leased : List ℕ) (r : Registry)
    → Counted (λ j. held j + times j leased) r
    → Counted (λ j. held j + taken j (acquire_each ks leased r).0) (acquire_each ks leased r).1
unfolding acquire_each
acquire_each-Counted held [] leased r v = v
acquire_each-Counted held (k ∷ ks) leased r v =
    if_ind (λ (x : Option (List ℕ) × Registry). Counted (λ j. held j + taken j x.0) x.1)
      (accepts (r.objects k).state)
      (λ a. acquire_each-Counted held ks (leased ++ (k ∷ [])) (add_lease k r) (
        Counted-same (λ j. held j + times j leased + ind (k == j))
          (λ j. held j + times j (leased ++ (k ∷ []))) (add_lease k r)
          (λ j. ground (arith, count-append (λ x. x == j) leased (k ∷ [])))
          (add_lease-Counted (λ j. held j + times j leased) k r a v)))
      (λ a.
        Counted-same (λ j. held j + times j leased - times j (reversed leased)) (λ j. held j + 0)
          (release_each (reversed leased) r) (λ j. omega (arith, times-reversed j leased))
          (release_each-Counted (λ j. held j + times j leased) (reversed leased) r v))

release_each-turns : (ks : List ℕ) (r : Registry) → (release_each ks r).turns ≡ r.turns
unfolding release_each release modify
release_each-turns [] r = refl
release_each-turns (k ∷ ks) r =
    release_each-turns ks (release k r)
    ∙ if_ind (λ (x : Registry). x.turns ≡ r.turns) ((r.objects k).lease_count == 0) (λ e. refl)
        (λ e. refl)

acquire_each-turns :
    (ks leased : List ℕ) (r : Registry) → (acquire_each ks leased r).1.turns ≡ r.turns
unfolding acquire_each add_lease modify
acquire_each-turns [] leased r = refl
acquire_each-turns (k ∷ ks) leased r =
    if_ind (λ (x : Option (List ℕ) × Registry). x.1.turns ≡ r.turns) (accepts (r.objects k).state)
      (λ a. acquire_each-turns ks (leased ++ (k ∷ [])) (add_lease k r))
      (λ a. release_each-turns (reversed leased) r)

held_in-append :
    (j : ℕ) (turns : List Turn) (x : Turn)
    → held_in j (turns ++ (x ∷ [])) ≡ held_in j turns + held_in j (x ∷ [])
unfolding held_in
held_in-append j [] x = ground arith
held_in-append j (y ∷ turns) x = ground (arith, held_in-append j turns x)

-- What holds of the registry: the counts are those of the open turns.
unfoldable pub Inv : Registry → Type 0
Inv r = Counted (λ j. held_in j r.turns) r

enter_turn-Inv :
    (o : Option (List ℕ)) (r : Registry) (turns : List Turn)
    → r.turns ≡ turns
    → Counted (λ j. held_in j turns + taken j o) r
    → Inv (enter_turn o r).1
unfolding Inv enter_turn held_in
enter_turn-Inv none r turns e v =
    Counted-same (λ j. held_in j turns + 0) (λ j. held_in j r.turns) r
      (λ j. omega (arith, ap (held_in j) e)) v
enter_turn-Inv (some l) r turns e v = record {
  counted = λ j. ground (
    arith,
    v.counted j,
    ap (held_in j) e,
    held_in-append j r.turns (record { leased = l; is_open = true }),
  );
  quiet = v.quiet;
}

pub lease_active-Inv : (r : Registry) → Inv r → Inv (lease_active r).1
unfolding Inv lease_active
lease_active-Inv r v =
    let ks = active_generations r in
    enter_turn-Inv (acquire_each ks [] r).0 (acquire_each ks [] r).1 r.turns
      (acquire_each-turns ks [] r)
      (acquire_each-Counted (λ j. held_in j r.turns) ks [] r
        (Counted-same (λ j. held_in j r.turns) (λ j. held_in j r.turns + 0) r (λ j. omega arith) v))

count-close_turn :
    (j n : ℕ) (turns : List Turn) (x : Turn)
    → nth_turn n turns ≡ some x
    → x.is_open ≡ true
    → held_in j (close_turn n turns) + times j x.leased ≡ held_in j turns
unfolding held_in nth_turn close_turn
count-close_turn j n [] x f o = cc
count-close_turn j zero (y ∷ turns) x f o = ground (arith, some-injective y x f)
count-close_turn j (suc n) (y ∷ turns) x f o = ground (arith, count-close_turn j n turns x f o)

left-Inv :
    (n : ℕ) (r : Registry) (x : Turn)
    → Inv r
    → nth_turn n r.turns ≡ some x
    → x.is_open ≡ true
    → Inv (release_each (reversed x.leased) (record r { turns = close_turn n r.turns }))
unfolding Inv
left-Inv n r x v f o =
    let r' : Registry = record r { turns = close_turn n r.turns } in
    Counted-same (λ j. held_in j r.turns - times j (reversed x.leased))
      (λ j. held_in j (release_each (reversed x.leased) r').turns)
      (release_each (reversed x.leased) r')
      (λ j. omega (
        arith,
        times-reversed j x.leased,
        count-close_turn j n r.turns x f o,
        ap (held_in j) (release_each-turns (reversed x.leased) r'),
      ))
      (release_each-Counted (λ j. held_in j r.turns) (reversed x.leased) r'
        (record { counted = v.counted; quiet = v.quiet }))

pub leave-Inv : (n : ℕ) (r : Registry) → Inv r → Inv (leave n r)
unfolding leave
leave-Inv n r v = elim (Option-cases (nth_turn n r.turns)) [
  | inl f ↦ subst Inv (sym (ground arith)) v
  | inr (x, f) ↦ elim (Bool-cases x.is_open) [
    | inr o ↦ subst Inv (sym (ground arith)) v
    | inl o ↦ subst Inv (sym (ground arith)) (left-Inv n r x v f o)
  ]
]
