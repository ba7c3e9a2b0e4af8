-- ===== src/Phase/Plan.antt =====
-- What `topo_sort_modules` of agent/lifecycle/phase.py returns for distinct slots.
use kirakira_agent_online.Prelude.{
  ℕ, zero, suc, ◌≤◌, ◌<◌, ◌≡◌, ◌⊎◌, refl, sym, subst, ◌∙◌, inl, inr, String, true, some, List, [],
  ◌∷◌, ◌++◌, arith, ◌==◌, str_eq, str_eq→eq, length, listed, occ, listed-occ, occ-listed, occ-none,
  occ-keep, length-le_of_occ, occ-le_of_length, Bool-cases, ok, err, All, All-map, All-keep, keep,
  sort_by, str_le, ltb,
}
use kirakira_agent_online.Phase.{
  SlotModule, slots, module_requires, module_cycle, entry, edges, no_edges, run_queue, resolved,
  sort_active,
}
use kirakira_agent_online.Phase.Links.{reqs_of, in_degree-edges, dependents-edges}
use kirakira_agent_online.Phase.Ordered.{Ordered, unlisted, length-slots}
use kirakira_agent_online.Phase.Loop.{Inv, run_queue_total}

-- The plan holds the entries of the map, each once, every one behind its known requirements.
pub record IsPlan (slot_map plan : List SlotModule) : Type 0 where
  pub same : (s : String) → occ s (slots plan) ≡ occ s (slots slot_map)
  pub ordered : Ordered (slots slot_map) [] plan
  pub inside : All (λ m. entry slot_map m.slot ≡ some m) plan

-- `rank` puts each known requirement below its module, so the graph has no cycle.
abbrev pub IsRanked : (String → ℕ) → List SlotModule → Type 0
IsRanked rank slot_map =
    All (λ m. All (λ r. rank r < rank m.slot) (module_requires m (slots slot_map))) slot_map

abbrev pub Distinct : List SlotModule → Type 0
Distinct slot_map = (s : String) → occ s (slots slot_map) ≤ 1

unlisted-nil : (names : List String) → unlisted [] names ≡ length names
unlisted-nil [] = refl
unlisted-nil (n ∷ names) = omega (arith, unlisted-nil names)

All-unlisted :
    (done names : List String) → All (λ r. listed done r ≡ true) names → unlisted done names ≡ 0
All-unlisted done [] h = refl
All-unlisted done (n ∷ names) h = ground (arith, h.0, All-unlisted done names h.1)

All-append {ℓ} :
    (P : String → Type ℓ) (xs ys : List String) → All P xs → All P ys → All P (xs ++ ys)
All-append P [] ys h k = k
All-append P (x ∷ xs) ys h k = (h.0, All-append P xs ys h.1 k)

-- A known requirement of a slot is known and has a lower rank.
reqs_of-ranked :
    (rank : String → ℕ) (known : List String) (ms : List SlotModule) (s : String)
    → All (λ m. All (λ r. rank r < rank m.slot) (module_requires m known)) ms
    → All (λ r. (listed known r ≡ true) × (rank r < rank s)) (reqs_of ms known s)
unfolding module_requires
reqs_of-ranked rank known [] s h = tt
reqs_of-ranked rank known (m ∷ ms) s h = elim (Bool-cases (str_eq m.slot s)) [
  | inl e ↦ rw e (
      All-append _ (keep (listed known) m.requires) (reqs_of ms known s)
        (All-zip2 (keep (listed known) m.requires) (All-keep (listed known) m.requires) (
          subst (λ t. All (λ r. rank r < rank t) (keep (listed known) m.requires))
            (str_eq→eq m.slot s e) h.0))
        (reqs_of-ranked rank known ms s h.1))
  | inr e ↦ rw e (reqs_of-ranked rank known ms s h.1)
]
  where
    All-zip2 :
        (xs : List String)
        → All (λ r. listed known r ≡ true) xs
        → All (λ r. rank r < rank s) xs
        → All (λ r. (listed known r ≡ true) × (rank r < rank s)) xs
    All-zip2 [] h k = tt
    All-zip2 (x ∷ xs) h k = ((h.0, k.0), All-zip2 xs h.1 k.1)

module _ (slot_map : List SlotModule) (distinct : Distinct slot_map) where
  known : List String
  known = slots slot_map

  abbrev waiting : String → ℕ
  waiting = (edges (slots slot_map) slot_map no_edges).in_degree

  abbrev dependents : String → List String
  dependents = (edges (slots slot_map) slot_map no_edges).dependents

  linked : (s r : String) → occ s (dependents r) ≡ occ r (reqs_of slot_map (slots slot_map) s)
  linked s r = dependents-edges (slots slot_map) slot_map s r

  start-Inv :
      Inv slot_map dependents linked waiting (keep (λ s. waiting s == 0) (slots slot_map)) []
  start-Inv = record {
    open_reqs = λ s.
        in_degree-edges (slots slot_map) slot_map s
        ∙ sym (unlisted-nil (reqs_of slot_map (slots slot_map) s));
    once = λ s. ground (
      arith,
      occ-keep (λ t. waiting t == 0) s (slots slot_map),
      distinct s,
      listed-occ (slots slot_map) s,
      occ-none (slots slot_map) s,
    );
    ordered = tt;
    inside = tt;
  }

  -- The end of the loop.
  module _ (degree : String → ℕ) (plan : List SlotModule)
      (end : Inv slot_map dependents linked degree [] plan) where
    below : (s : String) → occ s (slots plan) ≤ occ s (slots slot_map)
    below s = ground (arith, end.once s, listed-occ (slots slot_map) s)

    whole-IsPlan : length plan ≡ length slot_map → IsPlan slot_map plan
    whole-IsPlan h = record {
      same = λ s. omega (
        arith,
        below s,
        occ-le_of_length (slots plan) (slots slot_map) below
            (omega (arith, length-slots plan, length-slots slot_map)) s,
      );
      ordered = end.ordered;
      inside = end.inside;
    }

    -- Where the graph has no cycle, no slot is left.
    descent :
        (rank : String → ℕ)
        → IsRanked rank slot_map
        → (n : ℕ) (s : String) → rank s < n
        → degree s ≡ 0
    descent rank ranked zero s h = absurd (omega arith)
    descent rank ranked (suc n) s h =
        end.open_reqs s
        ∙ All-unlisted (slots plan) (reqs_of slot_map (slots slot_map) s) (
            All-map (λ r. (listed (slots slot_map) r ≡ true) × (rank r < rank s)) _ _
              (λ r k.
                occ-listed (slots plan) r
                  (ground (arith, end.once r, descent rank ranked n r (omega (arith, k.1)), k.0)))
              (reqs_of-ranked rank (slots slot_map) slot_map s ranked))

    ranked_whole : (rank : String → ℕ) → IsRanked rank slot_map → length plan ≡ length slot_map
    ranked_whole rank ranked = omega (
      arith,
      length-le_of_occ (slots plan) (slots slot_map) below,
      length-le_of_occ (slots slot_map) (slots plan) (λ s. ground (
        arith,
        end.once s,
        descent rank ranked (suc (rank s)) s (omega arith),
        distinct s,
        occ-none (slots slot_map) s,
      )),
      length-slots plan,
      length-slots slot_map,
    )

  run_queue_ends :
      (degree : String → ℕ) × (plan : List SlotModule) × (run_queue
          (length slot_map)
          slot_map
          dependents
          waiting
          (keep (λ s. waiting s == 0) (slots slot_map))
          []
        ≡ ok (degree, plan))
      × Inv slot_map dependents linked degree [] plan
  run_queue_ends =
      run_queue_total slot_map dependents linked (length slot_map) waiting
        (keep (λ s. waiting s == 0) (slots slot_map)) [] (omega arith) start-Inv

  -- For distinct slots the sort always answers: with a plan that holds each module once and behind its
  -- known requirements, or with a cycle error, and that only where no ranking of the slots exists that
  -- puts every known requirement below its module.
  pub sort_active_decides :
      ((plan : List SlotModule) × (sort_active slot_map ≡ ok plan) × IsPlan slot_map plan)
      ⊎ ((left : List String) × (sort_active slot_map ≡ err (module_cycle left))
          × ((rank : String → ℕ) → IsRanked rank slot_map → ⊥))
  unfolding sort_active resolved
  sort_active_decides =
      let (degree, plan, runs, end) = run_queue_ends in
      elim (Bool-cases (length plan == length slot_map)) [
        | inl e ↦
            inl (plan, rw runs (rw (e, resolved) refl), whole-IsPlan degree plan end (ground arith))
        | inr e ↦ inr (
          sort_by str_le (keep (λ s. ltb 0 (degree s)) (slots slot_map)),
          rw runs (rw (e, resolved) refl),
          λ rank ranked. ground (arith, ranked_whole degree plan end rank ranked),
        )
      ]
