-- ===== src/Phase/Loop.antt =====
-- The work list of `topo_sort_modules` in agent/lifecycle/phase.py: what holds after each round.
use kirakira_agent_online.Prelude.{
  ℕ, zero, suc, ◌+◌, ◌≤◌, ◌≡◌, refl, sym, subst, ap, ◌∙◌, inl, inr, String, true, false, some, List,
  [], ◌∷◌, ◌++◌, arith, ◌==◌, str_eq, eq_refl, if◌then◌else◌, count-append, length, length-append,
  listed, occ, listed-occ, occ-none, length-le_of_occ, List-cases, sort_by, ok, All, All-listed,
}
use kirakira_agent_online.Prelude.Sorting.{count-sort_by, length-sort_by}
use kirakira_agent_online.Phase.{
  SlotModule, slots, module_requires, entry, before, release, run_queue,
}
use kirakira_agent_online.Phase.Links.{reqs_of, reqs_of-entry, release_lem}
use kirakira_agent_online.Phase.Ordered.{
  Ordered, Ordered-snoc, slots-snoc, unlisted, unlisted-snoc, occ-le_unlisted, unlisted-none,
  entry-listed, entry_slot, reqs_of-known, occ-le-length, All-snoc, length-slots, length_nil,
}

module _ (slot_map : List SlotModule) (dependents : String → List String)
    (linked : (s r : String)
      → occ s (dependents r) ≡ occ r (reqs_of slot_map (slots slot_map) s)) where
  abbrev pub known : List String
  known = slots slot_map

  abbrev pub reqs : String → List String
  reqs s = reqs_of slot_map known s

  pub record Inv (degree : String → ℕ) (queue : List String) (sorted_modules : List SlotModule)
      : Type 0 where
    pub open_reqs : (s : String) → degree s ≡ unlisted (slots sorted_modules) (reqs s)
    pub once :
        (s : String)
        → occ s queue + occ s (slots sorted_modules)
          ≡ (if listed known s then if degree s == 0 then 1 else 0 else 0)
    pub ordered : Ordered known [] sorted_modules
    pub inside : All (λ m. entry slot_map m.slot ≡ some m) sorted_modules

  -- The slot at the head of the sorted queue: it is known, not done, and waits for nothing.
  module _ (degree : String → ℕ) (queue : List String) (sorted_modules : List SlotModule)
      (inv : Inv degree queue sorted_modules) (slot : String) (rest : List String)
      (head : sort_by (before slot_map) queue ≡ slot ∷ rest) where
    occ-head : (s : String) → occ s queue ≡ (if str_eq slot s then 1 else 0) + occ s rest
    occ-head s =
        ground (
          arith,
          count-sort_by (before slot_map) (λ (n : String). str_eq n s) queue,
          ap (occ s) head,
        )

    head_ready :
        (listed known slot ≡ true)
        × (degree slot ≡ 0)
        × (listed (slots sorted_modules) slot ≡ false)
    head_ready =
        ground (
          arith,
          inv.once slot,
          occ-head slot,
          eq_refl slot,
          listed-occ (slots sorted_modules) slot,
        )

    done : List String
    done = slots sorted_modules ++ (slot ∷ [])

    released : (String → ℕ) × List String
    released = release (dependents slot) degree rest

    released_lem :
        (s : String)
        → (released.0 s + occ s (dependents slot) ≡ degree s)
          × (occ s released.1
              ≡ occ s rest
                + (if listed (dependents slot) s then if released.0 s == 0 then 1 else 0 else 0))
    unfolding released
    released_lem s = release_lem s (dependents slot) degree rest (
        omega (
          arith,
          linked s slot,
          inv.open_reqs s,
          occ-le_unlisted (slots sorted_modules) slot (reqs s) head_ready.2,
        ))

    open_next : (s : String) → released.0 s ≡ unlisted done (reqs s)
    unfolding done
    open_next s = omega (
      arith,
      released_lem s,
      linked s slot,
      inv.open_reqs s,
      unlisted-snoc (slots sorted_modules) slot (reqs s) head_ready.2,
    )

    once_next :
        (s : String)
        → occ s released.1 + occ s done
          ≡ (if listed known s then if released.0 s == 0 then 1 else 0 else 0)
    unfolding done
    once_next s = ground (
      arith,
      inv.once s,
      occ-head s,
      released_lem s,
      linked s slot,
      reqs_of-known slot_map known s,
      occ-le-length slot (reqs s),
      listed-occ (dependents slot) s,
      occ-none (dependents slot) s,
      count-append (λ (n : String). str_eq n s) (slots sorted_modules) (slot ∷ []),
    )

    next-Inv :
        (m : SlotModule)
        → entry slot_map slot ≡ some m
        → Inv released.0 released.1 (sorted_modules ++ (m ∷ []))
    unfolding done
    next-Inv m found = record {
      open_reqs = λ s. subst (λ l. released.0 s ≡ unlisted l (reqs s)) (sym same) (open_next s);
      once = λ s.
          subst
            (λ l.
              occ s released.1 + occ s l
              ≡ (if listed known s then if released.0 s == 0 then 1 else 0 else 0))
            (sym same) (once_next s);
      ordered = Ordered-snoc known [] sorted_modules m inv.ordered (
          All-listed (λ r. listed (slots sorted_modules) r ≡ true) (module_requires m known)
            (λ r l.
              unlisted-none (slots sorted_modules) (reqs slot)
                (omega (arith, inv.open_reqs slot, head_ready.1)) r
                (reqs_of-entry slot_map known slot m r found l)));
      inside =
          All-snoc (λ x. entry slot_map x.slot ≡ some x) sorted_modules m inv.inside
            (subst (λ t. entry slot_map t ≡ some m) (sym (entry_slot slot_map slot m found)) found);
    }
      where
        same : slots (sorted_modules ++ (m ∷ [])) ≡ slots sorted_modules ++ (slot ∷ [])
        same =
            slots-snoc sorted_modules m
            ∙ ap (λ t. slots sorted_modules ++ (t ∷ [])) (entry_slot slot_map slot m found)

  -- Every slot stands at most once in the queue and the plan, so these are no longer than the map.
  room :
      (degree : String → ℕ) (queue : List String) (sorted_modules : List SlotModule)
      → Inv degree queue sorted_modules
      → length queue + length sorted_modules ≤ length slot_map
  room degree queue sorted_modules inv = omega (
    arith,
    length-le_of_occ (queue ++ slots sorted_modules) known (λ s. ground (
      arith,
      inv.once s,
      listed-occ known s,
      count-append (λ (n : String). str_eq n s) queue (slots sorted_modules),
    )),
    length-append queue (slots sorted_modules),
    length-slots sorted_modules,
    length-slots slot_map,
  )

  -- The loop ends, with an empty queue.
  pub run_queue_total :
      (fuel : ℕ) (degree : String → ℕ) (queue : List String) (sorted_modules : List SlotModule)
      → length slot_map ≤ fuel + length sorted_modules
      → Inv degree queue sorted_modules
      → (degree' : String → ℕ) × (plan : List SlotModule) × (run_queue fuel slot_map dependents
            degree queue sorted_modules
          ≡ ok (degree', plan))
        × Inv degree' [] plan
  unfolding run_queue released
  run_queue_total zero degree [] sorted_modules h inv = (degree, sorted_modules, refl, inv)
  run_queue_total zero degree (s ∷ queue) sorted_modules h inv =
      absurd (omega (arith, room degree (s ∷ queue) sorted_modules inv))
  run_queue_total (suc fuel) degree queue sorted_modules h inv =
      elim (List-cases (sort_by (before slot_map) queue)) [
        | inl e ↦ (
          degree,
          sorted_modules,
          rw (e, run_queue) refl,
          subst (λ q. Inv degree q sorted_modules)
              (length_nil queue
                (omega (arith, ap length e, length-sort_by (before slot_map) queue)))
              inv,
        )
        | inr (slot, rest, e) ↦
            let (m, found, named) =
              entry-listed slot_map slot
                (head_ready degree queue sorted_modules inv slot rest e).0 in
            let (degree', plan, runs, end) =
              run_queue_total fuel (released degree queue sorted_modules inv slot rest e).0
                (released degree queue sorted_modules inv slot rest e).1
                (sorted_modules ++ (m ∷ [])) (omega (arith, length-append sorted_modules (m ∷ [])))
                (next-Inv degree queue sorted_modules inv slot rest e m found) in
            (degree', plan, rw (e, run_queue) (rw (found) runs), end)
      ]
