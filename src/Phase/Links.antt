-- ===== src/Phase/Links.antt =====
-- What `in_degree` and `dependents` hold once the loops of agent/lifecycle/phase.py have filled them.
use kirakira_agent_online.Prelude.{
  ℕ, ◌+◌, ◌≤◌, ◌≡◌, String, true, List, [], ◌∷◌, ◌++◌, arith, ◌==◌, str_eq, if◌then◌else◌,
  count-append, inl, inr, length, length-append, listed, occ, Bool-cases, find, some, eq_refl,
  str_eq→eq, listed-append, listed-occ, occ-none,
}
use kirakira_agent_online.Phase.{
  SlotModule, module_requires, Edges, no_edges, add_edge, add_edges, edges, entry, lower, release,
}

-- The known requirements of a slot.
abbrev pub reqs_of : List SlotModule → List String → String → List String
reqs_of [] known s = []
reqs_of (m ∷ ms) known s =
    let rest = reqs_of ms known s in
    if str_eq m.slot s then module_requires m known ++ rest else rest

add_edge_lem :
    (slot req : String) (e : Edges) (s r : String)
    → ((add_edge slot req e).in_degree s ≡ e.in_degree s + (if str_eq slot s then 1 else 0))
      × (occ s ((add_edge slot req e).dependents r)
          ≡ occ s (e.dependents r) + (if str_eq slot s then occ r (req ∷ []) else 0))
unfolding add_edge
add_edge_lem slot req e s r = (
  ground arith,
  ground (arith, count-append (λ (n : String). str_eq n s) (e.dependents r) (slot ∷ [])),
)

add_edges_lem :
    (slot : String) (reqs : List String) (e : Edges) (s r : String)
    → ((add_edges slot reqs e).in_degree s
        ≡ e.in_degree s + (if str_eq slot s then length reqs else 0))
      × (occ s ((add_edges slot reqs e).dependents r)
          ≡ occ s (e.dependents r) + (if str_eq slot s then occ r reqs else 0))
unfolding add_edges
add_edges_lem slot [] e s r = (ground arith, ground arith)
add_edges_lem slot (q ∷ reqs) e s r = (
  ground (arith, add_edge_lem slot q e s r, add_edges_lem slot reqs (add_edge slot q e) s r),
  ground (arith, add_edge_lem slot q e s r, add_edges_lem slot reqs (add_edge slot q e) s r),
)

-- A slot's degree is the number of its known requirements, and it stands among the dependents of a slot
-- as often as it requires it.
edges_lem :
    (known : List String) (ms : List SlotModule) (e : Edges) (s r : String)
    → ((edges known ms e).in_degree s ≡ e.in_degree s + length (reqs_of ms known s))
      × (occ s ((edges known ms e).dependents r)
          ≡ occ s (e.dependents r) + occ r (reqs_of ms known s))
unfolding edges
edges_lem known [] e s r = (omega arith, omega arith)
edges_lem known (m ∷ ms) e s r =
    let reqs = module_requires m known in
    let rest = reqs_of ms known s in
    let head = add_edges_lem m.slot reqs e s r in
    let tail = edges_lem known ms (add_edges m.slot reqs e) s r in
    (
      ground (arith, head, tail, length-append reqs rest),
      ground (arith, head, tail, count-append (λ (n : String). str_eq n r) reqs rest),
    )

pub in_degree-edges :
    (known : List String) (ms : List SlotModule) (s : String)
    → (edges known ms no_edges).in_degree s ≡ length (reqs_of ms known s)
in_degree-edges known ms s = omega (arith, edges_lem known ms no_edges s s)

pub dependents-edges :
    (known : List String) (ms : List SlotModule) (s r : String)
    → occ s ((edges known ms no_edges).dependents r) ≡ occ r (reqs_of ms known s)
dependents-edges known ms s r = omega (arith, edges_lem known ms no_edges s r)

-- The requirements of the entry under a slot are among those of the slot.
pub reqs_of-entry :
    (ms : List SlotModule) (known : List String) (s : String) (m : SlotModule) (r : String)
    → entry ms s ≡ some m
    → listed (module_requires m known) r ≡ true
    → listed (reqs_of ms known s) r ≡ true
unfolding find
reqs_of-entry [] known s m r h k = cc
reqs_of-entry (x ∷ ms) known s m r h k = elim (Bool-cases (str_eq x.slot s)) [
  | inl e ↦ ground (arith, listed-append (module_requires m known) (reqs_of ms known s) r)
  | inr e ↦ ground (arith, reqs_of-entry ms known s m r)
]

-- What `release` does to one slot: its degree falls by its occurrences among the dependents, and it joins
-- the queue when that makes it 0.
pub release_lem :
    (s : String) (ds : List String) (degree : String → ℕ) (queue : List String)
    → occ s ds ≤ degree s
    → ((release ds degree queue).0 s + occ s ds ≡ degree s)
      × (occ s (release ds degree queue).1
          ≡ occ s queue
            + (if listed ds s then if (release ds degree queue).0 s == 0 then 1 else 0 else 0))
unfolding release lower
release_lem s [] degree queue h = (omega arith, omega arith)
release_lem s (d ∷ ds) degree queue h = elim (Bool-cases (str_eq d s)) [
  | inl e ↦ ground (
    arith,
    str_eq→eq d s e,
    eq_refl s,
    release_lem s ds (lower d degree) next,
    count-append (λ (n : String). str_eq n s) queue (d ∷ []),
    listed-occ ds s,
    occ-none ds s,
  )
  | inr e ↦ ground (
    arith,
    release_lem s ds (lower d degree) next,
    count-append (λ (n : String). str_eq n s) queue (d ∷ []),
  )
]
  where
    next : List String
    next = if lower d degree d == 0 then queue ++ (d ∷ []) else queue
