-- ===== src/Phase/Ordered.antt =====
-- Plans of agent/lifecycle/phase.py in which each module follows what it requires, and the names that
-- are not done yet.
use kirakira_agent_online.Prelude.{
  ℕ, ◌+◌, ◌≤◌, ◌≡◌, refl, sym, subst, ap, inl, inr, String, true, false, not, some, List, [], ◌∷◌,
  ◌++◌, arith, str_eq, str_eq→eq, eq_refl, if◌then◌else◌, count, length, listed, occ, Bool-cases,
  find, All,
}
use kirakira_agent_online.Prelude.Table.{find-holds}
use kirakira_agent_online.Phase.{SlotModule, slots, module_requires, entry}
use kirakira_agent_online.Phase.Links.{reqs_of}

-- Each module stands after `seen` and the modules before it, and so do its known requirements.
abbrev pub Ordered : List String → List String → List SlotModule → Type 0
Ordered known seen [] = Unit
Ordered known seen (m ∷ ms) =
    All (λ r. listed seen r ≡ true) (module_requires m known)
    × Ordered known (seen ++ (m.slot ∷ [])) ms

pub append_assoc : (xs ys zs : List String) → (xs ++ ys) ++ zs ≡ xs ++ (ys ++ zs)
append_assoc [] ys zs = refl
append_assoc (x ∷ xs) ys zs = ap (λ l. x ∷ l) (append_assoc xs ys zs)

pub Ordered-snoc :
    (known seen : List String) (ms : List SlotModule) (m : SlotModule)
    → Ordered known seen ms
    → All (λ r. listed (seen ++ slots ms) r ≡ true) (module_requires m known)
    → Ordered known seen (ms ++ (m ∷ []))
Ordered-snoc known seen [] m o h =
    (subst (λ l. All (λ r. listed l r ≡ true) (module_requires m known)) (nil_right seen) h, tt)
  where
    nil_right : (xs : List String) → xs ++ [] ≡ xs
    nil_right [] = refl
    nil_right (x ∷ xs) = ap (λ l. x ∷ l) (nil_right xs)
Ordered-snoc known seen (x ∷ ms) m o h = (
  o.0,
  Ordered-snoc known (seen ++ (x.slot ∷ [])) ms m o.1 (
      subst (λ l. All (λ r. listed l r ≡ true) (module_requires m known))
        (sym (append_assoc seen (x.slot ∷ []) (slots ms))) h),
)

pub slots-snoc :
    (ms : List SlotModule) (m : SlotModule) → slots (ms ++ (m ∷ [])) ≡ slots ms ++ (m.slot ∷ [])
slots-snoc [] m = refl
slots-snoc (x ∷ ms) m = ap (λ l. x.slot ∷ l) (slots-snoc ms m)

-- The names that are not listed yet.
abbrev pub unlisted : List String → List String → ℕ
unlisted done names = count (λ r. not (listed done r)) names

-- One more name is done: the open names fall by its occurrences.
pub unlisted-snoc :
    (done : List String) (s : String) (names : List String)
    → listed done s ≡ false
    → unlisted (done ++ (s ∷ [])) names + occ s names ≡ unlisted done names
unlisted-snoc done s [] h = omega arith
unlisted-snoc done s (n ∷ names) h = elim (Bool-cases (str_eq n s)) [
  | inl e ↦ ground (arith, str_eq→eq n s e, eq_refl s, last, unlisted-snoc done s names)
  | inr e ↦ ground (arith, listed_last done n, unlisted-snoc done s names, str_eq→eq s n, eq_refl s)
]
  where
    listed_last :
        (xs : List String) (n : String)
        → listed (xs ++ (s ∷ [])) n ≡ (if listed xs n then true else str_eq s n)
    listed_last [] n = ground arith
    listed_last (x ∷ xs) n = ground (arith, listed_last xs n)

    last : listed (done ++ (s ∷ [])) s ≡ true
    last = ground (arith, listed_last done s, eq_refl s)

pub occ-le_unlisted :
    (done : List String) (s : String) (names : List String)
    → listed done s ≡ false
    → occ s names ≤ unlisted done names
occ-le_unlisted done s names h = omega (arith, unlisted-snoc done s names h)

pub unlisted-none :
    (done names : List String)
    → unlisted done names ≡ 0
    → (s : String) → listed names s ≡ true
    → listed done s ≡ true
unlisted-none done [] h s l = cc
unlisted-none done (n ∷ names) h s l = elim (Bool-cases (str_eq n s)) [
  | inl e ↦ ground (arith, str_eq→eq n s e)
  | inr e ↦ ground (arith, unlisted-none done names, unlisted-none done names (ground arith) s)
]

pub entry-listed :
    (ms : List SlotModule) (s : String)
    → listed (slots ms) s ≡ true
    → (m : SlotModule) × (entry ms s ≡ some m) × (m.slot ≡ s)
unfolding find
entry-listed [] s h = cc
entry-listed (m ∷ ms) s h = elim (Bool-cases (str_eq m.slot s)) [
  | inl e ↦ (m, ground arith, str_eq→eq m.slot s e)
  | inr e ↦ let (x, f, q) = entry-listed ms s (ground arith) in (x, ground arith, q)
]

pub entry_slot :
    (ms : List SlotModule) (s : String) (m : SlotModule) → entry ms s ≡ some m → m.slot ≡ s
entry_slot ms s m h = str_eq→eq m.slot s (find-holds (λ x. str_eq x.slot s) ms m h)

pub reqs_of-known :
    (ms : List SlotModule) (known : List String) (s : String)
    → 1 ≤ length (reqs_of ms known s)
    → listed (slots ms) s ≡ true
reqs_of-known [] known s h = absurd (omega arith)
reqs_of-known (m ∷ ms) known s h = ground (arith, reqs_of-known ms known s)

pub occ-le-length : (s : String) (names : List String) → occ s names ≤ length names
occ-le-length s [] = omega arith
occ-le-length s (n ∷ names) = ground (arith, occ-le-length s names)

pub All-snoc {ℓ} :
    (P : SlotModule → Type ℓ) (ms : List SlotModule) (m : SlotModule)
    → All P ms
    → P m
    → All P (ms ++ (m ∷ []))
All-snoc P [] m all h = (h, tt)
All-snoc P (x ∷ ms) m all h = (all.0, All-snoc P ms m all.1 h)

pub length-slots : (ms : List SlotModule) → length (slots ms) ≡ length ms
length-slots [] = refl
length-slots (m ∷ ms) = omega (arith, length-slots ms)

pub length_nil {ℓ} : {A : Type ℓ} (xs : List A) → length xs ≡ 0 → xs ≡ []
length_nil [] h = refl
length_nil (x ∷ xs) h = absurd (omega arith)
