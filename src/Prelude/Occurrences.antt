-- ===== src/Prelude/Occurrences.antt =====
-- Membership of names in a list and how often a name stands there: Python's `in` on a set of names.
use Prim.Native.Nat.{ℕ, suc, ◌+◌, ◌≤◌}
use Prim.Native.String.{String}
use mathlib.Core.Path.{◌≡◌, refl, subst}
use mathlib.Core.Logic.{◌⊎◌, inl, inr}
use mathlib.Core.Bool.{Bool, true, false, not}
use mathlib.Core.List.{List, [], ◌∷◌, ◌++◌}
use native.Mathlib.Omega.{arith}
use text.Mathlib.Text.{◌==◌ as str_eq}
use text.Mathlib.TextPositions.{eq_refl}
use kirakira_agent_online.Prelude.Tests.{if◌then◌else◌, Bool-cases, str_eq→eq}
use kirakira_agent_online.Prelude.Lists.{All, any, count, keep, length}
use kirakira_agent_online.Prelude.Table.{ind}

-- `name in names`
abbrev pub listed : List String → String → Bool
listed names s = any (λ n. str_eq n s) names

abbrev pub occ : String → List String → ℕ
occ s names = count (λ n. str_eq n s) names

-- `names - gone`
abbrev pub without : List String → List String → List String
without gone names = keep (λ n. not (listed gone n)) names

pub List-cases {ℓ} :
    {A : Type ℓ} (xs : List A) → (xs ≡ []) ⊎ ((x : A) × (rest : List A) × (xs ≡ x ∷ rest))
List-cases [] = inl refl
List-cases (x ∷ xs) = inr (x, xs, refl)

pub listed-occ : (names : List String) (s : String) → listed names s ≡ true → 1 ≤ occ s names
listed-occ [] s h = cc
listed-occ (n ∷ names) s h = ground (arith, listed-occ names s)

pub occ-listed : (names : List String) (s : String) → 1 ≤ occ s names → listed names s ≡ true
occ-listed [] s h = absurd (omega arith)
occ-listed (n ∷ names) s h = ground (arith, occ-listed names s)

pub occ-none : (names : List String) (s : String) → listed names s ≡ false → occ s names ≡ 0
occ-none [] s h = refl
occ-none (n ∷ names) s h = ground (arith, occ-none names s)

pub listed-append :
    (xs ys : List String) (s : String) → listed xs s ≡ true → listed (xs ++ ys) s ≡ true
listed-append [] ys s h = cc
listed-append (x ∷ xs) ys s h = ground (arith, listed-append xs ys s)

-- A predicate of all names holds of each listed one.
pub listed-All {ℓ} :
    (P : String → Type ℓ) (names : List String) (s : String)
    → All P names
    → listed names s ≡ true
    → P s
listed-All P [] s all h = cc
listed-All P (n ∷ names) s all h = elim (Bool-cases (str_eq n s)) [
  | inl e ↦ subst P (str_eq→eq n s e) all.0
  | inr e ↦ listed-All P names s all.1 (ground arith)
]

pub All-listed {ℓ} :
    (P : String → Type ℓ) (names : List String)
    → ((s : String) → listed names s ≡ true → P s)
    → All P names
All-listed P [] f = tt
All-listed P (n ∷ names) f =
    (f n (ground (arith, eq_refl n)), All-listed P names (λ s h. f s (ground arith)))

-- One occurrence of a name fewer.
unfoldable remove : String → List String → List String
remove s [] = []
remove s (n ∷ names) = let rest = remove s names in if str_eq n s then names else n ∷ rest

length-remove :
    (s : String) (names : List String)
    → 1 ≤ occ s names
    → suc (length (remove s names)) ≡ length names
unfolding remove
length-remove s [] h = absurd (omega arith)
length-remove s (n ∷ names) h = ground (arith, length-remove s names)

occ-remove :
    (s t : String) (names : List String)
    → 1 ≤ occ s names
    → occ t (remove s names) + ind (str_eq s t) ≡ occ t names
unfolding remove
occ-remove s t [] h = absurd (omega arith)
occ-remove s t (n ∷ names) h = elim (Bool-cases (str_eq n s)) [
  | inl e ↦ ground (arith, str_eq→eq n s e)
  | inr e ↦ ground (arith, occ-remove s t names)
]

-- Names that occur at most as often make no longer list.
pub length-le_of_occ :
    (xs ys : List String) → ((s : String) → occ s xs ≤ occ s ys) → length xs ≤ length ys
length-le_of_occ [] ys h = omega arith
length-le_of_occ (x ∷ xs) ys h =
    let here : 1 ≤ occ x ys = ground (arith, h x, eq_refl x) in
    omega (
      arith,
      length-remove x ys here,
      length-le_of_occ xs (remove x ys) (λ s. ground (arith, h s, occ-remove x s ys here)),
    )

-- With no fewer names in all, each name occurs as often.
pub occ-le_of_length :
    (xs ys : List String)
    → ((s : String) → occ s xs ≤ occ s ys)
    → length ys ≤ length xs
    → (s : String) → occ s ys ≤ occ s xs
occ-le_of_length [] [] h l s = omega arith
occ-le_of_length [] (y ∷ ys) h l s = absurd (omega arith)
occ-le_of_length (x ∷ xs) ys h l s =
    let here : 1 ≤ occ x ys = ground (arith, h x, eq_refl x) in
    ground (
      arith,
      occ-remove x s ys here,
      occ-le_of_length xs (remove x ys) (λ t. ground (arith, h t, occ-remove x t ys here))
          (omega (arith, length-remove x ys here)) s,
    )

pub occ-keep :
    (p : String → Bool) (s : String) (names : List String)
    → occ s (keep p names) ≡ (if p s then occ s names else 0)
occ-keep p s [] = ground arith
occ-keep p s (n ∷ names) = elim (Bool-cases (str_eq n s)) [
  | inl e ↦ ground (arith, str_eq→eq n s e, occ-keep p s names)
  | inr e ↦ ground (arith, occ-keep p s names)
]

pub listed-keep :
    (p : String → Bool) (names : List String) (s : String)
    → listed names s ≡ true
    → p s ≡ true
    → listed (keep p names) s ≡ true
listed-keep p [] s h k = cc
listed-keep p (n ∷ names) s h k = elim (Bool-cases (str_eq n s)) [
  | inl e ↦ ground (arith, str_eq→eq n s e)
  | inr e ↦ ground (arith, listed-keep p names s)
]
