-- ===== src/Prelude/Sorting.antt =====
-- Python's `sorted` and SQL's `ORDER BY`, as a stable insertion sort by an order test.
use Prim.Native.Nat.{suc, ◌+◌}
use mathlib.Core.Path.{◌≡◌, refl, subst}
use mathlib.Core.Bool.{Bool, true}
use mathlib.Core.Option.{Option, none, some}
use mathlib.Core.List.{List, [], ◌∷◌}
use native.Mathlib.Omega.{arith}
use kirakira_agent_online.Prelude.Tests.{if◌then◌else◌, if_ind}
use kirakira_agent_online.Prelude.Lists.{All, All-keep, count, keep, keep-All, length, length-keep}
use kirakira_agent_online.Prelude.Table.{ind}

module _ {ℓ} {A : Type ℓ} (before : A → A → Bool) where
  unfoldable pub insert_by : A → List A → List A
  insert_by r [] = r ∷ []
  insert_by r (x ∷ rows) =
      let rest = insert_by r rows in if before r x then r ∷ x ∷ rows else x ∷ rest

  unfoldable pub sort_by : List A → List A
  unfolding insert_by
  sort_by [] = []
  sort_by (r ∷ rows) = insert_by r (sort_by rows)

  count-insert_by :
      (q : A → Bool) (r : A) (rows : List A) → count q (insert_by r rows) ≡ count q rows + ind (q r)
  unfolding insert_by
  count-insert_by q r [] = ground arith
  count-insert_by q r (x ∷ rows) = ground (arith, count-insert_by q r rows)

  pub count-sort_by : (q : A → Bool) (rows : List A) → count q (sort_by rows) ≡ count q rows
  unfolding sort_by
  count-sort_by q [] = refl
  count-sort_by q (r ∷ rows) =
      ground (arith, count-insert_by q r (sort_by rows), count-sort_by q rows)

  length-insert_by : (r : A) (rows : List A) → length (insert_by r rows) ≡ suc (length rows)
  unfolding insert_by
  length-insert_by r [] = refl
  length-insert_by r (x ∷ rows) = ground (arith, length-insert_by r rows)

  pub length-sort_by : (rows : List A) → length (sort_by rows) ≡ length rows
  unfolding sort_by
  length-sort_by [] = refl
  length-sort_by (r ∷ rows) = omega (arith, length-insert_by r (sort_by rows), length-sort_by rows)

module _ {ℓ κ} {A : Type ℓ} (before : A → A → Bool) (P : A → Type κ) where
  insert_by-All : (r : A) (rows : List A) → P r → All P rows → All P (insert_by before r rows)
  unfolding insert_by
  insert_by-All r [] h all = (h, tt)
  insert_by-All r (x ∷ rows) h all =
      if_ind (All P) (before r x) (λ _. (h, all)) (λ _. (all.0, insert_by-All r rows h all.1))

  pub sort_by-All : (rows : List A) → All P rows → All P (sort_by before rows)
  unfolding sort_by
  sort_by-All [] all = tt
  sort_by-All (r ∷ rows) all = insert_by-All r (sort_by before rows) all.0 (sort_by-All rows all.1)

-- `ORDER BY ... LIMIT 1`: the first of the rows that pass the test.
module _ {ℓ} {A : Type ℓ} (before : A → A → Bool) (p : A → Bool) where
  unfoldable pub first_by : List A → Option A
  unfolding sort_by
  first_by rows = elim (sort_by before (keep p rows)) [ [] ↦ none | r ∷ rest ↦ some r ]

  none_sorted :
      (rows : List A)
      → (elim rows as (λ x. Option A) [ [] ↦ none | r ∷ rest ↦ some r ]) ≡ none
      → length rows ≡ 0
  none_sorted [] h = refl
  none_sorted (r ∷ rows) h = cc

  pub first_by-none : (rows : List A) → first_by rows ≡ none → count p rows ≡ 0
  unfolding first_by
  first_by-none rows h = omega (
    arith,
    length-keep p rows,
    length-sort_by before (keep p rows),
    none_sorted (sort_by before (keep p rows)) h,
  )

module _ {ℓ κ} {A : Type ℓ} (before : A → A → Bool) (p : A → Bool) (P : A → Type κ) where
  first_of :
      (rows : List A) (r : A)
      → (elim rows as (λ x. Option A) [ [] ↦ none | x ∷ rest ↦ some x ]) ≡ some r
      → All (λ x. p x ≡ true) rows
      → All P rows
      → (p r ≡ true) × P r
  first_of [] r e q h = cc
  first_of (x ∷ rows) r e q h =
      let this : x ≡ r = ground (arith, e) in (subst (λ y. p y ≡ true) this q.0, subst P this h.0)

  -- The row passes the test, and has what all rows have.
  pub first_by-some :
      (rows : List A) (r : A) → first_by before p rows ≡ some r → All P rows → (p r ≡ true) × P r
  unfolding first_by
  first_by-some rows r e h =
      first_of (sort_by before (keep p rows)) r e
        (sort_by-All before (λ x. p x ≡ true) (keep p rows) (All-keep p rows))
        (sort_by-All before P (keep p rows) (keep-All P p rows h))
