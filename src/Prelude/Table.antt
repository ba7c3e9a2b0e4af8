-- ===== src/Prelude/Table.antt =====
-- A database table as the list of its rows: the first row that passes a test, and the update of
-- the row with a given key.
use Prim.Native.Nat.{ℕ, ◌+◌, ◌≤◌}
use mathlib.Core.Path.{◌≡◌, refl, subst}
use mathlib.Core.Logic.{inl, inr}
use mathlib.Core.Bool.{Bool, true, false}
use mathlib.Core.Option.{Option, none, some}
use mathlib.Core.List.{List, [], ◌∷◌, ◌++◌}
use native.Mathlib.Omega.{arith}
use kirakira_agent_online.Prelude.Tests.{◌==◌, if◌then◌else◌, ==_refl, Bool-cases}
use kirakira_agent_online.Prelude.Lists.{All, All-map, count}

module _ {ℓ} {A : Type ℓ} where
  unfoldable pub find : (A → Bool) → List A → Option A
  find p [] = none
  find p (r ∷ rows) = let rest = find p rows in if p r then some r else rest

  pub find-holds : (p : A → Bool) (rows : List A) (r : A) → find p rows ≡ some r → p r ≡ true
  unfolding find
  find-holds p [] r h = cc
  find-holds p (x ∷ rows) r h = ground (arith, find-holds p rows r)

  pub find-none : (p : A → Bool) (rows : List A) → find p rows ≡ none → count p rows ≡ 0
  unfolding find
  find-none p [] h = refl
  find-none p (x ∷ rows) h = ground (arith, find-none p rows)

  pub find-some : (p : A → Bool) (rows : List A) (r : A) → find p rows ≡ some r → 1 ≤ count p rows
  unfolding find
  find-some p [] r h = cc
  find-some p (x ∷ rows) r h = ground (arith, find-some p rows r)

  pub find-append_none :
      (p : A → Bool) (rows more : List A) → find p rows ≡ none → find p (rows ++ more) ≡ find p more
  unfolding find
  find-append_none p [] more h = refl
  find-append_none p (x ∷ rows) more h = ground (arith, find-append_none p rows more)

  pub find-append_some :
      (p : A → Bool) (rows more : List A) (r : A)
      → find p rows ≡ some r
      → find p (rows ++ more) ≡ some r
  unfolding find
  find-append_some p [] more r h = cc
  find-append_some p (x ∷ rows) more r h = ground (arith, find-append_some p rows more r)

-- 1 if the test holds.
abbrev pub ind : Bool → ℕ
ind b = if b then 1 else 0

module _ {ℓ} {A : Type ℓ} (key : A → ℕ) where
  -- `UPDATE ... WHERE key = key r`: the row with the key of `r` becomes `r`.
  unfoldable pub put : A → List A → List A
  put r [] = []
  put r (x ∷ rows) = let rest = put r rows in if key x == key r then r ∷ rest else x ∷ rest

  pub count_key-put :
      (r : A) (rows : List A) (k : ℕ)
      → count (λ x. key x == k) (put r rows) ≡ count (λ x. key x == k) rows
  unfolding put
  count_key-put r [] k = refl
  count_key-put r (x ∷ rows) k = ground (arith, count_key-put r rows k)

  -- No row has the key: nothing is updated.
  pub put_absent :
      (r : A) (rows : List A) → count (λ x. key x == key r) rows ≡ 0 → put r rows ≡ rows
  unfolding put
  put_absent r [] h = refl
  put_absent r (x ∷ rows) h = ground (arith, put_absent r rows)

  -- One row changes, so a count changes by that row.
  pub count-put :
      (q : A → Bool) (r old : A) (rows : List A)
      → find (λ x. key x == key r) rows ≡ some old
      → count (λ x. key x == key r) rows ≤ 1
      → count q (put r rows) + ind (q old) ≡ count q rows + ind (q r)
  unfolding put find
  count-put q r old [] f u = cc
  count-put q r old (x ∷ rows) f u = elim (Bool-cases (key x == key r)) [
    | inl e ↦ ground (arith, put_absent r rows)
    | inr e ↦ ground (arith, count-put q r old rows)
  ]

  pub find_key-put_self :
      (r old : A) (rows : List A)
      → find (λ x. key x == key r) rows ≡ some old
      → find (λ x. key x == key r) (put r rows) ≡ some r
  unfolding put find
  find_key-put_self r old [] f = cc
  find_key-put_self r old (x ∷ rows) f =
      ground (arith, find_key-put_self r old rows, ==_refl (key r))

  pub find_key-put_ne :
      (r : A) (rows : List A) (k : ℕ)
      → (key r == k) ≡ false
      → find (λ x. key x == k) (put r rows) ≡ find (λ x. key x == k) rows
  unfolding put find
  find_key-put_ne r [] k h = refl
  find_key-put_ne r (x ∷ rows) k h = ground (arith, find_key-put_ne r rows k)

module _ {ℓ} {A : Type ℓ} (key : A → ℕ) where
  -- Where keys are unique, a row that any test finds is found by its key.
  pub find-find_key :
      (p : A → Bool) (rows : List A) (r : A)
      → find p rows ≡ some r
      → count (λ x. key x == key r) rows ≤ 1
      → find (λ x. key x == key r) rows ≡ some r
  unfolding find
  find-find_key p [] r f u = cc
  find-find_key p (x ∷ rows) r f u =
      ground
        (arith, find-find_key p rows r, find-some (λ y. key y == key r) rows r, ==_refl (key r))

module _ {ℓ κ} {A : Type ℓ} where
  pub find-All :
      (P : A → Type κ) (p : A → Bool) (rows : List A) (r : A)
      → All P rows
      → find p rows ≡ some r
      → P r
  unfolding find
  find-All P p [] r all h = cc
  find-All P p (x ∷ rows) r all h = elim (Bool-cases (p x)) [
    | inl e ↦ subst P (ground arith) all.0
    | inr e ↦ find-All P p rows r all.1 (ground arith)
  ]

  pub put-All :
      (P : A → Type κ) (key : A → ℕ) (r : A) (rows : List A)
      → All P rows
      → P r
      → All P (put key r rows)
  unfolding put
  put-All P key r [] all h = tt
  put-All P key r (x ∷ rows) all h = elim (Bool-cases (key x == key r)) [
    | inl e ↦ rw e (h, put-All P key r rows all.1 h)
    | inr e ↦ rw e (all.0, put-All P key r rows all.1 h)
  ]

-- Where keys are unique, every row is the one that its key finds.
pub find-rows {ℓ} :
    {A : Type ℓ} (key : A → ℕ) (rows : List A)
    → ((k : ℕ) → count (λ x. key x == k) rows ≤ 1)
    → All (λ x. find (λ y. key y == key x) rows ≡ some x) rows
unfolding find
find-rows key [] u = tt
find-rows key (x ∷ rows) u = (
  ground (arith, ==_refl (key x)),
  All-map (λ y. find (λ z. key z == key y) rows ≡ some y) _ rows
      (λ y f. ground (arith, u (key y), find-some (λ z. key z == key y) rows y))
      (find-rows key rows (λ k. ground (arith, u k))),
)

module _ {ℓ} {A : Type ℓ} (p : A → Bool) (f : A → A) where
  -- `UPDATE ... WHERE`: each row that passes the test is changed.
  unfoldable pub update : List A → List A
  update [] = []
  update (x ∷ rows) = let rest = update rows in if p x then f x ∷ rest else x ∷ rest

  -- A test that the change leaves as it is finds the same row, changed if it passes.
  pub find-update :
      (q : A → Bool)
      → ((x : A) → q (f x) ≡ q x)
      → (rows : List A) (r : A) → find q rows ≡ some r
      → find q (update rows) ≡ some (if p r then f r else r)
  unfolding update find
  find-update q k [] r h = cc
  find-update q k (x ∷ rows) r h = ground (arith, k x, find-update q k rows r)

  pub find-update-none :
      (q : A → Bool)
      → ((x : A) → q (f x) ≡ q x)
      → (rows : List A) → find q rows ≡ none
      → find q (update rows) ≡ none
  unfolding update find
  find-update-none q k [] h = refl
  find-update-none q k (x ∷ rows) h = ground (arith, k x, find-update-none q k rows)
