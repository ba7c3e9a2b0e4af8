-- ===== src/Prelude/Updates.antt =====
-- The update of the row of a unique key, and totals over a table.
use Prim.Native.Nat.{ℕ, zero, suc, ◌+◌, ◌≤◌}
use mathlib.Core.Path.{◌≡◌, refl, sym, subst}
use mathlib.Core.Logic.{inl, inr}
use mathlib.Core.Bool.{Bool, true}
use mathlib.Core.Option.{some}
use mathlib.Core.List.{List, [], ◌∷◌, map}
use native.Mathlib.Omega.{arith}
use kirakira_agent_online.Prelude.Tests.{◌==◌, Bool-cases}
use kirakira_agent_online.Prelude.Lists.{All, any, count, keep, take}
use kirakira_agent_online.Prelude.Table.{find, update}

abbrev pub total {ℓ} : {A : Type ℓ} → (A → ℕ) → List A → ℕ
total weight [] = 0
total weight (x ∷ rows) = weight x + total weight rows

module _ {ℓ} {A : Type ℓ} (key : A → ℕ) (f : A → A) where
  pub update_absent :
      (k : ℕ) (rows : List A)
      → count (λ x. key x == k) rows ≡ 0
      → update (λ x. key x == k) f rows ≡ rows
  unfolding update
  update_absent k [] u = refl
  update_absent k (x ∷ rows) u = ground (arith, update_absent k rows)

  -- The total changes by the row that is changed.
  pub total-update :
      (weight : A → ℕ) (k : ℕ) (rows : List A) (r : A)
      → count (λ x. key x == k) rows ≤ 1
      → find (λ x. key x == k) rows ≡ some r
      → total weight (update (λ x. key x == k) f rows) + weight r ≡ total weight rows + weight (f r)
  unfolding find update
  total-update weight k [] r u h = cc
  total-update weight k (x ∷ rows) r u h = elim (Bool-cases (key x == k)) [
    | inl e ↦
        let this : x ≡ r = ground (arith, e, h) in
        subst
          (λ y.
            total weight (update (λ z. key z == k) f (x ∷ rows)) + weight y
            ≡ weight x + total weight rows + weight (f y))
          this (ground (arith, e, update_absent k rows, u))
    | inr e ↦
        ground
          (arith, e, total-update weight k rows r (ground (arith, e, u)) (ground (arith, e, h)))
  ]

  pub count-update :
      (q : A → Bool)
      → ((x : A) → q (f x) ≡ q x)
      → (p : A → Bool) (rows : List A) → count q (update p f rows) ≡ count q rows
  unfolding update
  count-update q h p [] = refl
  count-update q h p (x ∷ rows) = ground (arith, h x, count-update q h p rows)

-- All rows keep what they have, if the changed row does.
pub update-All {ℓ κ} :
    {A : Type ℓ} (key : A → ℕ) (f : A → A) (P : A → Type κ) (k : ℕ) (rows : List A) (r : A)
    → count (λ x. key x == k) rows ≤ 1
    → find (λ x. key x == k) rows ≡ some r
    → P (f r)
    → All P rows
    → All P (update (λ x. key x == k) f rows)
unfolding find update
update-All key f P k [] r u h p all = tt
update-All key f P k (x ∷ rows) r u h p all = elim (Bool-cases (key x == k)) [
  | inl e ↦
      let this : x ≡ r = ground (arith, e, h) in
      rw e (
        subst (λ y. P (f y)) (sym this) p,
        subst (All P) (sym (update_absent key f k rows (ground (arith, e, u)))) all.1,
      )
  | inr e ↦
      rw e
        (all.0, update-All key f P k rows r (ground (arith, e, u)) (ground (arith, e, h)) p all.1)
]

-- Two changes of the rows of a test that the first leaves as it is are one.
pub update-update {ℓ} :
    {A : Type ℓ} (p : A → Bool) (f g : A → A)
    → ((x : A) → p (f x) ≡ p x)
    → (rows : List A) → update p g (update p f rows) ≡ update p (λ x. g (f x)) rows
unfolding update
update-update p f g h [] = refl
update-update p f g h (x ∷ rows) = elim (Bool-cases (p x)) [
  | inl e ↦ ground (arith, e, h x, update-update p f g h rows)
  | inr e ↦ ground (arith, e, update-update p f g h rows)
]

any-take {ℓ} :
    {A : Type ℓ} (p : A → Bool) (n : ℕ) (xs : List A) → any p (take n xs) ≡ true → any p xs ≡ true
any-take p zero xs h = cc
any-take p (suc n) [] h = cc
any-take p (suc n) (x ∷ xs) h = ground (arith, any-take p n xs)

module _ {ℓ} {A : Type ℓ} (key : A → ℕ) (p : A → Bool) where
  kept_named :
      (k : ℕ) (rows : List A)
      → any (λ i. i == k) (map key (keep p rows)) ≡ true
      → 1 ≤ count (λ x. key x == k) rows
  kept_named k [] h = cc
  kept_named k (x ∷ rows) h = ground (arith, kept_named k rows)

  kept_row :
      (k : ℕ) (rows : List A) (r : A)
      → count (λ x. key x == k) rows ≤ 1
      → find (λ x. key x == k) rows ≡ some r
      → any (λ i. i == k) (map key (keep p rows)) ≡ true
      → p r ≡ true
  unfolding find
  kept_row k [] r u f h = cc
  kept_row k (x ∷ rows) r u f h = elim (Bool-cases (key x == k)) [
    | inl e ↦ elim (Bool-cases (p x)) [
      | inl d ↦ subst (λ y. p y ≡ true) (ground (arith, e, f)) d
      | inr d ↦ absurd (ground (arith, e, d, u, h, kept_named k rows))
    ]
    | inr e ↦ elim (Bool-cases (p x)) [
      | inl d ↦
          kept_row k rows r (ground (arith, e, u)) (ground (arith, e, f)) (ground (arith, e, d, h))
      | inr d ↦
          kept_row k rows r (ground (arith, e, u)) (ground (arith, e, f)) (ground (arith, d, h))
    ]
  ]

  -- Where keys are unique, the row of a key that was kept passes the test.
  pub kept_holds :
      (n k : ℕ) (rows : List A) (r : A)
      → count (λ x. key x == k) rows ≤ 1
      → find (λ x. key x == k) rows ≡ some r
      → any (λ i. i == k) (take n (map key (keep p rows))) ≡ true
      → p r ≡ true
  kept_holds n k rows r u f h =
      kept_row k rows r u f (any-take (λ i. i == k) n (map key (keep p rows)) h)
