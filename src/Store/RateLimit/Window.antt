-- ===== src/Store/RateLimit/Window.antt =====
-- The bound of the rate limiter of cloud/store.py on a window of time.
use kirakira_agent_online.Prelude.{
  ℕ, ◌+◌, ◌-◌, ◌≤◌, max, ◌≡◌, refl, ap, sym, subst, ◌∙◌, inl, inr, Bool, true, false, ◌&&◌, ◌||◌,
  not, Option, none, some, List, [], ◌∷◌, ◌++◌, arith, ◌==◌, leb, str_eq, if◌then◌else◌, find,
  update, at_least, at_least_bound, ind, All, Bool-cases, Option-cases, eq_iff, str_eq→eq, eq_refl,
  ==→eq, ==_refl,
}
use kirakira_agent_online.Prelude.Table.{
  find-holds, find-update, find-update-none, find-append_some, find-append_none,
}
use kirakira_agent_online.Store.RateLimit.{
  RateLimitCounter, RateLimitDecision, Request, Bucket, bucket_of, in_bucket, new_counter,
  increased, decision, consume_counter, attempt, consume_rate_limit,
}

-- Requests in their order: how many of a bucket are allowed, and the counters after them.
unfoldable pub same_bucket : Bucket → Bucket → Bool
same_bucket a b =
    str_eq a.key b.key && str_eq a.bucket_scope b.bucket_scope && a.window_start == b.window_start

unfoldable pub allowed_in : Bucket → List Request → List RateLimitCounter → ℕ
unfolding same_bucket
allowed_in b [] rows = 0
allowed_in b (r ∷ more) rows =
    let rest = allowed_in b more (consume_rate_limit r rows).1 in
    ind (same_bucket (bucket_of r) b && (consume_rate_limit r rows).0.allowed) + rest

abbrev used_of : Option RateLimitCounter → ℕ
used_of none = 0
used_of (some c) = c.used

unfoldable pub used_in : Bucket → List RateLimitCounter → ℕ
used_in b rows = used_of (find (in_bucket b) rows)

-- A first attempt with stale counters decides as one on the rows as they are.
consume-attempt :
    (r : Request) (rows : List RateLimitCounter) → consume_rate_limit r rows ≡ attempt r rows
unfolding consume_rate_limit attempt
consume-attempt r rows = elim (Option-cases (find (in_bucket (bucket_of r)) rows)) [
  | inl e ↦ ground arith
  | inr (c, e) ↦ ground arith
]

bucket_eq : (a b : Bucket) → same_bucket a b ≡ true → a ≡ b
unfolding same_bucket
bucket_eq a b h =
    let k : a.key ≡ b.key = ground (arith, eq_iff a.key b.key) in
    let s : a.bucket_scope ≡ b.bucket_scope =
      ground (arith, eq_iff a.bucket_scope b.bucket_scope) in
    let w : a.window_start ≡ b.window_start = ==→eq a.window_start b.window_start (ground arith) in
    λ i. record { key = k i; bucket_scope = s i; window_start = w i }

true_or_false : (b : Bool) → b ≡ true → b ≡ false → ⊥
true_or_false b t f = cc

same_of_both :
    (a b : Bucket) (c : RateLimitCounter)
    → in_bucket a c ≡ true
    → in_bucket b c ≡ true
    → same_bucket a b ≡ true
unfolding in_bucket same_bucket
same_of_both a b c h k =
    let k1 : c.subject_key ≡ a.key = str_eq→eq c.subject_key a.key (ground arith) in
    let k2 : c.scope ≡ a.bucket_scope = str_eq→eq c.scope a.bucket_scope (ground arith) in
    let w1 : c.window_start ≡ a.window_start = ==→eq c.window_start a.window_start (ground arith) in
    subst
      (λ x.
        (str_eq x b.key && str_eq a.bucket_scope b.bucket_scope && a.window_start == b.window_start)
        ≡ true)
      k1
      (subst
        (λ x.
          (str_eq c.subject_key b.key
            && str_eq x b.bucket_scope
            && a.window_start == b.window_start)
          ≡ true)
        k2
        (subst
          (λ x.
            (str_eq c.subject_key b.key && str_eq c.scope b.bucket_scope && x == b.window_start)
            ≡ true)
          w1 k))

module _ (b : Bucket) (rows : List RateLimitCounter) where
  used_none : find (in_bucket b) rows ≡ none → used_in b rows ≡ 0
  unfolding used_in
  used_none f = ground arith

  used_some : (c : RateLimitCounter) → find (in_bucket b) rows ≡ some c → used_in b rows ≡ c.used
  unfolding used_in
  used_some c f = ground arith

other_counter :
    (r : Request) (b : Bucket)
    → same_bucket (bucket_of r) b ≡ false
    → find (in_bucket b) (new_counter r ∷ []) ≡ none
unfolding find in_bucket new_counter same_bucket
other_counter r b n = ground arith

counter_used :
    (r : Request) (c : RateLimitCounter)
    → ((new_counter r).used ≡ 1) × ((increased c).used ≡ c.used + 1)
unfolding new_counter increased
counter_used r c = (refl, refl)

module _ (r : Request) (rows : List RateLimitCounter) where
  attempt_first :
      find (in_bucket (bucket_of r)) rows ≡ none
      → attempt r rows ≡ (decision r true (at_least 1 r.limit - 1), rows ++ (new_counter r ∷ []))
  unfolding attempt
  attempt_first f = ground arith

  attempt_full :
      (c : RateLimitCounter)
      → find (in_bucket (bucket_of r)) rows ≡ some c
      → leb (at_least 1 r.limit) c.used ≡ true
      → attempt r rows ≡ (decision r false 0, rows)
  unfolding attempt consume_counter
  attempt_full c f l = ground arith

  attempt_next :
      (c : RateLimitCounter)
      → find (in_bucket (bucket_of r)) rows ≡ some c
      → leb (at_least 1 r.limit) c.used ≡ false
      → attempt r rows ≡ (
        decision r true (at_least 1 r.limit - (c.used + 1)),
        update (in_bucket (bucket_of r)) increased rows,
      )
  unfolding attempt consume_counter
  attempt_next c f l = ground arith

  found_first :
      find (in_bucket (bucket_of r)) rows ≡ none
      → find (in_bucket (bucket_of r)) (rows ++ (new_counter r ∷ [])) ≡ some (new_counter r)
  unfolding find in_bucket new_counter
  found_first f =
      find-append_none (in_bucket (bucket_of r)) rows (new_counter r ∷ []) f
      ∙ ground (
        arith,
        eq_refl (bucket_of r).key,
        eq_refl (bucket_of r).bucket_scope,
        ==_refl (bucket_of r).window_start,
      )

  found_other :
      (b : Bucket)
      → same_bucket (bucket_of r) b ≡ false
      → find (in_bucket b) (rows ++ (new_counter r ∷ [])) ≡ find (in_bucket b) rows
  found_other b n = elim (Option-cases (find (in_bucket b) rows)) [
    | inl e ↦
        find-append_none (in_bucket b) rows (new_counter r ∷ []) e ∙ other_counter r b n ∙ sym e
    | inr (c, e) ↦ find-append_some (in_bucket b) rows (new_counter r ∷ []) c e ∙ sym e
  ]

  found_next :
      (b : Bucket) (c : RateLimitCounter)
      → find (in_bucket b) rows ≡ some c
      → find (in_bucket b) (update (in_bucket (bucket_of r)) increased rows)
        ≡ some (if in_bucket (bucket_of r) c then increased c else c)
  unfolding in_bucket increased
  found_next b c f =
      find-update (in_bucket (bucket_of r)) increased (in_bucket b) (λ x. refl) rows c f

next_other :
    (r : Request) (rows : List RateLimitCounter) (b : Bucket)
    → same_bucket (bucket_of r) b ≡ false
    → find (in_bucket b) (update (in_bucket (bucket_of r)) increased rows) ≡ find (in_bucket b) rows
unfolding in_bucket increased
next_other r rows b n = elim (Option-cases (find (in_bucket b) rows)) [
  | inl e ↦
      find-update-none (in_bucket (bucket_of r)) increased (in_bucket b) (λ x. refl) rows e ∙ sym e
  | inr (c, e) ↦
      let k = find-holds (in_bucket b) rows c e in
      elim (Bool-cases (in_bucket (bucket_of r) c)) [
        | inl i ↦ absurd (true_or_false _ (same_of_both (bucket_of r) b c i k) n)
        | inr i ↦ found_next r rows b c e ∙ ground (arith, i) ∙ sym e
      ]
]

-- A request in a bucket is counted there if it is allowed, and then the count is within its limit.
record Counts (b : Bucket) (r : Request) (rows : List RateLimitCounter)
    (x : RateLimitDecision × List RateLimitCounter) : Type 0 where
  grows : used_in b x.1 ≡ used_in b rows + ind (same_bucket (bucket_of r) b && x.0.allowed)
  within : (same_bucket (bucket_of r) b && x.0.allowed) ≡ true → used_in b x.1 ≤ at_least 1 r.limit

own-Counts :
    (r : Request) (rows : List RateLimitCounter)
    → same_bucket (bucket_of r) (bucket_of r) ≡ true
    → Counts (bucket_of r) r rows (attempt r rows)
unfolding decision
own-Counts r rows s = elim (Option-cases (find (in_bucket (bucket_of r)) rows)) [
  | inl e ↦
      let u : used_in (bucket_of r) (rows ++ (new_counter r ∷ [])) ≡ 1 =
        used_some (bucket_of r) (rows ++ (new_counter r ∷ [])) (new_counter r)
          (found_first r rows e)
        ∙ (counter_used r (new_counter r)).0 in
      subst (Counts (bucket_of r) r rows) (sym (attempt_first r rows e)) (record {
        grows = ground (arith, u, used_none (bucket_of r) rows e);
        within = λ h. omega (arith, u, at_least_bound 1 r.limit);
      })
  | inr (c, e) ↦ elim (Bool-cases (leb (at_least 1 r.limit) c.used)) [
    | inl l ↦
        subst (Counts (bucket_of r) r rows) (sym (attempt_full r rows c e l))
          (record { grows = ground arith; within = λ h. absurd (ground arith) })
    | inr l ↦
        let rows' = update (in_bucket (bucket_of r)) increased rows in
        let u : used_in (bucket_of r) rows' ≡ c.used + 1 =
          used_some (bucket_of r) rows' (increased c) (
            found_next r rows (bucket_of r) c e
            ∙ ground (arith, find-holds (in_bucket (bucket_of r)) rows c e))
          ∙ (counter_used r c).1 in
        subst (Counts (bucket_of r) r rows) (sym (attempt_next r rows c e l)) (record {
          grows = ground (arith, u, used_some (bucket_of r) rows c e);
          within = λ h. ground (arith, u);
        })
  ]
]

other-Counts :
    (b : Bucket) (r : Request) (rows : List RateLimitCounter)
    → same_bucket (bucket_of r) b ≡ false
    → used_in b (attempt r rows).1 ≡ used_in b rows
unfolding used_in
other-Counts b r rows n = elim (Option-cases (find (in_bucket (bucket_of r)) rows)) [
  | inl e ↦ ap (λ x. used_in b x.1) (attempt_first r rows e) ∙ ap used_of (found_other r rows b n)
  | inr (c, e) ↦ elim (Bool-cases (leb (at_least 1 r.limit) c.used)) [
    | inl l ↦ ap (λ x. used_in b x.1) (attempt_full r rows c e l)
    | inr l ↦
        ap (λ x. used_in b x.1) (attempt_next r rows c e l) ∙ ap used_of (next_other r rows b n)
  ]
]

-- Every request of the bucket has a limit of at most `limit`.
abbrev pub LimitedBy : Bucket → ℕ → List Request → Type 0
LimitedBy b limit requests =
    All (λ r. (not (same_bucket (bucket_of r) b) || leb (at_least 1 r.limit) limit) ≡ true) requests

one_allowed :
    (b : Bucket) (limit : ℕ) (r : Request) (rows : List RateLimitCounter)
    → (not (same_bucket (bucket_of r) b) || leb (at_least 1 r.limit) limit) ≡ true
    → (used_in b (attempt r rows).1
        ≡ used_in b rows + ind (same_bucket (bucket_of r) b && (attempt r rows).0.allowed))
      × (max (used_in b (attempt r rows).1) limit ≤ max (used_in b rows) limit)
one_allowed b limit r rows l = elim (Bool-cases (same_bucket (bucket_of r) b)) [
  | inr n ↦ (ground (arith, other-Counts b r rows n), ground (arith, other-Counts b r rows n))
  | inl s ↦
      let c : Counts b r rows (attempt r rows) =
        subst (λ x. Counts x r rows (attempt r rows)) (bucket_eq (bucket_of r) b s)
          (own-Counts r rows (
            subst (λ x. same_bucket (bucket_of r) x ≡ true) (sym (bucket_eq (bucket_of r) b s))
              s)) in
      (
        c.grows,
        elim (Bool-cases (attempt r rows).0.allowed) [
          | inl a ↦ ground (arith, c.within)
          | inr a ↦ ground (arith, c.grows)
        ],
      )
]

-- Whatever requests follow one another, in whatever buckets and with whatever stale reads, those of a
-- bucket that are allowed, with what was used of it before, are at most the limit, if each request of
-- the bucket has at most that limit, or at most what was used before if that is more.
pub allowed_bounded :
    (b : Bucket) (limit : ℕ) (requests : List Request) (rows : List RateLimitCounter)
    → LimitedBy b limit requests
    → allowed_in b requests rows + used_in b rows ≤ max (used_in b rows) limit
unfolding allowed_in
allowed_bounded b limit [] rows l = omega arith
allowed_bounded b limit (r ∷ more) rows l =
    let (g, m) = one_allowed b limit r rows l.0 in
    let e = consume-attempt r rows in
    let ih = allowed_bounded b limit more (attempt r rows).1 l.1 in
    subst
      (λ x.
        ind (same_bucket (bucket_of r) b && x.0.allowed) + allowed_in b more x.1 + used_in b rows
        ≤ max (used_in b rows) limit)
      (sym e) (omega (arith, g, m, ih))
