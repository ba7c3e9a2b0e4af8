-- ===== src/ReloadJournal/Loops.antt =====
-- What the two loops of the recovery in `PluginManager.load_all` (agent/plugins/manager.py) do.
use kirakira_agent_online.Prelude.{
  ℕ, ◌+◌, ◌≤◌, ◌≡◌, refl, ap, subst, ◌∙◌, ◌⊎◌, inl, inr, String, true, false, ◌&&◌, not, Option,
  some, List, [], ◌∷◌, ◌++◌, arith, ◌==◌, ==→eq, ==_refl, is_text, is_text→eq, eq_refl, ok, err,
  count, All, Bool-cases,
}
use kirakira_agent_online.ReloadJournal.{ReloadRecoveryAction, Journal, restores, find_transaction}
use kirakira_agent_online.ReloadJournal.Loading.{
  generation_differs, source_error, check_sources, discard_each, confirm_each,
}
use kirakira_agent_online.ReloadJournal.Recovery.{
  Unique, is_open, is_candidate, Pending, Finished, finish_one, finish_recovery-Pending,
}

-- A committed generation whose source is installed, and one that is current.
abbrev pub SourceFits : (String → Option String) → ReloadRecoveryAction → Type 0
SourceFits sources a = restores a.action ≡ true → sources a.plugin_id ≡ some a.source_revision

abbrev pub GenerationFits : (String → Option String) → ReloadRecoveryAction → Type 0
GenerationFits currents a = restores a.action ≡ true → currents a.plugin_id ≡ some a.generation_id

-- `a` is the first of the actions that does not fit.
pub record FirstUnfit (P : ReloadRecoveryAction → Type 0) (actions : List ReloadRecoveryAction)
    (a : ReloadRecoveryAction) : Type 0 where
  pub before : List ReloadRecoveryAction
  pub after : List ReloadRecoveryAction
  pub place : actions ≡ before ++ (a ∷ after)
  pub fit : All P before
  pub unfit : P a → ⊥

first_here :
    (P : ReloadRecoveryAction → Type 0) (a : ReloadRecoveryAction)
    (actions : List ReloadRecoveryAction)
    → (P a → ⊥)
    → FirstUnfit P (a ∷ actions) a
first_here P a actions n = record {
  before = [];
  after = actions;
  place = refl;
  fit = tt;
  unfit = n;
}

first_later :
    (P : ReloadRecoveryAction → Type 0) (x a : ReloadRecoveryAction)
    (actions : List ReloadRecoveryAction)
    → P x
    → FirstUnfit P actions a
    → FirstUnfit P (x ∷ actions) a
first_later P x a actions p f = record {
  before = x ∷ f.before;
  after = f.after;
  place = ap (λ l. x ∷ l) f.place;
  fit = (p, f.fit);
  unfit = f.unfit;
}

is_text-false : (o : Option String) (t : String) → is_text o t ≡ false → o ≡ some t → ⊥
is_text-false o t h e = absurd (ground (arith, h, e, eq_refl t))

-- The outcome of the check of the sources.
abbrev Checked : (String → Option String) → List ReloadRecoveryAction → Type 0
Checked sources actions =
    (All (SourceFits sources) actions × (check_sources sources actions ≡ ok tt))
    ⊎ ((a : ReloadRecoveryAction) × FirstUnfit (SourceFits sources) actions a
        × (check_sources sources actions ≡ err (source_error a (sources a.plugin_id))))

check_sources-next :
    (sources : String → Option String) (x : ReloadRecoveryAction)
    (actions : List ReloadRecoveryAction)
    → SourceFits sources x
    → check_sources sources (x ∷ actions) ≡ check_sources sources actions
    → Checked sources actions
    → Checked sources (x ∷ actions)
check_sources-next sources x actions p same (inl (all, e)) = inl ((p, all), same ∙ e)
check_sources-next sources x actions p same (inr (a, f, e)) =
    inr (a, first_later (SourceFits sources) x a actions p f, same ∙ e)

pub check_sources-Checked :
    (sources : String → Option String) (actions : List ReloadRecoveryAction)
    → Checked sources actions
unfolding check_sources
check_sources-Checked sources [] = inl (tt, refl)
check_sources-Checked sources (x ∷ actions) = elim (Bool-cases (restores x.action)) [
  | inr r ↦
      check_sources-next sources x actions (λ h. absurd (ground (arith, r, h))) (rw r refl)
        (check_sources-Checked sources actions)
  | inl r ↦ elim (Bool-cases (is_text (sources x.plugin_id) x.source_revision)) [
    | inl t ↦
        check_sources-next sources x actions
          (λ h. is_text→eq (sources x.plugin_id) x.source_revision t) (rw r (rw t refl))
          (check_sources-Checked sources actions)
    | inr t ↦ inr (
      x,
      first_here (SourceFits sources) x actions
          (λ p. is_text-false (sources x.plugin_id) x.source_revision t (p r)),
      rw r (rw t refl),
    )
  ]
]

abbrev discards : ℕ → List ReloadRecoveryAction → ℕ
discards k actions = count (λ a. not (restores a.action) && a.tx_id == k) actions

discards-count :
    (k : ℕ) (actions : List ReloadRecoveryAction)
    → discards k actions ≤ count (λ (a : ReloadRecoveryAction). a.tx_id == k) actions
discards-count k [] = omega arith
discards-count k (a ∷ actions) = ground (arith, discards-count k actions)

-- What the first loop leaves: the candidates are gone, the other transactions are as they were.
pub record Discarded (actions : List ReloadRecoveryAction) (now : ℕ) (j j' : Journal) : Type 0 where
  pub answer : discard_each actions now j ≡ (ok tt, j')
  pub unique : Unique j'
  pub fewer :
      count is_open j'.transactions + count (λ a. not (restores a.action)) actions
      ≡ count is_open j.transactions
  pub candidates :
      count is_candidate j'.transactions + count (λ a. not (restores a.action)) actions
      ≡ count is_candidate j.transactions
  pub others : (k : ℕ) → discards k actions ≡ 0 → find_transaction k j' ≡ find_transaction k j
  pub committed : All (λ a. restores a.action ≡ true → Pending j' a) actions

Pending-moved :
    (j j' : Journal) (a : ReloadRecoveryAction)
    → find_transaction a.tx_id j' ≡ find_transaction a.tx_id j
    → Pending j a
    → Pending j' a
Pending-moved j j' a e p = record {
  row = p.row;
  found = e ∙ p.found;
  is_open = p.is_open;
  names = p.names;
}

pub discard_each-Discarded :
    (actions : List ReloadRecoveryAction) (now : ℕ) (j : Journal)
    → Unique j
    → ((k : ℕ) → count (λ (a : ReloadRecoveryAction). a.tx_id == k) actions ≤ 1)
    → All (Pending j) actions
    → (j' : Journal) × Discarded actions now j j'
unfolding discard_each
discard_each-Discarded [] now j u d all = (
  j,
  record {
    answer = refl;
    unique = u;
    fewer = omega arith;
    candidates = omega arith;
    others = λ k h. refl;
    committed = tt;
  },
)
discard_each-Discarded (a ∷ actions) now j u d all = elim (Bool-cases (restores a.action)) [
  | inl r ↦
      let (j', x) = discard_each-Discarded actions now j u (λ k. ground (arith, d k)) all.1 in
      (
        j',
        record {
          answer = rw (r, discard_each) x.answer;
          unique = x.unique;
          fewer = ground (arith, x.fewer, r);
          candidates = ground (arith, x.candidates, r);
          others = λ k h. x.others k (ground (arith, r, h));
          committed = (
            λ h.
                Pending-moved j j' a
                  (x.others a.tx_id
                    (ground (arith, d a.tx_id, ==_refl a.tx_id, discards-count a.tx_id actions)))
                  all.0,
            x.committed,
          );
        },
      )
  | inr r ↦
      let (j1, f) = finish_one a now j u all.0 in
      let (j', x) =
        discard_each-Discarded actions now j1 f.unique (λ k. ground (arith, d k))
          (finish_recovery-Pending actions f (ground (arith, d a.tx_id, ==_refl a.tx_id)) all.1) in
      (
        j',
        record {
          answer = rw (r, discard_each) (rw f.answer x.answer);
          unique = x.unique;
          fewer = ground (arith, x.fewer, f.fewer, r);
          candidates = ground (arith, x.candidates, f.candidates, r);
          others = λ k h. x.others k (ground (arith, r, h)) ∙ f.others k (ground (arith, r, h));
          committed = (λ h. absurd (ground (arith, h, r)), x.committed);
        },
      )
]

-- The second loop confirms every committed generation, or ends at the first that is not the current one.
pub data Confirmed (currents : String → Option String) (actions : List ReloadRecoveryAction)
    (now : ℕ) (j : Journal) : Type 0 where
  all_confirmed :
      (j' : Journal)
      → All (GenerationFits currents) actions
      → confirm_each currents actions now j ≡ (ok tt, j')
      → count is_open j'.transactions + count (λ a. restores a.action) actions
        ≡ count is_open j.transactions
      → Confirmed currents actions now j
  stopped :
      (j' : Journal) (a : ReloadRecoveryAction)
      → FirstUnfit (GenerationFits currents) actions a
      → confirm_each currents actions now j
        ≡ (err (generation_differs a.plugin_id a.generation_id (currents a.plugin_id)), j')
      → count is_candidate j'.transactions ≡ count is_candidate j.transactions
      → find_transaction a.tx_id j' ≡ find_transaction a.tx_id j
      → 1 ≤ count (λ (b : ReloadRecoveryAction). b.tx_id == a.tx_id) actions
      → discards a.tx_id actions ≡ 0
      → Confirmed currents actions now j

confirm_each_skip :
    (currents : String → Option String) (x : ReloadRecoveryAction)
    (actions : List ReloadRecoveryAction) (now : ℕ) (j : Journal)
    → restores x.action ≡ false
    → ((k : ℕ) → count (λ (a : ReloadRecoveryAction). a.tx_id == k) (x ∷ actions) ≤ 1)
    → Confirmed currents actions now j
    → Confirmed currents (x ∷ actions) now j
unfolding confirm_each
confirm_each_skip currents x actions now j r d (all_confirmed j' all e c) =
    all_confirmed j' (λ h. absurd (ground (arith, r, h)), all) (rw (r, confirm_each) e)
      (ground (arith, r, c))
confirm_each_skip currents x actions now j r d (stopped j' a f e c g n o) =
    stopped j' a
      (first_later (GenerationFits currents) x a actions (λ h. absurd (ground (arith, r, h))) f)
      (rw (r, confirm_each) e) c g (ground (arith, n)) (ground (arith, r, n, d a.tx_id, o))

confirm_each_next :
    (currents : String → Option String) (x : ReloadRecoveryAction)
    (actions : List ReloadRecoveryAction) (now : ℕ) (j j1 : Journal)
    → restores x.action ≡ true
    → is_text (currents x.plugin_id) x.generation_id ≡ true
    → count (λ (b : ReloadRecoveryAction). b.tx_id == x.tx_id) actions ≡ 0
    → Finished x now j j1
    → Confirmed currents actions now j1
    → Confirmed currents (x ∷ actions) now j
unfolding confirm_each
confirm_each_next currents x actions now j j1 r t d f (all_confirmed j' all e c) =
    all_confirmed j' (λ h. is_text→eq (currents x.plugin_id) x.generation_id t, all)
      (rw (r, confirm_each) (rw t (rw f.answer e))) (ground (arith, r, c, f.fewer))
confirm_each_next currents x actions now j j1 r t d f (stopped j' a u e c g n o) =
    stopped j' a
      (first_later (GenerationFits currents) x a actions
        (λ h. is_text→eq (currents x.plugin_id) x.generation_id t) u)
      (rw (r, confirm_each) (rw t (rw f.answer e))) (ground (arith, r, c, f.candidates))
      (g
        ∙ f.others a.tx_id (elim (Bool-cases (x.tx_id == a.tx_id)) [
          | inl i ↦
              let same = ==→eq x.tx_id a.tx_id i in
              absurd (
                omega (
                  arith,
                  subst (λ k. count (λ (b : ReloadRecoveryAction). b.tx_id == k) actions ≡ 0) same
                      d,
                  n,
                ))
          | inr i ↦ i
        ]))
      (ground (arith, n)) (ground (arith, r, o))

committed_later :
    {now : ℕ} {j j1 : Journal} (x : ReloadRecoveryAction) (actions : List ReloadRecoveryAction)
    → Finished x now j j1
    → count (λ (b : ReloadRecoveryAction). b.tx_id == x.tx_id) actions ≡ 0
    → All (λ a. restores a.action ≡ true → Pending j a) actions
    → All (λ a. restores a.action ≡ true → Pending j1 a) actions
committed_later x [] f d all = tt
committed_later {now} {j} {j1} x (a ∷ actions) f d all = (
  λ h.
      Pending-moved j j1 a
        (f.others a.tx_id (ground (arith, d, ==→eq x.tx_id a.tx_id, ==_refl x.tx_id))) (all.0 h),
  committed_later x actions f (ground (arith, d)) all.1,
)

pub confirm_each-Confirmed :
    (currents : String → Option String) (actions : List ReloadRecoveryAction) (now : ℕ)
    (j : Journal)
    → Unique j
    → ((k : ℕ) → count (λ (a : ReloadRecoveryAction). a.tx_id == k) actions ≤ 1)
    → All (λ a. restores a.action ≡ true → Pending j a) actions
    → Confirmed currents actions now j
unfolding confirm_each
confirm_each-Confirmed currents [] now j u d all = all_confirmed j tt refl (omega arith)
confirm_each-Confirmed currents (x ∷ actions) now j u d all =
    elim (Bool-cases (restores x.action)) [
      | inr r ↦
          confirm_each_skip currents x actions now j r d
            (confirm_each-Confirmed currents actions now j u (λ k. ground (arith, d k)) all.1)
      | inl r ↦ elim (Bool-cases (is_text (currents x.plugin_id) x.generation_id)) [
        | inr t ↦
            stopped j x
              (first_here (GenerationFits currents) x actions
                (λ p. is_text-false (currents x.plugin_id) x.generation_id t (p r)))
              (rw (r, confirm_each) (rw t refl)) refl refl (ground (arith, ==_refl x.tx_id))
              (ground (arith, r, d x.tx_id, ==_refl x.tx_id, discards-count x.tx_id actions))
        | inl t ↦
            let (j1, f) = finish_one x now j u (all.0 r) in
            let none_later : count (λ (b : ReloadRecoveryAction). b.tx_id == x.tx_id) actions ≡ 0 =
              ground (arith, d x.tx_id, ==_refl x.tx_id) in
            confirm_each_next currents x actions now j j1 r t none_later f (
              confirm_each-Confirmed currents actions now j1 f.unique (λ k. ground (arith, d k))
                (committed_later x actions f none_later all.1))
      ]
    ]
