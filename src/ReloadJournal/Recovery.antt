-- ===== src/ReloadJournal/Recovery.antt =====
-- What one recovery from the reload journal of agent/plugins/reload_journal.py does, and which are pending.
use kirakira_agent_online.Prelude.{
  ℕ, ◌+◌, ◌≤◌, ◌≡◌, refl, sym, subst, ◌∙◌, Bool, true, false, not, some, List, [], ◌∷◌, map, arith,
  ind, ◌&&◌, ◌==◌, ok, find, put, keep, count, length, All, All-zip, All-keep, keep-All,
  length-keep, count-keep_le, sort_by, ==→eq, ==_refl,
}
use kirakira_agent_online.Prelude.Table.{
  find-holds, find-rows, count-put, find_key-put_ne, count_key-put,
}
use kirakira_agent_online.Prelude.Sorting.{count-sort_by, sort_by-All}
use kirakira_agent_online.ReloadJournal.{
  ReloadPhase, preparing, prepared, validating, commit_started, committed, draining, complete,
  aborted, recovered, RecoveryActionName, discard_candidate, restore_committed,
  ReloadTransactionRecord, ReloadRecoveryAction, Journal, is_terminal, can_advance, transitions,
  phase_eq, append_event, find_transaction, advanced, advance_row, advance, action_of,
  recovery_action, restores, starts_before, acts_before, pending_recovery, recovery_phase,
  recovery_step, finish_recovery,
}

-- `tx_id` is the primary key.
pub record Unique (j : Journal) : Type 0 where
  pub once : (k : ℕ) → count (λ t. t.tx_id == k) j.transactions ≤ 1

abbrev pub is_open : ReloadTransactionRecord → Bool
is_open t = not (is_terminal t.phase)

-- An open transaction whose candidate was not committed.
abbrev pub is_candidate : ReloadTransactionRecord → Bool
is_candidate t = is_open t && not (restores (action_of t.phase))

-- A transaction that a process left open, as its action describes it.
pub record Pending (j : Journal) (a : ReloadRecoveryAction) : Type 0 where
  pub row : ReloadTransactionRecord
  pub found : find_transaction a.tx_id j ≡ some row
  pub is_open : is_terminal row.phase ≡ false
  pub names : a.action ≡ action_of row.phase

-- The recovery of an open transaction is a transition of the table, to a terminal phase.
recovers :
    (p : ReloadPhase) → is_terminal p ≡ false → can_advance p (recovery_phase (action_of p)) ≡ true
unfolding can_advance transitions phase_eq action_of is_terminal
recovers preparing h = refl
recovers prepared h = refl
recovers validating h = refl
recovers commit_started h = refl
recovers committed h = refl
recovers draining h = refl
recovers complete h = cc
recovers aborted h = cc
recovers recovered h = cc

recovery-terminal : (n : RecoveryActionName) → is_terminal (recovery_phase n) ≡ true
unfolding is_terminal
recovery-terminal restore_committed = refl
recovery-terminal discard_candidate = refl

-- What one recovery does.
pub record Finished (a : ReloadRecoveryAction) (now : ℕ) (j j' : Journal) : Type 0 where
  pub answer : finish_recovery a now j ≡ ok j'
  pub unique : Unique j'
  pub fewer : count is_open j'.transactions + 1 ≡ count is_open j.transactions
  pub candidates :
      count is_candidate j'.transactions + ind (not (restores a.action))
      ≡ count is_candidate j.transactions
  pub others : (k : ℕ) → (a.tx_id == k) ≡ false → find_transaction k j' ≡ find_transaction k j

-- The journal after it.
abbrev finished : ReloadRecoveryAction → ℕ → ReloadTransactionRecord → Journal → Journal
finished a now t j =
    append_event t.tx_id (recovery_phase a.action) (recovery_step a).details now (record j {
      transactions = put (λ r. r.tx_id) (advanced (recovery_step a) now t) j.transactions;
    })

finish-answer :
    (a : ReloadRecoveryAction) (now : ℕ) (j : Journal) (p : Pending j a)
    → finish_recovery a now j ≡ ok (finished a now p.row j)
unfolding finish_recovery advance advance_row recovery_step
finish-answer a now j p = ground (
  arith,
  p.found,
  subst (λ n. can_advance p.row.phase (recovery_phase n) ≡ true) (sym p.names)
      (recovers p.row.phase p.is_open),
)

pub finish_one :
    (a : ReloadRecoveryAction) (now : ℕ) (j : Journal)
    → Unique j
    → Pending j a
    → (j' : Journal) × Finished a now j j'
unfolding find_transaction append_event advanced recovery_step
finish_one a now j u p =
    let new = advanced (recovery_step a) now p.row in
    let i : p.row.tx_id ≡ a.tx_id =
      ==→eq p.row.tx_id a.tx_id
        (find-holds (λ t. t.tx_id == a.tx_id) j.transactions p.row p.found) in
    (
      finished a now p.row j,
      record {
        answer = finish-answer a now j p;
        unique = record {
          once = λ k. ground (arith, u.once k, count_key-put (λ t. t.tx_id) new j.transactions k);
        };
        fewer = ground (
          arith,
          p.is_open,
          recovery-terminal a.action,
          count-put (λ t. t.tx_id) is_open new p.row j.transactions
              (subst (λ k. find (λ t. t.tx_id == k) j.transactions ≡ some p.row) (sym i) p.found)
              (u.once p.row.tx_id),
        );
        candidates = ground (
          arith,
          p.is_open,
          p.names,
          recovery-terminal a.action,
          count-put (λ t. t.tx_id) is_candidate new p.row j.transactions
              (subst (λ k. find (λ t. t.tx_id == k) j.transactions ≡ some p.row) (sym i) p.found)
              (u.once p.row.tx_id),
        );
        others = λ k h.
            find_key-put_ne (λ t. t.tx_id) new j.transactions k
              (subst (λ i. (i == k) ≡ false) (sym i) h);
      },
    )

pub finish_recovery-Pending :
    {a : ReloadRecoveryAction} {now : ℕ} {j j' : Journal} (rest : List ReloadRecoveryAction)
    → Finished a now j j'
    → count (λ b. b.tx_id == a.tx_id) rest ≡ 0
    → All (Pending j) rest
    → All (Pending j') rest
finish_recovery-Pending [] f u all = tt
finish_recovery-Pending {a} (b ∷ rest) f u all = (
  record {
    row = all.0.row;
    found = f.others b.tx_id (ground (arith, ==→eq a.tx_id b.tx_id, ==_refl a.tx_id)) ∙ all.0.found;
    is_open = all.0.is_open;
    names = all.0.names;
  },
  finish_recovery-Pending rest f (ground arith) all.1,
)

module _ {ℓ κ} {A : Type ℓ} {B : Type κ} (f : A → B) where
  count-map : (q : B → Bool) (xs : List A) → count q (map f xs) ≡ count (λ x. q (f x)) xs
  count-map q [] = refl
  count-map q (x ∷ xs) = ground (arith, count-map q xs)

  length-map : (xs : List A) → length (map f xs) ≡ length xs
  length-map [] = refl
  length-map (x ∷ xs) = omega (arith, length-map xs)

  map-All {μ} : (P : B → Type μ) (xs : List A) → All (λ x. P (f x)) xs → All P (map f xs)
  map-All P [] all = tt
  map-All P (x ∷ xs) all = (all.0, map-All P xs all.1)

count_none-keep {ℓ} : {A : Type ℓ} (p : A → Bool) (xs : List A) → count p xs ≡ 0 → keep p xs ≡ []
count_none-keep p [] h = refl
count_none-keep p (x ∷ xs) h = ground (arith, count_none-keep p xs)

count-pending_recovery :
    (q : ReloadRecoveryAction → Bool) (j : Journal)
    → count q (pending_recovery j)
      ≡ count (λ t. q (recovery_action t)) (keep is_open j.transactions)
unfolding pending_recovery
count-pending_recovery q j =
    count-sort_by acts_before q _
    ∙ count-map recovery_action q _
    ∙ count-sort_by starts_before (λ t. q (recovery_action t)) (keep is_open j.transactions)

recovery_action-Pending :
    (j : Journal) (t : ReloadTransactionRecord)
    → find (λ r. r.tx_id == t.tx_id) j.transactions ≡ some t
    → is_open t ≡ true
    → Pending j (recovery_action t)
unfolding find_transaction recovery_action
recovery_action-Pending j t f o = record {
  row = t;
  found = f;
  is_open = ground arith;
  names = refl;
}

pub pending_recovery-Pending : (j : Journal) → Unique j → All (Pending j) (pending_recovery j)
unfolding pending_recovery
pending_recovery-Pending j u = sort_by-All acts_before (Pending j) _ (
    map-All recovery_action (Pending j) _ (
      sort_by-All starts_before (λ t. Pending j (recovery_action t)) (keep is_open j.transactions)
        (All-zip (λ t. find (λ r. r.tx_id == t.tx_id) j.transactions ≡ some t)
          (λ t. is_open t ≡ true) _ (keep is_open j.transactions) (recovery_action-Pending j)
          (keep-All _ is_open j.transactions (find-rows (λ t. t.tx_id) j.transactions u.once))
          (All-keep is_open j.transactions))))

pub pending_recovery-done :
    (j : Journal) → count is_open j.transactions ≡ 0 → pending_recovery j ≡ []
unfolding pending_recovery sort_by
pending_recovery-done j h = rw (count_none-keep is_open j.transactions h) refl

pub pending_recovery-distinct :
    (j : Journal) → Unique j → (k : ℕ) → count (λ a. a.tx_id == k) (pending_recovery j) ≤ 1
unfolding recovery_action
pending_recovery-distinct j u k = omega (
  arith,
  count-pending_recovery (λ a. a.tx_id == k) j,
  count-keep_le is_open (λ t. t.tx_id == k) j.transactions,
  u.once k,
)

count-keep {ℓ} :
    {A : Type ℓ} (p q : A → Bool) (xs : List A) → count q (keep p xs) ≡ count (λ x. p x && q x) xs
count-keep p q [] = refl
count-keep p q (x ∷ xs) = ground (arith, count-keep p q xs)

-- The candidates that are pending are the open rows of candidates.
pub pending_recovery-candidates :
    (j : Journal)
    → count (λ a. not (restores a.action)) (pending_recovery j) ≡ count is_candidate j.transactions
unfolding recovery_action
pending_recovery-candidates j =
    count-pending_recovery (λ a. not (restores a.action)) j ∙ count-keep is_open _ j.transactions

pub pending_recovery-length :
    (j : Journal)
    → count (λ a. restores a.action) (pending_recovery j)
        + count (λ a. not (restores a.action)) (pending_recovery j)
      ≡ count is_open j.transactions
unfolding recovery_action
pending_recovery-length j = omega (
  arith,
  count-pending_recovery (λ a. restores a.action) j,
  count-pending_recovery (λ a. not (restores a.action)) j,
  halves (λ t. restores (action_of t.phase)) (keep is_open j.transactions),
  length-keep is_open j.transactions,
)
  where
    halves :
        (p : ReloadTransactionRecord → Bool) (xs : List ReloadTransactionRecord)
        → count p xs + count (λ x. not (p x)) xs ≡ length xs
    halves p [] = refl
    halves p (x ∷ xs) = ground (arith, halves p xs)
