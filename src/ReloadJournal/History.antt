-- ===== src/ReloadJournal/History.antt =====
-- The events of the reload journal of agent/plugins/reload_journal.py, as the history of each phase.
use mathlib.Core.Option.{some-injective}
use kirakira_agent_online.Prelude.{
  ℕ, ◌≡◌, refl, ap, sym, subst, end, ◌∙◌, inl, inr, true, false, Option, none, some, List, [], ◌∷◌,
  ◌++◌, arith, ◌==◌, Result, ok, err, find, put, keep, any, Bool-cases, Option-cases, ==→eq,
}
use kirakira_agent_online.Prelude.Table.{find-holds, find_key-put_self, find_key-put_ne}
use kirakira_agent_online.ReloadJournal.{
  ReloadPhase, preparing, ReloadTransactionRecord, ReloadJournalEvent, Journal, JournalError,
  Opening, Step, can_advance, append_event, find_transaction, opened, begin, advanced, advance_row,
  advance, events_of,
}

-- Events that lead from a phase to another, each a transition of the table.
abbrev pub Leads : ReloadPhase → List ReloadJournalEvent → ReloadPhase → Type 0
Leads p [] q = p ≡ q
Leads p (e ∷ es) q = (can_advance p e.phase ≡ true) × Leads e.phase es q

-- A whole history: it starts with `preparing` and leads to the phase.
abbrev pub Trail : List ReloadJournalEvent → ReloadPhase → Type 0
Trail [] q = ⊥
Trail (e ∷ es) q = (e.phase ≡ preparing) × Leads preparing es q

pub record Traced (j : Journal) : Type 0 where
  pub trails :
      (k : ℕ) (t : ReloadTransactionRecord)
      → find_transaction k j ≡ some t
      → Trail (events_of k j) t.phase
  pub strangers : (k : ℕ) → find_transaction k j ≡ none → events_of k j ≡ []

Leads-append :
    (p q : ReloadPhase) (es : List ReloadJournalEvent) (e : ReloadJournalEvent)
    → Leads p es q
    → can_advance q e.phase ≡ true
    → Leads p (es ++ (e ∷ [])) e.phase
Leads-append p q [] e h c = (subst (λ x. can_advance x e.phase ≡ true) (sym h) c, refl)
Leads-append p q (x ∷ es) e h c = (h.0, Leads-append x.phase q es e h.1 c)

Trail-append :
    (q : ReloadPhase) (es : List ReloadJournalEvent) (e : ReloadJournalEvent)
    → Trail es q
    → can_advance q e.phase ≡ true
    → Trail (es ++ (e ∷ [])) e.phase
Trail-append q [] e h c = absurd h
Trail-append q (x ∷ es) e h c = (h.0, Leads-append preparing q es e h.1 c)

-- The event that a call appends.
abbrev event_at : ℕ → ReloadPhase → Step → ℕ → Journal → ReloadJournalEvent
event_at k phase a now j = record {
  sequence = j.next_sequence;
  tx_id = k;
  phase = phase;
  details = a.details;
  created_at = now;
}

module _ (k : ℕ) (e : ReloadJournalEvent) where
  keep_one_other :
      (es : List ReloadJournalEvent)
      → (e.tx_id == k) ≡ false
      → keep (λ x. x.tx_id == k) (es ++ (e ∷ [])) ≡ keep (λ x. x.tx_id == k) es
  keep_one_other [] h = ground arith
  keep_one_other (x ∷ es) h = ground (arith, keep_one_other es h)

  keep_one_self :
      (es : List ReloadJournalEvent)
      → (e.tx_id == k) ≡ true
      → keep (λ x. x.tx_id == k) (es ++ (e ∷ [])) ≡ keep (λ x. x.tx_id == k) es ++ (e ∷ [])
  keep_one_self [] h = ground arith
  keep_one_self (x ∷ es) h = ground (arith, keep_one_self es h)

none_or_some :
    (o : Option ReloadTransactionRecord) (t : ReloadTransactionRecord) → o ≡ none → o ≡ some t → ⊥
none_or_some o t g w = cc

advanced_journal-Traced :
    (a : Step) (now : ℕ) (t : ReloadTransactionRecord) (j : Journal)
    → Traced j
    → find_transaction t.tx_id j ≡ some t
    → can_advance t.phase a.phase ≡ true
    → Traced (
        append_event t.tx_id a.phase a.details now
          (record j { transactions = put (λ r. r.tx_id) (advanced a now t) j.transactions }))
unfolding find_transaction events_of append_event advanced
advanced_journal-Traced a now t j v f c =
    let key : ReloadTransactionRecord → ℕ = λ r. r.tx_id in
    let new = advanced a now t in
    let e = event_at t.tx_id a.phase a now j in
    record {
      trails = λ k u g. elim (Bool-cases (t.tx_id == k)) [
        | inl i ↦
            let f' : find_transaction k j ≡ some t =
              subst (λ n. find_transaction n j ≡ some t) (==→eq t.tx_id k i) f in
            let w : find (λ r. r.tx_id == k) (put key new j.transactions) ≡ some new =
              subst (λ n. find (λ r. r.tx_id == n) (put key new j.transactions) ≡ some new)
                (==→eq t.tx_id k i) (find_key-put_self key new t j.transactions f) in
            subst (λ x. Trail (keep (λ y. y.tx_id == k) (j.events ++ (e ∷ []))) x.phase)
              (some-injective new u (sym w ∙ g))
              (subst (λ es. Trail es a.phase) (sym (keep_one_self k e j.events i))
                (Trail-append t.phase (keep (λ y. y.tx_id == k) j.events) e (v.trails k t f') c))
        | inr i ↦
            subst (λ es. Trail es u.phase) (sym (keep_one_other k e j.events i))
              (v.trails k u (sym (find_key-put_ne key new j.transactions k i) ∙ g))
      ];
      strangers = λ k g. elim (Bool-cases (t.tx_id == k)) [
        | inl i ↦ absurd (
            none_or_some _ new g (
              subst (λ n. find (λ r. r.tx_id == n) (put key new j.transactions) ≡ some new)
                (==→eq t.tx_id k i) (find_key-put_self key new t j.transactions f)))
        | inr i ↦
            keep_one_other k e j.events i
            ∙ v.strangers k (sym (find_key-put_ne key new j.transactions k i) ∙ g)
      ];
    }

absent-find :
    (k : ℕ) (rows : List ReloadTransactionRecord)
    → any (λ t. t.tx_id == k) rows ≡ false
    → find (λ t. t.tx_id == k) rows ≡ none
unfolding find
absent-find k [] h = refl
absent-find k (x ∷ rows) h = ground (arith, absent-find k rows)

found_before :
    (k : ℕ) (rows : List ReloadTransactionRecord) (o : ReloadTransactionRecord)
    → (o.tx_id == k) ≡ false
    → find (λ t. t.tx_id == k) (rows ++ (o ∷ [])) ≡ find (λ t. t.tx_id == k) rows
unfolding find
found_before k [] o h = ground arith
found_before k (x ∷ rows) o h = ground (arith, found_before k rows o h)

found_new :
    (k : ℕ) (rows : List ReloadTransactionRecord) (o : ReloadTransactionRecord)
    → find (λ t. t.tx_id == k) rows ≡ none
    → (o.tx_id == k) ≡ true
    → find (λ t. t.tx_id == k) (rows ++ (o ∷ [])) ≡ some o
unfolding find
found_new k [] o f h = ground arith
found_new k (x ∷ rows) o f h = ground (arith, found_new k rows o)

-- The journal after a `begin`.
abbrev begun : Opening → ℕ → Journal → Journal
begun a now j =
    append_event a.tx_id preparing end now
      (record j { transactions = j.transactions ++ (opened a now ∷ []) })

begun-Traced :
    (a : Opening) (now : ℕ) (j : Journal)
    → Traced j
    → any (λ t. t.tx_id == a.tx_id) j.transactions ≡ false
    → Traced (begun a now j)
unfolding find_transaction events_of append_event opened
begun-Traced a now j v n =
    let o = opened a now in
    let e =
      event_at a.tx_id preparing
        (record { phase = preparing; candidate_snapshot_id = none; details = end; error = "" }) now
        j in
    record {
      trails = λ k u g. elim (Bool-cases (a.tx_id == k)) [
        | inl i ↦
            let z =
              absent-find k j.transactions (
                subst (λ m. any (λ t. t.tx_id == m) j.transactions ≡ false) (==→eq a.tx_id k i)
                  n) in
            subst (λ x. Trail (keep (λ y. y.tx_id == k) (j.events ++ (e ∷ []))) x.phase)
              (some-injective o u (sym (found_new k j.transactions o z i) ∙ g))
              (subst (λ es. Trail es preparing)
                (sym (keep_one_self k e j.events i ∙ ap (λ es. es ++ (e ∷ [])) (v.strangers k z)))
                (refl, refl))
        | inr i ↦
            subst (λ es. Trail es u.phase) (sym (keep_one_other k e j.events i))
              (v.trails k u (sym (found_before k j.transactions o i) ∙ g))
      ];
      strangers = λ k g. elim (Bool-cases (a.tx_id == k)) [
        | inl i ↦
            let z =
              absent-find k j.transactions (
                subst (λ m. any (λ t. t.tx_id == m) j.transactions ≡ false) (==→eq a.tx_id k i)
                  n) in
            absurd (none_or_some _ o g (found_new k j.transactions o z i))
        | inr i ↦
            keep_one_other k e j.events i
            ∙ v.strangers k (sym (found_before k j.transactions o i) ∙ g)
      ];
    }

-- The journal's writing methods as calls, and the journal after them; a refused call writes nothing.
pub data JournalCall : Type 0 where
  begin_call : Opening → (now : ℕ) → JournalCall
  advance_call : (tx_id : ℕ) → Step → (now : ℕ) → JournalCall

unfoldable pub result_or : Journal → Result JournalError Journal → Journal
result_or j (ok j') = j'
result_or j (err e) = j

unfoldable pub write : JournalCall → Journal → Journal
unfolding result_or
write (begin_call a now) j = result_or j (begin a now j)
write (advance_call k a now) j = result_or j (advance k a now j)

unfoldable pub writes : List JournalCall → Journal → Journal
writes [] j = j
writes (c ∷ more) j = writes more (write c j)

begin-Traced :
    (a : Opening) (now : ℕ) (j : Journal) → Traced j → Traced (result_or j (begin a now j))
unfolding result_or begin
begin-Traced a now j v = elim (Bool-cases (any (λ t. t.tx_id == a.tx_id) j.transactions)) [
  | inl h ↦ subst Traced (sym (ground arith)) v
  | inr h ↦ subst Traced (sym (ground arith)) (begun-Traced a now j v h)
]

found_by_key :
    (k : ℕ) (t : ReloadTransactionRecord) (j : Journal)
    → find_transaction k j ≡ some t
    → find_transaction t.tx_id j ≡ some t
unfolding find_transaction
found_by_key k t j h =
    subst (λ m. find (λ r. r.tx_id == m) j.transactions ≡ some t)
      (sym (==→eq t.tx_id k (find-holds (λ r. r.tx_id == k) j.transactions t h))) h

advance-Traced :
    (k : ℕ) (a : Step) (now : ℕ) (j : Journal) → Traced j → Traced (result_or j (advance k a now j))
unfolding result_or advance advance_row
advance-Traced k a now j v = elim (Option-cases (find_transaction k j)) [
  | inl h ↦ subst Traced (sym (ground arith)) v
  | inr (t, h) ↦ elim (Bool-cases (can_advance t.phase a.phase)) [
    | inr c ↦ subst Traced (sym (ground arith)) v
    | inl c ↦
        subst Traced (sym (ground arith))
          (advanced_journal-Traced a now t j v (found_by_key k t j h) c)
  ]
]

write-Traced : (c : JournalCall) (j : Journal) → Traced j → Traced (write c j)
unfolding write
write-Traced (begin_call a now) j v = begin-Traced a now j v
write-Traced (advance_call k a now) j v = advance-Traced k a now j v

writes-Traced : (more : List JournalCall) (j : Journal) → Traced j → Traced (writes more j)
unfolding writes
writes-Traced [] j v = v
writes-Traced (c ∷ more) j v = writes-Traced more (write c j) (write-Traced c j v)

-- An empty journal.
abbrev pub empty : Journal
empty = record { transactions = []; events = []; next_sequence = 1 }

empty-Traced : Traced empty
unfolding find_transaction events_of find
empty-Traced = record { trails = λ k t g. absurd cc; strangers = λ k g. refl }

-- In every journal that `begin` and `advance` write, the events of a transaction are its whole history:
-- they start with `preparing`, each follows its predecessor by a transition of the table, and they lead
-- to the phase of its row.
pub history-Trail :
    (more : List JournalCall) (k : ℕ) (t : ReloadTransactionRecord)
    → find_transaction k (writes more empty) ≡ some t
    → Trail (events_of k (writes more empty)) t.phase
history-Trail more k t h = (writes-Traced more empty empty-Traced).trails k t h
