-- ===== src/Store/Valid.antt =====
-- What holds of the tables of the run queue between two transactions.
use mathlib.Core.List.{append-nil}
use kirakira_agent_online.Prelude.{
  ℕ, suc, ◌+◌, ◌≤◌, max, String, ◌≡◌, ◌⊎◌, refl, Bool, true, none, some, List, [], ◌∷◌, ◌++◌, arith,
  ◌==◌, is_some, put, keep, count, All, length, ind, Fields, keep-append, All-keep, Bool-cases, inl,
  inr, ==→eq,
}
use kirakira_agent_online.Prelude.Table.{count-put, count_key-put, put-All}
use kirakira_agent_online.Store.{
  RunStatus, queued, running, completed, failed, cancelled, Run, RunEvent, Db, find_run, last_seq,
  append_run_event, write_run,
}
use kirakira_agent_online.Store.Runs.{running_in}

-- The fields that go with a status: a lease while running and only then, an end once terminal, an
-- answer once completed, and no requested cancellation in a queued, completed or failed run.
abbrev pub Shape : RunStatus → Run → Type 0
Shape queued r =
    (r.lease_owner ≡ none)
    × (r.lease_expires_at ≡ none)
    × (r.completed_at ≡ none)
    × (r.cancel_requested_at ≡ none)
    × (r.output_message_id ≡ none)
Shape running r =
    (is_some r.lease_owner ≡ true)
    × (is_some r.lease_expires_at ≡ true)
    × (r.completed_at ≡ none)
    × (r.output_message_id ≡ none)
    × (1 ≤ r.attempt)
Shape completed r =
    (r.lease_owner ≡ none)
    × (r.lease_expires_at ≡ none)
    × (is_some r.completed_at ≡ true)
    × (r.cancel_requested_at ≡ none)
    × (is_some r.output_message_id ≡ true)
Shape failed r =
    (r.lease_owner ≡ none)
    × (r.lease_expires_at ≡ none)
    × (is_some r.completed_at ≡ true)
    × (r.cancel_requested_at ≡ none)
    × (is_some r.error ≡ true)
Shape cancelled r =
    (r.lease_owner ≡ none)
    × (r.lease_expires_at ≡ none)
    × (is_some r.completed_at ≡ true)
    × (r.output_message_id ≡ none)

pub record RowValid (r : Run) : Type 0 where
  pub shape : Shape r.status r

-- Events numbered from `n + 1` on, with no gap.
abbrev pub Numbered : ℕ → List RunEvent → Type 0
Numbered n [] = Unit
Numbered n (e ∷ es) = (e.seq ≡ suc n) × Numbered (suc n) es

abbrev pub events_of : ℕ → List RunEvent → List RunEvent
events_of run_id events = keep (λ e. e.run_id == run_id) events

pub record Valid (db : Db) : Type 0 where
  pub rows : All RowValid db.runs
  pub unique : (k : ℕ) → count (λ r. r.id == k) db.runs ≤ 1
  pub exclusive : (c : ℕ) → count (running_in c) db.runs ≤ 1
  pub numbered : (k : ℕ) → Numbered 0 (events_of k db.events)

last_seq-events_of : (k : ℕ) (es : List RunEvent) → last_seq k (events_of k es) ≡ last_seq k es
unfolding last_seq
last_seq-events_of k [] = refl
last_seq-events_of k (e ∷ es) = ground (arith, last_seq-events_of k es)

-- The greatest number of a run's events is how many they are.
last_seq-Numbered :
    (k n : ℕ) (es : List RunEvent)
    → All (λ e. (e.run_id == k) ≡ true) es
    → Numbered n es
    → max n (last_seq k es) ≡ n + length es
unfolding last_seq
last_seq-Numbered k n [] a h = omega arith
last_seq-Numbered k n (e ∷ es) a h = ground (arith, last_seq-Numbered k (suc n) es a.1 h.1)

Numbered-append :
    (n : ℕ) (es : List RunEvent) (e : RunEvent)
    → Numbered n es
    → e.seq ≡ n + length es + 1
    → Numbered n (es ++ (e ∷ []))
Numbered-append n [] e h q = (omega arith, tt)
Numbered-append n (x ∷ es) e h q = (h.0, Numbered-append (suc n) es e h.1 (omega arith))

last_seq-length :
    (k : ℕ) (es : List RunEvent)
    → Numbered 0 (events_of k es)
    → last_seq k es ≡ length (events_of k es)
last_seq-length k es h = omega (
  arith,
  last_seq-events_of k es,
  last_seq-Numbered k 0 (events_of k es) (All-keep (λ e. e.run_id == k) es) h,
)

pub append_run_event-Numbered :
    (run : Run) (t : String) (d : Fields) (es : List RunEvent) (k : ℕ)
    → Numbered 0 (events_of k es)
    → Numbered 0 (events_of k (append_run_event run t d es))
unfolding append_run_event
append_run_event-Numbered run t d es k hk =
    rw (keep-append (λ e. e.run_id == k) es _) (elim (Bool-cases (run.id == k)) [
      | inl e ↦ rw e (
          Numbered-append 0 (events_of k es) _ hk
            (ground (arith, ==→eq run.id k e, last_seq-length k es hk)))
      | inr e ↦ rw (e, append-nil) hk
    ])

still_one :
    {after before new old : ℕ}
    → after + old ≡ before + new
    → before ≤ 1
    → (new ≤ old) ⊎ (before ≡ 0)
    → new ≤ 1
    → after ≤ 1
still_one e b x n = grind arith

ind_le_one : (b : Bool) → ind b ≤ 1
ind_le_one b = ground arith

-- A row may be written if it is in shape and does not bring a second running run into its
-- conversation.
pub write_run-Valid :
    (new old : Run) (t : String) (d : Fields) (db : Db)
    → Valid db
    → find_run new.id db ≡ some old
    → RowValid new
    → ((c : ℕ)
        → (ind (running_in c new) ≤ ind (running_in c old)) ⊎ (count (running_in c) db.runs ≡ 0))
    → Valid (write_run new t d db)
unfolding write_run find_run
write_run-Valid new old t d db v f s x =
    let one : (c : ℕ) → count (running_in c) (put (λ r. r.id) new db.runs) ≤ 1 = λ c.
      still_one (count-put (λ r. r.id) (running_in c) new old db.runs f (v.unique new.id))
        (v.exclusive c) (x c) (ind_le_one (running_in c new)) in
    record {
      rows = put-All RowValid (λ r. r.id) new db.runs v.rows s;
      unique = λ k. rw (count_key-put (λ r. r.id) new db.runs k) (v.unique k);
      exclusive = one;
      numbered = λ k. append_run_event-Numbered new t d db.events k (v.numbered k);
    }
