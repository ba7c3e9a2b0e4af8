-- ===== src/Store/Recovery.antt =====
-- `requeue_expired_runs` of cloud/store.py: it keeps the tables valid, and no abandoned lease is left.
use kirakira_agent_online.Prelude.{
  sort_by, ℕ, ◌+◌, ◌≤◌, ◌≡◌, refl, ap, sym, subst, ◌∙◌, inl, inr, Bool, true, false, ◌&&◌, not,
  none, some, List, [], ◌∷◌, arith, ◌==◌, if_ind, is_some, find, put, count, All, All-zip, All-keep,
  keep-All, take-All, count-keep_le, count-take_le, length-take, length-keep, min, ℤ, at_least,
  length, keep, Bool-cases, ==→eq, ==_refl,
}
use kirakira_agent_online.Prelude.Table.{find-rows, count-put, find_key-put_ne}
use kirakira_agent_online.Prelude.Sorting.{count-sort_by, length-sort_by, sort_by-All}
use kirakira_agent_online.Store.{
  running, cancelled, Run, Db, is_running, find_run, write_run, status_data,
}
use kirakira_agent_online.Store.Runs.{ended}
use kirakira_agent_online.Store.Reaper.{
  is_expired, expires_first, expired_runs, released, requeue_run, requeue_each,
  requeue_expired_runs,
}
use kirakira_agent_online.Store.Valid.{Shape, RowValid, Valid}
use kirakira_agent_online.Store.Invariant.{found-Shape, stop-Valid, cancelled-Valid, is_some-none}

released-RowValid :
    (run : Run) → Shape running run → run.cancel_requested_at ≡ none → RowValid (released run)
unfolding released
released-RowValid run h c = record { shape = (refl, refl, h.2, c, h.3) }

-- An expired row of the table.
record Stale (db : Db) (run : Run) : Type 0 where
  found : find_run run.id db ≡ some run
  runs : run.status ≡ running

Stale-Shape : {db : Db} {run : Run} → Valid db → Stale db run → Shape running run
Stale-Shape {db} {run} v s = subst (λ x. Shape x run) s.runs (found-Shape db run.id run v s.found)

requeue_run-Valid :
    (now : ℕ) (run : Run) (db : Db) → Valid db → Stale db run → Valid (requeue_run now run db)
unfolding requeue_run released
requeue_run-Valid now run db v s =
    if_ind Valid (is_some run.cancel_requested_at)
      (λ _. cancelled-Valid now run (status_data "cancelled") db v s.found (Stale-Shape v s).3)
      λ n.
        stop-Valid (released run) run "run.requeued" _ db v s.found
          (released-RowValid run (Stale-Shape v s) (is_some-none run.cancel_requested_at n)) refl

-- A row that the query may return: found by its key, and expired.
pub record Expired (now : ℕ) (db : Db) (run : Run) : Type 0 where
  pub found : find_run run.id db ≡ some run
  pub expired : is_expired now run ≡ true

Expired-Stale : {now : ℕ} {db : Db} {run : Run} → Expired now db run → Stale db run
unfolding is_expired
Expired-Stale e = record { found = e.found; runs = ground arith }

is_expired-Expired :
    (now : ℕ) (locked : ℕ → Bool) (db : Db) (r : Run)
    → find (λ y. y.id == r.id) db.runs ≡ some r
    → (is_expired now r && not (locked r.id)) ≡ true
    → Expired now db r
unfolding find_run
is_expired-Expired now locked db r f e = record { found = f; expired = ground arith }

pub expired_runs-Expired :
    (locked : ℕ → Bool) (limit : ℤ) (now : ℕ) (db : Db)
    → Valid db
    → All (Expired now db) (expired_runs locked limit now db)
unfolding expired_runs
expired_runs-Expired locked limit now db v =
    let p : Run → Bool = λ r. is_expired now r && not (locked r.id) in
    take-All (Expired now db) (at_least 1 limit) _ (
      sort_by-All expires_first (Expired now db) (keep p db.runs) (
        All-zip (λ r. find (λ y. y.id == r.id) db.runs ≡ some r) (λ r. p r ≡ true) (Expired now db)
          (keep p db.runs) (is_expired-Expired now locked db)
          (keep-All (λ r. find (λ y. y.id == r.id) db.runs ≡ some r) p db.runs
            (find-rows (λ r. r.id) db.runs v.unique))
          (All-keep p db.runs)))

pub expired_runs-distinct :
    (locked : ℕ → Bool) (limit : ℤ) (now : ℕ) (db : Db)
    → Valid db
    → (k : ℕ) → count (λ r. r.id == k) (expired_runs locked limit now db) ≤ 1
unfolding expired_runs
expired_runs-distinct locked limit now db v k =
    let p : Run → Bool = λ r. is_expired now r && not (locked r.id) in
    omega (
      arith,
      v.unique k,
      count-keep_le p (λ r. r.id == k) db.runs,
      count-sort_by expires_first (λ r. r.id == k) (keep p db.runs),
      count-take_le (λ r. r.id == k) (at_least 1 limit) (sort_by expires_first (keep p db.runs)),
    )

-- The loop's body writes one row, with the id of its run and no longer running.
requeue_run-puts :
    (now : ℕ) (run : Run) (db : Db)
    → (new : Run) × ((requeue_run now run db).runs ≡ put (λ r. r.id) new db.runs)
      × (new.id ≡ run.id)
      × (is_running new.status ≡ false)
unfolding requeue_run released ended write_run
requeue_run-puts now run db = elim (Bool-cases (is_some run.cancel_requested_at)) [
  | inl e ↦ (ended cancelled now run, ground arith, refl, refl)
  | inr e ↦ (released run, ground arith, refl, refl)
]

-- The row of another run is found as before.
pub requeue_run-found :
    (now : ℕ) (run : Run) (db : Db) (k : ℕ)
    → (run.id == k) ≡ false
    → find_run k (requeue_run now run db) ≡ find_run k db
unfolding find_run
requeue_run-found now run db k h =
    let (new, e, i, n) = requeue_run-puts now run db in
    ap (find (λ r. r.id == k)) e
    ∙ find_key-put_ne (λ r. r.id) new db.runs k (subst (λ j. (j == k) ≡ false) (sym i) h)

expired_not_running : (now : ℕ) (r : Run) → is_running r.status ≡ false → is_expired now r ≡ false
unfolding is_expired
expired_not_running now r h = ground arith

-- One abandoned lease less.
requeue_run-count :
    (now : ℕ) (run : Run) (db : Db)
    → Valid db
    → Expired now db run
    → count (is_expired now) (requeue_run now run db).runs + 1 ≡ count (is_expired now) db.runs
unfolding find_run
requeue_run-count now run db v e =
    let (new, p, i, n) = requeue_run-puts now run db in
    ground (
      arith,
      ap (count (is_expired now)) p,
      e.expired,
      expired_not_running now new n,
      count-put (λ r. r.id) (is_expired now) new run db.runs
          (subst (λ k. find (λ r. r.id == k) db.runs ≡ some run) (sym i) e.found) (v.unique new.id),
    )

Expired-requeue_run :
    (now : ℕ) (run : Run) (db : Db) (rows : List Run)
    → count (λ r. r.id == run.id) rows ≡ 0
    → All (Expired now db) rows
    → All (Expired now (requeue_run now run db)) rows
Expired-requeue_run now run db [] u all = tt
Expired-requeue_run now run db (x ∷ rows) u all = (
  record {
    found = requeue_run-found now run db x.id (ground (arith, ==→eq run.id x.id)) ∙ all.0.found;
    expired = all.0.expired;
  },
  Expired-requeue_run now run db rows (ground arith) all.1,
)

requeue_each_lem :
    (now : ℕ) (rows : List Run) (db : Db)
    → Valid db
    → ((k : ℕ) → count (λ r. r.id == k) rows ≤ 1)
    → All (Expired now db) rows
    → Valid (requeue_each now rows db)
      × (count (is_expired now) (requeue_each now rows db).runs + length rows
          ≡ count (is_expired now) db.runs)
unfolding requeue_each
requeue_each_lem now [] db v u all = (v, omega arith)
requeue_each_lem now (run ∷ rows) db v u all =
    let v' = requeue_run-Valid now run db v (Expired-Stale all.0) in
    let (w, c) =
      requeue_each_lem now rows (requeue_run now run db) v' (λ k. ground (arith, u k))
        (Expired-requeue_run now run db rows (ground (arith, u run.id, ==_refl run.id)) all.1) in
    (w, omega (arith, c, requeue_run-count now run db v all.0))

pub requeue_expired_runs-Valid :
    (locked : ℕ → Bool) (limit : ℤ) (now : ℕ) (db : Db)
    → Valid db
    → Valid (requeue_expired_runs locked limit now db).1
unfolding requeue_expired_runs
requeue_expired_runs-Valid locked limit now db v =
    (requeue_each_lem now (expired_runs locked limit now db) db v
      (expired_runs-distinct locked limit now db v) (expired_runs-Expired locked limit now db v)).0

-- Recovery handles as many abandoned leases as the limit allows, of those whose rows no other
-- transaction holds, and the rows with a lease that is over become fewer by exactly that number.
pub requeue_expired_runs-count :
    (locked : ℕ → Bool) (limit : ℤ) (now : ℕ) (db : Db)
    → Valid db
    → let (recovered, db') = requeue_expired_runs locked limit now db in
      (recovered
        ≡ min (at_least 1 limit) (count (λ r. is_expired now r && not (locked r.id)) db.runs))
      × (count (is_expired now) db'.runs + recovered ≡ count (is_expired now) db.runs)
unfolding requeue_expired_runs expired_runs
requeue_expired_runs-count locked limit now db v =
    let p : Run → Bool = λ r. is_expired now r && not (locked r.id) in
    (
      omega (
        arith,
        length-take (at_least 1 limit) (sort_by expires_first (keep p db.runs)),
        length-sort_by expires_first (keep p db.runs),
        length-keep p db.runs,
      ),
      (requeue_each_lem now (expired_runs locked limit now db) db v
          (expired_runs-distinct locked limit now db v)
          (expired_runs-Expired locked limit now db v)).1,
    )
