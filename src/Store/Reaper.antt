-- ===== src/Store/Reaper.antt =====
-- Recovery of abandoned leases: `requeue_expired_runs` of cloud/store.py.
use kirakira_agent_online.Prelude.{
  ℕ, Bool, false, ◌&&◌, ◌||◌, not, Option, none, some, List, [], ◌∷◌, ◌==◌, ltb, leb, if◌then◌else◌,
  sort_by, is_some, keep, take, length, ℤ, at_least, field, number, str, end,
}
use kirakira_agent_online.Store.{Run, Db, queued, cancelled, is_running, write_run, status_data}
use kirakira_agent_online.Store.Runs.{ended}

abbrev pub expires_before : Option ℕ → ℕ → Bool
expires_before none now = false
expires_before (some t) now = ltb t now

-- A running run whose lease is over.
unfoldable pub is_expired : ℕ → Run → Bool
is_expired now r = is_running r.status && expires_before r.lease_expires_at now

abbrev lease_end : Option ℕ → ℕ
lease_end none = 0
lease_end (some t) = t

-- `ORDER BY lease_expires_at, id`, where no lease is missing.
unfoldable pub expires_first : Run → Run → Bool
expires_first a b =
    let x = lease_end a.lease_expires_at in
    let y = lease_end b.lease_expires_at in ltb x y || (x == y && leb a.id b.id)

-- The rows of the query; `locked` are those that other transactions hold.
unfoldable pub expired_runs : (ℕ → Bool) → ℤ → ℕ → Db → List Run
unfolding expires_first is_expired
expired_runs locked limit now db =
    take (at_least 1 limit)
      (sort_by expires_first (keep (λ r. is_expired now r && not (locked r.id)) db.runs))

unfoldable pub released : Run → Run
released run = record run { lease_owner = none; lease_expires_at = none; status = queued }

-- The body of the loop.
unfoldable pub requeue_run : ℕ → Run → Db → Db
unfolding ended released
requeue_run now run db =
    if is_some run.cancel_requested_at
    then write_run (ended cancelled now run) "run.cancelled" (status_data "cancelled") db
    else write_run (released run) "run.requeued"
        (field "status" (str "queued") (field "attempt" (number run.attempt) end)) db

unfoldable pub requeue_each : ℕ → List Run → Db → Db
requeue_each now [] db = db
requeue_each now (run ∷ rows) db = requeue_each now rows (requeue_run now run db)

unfoldable pub requeue_expired_runs : (ℕ → Bool) → ℤ → ℕ → Db → ℕ × Db
requeue_expired_runs locked limit now db =
    let rows = expired_runs locked limit now db in (length rows, requeue_each now rows db)
