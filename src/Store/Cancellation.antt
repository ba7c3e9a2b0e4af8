-- ===== src/Store/Cancellation.antt =====
-- Cancellation wins in the run queue of cloud/store.py, whatever transactions follow the request.
use kirakira_agent_online.Prelude.{
  ℕ, ◌≡◌, refl, Bool, true, false, ◌||◌, some, List, [], ◌∷◌, arith, is_some,
}
use kirakira_agent_online.Store.{
  RunStatus, queued, running, completed, failed, cancelled, Run, Db, is_running, find_run,
}
use kirakira_agent_online.Store.Valid.{Shape, Valid}
use kirakira_agent_online.Store.Invariant.{found-Shape}
use kirakira_agent_online.Store.Steps.{
  Action, submission, claim, heartbeat, completion, failure, stop, cancellation, recovery,
  runtime_event, act, acts, act-Valid, acts-Valid,
}
use kirakira_agent_online.Store.Cancelling.{
  Asked, heartbeat-Asked, cancel_owned-Asked, fail-Asked, claim-Asked, complete-Asked,
  request-Asked, event-Asked, submit-Asked, recovery-Asked,
}

act-Asked : (k : ℕ) (a : Action) (db : Db) → Valid db → Asked k db → Asked k (act a db)
unfolding act
act-Asked k (submission seen a now) db u v = submit-Asked k seen a now db v
act-Asked k (claim seen locked w l now) db u v = claim-Asked k seen locked w l now db u v
act-Asked k (heartbeat i w l now) db u v = heartbeat-Asked k i w l now db v
act-Asked k (completion i w a now) db u v = complete-Asked k i w a now db v
act-Asked k (failure i w error now) db u v = fail-Asked k i w error now db v
act-Asked k (stop i w now) db u v = cancel_owned-Asked k i w now db v
act-Asked k (cancellation x i now) db u v = request-Asked k x i now db u v
act-Asked k (recovery locked limit now) db u v = recovery-Asked k locked limit now db u v
act-Asked k (runtime_event i t d) db u v = event-Asked k i t d db v

acts-Asked : (k : ℕ) (more : List Action) (db : Db) → Valid db → Asked k db → Asked k (acts more db)
unfolding acts
acts-Asked k [] db u v = v
acts-Asked k (a ∷ more) db u v =
    acts-Asked k more (act a db) (act-Valid a db u) (act-Asked k a db u v)

abbrev pub is_cancelled : RunStatus → Bool
is_cancelled cancelled = true
is_cancelled _ = false

asked_status :
    (s : RunStatus) (r : Run)
    → Shape s r
    → is_some r.cancel_requested_at ≡ true
    → (is_running s || is_cancelled s) ≡ true
asked_status queued r h a = ground (arith, h.3)
asked_status running r h a = refl
asked_status completed r h a = ground (arith, h.3)
asked_status failed r h a = ground (arith, h.3)
asked_status cancelled r h a = refl

-- A run whose cancellation was requested keeps the request and runs or is cancelled, after whatever
-- transactions on valid tables: it is neither completed nor failed nor queued again.
pub cancellation_wins :
    (more : List Action) (db : Db) (k : ℕ) (run : Run)
    → Valid db
    → find_run k db ≡ some run
    → is_some run.cancel_requested_at ≡ true
    → (r : Run) × (find_run k (acts more db) ≡ some r)
      × (is_some r.cancel_requested_at ≡ true)
      × ((is_running r.status || is_cancelled r.status) ≡ true)
cancellation_wins more db k run u f c =
    let v = acts-Asked k more db u (record { row = run; found = f; asked = c }) in
    (
      v.row,
      v.found,
      v.asked,
      asked_status v.row.status v.row
          (found-Shape (acts more db) k v.row (acts-Valid more db u) v.found) v.asked,
    )
