-- ===== src/Snapshot.antt =====
-- The runtime snapshots of agent/plugins/snapshot.py: `RuntimeSnapshotStore` and the leases on its
-- snapshots. A Python object is a reference, a number; the store's `objects` are what the references
-- hold. `on_drain` is a call that the store records.
pub mod Invariant
pub mod Switch
pub mod Leases
pub mod Drain
use kirakira_agent_online.Prelude.{
  ℕ, zero, suc, ◌+◌, ◌-◌, String, str_eq, Bool, true, false, ◌&&◌, ◌||◌, not, Option, none, some,
  List, [], ◌∷◌, ◌++◌, ◌==◌, if◌then◌else◌, Result, ok, err, keep, find,
}

pub data SnapshotState : Type 0 where
  compiled published retired drained : SnapshotState

-- A tool of an MCP server, as a snapshot holds it.
pub record McpTool : Type 0 where
  pub name : String
  pub deferred : Bool

pub record RuntimeSnapshot : Type 0 where
  pub snapshot_id : String
  pub before_turn_modules : List ℕ
  pub before_reasoning_modules : List ℕ
  pub prompt_render_modules : List ℕ
  pub before_step_modules : List ℕ
  pub after_step_modules : List ℕ
  pub after_reasoning_modules : List ℕ
  pub after_turn_modules : List ℕ
  pub tool_hooks : List ℕ
  pub mcp_tools : List McpTool
  pub mcp_generation_id : Option String
  pub state : SnapshotState
  pub lease_count : ℕ

-- `SnapshotTransaction`, by the references of its snapshots.
pub record SnapshotTransaction : Type 0 where
  pub previous : Option ℕ
  pub candidate : ℕ

-- `RuntimeSnapshotLease`
pub record SnapshotLease : Type 0 where
  pub snapshot : ℕ
  pub released : Bool

-- An item of the dict `_snapshots`.
pub record Registration : Type 0 where
  pub snapshot_id : String
  pub snapshot : ℕ

pub data SnapshotError : Type 0 where
  transaction_in_flight not_compiled unknown_transaction no_snapshot not_leasable cannot_fork
        lease_underflow unknown_lease :
      SnapshotError

pub record SnapshotStore : Type 0 where
  pub current : Option ℕ
  pub pending : Option SnapshotTransaction
  pub snapshots : List Registration
  pub objects : ℕ → RuntimeSnapshot
  pub leases : List SnapshotLease  -- every lease that was given, in their order
  pub drains : List ℕ  -- the calls of `on_drain`

-- A method's outcome: its value or what it raises, and the store.
abbrev pub Outcome : Type 0 → Type 0
Outcome A = Result SnapshotError A × SnapshotStore

abbrev pub is_compiled : SnapshotState → Bool
is_compiled compiled = true
is_compiled _ = false

abbrev pub is_published : SnapshotState → Bool
is_published published = true
is_published _ = false

abbrev pub is_retired : SnapshotState → Bool
is_retired retired = true
is_retired _ = false

abbrev pub is_drained : SnapshotState → Bool
is_drained drained = true
is_drained _ = false

-- `is` on references that may be None.
abbrev pub is_ref : Option ℕ → ℕ → Bool
is_ref none k = false
is_ref (some j) k = j == k

-- An assignment to the object of a reference.
unfoldable pub assign : ℕ → RuntimeSnapshot → (ℕ → RuntimeSnapshot) → ℕ → RuntimeSnapshot
assign k x objects j = if j == k then x else objects j

unfoldable pub set_state : ℕ → SnapshotState → SnapshotStore → SnapshotStore
unfolding assign
set_state k state s = record s {
  objects = assign k (record (s.objects k) { state = state }) s.objects;
}

unfoldable pub set_count : ℕ → ℕ → SnapshotStore → SnapshotStore
unfolding assign
set_count k n s = record s {
  objects = assign k (record (s.objects k) { lease_count = n }) s.objects;
}

-- `_snapshots.pop(snapshot_id, None)`
unfoldable pub unregister : String → List Registration → List Registration
unregister snapshot_id entries = keep (λ e. not (str_eq e.snapshot_id snapshot_id)) entries

-- `_snapshots[snapshot_id] = candidate`
unfoldable pub register : String → ℕ → List Registration → List Registration
unfolding unregister
register snapshot_id k entries =
    record { snapshot_id = snapshot_id; snapshot = k } ∷ unregister snapshot_id entries

-- `self._snapshots.get(snapshot.snapshot_id) is snapshot`
unfoldable pub is_registered : ℕ → SnapshotStore → Bool
is_registered k s = elim (find (λ e. str_eq e.snapshot_id (s.objects k).snapshot_id) s.snapshots) [
  | none ↦ false
  | some e ↦ e.snapshot == k
]

-- `_drain_if_ready`
unfoldable pub drain_if_ready : ℕ → SnapshotStore → SnapshotStore
unfolding set_state unregister
drain_if_ready k s =
    if not (is_retired (s.objects k).state) || not ((s.objects k).lease_count == 0)
    then s
    else record (set_state k drained s) {
      snapshots = unregister (s.objects k).snapshot_id s.snapshots;
      drains = s.drains ++ (k ∷ []);
    }

-- Retirement, with the drain where no lease is left.
unfoldable pub retire : ℕ → SnapshotStore → SnapshotStore
unfolding set_state drain_if_ready
retire k s = drain_if_ready k (set_state k retired s)

unfoldable pub publish : ℕ → SnapshotStore → Outcome SnapshotTransaction
unfolding set_state register
publish k s = elim s.pending [
  | some t ↦ (err transaction_in_flight, s)
  | none ↦
      if not (is_compiled (s.objects k).state)
      then (err not_compiled, s)
      else (let t : SnapshotTransaction = record { previous = s.current; candidate = k } in
          (
            ok t,
            record (set_state k published s) {
              snapshots = register (s.objects k).snapshot_id k s.snapshots;
              current = some k;
              pending = some t;
            },
          ))
]

abbrev pub same_ref : Option ℕ → Option ℕ → Bool
same_ref none none = true
same_ref (some j) (some k) = j == k
same_ref _ _ = false

-- `self._pending is transaction`: a candidate is published once, so that equal transactions are one
-- object.
abbrev pub is_pending : Option SnapshotTransaction → SnapshotTransaction → Bool
is_pending none t = false
is_pending (some p) t = p.candidate == t.candidate && same_ref p.previous t.previous

unfoldable pub retire_previous : SnapshotTransaction → SnapshotStore → SnapshotStore
unfolding retire
retire_previous t s = elim t.previous [
  | none ↦ s
  | some p ↦ if p == t.candidate then s else retire p s
]

unfoldable pub commit : SnapshotTransaction → SnapshotStore → Outcome (Unit {0})
unfolding retire_previous
commit t s =
    if not (is_pending s.pending t)
    then (err unknown_transaction, s)
    else (ok tt, retire_previous t (record s { pending = none }))

unfoldable pub rollback : SnapshotTransaction → SnapshotStore → Outcome (Unit {0})
unfolding retire
rollback t s =
    if not (is_pending s.pending t)
    then (err unknown_transaction, s)
    else (ok tt, retire t.candidate (record s { pending = none; current = t.previous }))

-- `_claim`
unfoldable pub claim_snapshot : ℕ → SnapshotStore → Outcome SnapshotLease
unfolding set_count
claim_snapshot k s =
    let l : SnapshotLease = record { snapshot = k; released = false } in
    (ok l, record (set_count k ((s.objects k).lease_count + 1) s) { leases = s.leases ++ (l ∷ []) })

unfoldable pub lease : SnapshotStore → Outcome SnapshotLease
unfolding claim_snapshot
lease s = elim s.current [
  | none ↦ (err no_snapshot, s)
  | some k ↦
      if not (is_published (s.objects k).state) then (err not_leasable, s) else claim_snapshot k s
]

unfoldable pub fork_lease : SnapshotLease → SnapshotStore → Outcome SnapshotLease
unfolding is_registered claim_snapshot
fork_lease source s =
    if source.released || not (is_registered source.snapshot s)
    then (err cannot_fork, s)
    else claim_snapshot source.snapshot s

unfoldable pub release_lease : ℕ → SnapshotStore → Outcome (Unit {0})
unfolding set_count drain_if_ready
release_lease k s =
    if (s.objects k).lease_count == 0
    then (err lease_underflow, s)
    else (ok tt, drain_if_ready k (set_count k ((s.objects k).lease_count - 1) s))

-- The lease that was given as the n-th, and `_released = True` on it.
unfoldable pub nth_lease : ℕ → List SnapshotLease → Option SnapshotLease
nth_lease n [] = none
nth_lease zero (l ∷ leases) = some l
nth_lease (suc n) (l ∷ leases) = nth_lease n leases

unfoldable pub mark_released : ℕ → List SnapshotLease → List SnapshotLease
mark_released n [] = []
mark_released zero (l ∷ leases) = record l { released = true } ∷ leases
mark_released (suc n) (l ∷ leases) = l ∷ mark_released n leases

-- `RuntimeSnapshotLease.release` and `.fork` of the n-th lease.
unfoldable pub release : ℕ → SnapshotStore → Outcome (Unit {0})
unfolding nth_lease mark_released release_lease
release n s = elim (nth_lease n s.leases) [
  | none ↦ (err unknown_lease, s)
  | some l ↦
      if l.released
      then (ok tt, s)
      else release_lease l.snapshot (record s { leases = mark_released n s.leases })
]

unfoldable pub fork : ℕ → SnapshotStore → Outcome SnapshotLease
unfolding nth_lease fork_lease
fork n s = elim (nth_lease n s.leases) [ none ↦ (err unknown_lease, s) | some l ↦ fork_lease l s ]

unfoldable pub close : SnapshotStore → Outcome (Unit {0})
unfolding retire
close s = elim s.pending [
  | some t ↦ (err transaction_in_flight, s)
  | none ↦ elim s.current [
    | none ↦ (ok tt, s)
    | some k ↦ (ok tt, retire k (record s { current = none }))
  ]
]

-- The loop of `wait_drained` ends.
unfoldable pub is_released : ℕ → SnapshotStore → Bool
is_released k s = (s.objects k).lease_count == 0

-- The store's methods as calls.
pub data Call : Type 0 where
  publish_call : ℕ → Call
  commit_call rollback_call : SnapshotTransaction → Call
  lease_call close_call : Call
  fork_call release_call : ℕ → Call

unfoldable pub call : Call → SnapshotStore → SnapshotStore
call (publish_call k) s = (publish k s).1
call (commit_call t) s = (commit t s).1
call (rollback_call t) s = (rollback t s).1
call lease_call s = (lease s).1
call close_call s = (close s).1
call (fork_call n) s = (fork n s).1
call (release_call n) s = (release n s).1

unfoldable pub calls : List Call → SnapshotStore → SnapshotStore
calls [] s = s
calls (c ∷ more) s = calls more (call c s)

-- `__init__`, in a memory where each snapshot is as `compile_snapshot` makes it.
unfoldable pub new : (ℕ → RuntimeSnapshot) → SnapshotStore
new objects = record {
  current = none;
  pending = none;
  snapshots = [];
  objects = objects;
  leases = [];
  drains = [];
}
