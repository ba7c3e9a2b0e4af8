-- ===== src/Restart.antt =====
-- The restart handshake between the agent process and its supervisor (agent/restart.py,
-- `RestartCoordinator`). A method that mutates the coordinator returns the new record; the calls
-- of the admission callbacks and of the commit channel are recorded in `log`, in order.
pub mod Invariant
pub mod Handshake
use kirakira_agent_online.Prelude.{
  ℕ, zero, suc, ◌+◌, ◌≤◌, String, ◌≡◌, refl, Bool, true, false, ◌&&◌, ◌||◌, not, Option, none, some,
  List, [], ◌∷◌, ◌++◌, if◌then◌else◌, leb, differ, ◌==◌, str_eq, str_append, strip, is_empty,
  text_length, Result, ok, err,
}

pub data RestartState : Type 0 where
  idle armed waiting_delivery committed cancelled : RestartState

pub record RestartRequest : Type 0 where
  pub request_id : ℕ
  pub boot_id : String
  pub turn_id : String
  pub session_key : String
  pub channel : String
  pub chat_id : String
  pub reason : String

-- What the coordinator calls outside: the admission callbacks and the commit channel. `sent` is a
-- commit that the channel took.
pub data Call : Type 0 where
  quiesce resume : (turn_id : String) → Call
  sent : RestartRequest → Call

pub data RestartError : Type 0 where
  value_error rejected_error runtime_error assertion_error : RestartError
  callback_error : String → RestartError

pub record Coordinator : Type 0 where
  pub boot_id : String
  pub supervised : Bool
  pub has_commit : Bool  -- `_commit is not None`
  pub bound : Bool  -- `_quiesce` and `_resume` are set
  pub delivery_timeout_s : ℕ
  pub timeout_text : String  -- `f"{delivery_timeout_s:g}"`
  pub state : RestartState
  pub pending : Option RestartRequest
  pub last_error : Option String
  pub turn_completed : Bool
  pub delivered : Bool
  pub committed_event : Bool
  pub timeout_task : Option ℕ  -- the request id that the live watchdog was made for
  pub log : List Call

abbrev pub Outcome : Type 0 → Type 0
Outcome A = Result RestartError A × Coordinator

-- `__init__`; a timeout that is not positive is 0 here.
unfoldable pub new : String → Bool → Bool → ℕ → String → Result RestartError Coordinator
unfolding strip
new boot_id supervised has_commit timeout timeout_text =
    if is_empty (strip boot_id)
    then err value_error
    else if timeout == 0
    then err value_error
    else if differ supervised has_commit
    then err value_error
    else ok (record {
      boot_id = boot_id;
      supervised = supervised;
      has_commit = has_commit;
      bound = false;
      delivery_timeout_s = timeout;
      timeout_text = timeout_text;
      state = idle;
      pending = none;
      last_error = none;
      turn_completed = false;
      delivered = false;
      committed_event = false;
      timeout_task = none;
      log = [];
    })

unfoldable pub bind_admission : Coordinator → Outcome (Unit {0})
bind_admission c = if c.bound then (err runtime_error, c) else (ok tt, record c { bound = true })

-- `_cancel`: the fields are written before `assert self._resume is not None`.
unfoldable pub cancel_pending : String → Option RestartRequest → Coordinator → Outcome (Unit {0})
cancel_pending reason none c = (ok tt, c)
cancel_pending reason (some r) c =
    let c' = record c {
      timeout_task = none;
      state = cancelled;
      last_error = some reason;
      pending = none;
      turn_completed = false;
      delivered = false;
    } in
    if c.bound
    then (ok tt, record c' { log = c.log ++ (resume r.turn_id ∷ []) })
    else (err assertion_error, c')

unfoldable pub cancel : String → Coordinator → Outcome (Unit {0})
unfolding cancel_pending
cancel reason c = cancel_pending reason c.pending c

unfoldable pub is_committed : RestartState → Bool
is_committed committed = true
is_committed _ = false

-- The call of `self._commit`: `outcome` is the exception that the channel raises, if any.
unfoldable pub commit_pending : Option String → RestartRequest → Coordinator → Outcome (Unit {0})
commit_pending (some exc) r c = cancel (str_append "supervisor commit failed: " exc) c
commit_pending none r c = (
  ok tt,
  record c {
    state = committed;
    timeout_task = none;
    committed_event = true;
    log = c.log ++ (sent r ∷ []);
  },
)

unfoldable pub commit_ready :
    Option String → Option RestartRequest → Coordinator → Outcome (Unit {0})
commit_ready outcome none c = (err runtime_error, c)
commit_ready outcome (some r) c =
    if c.has_commit then commit_pending outcome r c else (err runtime_error, c)

unfoldable pub commit_if_ready : Option String → Coordinator → Outcome (Unit {0})
unfolding commit_ready
commit_if_ready outcome c =
    if is_committed c.state
    then (ok tt, c)
    else if not c.turn_completed || not c.delivered
    then (ok tt, c)
    else commit_ready outcome c.pending c

-- `pending is None or pending.turn_id != turn_id` is false
unfoldable pub holds_turn : Option RestartRequest → String → Bool
holds_turn none turn_id = false
holds_turn (some r) turn_id = str_eq r.turn_id turn_id

unfoldable pub mark_turn_terminal :
    String → String → Option String → Coordinator → Outcome (Unit {0})
mark_turn_terminal turn_id status outcome c =
    if is_committed c.state
    then (ok tt, c)
    else if not (holds_turn c.pending turn_id)
    then (ok tt, c)
    else if not (str_eq status "completed")
    then cancel (str_append "restart caller turn ended as " status) c
    else commit_if_ready outcome (record c { turn_completed = true; state = waiting_delivery })

unfoldable pub mark_delivered : String → Option String → Coordinator → Outcome (Unit {0})
mark_delivered turn_id outcome c =
    if is_committed c.state
    then (ok tt, c)
    else if not (holds_turn c.pending turn_id)
    then (ok tt, c)
    else commit_if_ready outcome (record c { delivered = true })

unfoldable pub mark_delivery_failed : String → String → Coordinator → Outcome (Unit {0})
mark_delivery_failed turn_id reason c =
    if is_committed c.state
    then (ok tt, c)
    else if not (holds_turn c.pending turn_id)
    then (ok tt, c)
    else cancel (str_append "restart response delivery failed: " reason) c

unfoldable pub timed_out : String → String
timed_out seconds = str_append "delivery acknowledgement timed out after " (str_append seconds "s")

unfoldable pub fire : ℕ → Option RestartRequest → Coordinator → Outcome (Unit {0})
fire request_id none c = (ok tt, c)
fire request_id (some r) c =
    if r.request_id == request_id then cancel (timed_out c.timeout_text) c else (ok tt, c)

-- The watchdog of a request, when its sleep is over.
unfoldable pub delivery_watchdog : ℕ → Coordinator → Outcome (Unit {0})
unfolding fire
delivery_watchdog request_id c = fire request_id c.pending c

unfoldable pub committed_request : Option RestartRequest → Bool → Result RestartError RestartRequest
committed_request (some r) true = ok r
committed_request _ _ = err runtime_error

-- `wait_committed`; `none` while it still waits for the event.
unfoldable pub wait_committed : Coordinator → Option (Result RestartError RestartRequest)
unfolding is_committed committed_request
wait_committed c =
    if c.committed_event then some (committed_request c.pending (is_committed c.state)) else none

-- The arguments of `arm`, with the fresh `uuid4` and what the `quiesce` callback raises, if it does.
pub record ArmCall : Type 0 where
  pub turn_id : String
  pub session_key : String
  pub channel : String
  pub chat_id : String
  pub reason : String
  pub fresh : ℕ
  pub quiesce_raises : Option String

abbrev pub request_of : ArmCall → String → RestartRequest
request_of a boot_id = record {
  request_id = a.fresh;
  boot_id = boot_id;
  turn_id = a.turn_id;
  session_key = a.session_key;
  channel = a.channel;
  chat_id = a.chat_id;
  reason = strip a.reason;
}

-- Steps 2 and 3 of `arm`: idempotent for the caller, refused to others, and the admission frozen
-- before the request is published.
unfoldable pub arm_pending :
    ArmCall → Option RestartRequest → Option String → Coordinator → Outcome RestartRequest
arm_pending a (some r) raises c =
    if str_eq r.turn_id a.turn_id then (ok r, c) else (err rejected_error, c)
arm_pending a none (some exc) c = (err (callback_error exc), c)
arm_pending a none none c = (
  ok (request_of a c.boot_id),
  record c {
    pending = some (request_of a c.boot_id);
    state = armed;
    last_error = none;
    turn_completed = false;
    delivered = false;
    timeout_task = some a.fresh;
    log = c.log ++ (quiesce a.turn_id ∷ []);
  },
)

-- `1 <= len(clean_reason) <= 300`
unfoldable pub fits_reason : String → Bool
fits_reason reason = leb 1 (text_length reason) && leb (text_length reason) 300

unfoldable pub lacks_context : ArmCall → Bool
lacks_context a =
    is_empty a.turn_id || is_empty a.session_key || is_empty a.channel || is_empty a.chat_id

unfoldable pub arm : ArmCall → Coordinator → Outcome RestartRequest
arm a c =
    if not c.supervised
    then (err rejected_error, c)
    else if not c.bound
    then (err runtime_error, c)
    else if not (fits_reason (strip a.reason))
    then (err value_error, c)
    else if lacks_context a
    then (err rejected_error, c)
    else arm_pending a c.pending a.quiesce_raises c

-- Everything that can call the coordinator.
pub data Event : Type 0 where
  bind : Event
  request : ArmCall → Event
  terminal : (turn_id status : String) → (outcome : Option String) → Event
  delivery : (turn_id : String) → (outcome : Option String) → Event
  delivery_failure : (turn_id reason : String) → Event
  watchdog : (request_id : ℕ) → Event

unfoldable pub is_live : Option ℕ → ℕ → Bool
is_live none i = false
is_live (some j) i = j == i

-- A cancelled task does not run, so a watchdog wakes only while it is the live one.
unfoldable pub wake : ℕ → Coordinator → Coordinator
unfolding is_live
wake i c = if is_live c.timeout_task i then (delivery_watchdog i c).1 else c

unfoldable pub step : Coordinator → Event → Coordinator
step c bind = (bind_admission c).1
step c (request a) = (arm a c).1
step c (terminal t s o) = (mark_turn_terminal t s o c).1
step c (delivery t o) = (mark_delivered t o c).1
step c (delivery_failure t reason) = (mark_delivery_failed t reason c).1
step c (watchdog i) = wake i c

unfoldable pub run : Coordinator → List Event → Coordinator
run c [] = c
run c (e ∷ es) = run (step c e) es
