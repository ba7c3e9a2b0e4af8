-- ===== src/Store.antt =====
-- The durable store of cloud/store.py: the tables of cloud/models.py that the run queue reads and
-- writes, and what its transactions share. A UUID and an instant are numbers; `utc_now()` and
-- `uuid4()` are arguments. A transaction returns its value and the tables, or an error, after
-- which nothing was written.
pub mod Runs
pub mod Reaper
pub mod Valid
pub mod Invariant
pub mod Claim
pub mod Completion
pub mod Recovery
pub mod Submit
pub mod Submission
pub mod Idempotency
pub mod Retry
pub mod Steps
pub mod Cancelling
pub mod Cancellation
pub mod Checkpoints
pub mod RateLimit
pub mod Subagents
pub mod Deliveries
use kirakira_agent_online.Prelude.{
  ℕ, suc, ◌+◌, max, String, Bool, true, false, ◌&&◌, Option, none, some, List, [], ◌∷◌, ◌++◌, ◌==◌,
  if◌then◌else◌, is_some, is_text, Result, ok, err, find, put, keep, any, Value, Fields, end, field,
  number, uuid, str,
}

pub data StoreError : Type 0 where
  conflict_error not_found_error state_error value_error integrity_error : StoreError

pub data RunStatus : Type 0 where
  queued running completed failed cancelled : RunStatus

pub record Run : Type 0 where
  pub id : ℕ
  pub user_id : ℕ
  pub conversation_id : ℕ
  pub input_message_id : ℕ
  pub output_message_id : Option ℕ
  pub status : RunStatus
  pub lease_owner : Option String
  pub lease_expires_at : Option ℕ
  pub heartbeat_at : Option ℕ
  pub attempt : ℕ
  pub cancel_requested_at : Option ℕ
  pub error : Option String
  pub idempotency_key : Option String
  pub created_at : ℕ
  pub started_at : Option ℕ
  pub completed_at : Option ℕ

pub record RunEvent : Type 0 where
  pub run_id : ℕ
  pub user_id : ℕ
  pub seq : ℕ
  pub event_type : String
  pub event_data : Fields

pub record Conversation : Type 0 where
  pub id : ℕ
  pub user_id : ℕ
  pub next_message_seq : ℕ
  pub agent_metadata : Fields
  pub last_consolidated : ℕ
  pub updated_at : ℕ

pub record Message : Type 0 where
  pub id : ℕ
  pub conversation_id : ℕ
  pub seq : ℕ
  pub role : String
  pub content : String
  pub agent_metadata : Fields
  pub delivery_key : Option String

pub record ChannelLink : Type 0 where
  pub id : ℕ
  pub conversation_id : ℕ
  pub enabled : Bool

pub data DeliveryStatus : Type 0 where
  pending running sent failed : DeliveryStatus

pub record ChannelDelivery : Type 0 where
  pub id : ℕ
  pub link_id : ℕ
  pub message_id : ℕ
  pub status : DeliveryStatus
  pub attempt : ℕ
  pub lease_owner : Option String
  pub lease_expires_at : Option ℕ
  pub last_error : String
  pub created_at : ℕ
  pub sent_at : Option ℕ

pub record AgentAutomation : Type 0 where
  pub conversation_id : ℕ
  pub enabled : Bool
  pub next_tick_at : ℕ
  pub lease_owner : Option String
  pub lease_expires_at : Option ℕ
  pub last_started_at : Option ℕ
  pub last_finished_at : Option ℕ
  pub last_error : String
  pub tick_token : Option String

pub record UserFile : Type 0 where
  pub id : ℕ
  pub user_id : ℕ
  pub conversation_id : ℕ
  pub workspace_path : String
  pub filename : String
  pub content_type : String
  pub size_bytes : ℕ

pub record Db : Type 0 where
  pub runs : List Run
  pub events : List RunEvent
  pub conversations : List Conversation
  pub messages : List Message
  pub links : List ChannelLink
  pub deliveries : List ChannelDelivery
  pub next_delivery_id : ℕ  -- the autoincrement counter of `channel_deliveries`
  pub automations : List AgentAutomation
  pub files : List UserFile

-- The outcome of a transaction.
abbrev pub Tx : Type 0 → Type 0
Tx A = Result StoreError (A × Db)

-- The tables after a transaction: an error rolls it back.
abbrev pub after {ℓ} : {A : Type ℓ} → Db → Result StoreError (A × Db) → Db
after db (ok (a, db')) = db'
after db (err e) = db

abbrev pub is_queued : RunStatus → Bool
is_queued queued = true
is_queued _ = false

abbrev pub is_running : RunStatus → Bool
is_running running = true
is_running _ = false

unfoldable pub find_run : ℕ → Db → Option Run
find_run run_id db = find (λ r. r.id == run_id) db.runs

unfoldable pub find_conversation : ℕ → Db → Option Conversation
find_conversation conversation_id db = find (λ c. c.id == conversation_id) db.conversations

-- `coalesce(max(seq), 0)` over the events of a run.
unfoldable pub last_seq : ℕ → List RunEvent → ℕ
last_seq run_id [] = 0
last_seq run_id (e ∷ es) =
    let rest = last_seq run_id es in if e.run_id == run_id then max e.seq rest else rest

-- `_append_run_event`
unfoldable pub append_run_event : Run → String → Fields → List RunEvent → List RunEvent
append_run_event run event_type event_data events =
    events
    ++ (record {
      run_id = run.id;
      user_id = run.user_id;
      seq = last_seq run.id events + 1;
      event_type = event_type;
      event_data = event_data;
    }
        ∷ [])

-- The update of a run's row with the event of the same transaction.
unfoldable pub write_run : Run → String → Fields → Db → Db
write_run run event_type event_data db = record db {
  runs = put (λ r. r.id) run db.runs;
  events = append_run_event run event_type event_data db.events;
}

-- The loop of `_enqueue_channel_deliveries`.
unfoldable pub enqueue_links : ℕ → ℕ → List ChannelLink → Db → Db
enqueue_links now message_id [] db = db
enqueue_links now message_id (link ∷ links) db = enqueue_links now message_id links (record db {
  deliveries =
      db.deliveries
      ++ (record {
        id = db.next_delivery_id;
        link_id = link.id;
        message_id = message_id;
        status = DeliveryStatus.pending;
        attempt = 0;
        lease_owner = none;
        lease_expires_at = none;
        last_error = "";
        created_at = now;
        sent_at = none;
      }
          ∷ []);
  next_delivery_id = db.next_delivery_id + 1;
})

unfoldable pub enqueue_channel_deliveries : ℕ → Message → Db → Db
enqueue_channel_deliveries now message db =
    enqueue_links now message.id
      (keep (λ l. l.conversation_id == message.conversation_id && l.enabled) db.links) db

abbrev pub status_data : String → Fields
status_data status = field "status" (str status) end
