-- ===== src/Store/Submit.antt =====
-- Submission of a user message with its queued run: `append_user_message_and_run` of cloud/store.py.
use Prim.Native.Char.{code}
use kirakira_agent_online.Prelude.{
  ℕ, ◌+◌, String, Bool, true, false, ◌&&◌, ◌||◌, not, Option, none, some, List, [], ◌∷◌, ◌++◌, ◌==◌,
  ltb, if◌then◌else◌, is_some, is_text, is_empty, strip, text_length, ok, err, find, put, keep, any,
  length, map, Elements, end, field, number, uuid, str, array, object, element, none_left,
}
use kirakira_agent_online.Store.{
  conflict_error, not_found_error, state_error, value_error, integrity_error, queued, Run,
  Conversation, Message, AgentAutomation, UserFile, Db, Tx, append_run_event,
}

-- The arguments, with the fresh ids of the message and of the run.
pub record Submission : Type 0 where
  pub user_id : ℕ
  pub conversation_id : ℕ
  pub content : String
  pub idempotency_key : Option String
  pub file_ids : List ℕ
  pub message_id : ℕ
  pub run_id : ℕ

-- `(idempotency_key or "").strip() or None`
unfoldable pub clean_key : Option String → Option String
clean_key none = none
clean_key (some k) = if is_empty (strip k) then none else some (strip k)

-- `any(ord(c) < 33 for c in key)`
unfoldable pub has_control : String → Bool
has_control String.[] = false
has_control (String.◌∷◌ c s) = let rest = has_control s in if ltb (code c) 33 then true else rest

unfoldable pub invalid_key : Option String → Bool
invalid_key none = false
invalid_key (some k) = ltb 128 (text_length k) || has_control k

unfoldable pub is_blank : Submission → Bool
is_blank a = is_empty (strip a.content) && length a.file_ids == 0

-- `Run.user_id == user_id, Run.idempotency_key == key`
unfoldable pub has_key : ℕ → String → Run → Bool
has_key user_id key r = r.user_id == user_id && is_text r.idempotency_key key

-- What the run of an idempotency key answers.
unfoldable pub existing_answer : Submission → Run → Db → Tx (Message × Run)
existing_answer a run db =
    if not (run.conversation_id == a.conversation_id)
    then err conflict_error
    else elim (find (λ m. m.id == run.input_message_id) db.messages) [
      | none ↦ err state_error
      | some m ↦ ok ((m, run), db)
    ]

unfoldable pub known_key : Option String → ℕ → List Run → Option Run
unfolding has_key
known_key none user_id rows = none
known_key (some k) user_id rows = find (has_key user_id k) rows

-- `set(ids)`
unfoldable pub distinct : List ℕ → List ℕ
distinct [] = []
distinct (i ∷ ids) = let rest = distinct ids in if any (λ j. j == i) ids then rest else i ∷ rest

unfoldable pub chosen_files : Submission → Db → List UserFile
chosen_files a db =
    if length a.file_ids == 0
    then []
    else keep
        (λ f.
          any (λ i. i == f.id) a.file_ids
          && f.user_id == a.user_id
          && f.conversation_id == a.conversation_id)
        db.files

unfoldable pub attachments : List UserFile → Elements
attachments [] = none_left
attachments (f ∷ files) =
    element
      (object (
        field "id" (uuid f.id) (
          field "path" (str f.workspace_path) (
            field "filename" (str f.filename) (
              field "content_type" (str f.content_type)
                (field "size_bytes" (number f.size_bytes) end))))))
      (attachments files)

unfoldable pub media : List UserFile → Elements
media [] = none_left
media (f ∷ files) = element (str f.workspace_path) (media files)

unfoldable pub user_message : Submission → List UserFile → Conversation → Message
unfolding attachments media
user_message a files c = record {
  id = a.message_id;
  conversation_id = c.id;
  seq = c.next_message_seq;
  role = "user";
  content = a.content;
  agent_metadata =
      field "attachments" (array (attachments files)) (field "media" (array (media files)) end);
  delivery_key = none;
}

-- Passive input wins over background work: the lease of the automation is revoked, its tick token
-- is kept.
unfoldable pub revoke_automation : ℕ → AgentAutomation → AgentAutomation
revoke_automation now x =
    if is_some x.lease_owner
    then record x { lease_owner = none; lease_expires_at = none; next_tick_at = now }
    else x

unfoldable pub revoke_in : ℕ → ℕ → List AgentAutomation → List AgentAutomation
unfolding revoke_automation
revoke_in conversation_id now [] = []
revoke_in conversation_id now (x ∷ xs) =
    (if x.conversation_id == conversation_id then revoke_automation now x else x)
    ∷ revoke_in conversation_id now xs

unfoldable pub queued_run : Submission → Option String → ℕ → Run
queued_run a key now = record {
  id = a.run_id;
  user_id = a.user_id;
  conversation_id = a.conversation_id;
  input_message_id = a.message_id;
  output_message_id = none;
  status = queued;
  lease_owner = none;
  lease_expires_at = none;
  heartbeat_at = none;
  attempt = 0;
  cancel_requested_at = none;
  error = none;
  idempotency_key = key;
  created_at = now;
  started_at = none;
  completed_at = none;
}

unfoldable pub submit_writes : Submission → Option String → ℕ → Conversation → Db → Db
unfolding queued_run
submit_writes a key now c db =
    let run = queued_run a key now in
    record db {
      conversations =
          put (λ r. r.id) (record c { next_message_seq = c.next_message_seq + 1; updated_at = now })
            db.conversations;
      automations = revoke_in c.id now db.automations;
      messages = db.messages ++ (user_message a (chosen_files a db) c ∷ []);
      runs = db.runs ++ (run ∷ []);
      events =
          append_run_event run "run.queued"
            (field "status" (str "queued") (field "input_message_id" (uuid a.message_id) end))
            db.events;
    }

-- A unique constraint that the commit breaks: the user's key, or an id.
unfoldable pub breaks_unique : Submission → Option String → Db → Bool
breaks_unique a key db =
    is_some (known_key key a.user_id db.runs)
    || any (λ r. r.id == a.run_id) db.runs
    || any (λ m. m.id == a.message_id) db.messages

-- After an IntegrityError: the run of the key, read again.
unfoldable pub resolve_conflict : Submission → Option String → Db → Tx (Message × Run)
resolve_conflict a key db = elim (known_key key a.user_id db.runs) [
  | none ↦ err integrity_error
  | some run ↦ existing_answer a run db
]

unfoldable pub submit_in : Submission → Option String → ℕ → Conversation → Db → Tx (Message × Run)
unfolding chosen_files
submit_in a key now c db =
    if not (length (distinct (map (λ f. f.id) (chosen_files a db))) == length (distinct a.file_ids))
    then err not_found_error
    else if breaks_unique a key db
    then resolve_conflict a key db
    else ok
        ((user_message a (chosen_files a db) c, queued_run a key now), submit_writes a key now c db)

unfoldable pub find_owned_conversation : Submission → Db → Option Conversation
find_owned_conversation a db =
    find (λ c. c.id == a.conversation_id && c.user_id == a.user_id) db.conversations

unfoldable pub submit_new : Submission → Option String → ℕ → Db → Tx (Message × Run)
submit_new a key now db = elim (find_owned_conversation a db) [
  | none ↦ err not_found_error
  | some c ↦ submit_in a key now c db
]

-- The transaction. `seen` are the runs that its first query reads, before another transaction may
-- have committed a run of the same key.
unfoldable pub submit : List Run → Submission → ℕ → Db → Tx (Message × Run)
submit seen a now db =
    if is_blank a
    then err value_error
    else if invalid_key (clean_key a.idempotency_key)
    then err value_error
    else elim (known_key (clean_key a.idempotency_key) a.user_id seen) [
      | some run ↦ existing_answer a run db
      | none ↦ submit_new a (clean_key a.idempotency_key) now db
    ]
