-- ===== src/Samples/Slots.antt =====
-- The tool checkpoints and the rate limiter of cloud/store.py at concrete inputs.
use kirakira_agent_online.Prelude.{
  ℕ, ◌+◌, ◌≤◌, max, ◌≡◌, ◌≢◌, refl, none, some, List, [], ◌∷◌, ok, end, pos, find, update,
}
use kirakira_agent_online.Store.{Run}
use kirakira_agent_online.Store.Checkpoints.{
  RunToolCheckpoint, fresh, replay, Slot, in_slot, started, answer, begin_tool_checkpoint, finished,
  finish_slot, finish_tool_checkpoint,
}
use kirakira_agent_online.Store.Checkpoints.Fence.{
  SlotCall, begin_slot, finish, slot_calls, begun_once, finish-replay,
}
use kirakira_agent_online.Store.RateLimit.{Request, Bucket, bucket_of}
use kirakira_agent_online.Store.RateLimit.Window.{
  allowed_in, used_in, LimitedBy, same_bucket, allowed_bounded,
}
use kirakira_agent_online.Samples.Runs.{waiting_run}

abbrev pub one_run : List Run
one_run = waiting_run 1 10 5 ∷ []

abbrev mail_slot : Slot
mail_slot = record { run_id = 1; iteration = pos 0; call_index = pos 2 }

-- The slot's row while the call runs.
abbrev mail_row : RunToolCheckpoint
mail_row = record {
  run_id = 1;
  iteration = 0;
  call_index = 2;
  signature = "sig";
  tool_name = "send_mail";
  arguments = end;
  status = "started";
  output = none;
  mobile_attention = none;
  started_at = 10;
  completed_at = none;
}

mail_begun :
    begin_tool_checkpoint mail_slot "sig" "send_mail" end 10 one_run []
    ≡ ok ((fresh, mail_row), mail_row ∷ [])
unfolding begin_tool_checkpoint started find
mail_begun = refl

abbrev retried : List SlotCall
retried =
    begin_slot mail_slot "sig" "send_mail" end 11
    ∷ finish mail_slot "sig" "success" "sent" none 12
    ∷ []

begun_once_example :
    let rows'' = slot_calls one_run retried (mail_row ∷ []) in
    (d : RunToolCheckpoint) × (begin_tool_checkpoint mail_slot "other" "send_mail" end 13 one_run
        rows''
      ≡ ok ((answer "other" d, d), rows''))
    × (d.signature ≡ "sig")
    × (answer "other" d ≢ fresh)
begun_once_example =
    begun_once mail_slot "sig" "send_mail" end 10 one_run [] mail_row (mail_row ∷ []) retried
      "other" "send_mail" end 13 mail_begun

-- The row once the mail is sent.
abbrev sent_row : RunToolCheckpoint
sent_row = record mail_row { status = "success"; output = some "sent"; completed_at = some 12 }

mail_finished :
    finish_tool_checkpoint mail_slot "sig" "success" "sent" none 12 (mail_row ∷ [])
    ≡ ok (sent_row, sent_row ∷ [])
unfolding finish_tool_checkpoint finish_slot finished in_slot find update
mail_finished = refl

finish-replay_example :
    (d : RunToolCheckpoint) × (begin_tool_checkpoint mail_slot "sig" "send_mail" end 14 one_run
        (sent_row ∷ [])
      ≡ ok ((replay, d), sent_row ∷ []))
    × (d.output ≡ some "sent")
    × (d.status ≡ "success")
finish-replay_example =
    finish-replay mail_slot "sig" "success" "sent" none 12 one_run (mail_row ∷ []) sent_row
      (sent_row ∷ []) "send_mail" end 14 refl mail_finished

-- Two logins a minute, three tries.
abbrev login : ℕ → Request
login epoch = record {
  subject_key = "user";
  scope = "login";
  limit = pos 2;
  window_seconds = pos 60;
  epoch = epoch;
  seen = [];
}

abbrev first_minute : Bucket
first_minute = record { key = "user"; bucket_scope = "login"; window_start = 0 }

abbrev logins : List Request
logins = login 5 ∷ login 6 ∷ login 7 ∷ login 65 ∷ []

logins-LimitedBy : LimitedBy first_minute 2 logins
unfolding same_bucket bucket_of
logins-LimitedBy = (refl, (refl, (refl, (refl, tt))))

allowed_bounded_example :
    allowed_in first_minute logins [] + used_in first_minute [] ≤ max (used_in first_minute []) 2
allowed_bounded_example = allowed_bounded first_minute 2 logins [] logins-LimitedBy
