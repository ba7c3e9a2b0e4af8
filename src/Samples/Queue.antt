-- ===== src/Samples/Queue.antt =====
-- Sequences of transactions of cloud/store.py at concrete inputs: recovery of a lost worker's run, and
-- submissions with an idempotency key.
use kirakira_agent_online.Prelude.{
  ◌+◌, ◌≡◌, ◌&&◌, not, refl, is_some, ◌||◌, true, none, some, List, [], ◌∷◌, arith, count, min, pos,
  at_least, ok, end, strip, find,
}
use kirakira_agent_online.Store.{find_run, is_running, running, Run, Conversation, Db, after}
use kirakira_agent_online.Store.Reaper.{is_expired, requeue_expired_runs}
use kirakira_agent_online.Store.Valid.{Valid}
use kirakira_agent_online.Store.Recovery.{requeue_expired_runs-count}
use kirakira_agent_online.Store.Submit.{
  Submission, submit, user_message, queued_run, submit_writes, clean_key, invalid_key, is_blank,
  known_key, has_key, submit_new, submit_in, breaks_unique, chosen_files, find_owned_conversation,
  distinct, has_control,
}
use kirakira_agent_online.Store.Runs.{Completion}
use kirakira_agent_online.Store.Cancellation.{is_cancelled, cancellation_wins}
use kirakira_agent_online.Store.Idempotency.{KeysUnique, submit-KeysUnique}
use kirakira_agent_online.Store.Retry.{submit_again}
use kirakira_agent_online.Store.Steps.{
  completion, Action, claim, heartbeat, failure, cancellation, recovery, runtime_event, acts,
  acts-Valid,
}
use kirakira_agent_online.Samples.Runs.{waiting_run, two_runs, unlocked}

-- A run whose worker is gone: its lease was over at 60.
abbrev lost_run : Run
lost_run = record (waiting_run 1 10 5) {
  status = running;
  lease_owner = some "gone";
  lease_expires_at = some 60;
  started_at = some 0;
  attempt = 1;
}

abbrev lost_runs : Db
lost_runs = record two_runs { runs = lost_run ∷ waiting_run 2 10 6 ∷ [] }

lost_runs-Valid : Valid lost_runs
lost_runs-Valid = record {
  rows = (
    record { shape = (refl, refl, refl, refl, omega arith) },
    (record { shape = (refl, refl, refl, refl, refl) }, tt),
  );
  unique = λ k. ground arith;
  exclusive = λ c. ground arith;
  numbered = λ k. tt;
}

requeue_expired_runs-count_example :
    let (recovered, db') = requeue_expired_runs unlocked (pos 100) 70 lost_runs in
    (recovered
      ≡ min
          (at_least 1 (pos 100))
          (count (λ r. is_expired 70 r && not (unlocked r.id)) lost_runs.runs))
    × (count (is_expired 70) db'.runs + recovered ≡ count (is_expired 70) lost_runs.runs)
requeue_expired_runs-count_example =
    requeue_expired_runs-count unlocked (pos 100) 70 lost_runs lost_runs-Valid

abbrev night : List Action
night =
    recovery unlocked (pos 100) 70
    ∷ claim [] unlocked "w" (pos 60) 71
    ∷ heartbeat 1 "w" (pos 60) 80
    ∷ cancellation 1 1 81
    ∷ failure 1 "w" "boom" 82
    ∷ claim lost_runs.runs unlocked "w" (pos 60) 83
    ∷ runtime_event 2 "tool.started" end
    ∷ []

acts-Valid_example : Valid (acts night lost_runs)
acts-Valid_example = acts-Valid night lost_runs lost_runs-Valid

-- A tenant's conversation, and the message that is submitted to it.
abbrev talk : Conversation
talk = record {
  id = 10;
  user_id = 1;
  next_message_seq = 3;
  agent_metadata = end;
  last_consolidated = 0;
  updated_at = 0;
}

abbrev talk_db : Db
talk_db = record two_runs { conversations = talk ∷ [] }

abbrev hello : Submission
hello = record {
  user_id = 1;
  conversation_id = 10;
  content = "hello";
  idempotency_key = some "k1";
  file_ids = [];
  message_id = 7;
  run_id = 8;
}

-- The same request sent once more, with other fresh ids.
abbrev hello_again : Submission
hello_again = record hello { message_id = 11; run_id = 12 }

talk_db-KeysUnique : KeysUnique talk_db
unfolding has_key
talk_db-KeysUnique = record { once = λ u k. ground arith }

submit-KeysUnique_example : KeysUnique (after talk_db (submit [] hello 100 talk_db))
submit-KeysUnique_example = submit-KeysUnique [] hello 100 talk_db talk_db-KeysUnique

hello_answered :
    submit talk_db.runs hello 100 talk_db
    ≡ ok (
      (user_message hello [] talk, queued_run hello (some "k1") 100),
      submit_writes hello (some "k1") 100 talk talk_db,
    )
unfolding submit submit_new submit_in is_blank invalid_key clean_key known_key
    find_owned_conversation chosen_files breaks_unique distinct has_control strip find
hello_answered = refl

submit_again_example :
    submit
      (submit_writes hello (some "k1") 100 talk talk_db).runs
      hello_again
      101
      (submit_writes hello (some "k1") 100 talk talk_db)
    ≡ ok (
      (user_message hello [] talk, queued_run hello (some "k1") 100),
      submit_writes hello (some "k1") 100 talk talk_db,
    )
unfolding clean_key strip is_blank
submit_again_example =
    submit_again hello hello_again "k1" 100 101 talk_db _ _
      (record { first_key = refl; key = refl; user = refl; conversation = refl; filled = refl })
      hello_answered

-- What the lost worker sends when it comes back.
abbrev late_answer : Completion
late_answer = record {
  assistant_content = "late";
  assistant_message_id = 9;
  assistant_metadata = end;
  conversation_metadata = none;
  last_consolidated = none;
}

-- The lost run, with its cancellation requested, and the attempt to complete it all the same.
abbrev asked_run : Run
asked_run = record lost_run { cancel_requested_at = some 50 }

abbrev asked_runs : Db
asked_runs = record two_runs { runs = asked_run ∷ [] }

asked_runs-Valid : Valid asked_runs
asked_runs-Valid = record {
  rows = (record { shape = (refl, refl, refl, refl, omega arith) }, tt);
  unique = λ k. ground arith;
  exclusive = λ c. ground arith;
  numbered = λ k. tt;
}

cancellation_wins_example :
    (r : Run) × (find_run 1 (acts (completion 1 "gone" late_answer 55 ∷ night) asked_runs) ≡ some r)
    × (is_some r.cancel_requested_at ≡ true)
    × ((is_running r.status || is_cancelled r.status) ≡ true)
unfolding find_run find
cancellation_wins_example =
    cancellation_wins (completion 1 "gone" late_answer 55 ∷ night) asked_runs 1 asked_run
      asked_runs-Valid refl refl
