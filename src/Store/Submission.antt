-- ===== src/Store/Submission.antt =====
-- What a submission to cloud/store.py writes, and that it keeps the tables valid.
use kirakira_agent_online.Prelude.{
  ℕ, String, ◌≡◌, refl, sym, subst, ◌⊎◌, inl, inr, false, Option, none, some, List, [], ◌∷◌, ◌++◌,
  arith, ◌==◌, ok, err, any, count-append, any-count, All, Bool-cases, Option-cases, ==→eq,
}
use kirakira_agent_online.Store.{Run, Message, Conversation, Db, Tx}
use kirakira_agent_online.Store.Runs.{running_in}
use kirakira_agent_online.Store.Submit.{
  Submission, clean_key, invalid_key, is_blank, existing_answer, known_key, chosen_files,
  user_message, queued_run, submit_writes, breaks_unique, resolve_conflict, submit_in, submit_new,
  find_owned_conversation, submit,
}
use kirakira_agent_online.Store.Valid.{RowValid, Valid, append_run_event-Numbered}
use kirakira_agent_online.Store.Invariant.{Keeps}

All-snoc :
    (P : Run → Type 0) (rows : List Run) (r : Run) → All P rows → P r → All P (rows ++ (r ∷ []))
All-snoc P [] r h p = (p, tt)
All-snoc P (x ∷ rows) r h p = (h.0, All-snoc P rows r h.1 p)

-- A new queued run with a fresh id.
pub submit_writes-Valid :
    (a : Submission) (key : Option String) (now : ℕ) (c : Conversation) (db : Db)
    → Valid db
    → any (λ r. r.id == a.run_id) db.runs ≡ false
    → Valid (submit_writes a key now c db)
unfolding submit_writes
submit_writes-Valid a key now c db v f = record {
  rows =
      All-snoc RowValid db.runs (queued_run a key now) v.rows
        (record { shape = (refl, refl, refl, refl, refl) });
  unique = λ k. ground (
    arith,
    v.unique k,
    count-append (λ r. r.id == k) db.runs (queued_run a key now ∷ []),
    any-count (λ r. r.id == a.run_id) db.runs f,
    ==→eq a.run_id k,
  );
  exclusive = λ k.
      ground
        (arith, v.exclusive k, count-append (running_in k) db.runs (queued_run a key now ∷ []));
  numbered = λ k. append_run_event-Numbered (queued_run a key now) _ _ db.events k (v.numbered k);
}

existing_answer-same :
    (a : Submission) (run : Run) (db : Db) {x : Message × Run} {db' : Db}
    → existing_answer a run db ≡ ok (x, db')
    → db' ≡ db
unfolding existing_answer
existing_answer-same a run db h = ground arith

resolve_conflict-same :
    (a : Submission) (key : Option String) (db : Db) {x : Message × Run} {db' : Db}
    → resolve_conflict a key db ≡ ok (x, db')
    → db' ≡ db
unfolding resolve_conflict
resolve_conflict-same a key db h = elim (Option-cases (known_key key a.user_id db.runs)) [
  | inl e ↦ absurd (ground arith)
  | inr (run, e) ↦ existing_answer-same a run db (rw (e, resolve_conflict) at h)
]

-- A submission that succeeds has found its key, or has written a new run: with a key and ids that no
-- row has, in a conversation of the user.
pub record Written (a : Submission) (key : Option String) (now : ℕ) (db : Db) (x : Message × Run)
    (db' : Db) : Type 0 where
  pub conversation : Conversation
  pub fresh : breaks_unique a key db ≡ false
  pub answer : x ≡ (user_message a (chosen_files a db) conversation, queued_run a key now)
  pub writes : db' ≡ submit_writes a key now conversation db

submit_in-cases :
    (a : Submission) (key : Option String) (now : ℕ) (c : Conversation) (db : Db)
    (x : Message × Run) (db' : Db)
    → submit_in a key now c db ≡ ok (x, db')
    → (db' ≡ db) ⊎ Written a key now db x db'
unfolding submit_in
submit_in-cases a key now c db x db' h = elim (Bool-cases (breaks_unique a key db)) [
  | inl e ↦ inl (
      ground
        (arith, λ (k : resolve_conflict a key db ≡ ok (x, db')). resolve_conflict-same a key db k))
  | inr e ↦
      inr (record { conversation = c; fresh = e; answer = ground arith; writes = ground arith })
]

submit_new-cases :
    (a : Submission) (key : Option String) (now : ℕ) (db : Db) (x : Message × Run) (db' : Db)
    → submit_new a key now db ≡ ok (x, db')
    → (db' ≡ db) ⊎ Written a key now db x db'
unfolding submit_new
submit_new-cases a key now db x db' h = elim (Option-cases (find_owned_conversation a db)) [
  | inl e ↦ absurd (ground arith)
  | inr (c, e) ↦ submit_in-cases a key now c db x db' (rw (e, submit_new) at h)
]

known-cases :
    (a : Submission) (key : Option String) (now : ℕ) (db : Db) (x : Message × Run) (db' : Db)
    (o : Option Run)
    → (elim o as (λ _. Tx (Message × Run)) [
      | some run ↦ existing_answer a run db
      | none ↦ submit_new a key now db
    ])
      ≡ ok (x, db')
    → (db' ≡ db) ⊎ Written a key now db x db'
known-cases a key now db x db' none h = submit_new-cases a key now db x db' h
known-cases a key now db x db' (some run) h = inl (existing_answer-same a run db h)

pub submit-cases :
    (seen : List Run) (a : Submission) (now : ℕ) (db : Db) (x : Message × Run) (db' : Db)
    → submit seen a now db ≡ ok (x, db')
    → (db' ≡ db) ⊎ Written a (clean_key a.idempotency_key) now db x db'
unfolding submit
submit-cases seen a now db x db' h = elim (Bool-cases (is_blank a)) [
  | inl e ↦ absurd (ground arith)
  | inr e ↦ elim (Bool-cases (invalid_key (clean_key a.idempotency_key))) [
    | inl i ↦ absurd (ground arith)
    | inr i ↦
        known-cases a (clean_key a.idempotency_key) now db x db'
          (known_key (clean_key a.idempotency_key) a.user_id seen) (ground arith)
  ]
]

Written-Valid :
    {a : Submission} {key : Option String} {now : ℕ} {db : Db} {x : Message × Run} {db' : Db}
    → Written a key now db x db'
    → Valid db
    → Valid db'
unfolding breaks_unique
Written-Valid {a} {key} {now} {db} w v =
    subst Valid (sym w.writes)
      (submit_writes-Valid a key now w.conversation db v (ground (arith, w.fresh)))

committed-Valid :
    (db : Db) (t : Tx (Message × Run))
    → Valid db
    → ((x : Message × Run) (db' : Db) → t ≡ ok (x, db') → Valid db')
    → Keeps db t
committed-Valid db (ok (x, db')) v k = record { valid = k x db' refl }
committed-Valid db (err e) v k = record { valid = v }

pub submit-Keeps :
    (seen : List Run) (a : Submission) (now : ℕ) (db : Db)
    → Valid db
    → Keeps db (submit seen a now db)
submit-Keeps seen a now db v = committed-Valid db (submit seen a now db) v λ x db' h.
    elim (submit-cases seen a now db x db' h) [
      | inl e ↦ subst Valid (sym e) v
      | inr w ↦ Written-Valid w v
    ]
