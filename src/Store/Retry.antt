-- ===== src/Store/Retry.antt =====
-- A submission to cloud/store.py that is repeated with its idempotency key.
use kirakira_agent_online.Prelude.{
  ℕ, String, ◌≡◌, sym, subst, ◌∙◌, inl, inr, false, Option, none, some, arith, ok, Option-cases,
}
use kirakira_agent_online.Store.{Run, Message, Conversation, Db}
use kirakira_agent_online.Store.Submit.{
  Submission, clean_key, invalid_key, is_blank, existing_answer, known_key, user_message,
  chosen_files, queued_run, submit_writes, breaks_unique, submit,
}
use kirakira_agent_online.Store.Submission.{Written}
use kirakira_agent_online.Store.Idempotency.{
  known_written, answer_of, same_answer, found_message, submit_known, submit_valid, submit_unknown,
  fresh-Written,
}

-- What a repetition has of the first submission, and the key of both.
pub record Repeats (b a : Submission) (k : String) : Type 0 where
  pub first_key : clean_key a.idempotency_key ≡ some k
  pub key : clean_key b.idempotency_key ≡ some k
  pub user : b.user_id ≡ a.user_id
  pub conversation : b.conversation_id ≡ a.conversation_id
  pub filled : is_blank b ≡ false

existing-db :
    (a : Submission) (run : Run) (db : Db) (x : Message × Run) (db' : Db)
    → existing_answer a run db ≡ ok (x, db')
    → db' ≡ db
unfolding existing_answer
existing-db a run db x db' h = ground arith

-- The first submission found the run of the key.
retry_known :
    (a b : Submission) (k : String) (now now' : ℕ) (db : Db) (x : Message × Run) (db' : Db)
    (run : Run)
    → Repeats b a k
    → submit db.runs a now db ≡ ok (x, db')
    → known_key (some k) a.user_id db.runs ≡ some run
    → submit db'.runs b now' db' ≡ ok (x, db')
retry_known a b k now now' db x db' run r h f =
    let (n, i) = submit_valid db.runs a now db h in
    let i' : invalid_key (some k) ≡ false = subst (λ o. invalid_key o ≡ false) r.first_key i in
    let e : existing_answer a run db ≡ ok (x, db') =
      sym (submit_known db.runs a k now db run n r.first_key i' f) ∙ h in
    let d = existing-db a run db x db' e in
    let f' : known_key (some k) b.user_id db.runs ≡ some run =
      subst (λ u. known_key (some k) u db.runs ≡ some run) (sym r.user) f in
    subst (λ d'. submit d'.runs b now' d' ≡ ok (x, db')) (sym d)
      (submit_known db.runs b k now' db run r.filled r.key i' f'
        ∙ same_answer a b run db r.conversation
        ∙ e)

written_known :
    (a : Submission) (k : String) (now : ℕ) (c : Conversation) (db : Db)
    → known_key (some k) a.user_id db.runs ≡ none
    → known_key (some k) a.user_id (submit_writes a (some k) now c db).runs
      ≡ some (queued_run a (some k) now)
unfolding known_key submit_writes
written_known a k now c db f = known_written a k now db.runs f

written_answer :
    (a b : Submission) (key : Option String) (now : ℕ) (c : Conversation) (db : Db)
    → b.conversation_id ≡ a.conversation_id
    → breaks_unique a key db ≡ false
    → existing_answer b (queued_run a key now) (submit_writes a key now c db)
      ≡ ok (
        (user_message a (chosen_files a db) c, queued_run a key now),
        submit_writes a key now c db,
      )
unfolding submit_writes queued_run breaks_unique
written_answer a b key now c db e f =
    answer_of b (queued_run a key now) (user_message a (chosen_files a db) c)
      (submit_writes a key now c db) (sym e) (found_message a c db (ground arith))

again :
    (a b : Submission) (k : String) (now now' : ℕ) (db : Db) (x : Message × Run) (db' : Db)
    → Repeats b a k
    → known_key (some k) a.user_id db.runs ≡ none
    → invalid_key (some k) ≡ false
    → Written a (some k) now db x db'
    → submit db'.runs b now' db' ≡ ok (x, db')
again a b k now now' db x db' r f i w =
    let d = submit_writes a (some k) now w.conversation db in
    let m : Message × Run =
      (user_message a (chosen_files a db) w.conversation, queued_run a (some k) now) in
    let g : known_key (some k) b.user_id d.runs ≡ some (queued_run a (some k) now) =
      subst (λ u. known_key (some k) u d.runs ≡ some (queued_run a (some k) now)) (sym r.user)
        (written_known a k now w.conversation db f) in
    let e : submit d.runs b now' d ≡ ok (m, d) =
      submit_known d.runs b k now' d (queued_run a (some k) now) r.filled r.key i g
      ∙ written_answer a b (some k) now w.conversation db r.conversation w.fresh in
    subst (λ y. submit db'.runs b now' db' ≡ ok (y, db')) (sym w.answer)
      (subst (λ t. submit t.runs b now' t ≡ ok (m, t)) (sym w.writes) e)

-- The first submission wrote the run of the key.
retry_written :
    (a b : Submission) (k : String) (now now' : ℕ) (db : Db) (x : Message × Run) (db' : Db)
    → Repeats b a k
    → submit db.runs a now db ≡ ok (x, db')
    → known_key (some k) a.user_id db.runs ≡ none
    → submit db'.runs b now' db' ≡ ok (x, db')
retry_written a b k now now' db x db' r h f =
    let n : known_key (clean_key a.idempotency_key) a.user_id db.runs ≡ none =
      subst (λ o. known_key o a.user_id db.runs ≡ none) (sym r.first_key) f in
    let w : Written a (some k) now db x db' =
      subst (λ o. Written a o now db x db') r.first_key
        (fresh-Written a (clean_key a.idempotency_key) now db x db' n
          (submit_unknown db.runs a now db n h)) in
    let i : invalid_key (some k) ≡ false =
      subst (λ o. invalid_key o ≡ false) r.first_key (submit_valid db.runs a now db h).1 in
    again a b k now now' db x db' r f i w

-- A submission that is repeated by its user with its idempotency key, in the same conversation and
-- with some content, answers the message and the run of the first and changes nothing.
pub submit_again :
    (a b : Submission) (k : String) (now now' : ℕ) (db : Db) (x : Message × Run) (db' : Db)
    → Repeats b a k
    → submit db.runs a now db ≡ ok (x, db')
    → submit db'.runs b now' db' ≡ ok (x, db')
submit_again a b k now now' db x db' r h =
    elim (Option-cases (known_key (some k) a.user_id db.runs)) [
      | inl f ↦ retry_written a b k now now' db x db' r h f
      | inr (run, f) ↦ retry_known a b k now now' db x db' run r h f
    ]
