-- ===== src/Store/Idempotency.antt =====
-- Idempotent submission to cloud/store.py: one run for a user's key, and the same answer for each
-- repetition.
use mathlib.Core.Option.{some-injective}
use kirakira_agent_online.Prelude.{
  ℕ, ◌≤◌, String, ◌≡◌, refl, sym, subst, ◌∙◌, inl, inr, Bool, true, false, Option, none, some, List,
  [], ◌∷◌, ◌++◌, arith, ◌==◌, is_some, is_text→eq, ok, err, find, any, count, count-append,
  Bool-cases, Option-cases, ==_refl, eq_refl,
}
use kirakira_agent_online.Prelude.Table.{find-none, find-append_none}
use kirakira_agent_online.Store.{integrity_error, Run, Message, Conversation, Db, Tx, after}
use kirakira_agent_online.Store.Submit.{
  Submission, clean_key, invalid_key, is_blank, has_key, existing_answer, known_key, user_message,
  chosen_files, find_owned_conversation, queued_run, submit_writes, breaks_unique, resolve_conflict,
  submit_in, submit_new, submit,
}
use kirakira_agent_online.Store.Invariant.{is_some-none}
use kirakira_agent_online.Store.Submission.{Written, submit-cases}

-- A user's key belongs to one run at most.
pub record KeysUnique (db : Db) : Type 0 where
  pub once : (user_id : ℕ) (key : String) → count (has_key user_id key) db.runs ≤ 1

known_absent :
    (key : Option String) (u : ℕ) (rows : List Run) (k : String)
    → is_some (known_key key u rows) ≡ false
    → key ≡ some k
    → find (has_key u k) rows ≡ none
unfolding known_key
known_absent none u rows k h e = cc
known_absent (some j) u rows k h e =
    is_some-none (find (has_key u k) rows)
      (subst (λ i. is_some (find (has_key u i) rows) ≡ false) (some-injective j k e) h)

key_parts :
    (a : Submission) (key : Option String) (now u : ℕ) (k : String)
    → has_key u k (queued_run a key now) ≡ true
    → (a.user_id ≡ u) × (key ≡ some k)
unfolding has_key queued_run
key_parts a key now u k e = (ground arith, is_text→eq key k (ground arith))

-- A row with the user's key is one more of them only if there was none.
keys_once :
    (a : Submission) (key : Option String) (now : ℕ) (u : ℕ) (k : String) (rows : List Run)
    → is_some (known_key key a.user_id rows) ≡ false
    → count (has_key u k) rows ≤ 1
    → count (has_key u k) (rows ++ (queued_run a key now ∷ [])) ≤ 1
keys_once a key now u k rows f o = elim (Bool-cases (has_key u k (queued_run a key now))) [
  | inl e ↦
      let (p, q) = key_parts a key now u k e in
      let z : count (has_key u k) rows ≡ 0 =
        find-none (has_key u k) rows
          (subst (λ v. find (has_key v k) rows ≡ none) p (known_absent key a.user_id rows k f q)) in
      ground (arith, count-append (has_key u k) rows (queued_run a key now ∷ []))
  | inr e ↦ ground (arith, count-append (has_key u k) rows (queued_run a key now ∷ []))
]

after-KeysUnique :
    (db : Db) (t : Tx (Message × Run))
    → KeysUnique db
    → ((x : Message × Run) (db' : Db) → t ≡ ok (x, db') → KeysUnique db')
    → KeysUnique (after db t)
after-KeysUnique db (ok (x, db')) v k = k x db' refl
after-KeysUnique db (err e) v k = v

Written-KeysUnique :
    {a : Submission} {key : Option String} {now : ℕ} {db : Db} {x : Message × Run} {db' : Db}
    → Written a key now db x db'
    → KeysUnique db
    → KeysUnique db'
unfolding breaks_unique submit_writes
Written-KeysUnique {a} {key} {now} {db} w u = subst KeysUnique (sym w.writes) (record {
  once = λ v k. keys_once a key now v k db.runs (ground (arith, w.fresh)) (u.once v k);
})

-- Whatever runs `seen` a submission read before another transaction committed, it leaves at most one
-- run for each idempotency key of a user.
pub submit-KeysUnique :
    (seen : List Run) (a : Submission) (now : ℕ) (db : Db)
    → KeysUnique db
    → KeysUnique (after db (submit seen a now db))
submit-KeysUnique seen a now db u = after-KeysUnique db (submit seen a now db) u λ x db' h.
    elim (submit-cases seen a now db x db' h) [
      | inl e ↦ subst KeysUnique (sym e) u
      | inr w ↦ Written-KeysUnique w u
    ]

-- The first answer, as a repetition finds it: from its key, or in the rows that it wrote.
pub known_written :
    (a : Submission) (k : String) (now : ℕ) (rows : List Run)
    → find (has_key a.user_id k) rows ≡ none
    → find (has_key a.user_id k) (rows ++ (queued_run a (some k) now ∷ []))
      ≡ some (queued_run a (some k) now)
unfolding queued_run has_key
known_written a k now rows f =
    find-append_none _ rows _ f ∙ unfold find in ground (arith, ==_refl a.user_id, eq_refl k)

absent-find {ℓ} :
    {A : Type ℓ} (p : A → Bool) (rows : List A) → any p rows ≡ false → find p rows ≡ none
unfolding find
absent-find p [] h = refl
absent-find p (x ∷ rows) h = ground (arith, absent-find p rows)

pub answer_of :
    (b : Submission) (run : Run) (m : Message) (db : Db)
    → run.conversation_id ≡ b.conversation_id
    → find (λ y. y.id == run.input_message_id) db.messages ≡ some m
    → existing_answer b run db ≡ ok ((m, run), db)
unfolding existing_answer
answer_of b run m db c f = ground arith

pub same_answer :
    (a b : Submission) (run : Run) (db : Db)
    → b.conversation_id ≡ a.conversation_id
    → existing_answer b run db ≡ existing_answer a run db
unfolding existing_answer
same_answer a b run db c = rw c

pub found_message :
    (a : Submission) (c : Conversation) (db : Db)
    → any (λ m. m.id == a.message_id) db.messages ≡ false
    → find (λ y. y.id == a.message_id) (db.messages ++ (user_message a (chosen_files a db) c ∷ []))
      ≡ some (user_message a (chosen_files a db) c)
unfolding user_message
found_message a c db f =
    find-append_none _ db.messages _ (absent-find (λ m. m.id == a.message_id) db.messages f)
    ∙ unfold find in ground (arith, ==_refl a.message_id)

pub submit_known :
    (seen : List Run) (b : Submission) (k : String) (now : ℕ) (db : Db) (run : Run)
    → is_blank b ≡ false
    → clean_key b.idempotency_key ≡ some k
    → invalid_key (some k) ≡ false
    → known_key (some k) b.user_id seen ≡ some run
    → submit seen b now db ≡ existing_answer b run db
unfolding submit
submit_known seen b k now db run n c i f = ground arith

pub submit_valid :
    (seen : List Run) (a : Submission) (now : ℕ) (db : Db) {x : Message × Run} {db' : Db}
    → submit seen a now db ≡ ok (x, db')
    → (is_blank a ≡ false) × (invalid_key (clean_key a.idempotency_key) ≡ false)
unfolding submit
submit_valid seen a now db h = ground arith

pub submit_unknown :
    (seen : List Run) (a : Submission) (now : ℕ) (db : Db) {x : Message × Run} {db' : Db}
    → known_key (clean_key a.idempotency_key) a.user_id seen ≡ none
    → submit seen a now db ≡ ok (x, db')
    → submit_new a (clean_key a.idempotency_key) now db ≡ ok (x, db')
unfolding submit
submit_unknown seen a now db f h = ground arith

unresolved :
    (a : Submission) (key : Option String) (db : Db)
    → known_key key a.user_id db.runs ≡ none
    → resolve_conflict a key db ≡ err integrity_error
unfolding resolve_conflict
unresolved a key db f = ground arith

pub fresh-Written :
    (a : Submission) (key : Option String) (now : ℕ) (db : Db) (x : Message × Run) (db' : Db)
    → known_key key a.user_id db.runs ≡ none
    → submit_new a key now db ≡ ok (x, db')
    → Written a key now db x db'
unfolding submit_new submit_in
fresh-Written a key now db x db' f h = elim (Option-cases (find_owned_conversation a db)) [
  | inl e ↦ absurd (ground arith)
  | inr (c, e) ↦ elim (Bool-cases (breaks_unique a key db)) [
    | inl b ↦ absurd (ground (arith, unresolved a key db f))
    | inr b ↦ record { conversation = c; fresh = b; answer = ground arith; writes = ground arith }
  ]
]
