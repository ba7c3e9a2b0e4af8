-- ===== src/Store/Claim.antt =====
-- `claim_next_run` of cloud/store.py: which run it takes, and that one conversation never has two
-- running runs, whatever the query read of other transactions.
use kirakira_agent_online.Prelude.{
  ℕ, ◌+◌, ◌≤◌, String, ◌≡◌, refl, sym, ap, ◌∙◌, subst, ◌⊎◌, inl, inr, Bool, true, false, Option,
  none, some, List, [], ◌∷◌, ◌++◌, arith, ◌==◌, ==_refl, leb, if◌then◌else◌, if_ind, find, any,
  count, any-count, All, All-map, ind, ℤ, pos, negsuc, at_least, Bool-cases, Option-cases, ==→eq,
}
use kirakira_agent_online.Prelude.Table.{
  find-some, find-none, find-All, find_key-put_self, find_key-put_ne,
}
use kirakira_agent_online.Store.{
  queued, Run, RunEvent, Db, is_running, find_run, write_run, append_run_event,
}
use kirakira_agent_online.Store.Runs.{
  precedes, earliest, earlier, running_in, claimable, started_run, start_run, claim_next_run,
}
use kirakira_agent_online.Store.Valid.{Shape, RowValid, Valid, write_run-Valid}

earliest-holds :
    (p : Run → Bool) (rows : List Run) (r : Run) → earliest p rows ≡ some r → p r ≡ true
unfolding earliest
earliest-holds p [] r h = cc
earliest-holds p (x ∷ rows) r h = ground (arith, earliest-holds p rows r)

earliest-find :
    (p : Run → Bool) (rows : List Run) (r : Run)
    → count (λ x. x.id == r.id) rows ≤ 1
    → earliest p rows ≡ some r
    → find (λ x. x.id == r.id) rows ≡ some r
unfolding earliest find
earliest-find p [] r u h = cc
earliest-find p (x ∷ rows) r u h =
    ground (arith, earliest-find p rows r, find-some (λ x. x.id == r.id) rows r)

earliest-none : (p : Run → Bool) (rows : List Run) → earliest p rows ≡ none → any p rows ≡ false
unfolding earliest
earliest-none p [] h = refl
earliest-none p (x ∷ rows) h = ground (arith, earliest-none p rows)

earliest_absent : (p : Run → Bool) (rows : List Run) → any p rows ≡ false → earliest p rows ≡ none
unfolding earliest
earliest_absent p [] h = refl
earliest_absent p (x ∷ rows) h = ground (arith, earliest_absent p rows)

precedes_trans : (a b c : Run) → precedes a b ≡ true → precedes b c ≡ true → precedes a c ≡ true
unfolding precedes
precedes_trans a b c h k = ground arith

precedes_total : (a b : Run) → precedes a b ≡ false → precedes b a ≡ true
unfolding precedes
precedes_total a b h = ground arith

precedes_refl : (a : Run) → precedes a a ≡ true
unfolding precedes
precedes_refl a = ground arith

-- A lease that ends at `t` or later.
abbrev pub lease_lasts : ℕ → Option ℕ → Bool
lease_lasts t none = false
lease_lasts t (some e) = leb t e

-- `r` comes first among the rows that pass the test.
abbrev pub First : (Run → Bool) → Run → List Run → Type 0
First p r rows = All (λ x. p x ≡ true → precedes r x ≡ true) rows

First-of_none : (p : Run → Bool) (r : Run) (rows : List Run) → any p rows ≡ false → First p r rows
First-of_none p r [] h = tt
First-of_none p r (x ∷ rows) h = (λ e. absurd (ground arith), First-of_none p r rows (ground arith))

First-before :
    (p : Run → Bool) (a b : Run) (rows : List Run)
    → precedes a b ≡ true
    → First p b rows
    → First p a rows
First-before p a b rows h =
    All-map (λ x. p x ≡ true → precedes b x ≡ true) (λ x. p x ≡ true → precedes a x ≡ true) rows
      (λ x k e. precedes_trans a b x h (k e))

-- The row that `earliest` makes of a row and of the earliest of the rest precedes both.
pick_first :
    (x y r : Run) (b : Bool)
    → (if b then some (earlier x (some y)) else some y) ≡ some r
    → (b ≡ true → precedes r x ≡ true) × (precedes r y ≡ true)
unfolding earlier
pick_first x y r true h = ground (arith, precedes_refl x, precedes_refl y, precedes_total x y)
pick_first x y r false h = (λ e. cc, ground (arith, precedes_refl y))

pick_alone :
    (x r : Run) (b : Bool)
    → (if b then some (earlier x none) else none) ≡ some r
    → b ≡ true
    → precedes r x ≡ true
unfolding earlier
pick_alone x r b h e = ground (arith, precedes_refl x)

-- The earliest row comes first among those that pass the test.
earliest-First :
    (p : Run → Bool) (rows : List Run) (r : Run) → earliest p rows ≡ some r → First p r rows
unfolding earliest
earliest-First p [] r h = tt
earliest-First p (x ∷ rows) r h = elim (Option-cases (earliest p rows)) [
  | inl e ↦ (pick_alone x r (p x) (rw e at h), First-of_none p r rows (earliest-none p rows e))
  | inr (y, e) ↦
      let (hx, hy) = pick_first x y r (p x) (rw e at h) in
      (hx, First-before p r y rows hy (earliest-First p rows y e))
]

-- Starting a run of a conversation where none runs brings no second one into any conversation.
start_place :
    (w : String) (l : ℤ) (now : ℕ) (run : Run) (rows : List Run)
    → any (running_in run.conversation_id) rows ≡ false
    → (c : ℕ)
    → (ind (running_in c (started_run w l now run)) ≤ ind (running_in c run))
      ⊎ (count (running_in c) rows ≡ 0)
unfolding started_run
start_place w l now run rows n c = elim (Bool-cases (run.conversation_id == c)) [
  | inl e ↦ inr (
      subst (λ k. count (running_in k) rows ≡ 0) (==→eq run.conversation_id c e)
        (any-count (running_in run.conversation_id) rows n))
  | inr e ↦ inl (ground arith)
]

started-RowValid :
    (w : String) (l : ℤ) (now : ℕ) (run : Run)
    → Shape queued run
    → RowValid (started_run w l now run)
unfolding started_run
started-RowValid w l now run s = record { shape = (refl, refl, s.2, s.4, omega arith) }

-- The tables that a claim leaves are valid.
record Leaves (o : Option Run × Db) : Type 0 where
  valid : Valid o.1

start_run-Valid :
    (w : String) (l : ℤ) (now : ℕ) (run : Run) (db : Db)
    → Valid db
    → find_run run.id db ≡ some run
    → Shape queued run
    → Leaves (start_run w l now run db)
unfolding start_run started_run
start_run-Valid w l now run db v f s =
    if_ind Leaves (any (running_in run.conversation_id) db.runs) (λ _. record { valid = v })
      λ n. record {
        valid =
            write_run-Valid (started_run w l now run) run "run.started" _ db v f
              (started-RowValid w l now run s) (start_place w l now run db.runs n);
      }

claimable_queued :
    (seen : List Run) (locked : ℕ → Bool) (r : Run)
    → claimable seen locked r ≡ true
    → r.status ≡ queued
unfolding claimable
claimable_queued seen locked r h = ground arith

pub claimed-found :
    (seen : List Run) (locked : ℕ → Bool) (db : Db) (run : Run)
    → Valid db
    → earliest (claimable seen locked) db.runs ≡ some run
    → find_run run.id db ≡ some run
unfolding find_run
claimed-found seen locked db run v e =
    earliest-find (claimable seen locked) db.runs run (v.unique run.id) e

claim_found :
    (seen : List Run) (locked : ℕ → Bool) (w : String) (l : ℤ) (now : ℕ) (db : Db) (run : Run)
    → Valid db
    → earliest (claimable seen locked) db.runs ≡ some run
    → Leaves (start_run w l now run db)
unfolding find_run
claim_found seen locked w l now db run v e =
    let f = earliest-find (claimable seen locked) db.runs run (v.unique run.id) e in
    let q =
      claimable_queued seen locked run (earliest-holds (claimable seen locked) db.runs run e) in
    start_run-Valid w l now run db v f (
      subst (λ s. Shape s run) q
        (find-All RowValid (λ r. r.id == run.id) db.runs run v.rows f).shape)

-- A claim keeps the tables valid whatever rows `seen` its query read and whatever rows are locked: at
-- most one run of a conversation is running, rows are in the shape of their status and events are
-- numbered without gaps.
pub claim_next_run-Valid :
    (seen : List Run) (locked : ℕ → Bool) (w : String) (l : ℤ) (now : ℕ) (db : Db)
    → Valid db
    → Valid (claim_next_run seen locked w l now db).1
unfolding claim_next_run
claim_next_run-Valid seen locked w l now db v =
    elim (Option-cases (earliest (claimable seen locked) db.runs)) [
      | inl e ↦ rw (e, claim_next_run) v
      | inr (run, e) ↦ rw (e, claim_next_run) (claim_found seen locked w l now db run v e).valid
    ]

-- What a claim writes: the row of its run is the started one, the others stay, and one event is added.
pub record Writes (run run' : Run) (db db' : Db) : Type 0 where
  pub stored : find_run run.id db' ≡ some run'
  pub others : (k : ℕ) → (run.id == k) ≡ false → find_run k db' ≡ find_run k db
  pub event : RunEvent
  pub of_run : event.run_id ≡ run.id
  pub of_type : event.event_type ≡ "run.started"
  pub added : db'.events ≡ db.events ++ (event ∷ [])

earliest_named :
    (p : Run → Bool) (rows : List Run) (r : Run)
    → earliest p rows ≡ some r
    → 1 ≤ count (λ x. x.id == r.id) rows
unfolding earliest
earliest_named p [] r h = cc
earliest_named p (x ∷ rows) r h = ground (arith, earliest_named p rows r, ==_refl r.id)

start_stores :
    (w : String) (l : ℤ) (now : ℕ) (run : Run) (db : Db) (old : Run)
    → any (running_in run.conversation_id) db.runs ≡ false
    → find_run run.id db ≡ some old
    → (start_run w l now run db).0 ≡ some (started_run w l now run)
      × Writes run (started_run w l now run) db (start_run w l now run db).1
unfolding start_run started_run find_run write_run append_run_event
start_stores w l now run db old f o = rw f (
  refl,
  record {
    stored = find_key-put_self (λ (r : Run). r.id) (started_run w l now run) old db.runs o;
    others = λ k n. find_key-put_ne (λ (r : Run). r.id) (started_run w l now run) db.runs k n;
    event = _;
    of_run = refl;
    of_type = refl;
    added = refl;
  },
)

claimable_alone :
    (seen : List Run) (locked : ℕ → Bool) (r : Run)
    → claimable seen locked r ≡ true
    → any (running_in r.conversation_id) seen ≡ false
unfolding claimable
claimable_alone seen locked r h = ground arith

start_takes :
    (locked : ℕ → Bool) (w : String) (l : ℤ) (now : ℕ) (run : Run) (db : Db)
    → earliest (claimable db.runs locked) db.runs ≡ some run
    → ((start_run w l now run db).0 ≡ some (started_run w l now run))
      × Writes run (started_run w l now run) db (start_run w l now run db).1
unfolding find_run
start_takes locked w l now run db e =
    let c = earliest-holds (claimable db.runs locked) db.runs run e in
    elim (Option-cases (find (λ (x : Run). x.id == run.id) db.runs)) [
      | inl n ↦ absurd (
          omega (
            arith,
            earliest_named (claimable db.runs locked) db.runs run e,
            find-none (λ (x : Run). x.id == run.id) db.runs n,
          ))
      | inr (old, f) ↦ start_stores w l now run db old (claimable_alone db.runs locked run c) f
    ]

lease_from : (now : ℕ) (l : ℤ) → leb (now + 10) (now + at_least 10 l) ≡ true
lease_from now (pos n) = ground arith
lease_from now (negsuc n) = ground arith

-- A claim that read the current rows takes the run that comes first, by creation and id, among the
-- queued runs that are not locked and whose conversation has no running run, leases it to the worker
-- for at least ten seconds and counts the attempt: it answers that run, stores it as the run's row, leaves
-- the rows of the other runs and adds one event, `run.started` of that run. If there is no such run it
-- changes nothing.
pub claim_next_run-First :
    (locked : ℕ → Bool) (w : String) (l : ℤ) (now : ℕ) (db : Db)
    → ((any (claimable db.runs locked) db.runs ≡ false)
        × (claim_next_run db.runs locked w l now db ≡ (none, db)))
      ⊎ ((run : Run) × (claimable db.runs locked run ≡ true)
          × First (claimable db.runs locked) run db.runs
          × ((claim_next_run db.runs locked w l now db).0 ≡ some (started_run w l now run))
          × Writes run (started_run w l now run) db (claim_next_run db.runs locked w l now db).1
          × (is_running (started_run w l now run).status ≡ true)
          × ((started_run w l now run).lease_owner ≡ some w)
          × ((started_run w l now run).attempt ≡ run.attempt + 1)
          × (lease_lasts (now + 10) (started_run w l now run).lease_expires_at ≡ true))
unfolding claim_next_run started_run
claim_next_run-First locked w l now db =
    elim (Option-cases (earliest (claimable db.runs locked) db.runs)) [
      | inl e ↦
          inl (earliest-none (claimable db.runs locked) db.runs e, rw (e, claim_next_run) refl)
      | inr (run, e) ↦
          let (answer, writes) = start_takes locked w l now run db e in
          let claims : claim_next_run db.runs locked w l now db ≡ start_run w l now run db =
            rw (e, claim_next_run) refl in
          inr (
            run,
            earliest-holds (claimable db.runs locked) db.runs run e,
            earliest-First (claimable db.runs locked) db.runs run e,
            ap (λ x. x.0) claims ∙ answer,
            subst (λ x. Writes run (started_run w l now run) db x.1) (sym claims) writes,
            refl,
            refl,
            refl,
            lease_from now l,
          )
    ]
