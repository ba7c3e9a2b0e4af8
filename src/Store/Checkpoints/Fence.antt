-- ===== src/Store/Checkpoints/Fence.antt =====
-- What the tool checkpoints of cloud/store.py promise to a worker that retries a run.
use kirakira_agent_online.Prelude.{
  ℕ, String, ◌≡◌, refl, ap, sym, subst, ◌∙◌, inl, inr, true, false, ◌&&◌, not, Option, none, some,
  List, [], ◌∷◌, arith, ◌==◌, str_eq, if◌then◌else◌, Result, ok, err, any, find, update, at_least,
  Fields, str_eq→eq, ==_refl, ◌≢◌, Bool-cases, Option-cases,
}
use kirakira_agent_online.Prelude.Table.{
  find-holds, find-update, find-append_some, find-append_none,
}
use kirakira_agent_online.Store.{StoreError, Run}
use kirakira_agent_online.Store.Checkpoints.{
  RunToolCheckpoint, fresh, replay, Slot, in_slot, started, answer, begin_tool_checkpoint, finished,
  finish_slot, finish_tool_checkpoint,
}

-- The two transactions as calls.
pub data SlotCall : Type 0 where
  begin_slot : Slot → (signature tool_name : String) → Fields → (now : ℕ) → SlotCall
  finish : Slot → (signature status output : String) → Option String → (now : ℕ) → SlotCall

unfoldable pub rows_after {ℓ} :
    {A : Type ℓ}
    → List RunToolCheckpoint
    → Result StoreError (A × List RunToolCheckpoint)
    → List RunToolCheckpoint
rows_after rows (ok (a, rows')) = rows'
rows_after rows (err e) = rows

unfoldable pub slot_call : List Run → SlotCall → List RunToolCheckpoint → List RunToolCheckpoint
unfolding rows_after
slot_call runs (begin_slot s g n a now) rows =
    rows_after rows (begin_tool_checkpoint s g n a now runs rows)
slot_call runs (finish s g t o m now) rows =
    rows_after rows (finish_tool_checkpoint s g t o m now rows)

unfoldable pub slot_calls :
    List Run → List SlotCall → List RunToolCheckpoint → List RunToolCheckpoint
slot_calls runs [] rows = rows
slot_calls runs (c ∷ more) rows = slot_calls runs more (slot_call runs c rows)

-- A slot that was begun with a signature.
pub record Held (s : Slot) (signature : String) (rows : List RunToolCheckpoint) : Type 0 where
  pub row : RunToolCheckpoint
  pub found : find (in_slot s) rows ≡ some row
  pub signed : row.signature ≡ signature

pub begin-Held :
    (q : Slot) (x : String) (s : Slot) (g n : String) (a : Fields) (now : ℕ) (runs : List Run)
    (rows : List RunToolCheckpoint)
    → Held q x rows
    → Held q x (rows_after rows (begin_tool_checkpoint s g n a now runs rows))
unfolding rows_after begin_tool_checkpoint
begin-Held q x s g n a now runs rows h = elim (Bool-cases (any (λ r. r.id == s.run_id) runs)) [
  | inr e ↦ subst (Held q x) (sym (ground arith)) h
  | inl e ↦ elim (Option-cases (find (in_slot s) rows)) [
    | inl f ↦ subst (Held q x) (sym (ground arith)) (record {
      row = h.row;
      found = find-append_some (in_slot q) rows (started s g n a now ∷ []) h.row h.found;
      signed = h.signed;
    })
    | inr (c, f) ↦ subst (Held q x) (sym (ground arith)) h
  ]
]

finished-Held :
    (q : Slot) (x : String) (s : Slot) (t o : String) (m : Option String) (now : ℕ)
    (rows : List RunToolCheckpoint)
    → Held q x rows
    → Held q x (update (in_slot s) (finished t o m now) rows)
unfolding finished in_slot
finished-Held q x s t o m now rows h = record {
  row = if in_slot s h.row then finished t o m now h.row else h.row;
  found = find-update (in_slot s) (finished t o m now) (in_slot q) (λ c. refl) rows h.row h.found;
  signed = ground (arith, h.signed);
}

pub finish-Held :
    (q : Slot) (x : String) (s : Slot) (g t o : String) (m : Option String) (now : ℕ)
    (rows : List RunToolCheckpoint)
    → Held q x rows
    → Held q x (rows_after rows (finish_tool_checkpoint s g t o m now rows))
unfolding rows_after finish_tool_checkpoint finish_slot
finish-Held q x s g t o m now rows h =
    elim (Bool-cases (not (str_eq t "success") && not (str_eq t "error"))) [
      | inl e ↦ subst (Held q x) (sym (ground arith)) h
      | inr e ↦ elim (Option-cases (find (in_slot s) rows)) [
        | inl f ↦ subst (Held q x) (sym (ground arith)) h
        | inr (c, f) ↦ elim (Bool-cases (str_eq c.signature g)) [
          | inl i ↦ subst (Held q x) (sym (ground arith)) (finished-Held q x s t o m now rows h)
          | inr i ↦ subst (Held q x) (sym (ground arith)) h
        ]
      ]
    ]

pub slot_calls-Held :
    (q : Slot) (x : String) (runs : List Run) (more : List SlotCall) (rows : List RunToolCheckpoint)
    → Held q x rows
    → Held q x (slot_calls runs more rows)
unfolding slot_calls slot_call
slot_calls-Held q x runs [] rows h = h
slot_calls-Held q x runs (begin_slot s g n a now ∷ more) rows h =
    slot_calls-Held q x runs more _ (begin-Held q x s g n a now runs rows h)
slot_calls-Held q x runs (finish s g t o m now ∷ more) rows h =
    slot_calls-Held q x runs more _ (finish-Held q x s g t o m now rows h)

pub answer-fresh : (g : String) (c : RunToolCheckpoint) → answer g c ≡ fresh → ⊥
unfolding answer
answer-fresh g c h = ground arith

pub started_found :
    (s : Slot) (g n : String) (a : Fields) (now : ℕ)
    → find (in_slot s) (started s g n a now ∷ []) ≡ some (started s g n a now)
unfolding find in_slot started
started_found s g n a now =
    ground
      (arith, ==_refl s.run_id, ==_refl (at_least 0 s.iteration), ==_refl (at_least 0 s.call_index))

pub started-signature :
    (s : Slot) (g n : String) (a : Fields) (now : ℕ) → (started s g n a now).signature ≡ g
unfolding started
started-signature s g n a now = refl

-- A slot that is begun afresh has a row afterwards, and its run exists.
pub begun-Held :
    (s : Slot) (g n : String) (a : Fields) (now : ℕ) (runs : List Run)
    (rows : List RunToolCheckpoint) (c : RunToolCheckpoint) (rows' : List RunToolCheckpoint)
    → begin_tool_checkpoint s g n a now runs rows ≡ ok ((fresh, c), rows')
    → (any (λ r. r.id == s.run_id) runs ≡ true) × Held s g rows'
unfolding begin_tool_checkpoint
begun-Held s g n a now runs rows c rows' h = elim (Option-cases (find (in_slot s) rows)) [
  | inl f ↦ (
    ground arith,
    subst (Held s g) (ground arith) (record {
      row = started s g n a now;
      found =
          find-append_none (in_slot s) rows (started s g n a now ∷ []) f
          ∙ started_found s g n a now;
      signed = started-signature s g n a now;
    }),
  )
  | inr (d, f) ↦ absurd (answer-fresh g d (ground arith))
]

-- A slot is begun afresh once: whatever checkpoint calls follow, each later `begin` on it answers from
-- its row, with the first signature: replay or ambiguous for that signature, diverged for another one.
pub begun_once :
    (s : Slot) (g n : String) (a : Fields) (now : ℕ) (runs : List Run)
    (rows : List RunToolCheckpoint) (c : RunToolCheckpoint) (rows' : List RunToolCheckpoint)
    (more : List SlotCall) (g' n' : String) (a' : Fields) (now' : ℕ)
    → begin_tool_checkpoint s g n a now runs rows ≡ ok ((fresh, c), rows')
    → let rows'' = slot_calls runs more rows' in
      (d : RunToolCheckpoint) × (begin_tool_checkpoint s g' n' a' now' runs rows''
        ≡ ok ((answer g' d, d), rows''))
      × (d.signature ≡ g)
      × (answer g' d ≢ fresh)
unfolding begin_tool_checkpoint
begun_once s g n a now runs rows c rows' more g' n' a' now' e =
    let (r, h) = begun-Held s g n a now runs rows c rows' e in
    let k = slot_calls-Held s g runs more rows' h in
    (k.row, ground (arith, k.found), k.signed, answer-fresh g' k.row)

pub finished_row :
    (s : Slot) (t o : String) (m : Option String) (now : ℕ) (rows : List RunToolCheckpoint)
    (d : RunToolCheckpoint)
    → find (in_slot s) rows ≡ some d
    → find (in_slot s) (update (in_slot s) (finished t o m now) rows) ≡ some (finished t o m now d)
unfolding finished in_slot
finished_row s t o m now rows d f =
    find-update (in_slot s) (finished t o m now) (in_slot s) (λ c. refl) rows d f
    ∙ ground (arith, find-holds (in_slot s) rows d f)

pub ended_status :
    (t : String)
    → (not (str_eq t "success") && not (str_eq t "error")) ≡ false
    → str_eq t "started" ≡ false
ended_status t h = elim (Bool-cases (str_eq t "success")) [
  | inl e ↦ subst (λ u. str_eq u "started" ≡ false) (sym (str_eq→eq t "success" e)) refl
  | inr e ↦ subst (λ u. str_eq u "started" ≡ false) (sym (str_eq→eq t "error" (ground arith))) refl
]

finish_missing :
    (s : Slot) (g t o : String) (m : Option String) (now : ℕ) (rows : List RunToolCheckpoint)
    (c : RunToolCheckpoint) (rows' : List RunToolCheckpoint)
    → find (in_slot s) rows ≡ none
    → finish_tool_checkpoint s g t o m now rows ≡ ok (c, rows')
    → ⊥
unfolding finish_tool_checkpoint
finish_missing s g t o m now rows c rows' f h = ground arith

pub replayed :
    (s : Slot) (g n : String) (a : Fields) (now : ℕ) (runs : List Run)
    (rows : List RunToolCheckpoint) (d : RunToolCheckpoint)
    → any (λ r. r.id == s.run_id) runs ≡ true
    → find (in_slot s) rows ≡ some d
    → str_eq d.signature g ≡ true
    → str_eq d.status "started" ≡ false
    → begin_tool_checkpoint s g n a now runs rows ≡ ok ((replay, d), rows)
unfolding begin_tool_checkpoint answer
replayed s g n a now runs rows d r f i j = ground arith

finish_found :
    (s : Slot) (g t o : String) (m : Option String) (now : ℕ) (rows : List RunToolCheckpoint)
    (d c : RunToolCheckpoint) (rows' : List RunToolCheckpoint)
    → find (in_slot s) rows ≡ some d
    → finish_tool_checkpoint s g t o m now rows ≡ ok (c, rows')
    → (str_eq d.signature g ≡ true)
      × ((not (str_eq t "success") && not (str_eq t "error")) ≡ false)
      × (rows' ≡ update (in_slot s) (finished t o m now) rows)
unfolding finish_tool_checkpoint finish_slot
finish_found s g t o m now rows d c rows' f h = (ground arith, ground arith, ground arith)

-- A finished call is replayed: a `begin` on its slot with its signature answers the stored row, with the
-- output and the status that `finish_tool_checkpoint` was given, and writes nothing.
pub finish-replay :
    (s : Slot) (g t o : String) (m : Option String) (now : ℕ) (runs : List Run)
    (rows : List RunToolCheckpoint) (c : RunToolCheckpoint) (rows' : List RunToolCheckpoint)
    (n : String) (a : Fields) (now' : ℕ)
    → any (λ r. r.id == s.run_id) runs ≡ true
    → finish_tool_checkpoint s g t o m now rows ≡ ok (c, rows')
    → (d : RunToolCheckpoint) × (begin_tool_checkpoint s g n a now' runs rows'
        ≡ ok ((replay, d), rows'))
      × (d.output ≡ some o)
      × (d.status ≡ t)
unfolding finished
finish-replay s g t o m now runs rows c rows' n a now' r h =
    elim (Option-cases (find (in_slot s) rows)) [
      | inl f ↦ absurd (finish_missing s g t o m now rows c rows' f h)
      | inr (d, f) ↦
          let (i, j, e) = finish_found s g t o m now rows d c rows' f h in
          (
            finished t o m now d,
            replayed s g n a now' runs rows' (finished t o m now d) r
                (ap (find (in_slot s)) e ∙ finished_row s t o m now rows d f) i (ended_status t j),
            refl,
            refl,
          )
    ]
