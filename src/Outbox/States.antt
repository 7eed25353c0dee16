-- ===== src/Outbox/States.antt =====
-- What the statements that change the queue do to each operation in it.
use dhava.Common.{
  ℕ, ◌+◌, String, ◌≡◌, refl, ap, ◌∙◌, inl, inr, Bool, true, false, Option, none, some, List, [],
  ◌∷◌, arith, str_eq_iff, if◌then◌else◌, Bool-cases, select, All, All-intro, All-map, All-pair,
  All-take, All-select, select-accepts, if_intro, find, update_where,
}
use dhava.Common.Sort.{All-sort}
use dhava.Exec.{modify}
use dhava.Dict
use dhava.Result.{Result, ok}
use dhava.Models.{Time, Operation, synced, failed}
use dhava.Backend.{Db, transaction_idle}
use dhava.Outbox.{
  Selection, urgent_first, has_id, has_id_in, is_pending, update_rows, mark_synced, mark_failed,
  get_pending, eligible,
}

module _ {V : Type 0} where
  -- the operation with an identifier
  abbrev pub lookup : String → Db V → Option (Operation V)
  lookup id db = find (has_id id) db.outbox

  abbrev pub map_option : (Operation V → Operation V) → Option (Operation V) → Option (Operation V)
  map_option f none = none
  map_option f (some op) = some (f op)

  abbrev pub as_synced : Time → Operation V → Operation V
  as_synced now op = record op { sync_state = synced; synced_at = some now }

  abbrev pub as_failed : String → Operation V → Operation V
  as_failed error op = record op {
    sync_state = failed;
    sync_attempts = op.sync_attempts + 1;
    last_error = some error;
  }

  abbrev pub when : Bool → (Operation V → Operation V) → Operation V → Operation V
  when b f op = if b then f op else op

  pub find-update_where :
      (id : String) (p : Operation V → Bool) (f : Operation V → Operation V)
      (rows : List (Operation V))
      → ((op : Operation V) → (f op).op_id ≡ op.op_id)
      → find (has_id id) (update_where p f rows)
        ≡ map_option (λ op. when (p op) f op) (find (has_id id) rows)
  unfolding find update_where
  find-update_where id p f [] keeps = refl
  find-update_where id p f (op ∷ rows) keeps =
      ground (arith, str_eq_iff op.op_id id, keeps op, find-update_where id p f rows keeps)

  -- the queue after an `UPDATE` that succeeds
  pub update_rows-eq :
      (p : Operation V → Bool) (f : Operation V → Operation V) (db : Db V)
      → db.in_transaction ≡ false
      → update_rows p f db
        ≡ (ok tt, record db { outbox = update_where p f db.outbox; in_transaction = false })
  unfolding update_rows
  update_rows-eq p f db idle =
      transaction_idle (modify (λ (d : Db V). record d { outbox = update_where p f d.outbox })) db
        idle

  lookup-update_rows :
      (id : String) (p : Operation V → Bool) (f : Operation V → Operation V) (db : Db V)
      → db.in_transaction ≡ false
      → ((op : Operation V) → (f op).op_id ≡ op.op_id)
      → lookup id (update_rows p f db).1 ≡ map_option (λ op. when (p op) f op) (lookup id db)
  lookup-update_rows id p f db idle keeps =
      ap (λ (o : Result (Unit {0}) × Db V). lookup id o.1) (update_rows-eq p f db idle)
      ∙ find-update_where id p f db.outbox keeps

  map_option_none : (o : Option (Operation V)) → o ≡ map_option (λ op. op) o
  map_option_none none = refl
  map_option_none (some op) = refl

  -- `mark_synced` turns exactly the named operations into synced ones, with the time, and leaves
  -- every other operation of the queue as it was.
  pub lookup-mark_synced :
      (ids : List String) (now : Time) (db : Db V) (id : String)
      → db.in_transaction ≡ false
      → lookup id (mark_synced ids now db).1
        ≡ map_option (λ op. when (Dict.elem op.op_id ids) (as_synced now) op) (lookup id db)
  unfolding mark_synced
  lookup-mark_synced [] now db id idle = map_option_none (lookup id db)
  lookup-mark_synced (i ∷ ids) now db id idle =
      lookup-update_rows id (has_id_in (i ∷ ids)) (as_synced now) db idle (λ op. refl)

  -- `mark_failed` turns exactly the named operations into failed ones, counts one more attempt and
  -- keeps the error, and leaves every other operation of the queue as it was.
  pub lookup-mark_failed :
      (ids : List String) (error : String) (db : Db V) (id : String)
      → db.in_transaction ≡ false
      → lookup id (mark_failed ids error db).1
        ≡ map_option (λ op. when (Dict.elem op.op_id ids) (as_failed error) op) (lookup id db)
  unfolding mark_failed
  lookup-mark_failed [] error db id idle = map_option_none (lookup id db)
  lookup-mark_failed (i ∷ ids) error db id idle =
      lookup-update_rows id (has_id_in (i ∷ ids)) (as_failed error) db idle (λ op. refl)

  abbrev Parked : List String → Operation V → Type 0
  Parked ids op = Dict.elem op.op_id ids ≡ true → is_pending op ≡ false

  Parked-rows :
      (ids : List String) (error : String) (rows : List (Operation V))
      → All (Parked ids) (update_where (has_id_in ids) (as_failed error) rows)
  unfolding update_where
  Parked-rows ids error [] = tt
  Parked-rows ids error (op ∷ rows) = (
    if_intro (Parked ids) (has_id_in ids op) (as_failed error op) op (λ e h. refl) (λ e h. cc),
    Parked-rows ids error rows,
  )

  Parked-mark_failed :
      (ids : List String) (error : String) (db : Db V)
      → db.in_transaction ≡ false
      → All (Parked ids) (mark_failed ids error db).1.outbox
  unfolding mark_failed Dict.elem
  Parked-mark_failed [] error db idle = All-intro (Parked []) (λ op h. cc) db.outbox
  Parked-mark_failed (i ∷ ids) error db idle =
      rw (update_rows-eq (has_id_in (i ∷ ids)) (as_failed error) db idle)
        (Parked-rows (i ∷ ids) error db.outbox)

  eligible-is_pending :
      (s : Selection) (op : Operation V) → eligible s op ≡ true → is_pending op ≡ true
  unfolding eligible
  eligible-is_pending s op h = ground arith

  -- Outside a transaction, an operation that `mark_failed` names is not in the next batch, whatever is
  -- asked for.
  pub get_pending-mark_failed :
      (ids : List String) (error : String) (db : Db V) (limit : ℕ) (s : Selection)
      → db.in_transaction ≡ false
      → All
          (λ (op : Operation V). Dict.elem op.op_id ids ≡ false)
          (get_pending limit s (mark_failed ids error db).1)
  unfolding get_pending
  get_pending-mark_failed ids error db limit s idle = All-take Absent limit _ (
      All-sort urgent_first Absent chosen (
        All-map Both Absent (λ op h. absent op h.0 h.1) chosen
          (All-pair (Parked ids) Eligible chosen
            (All-select (Parked ids) (eligible s) rows (Parked-mark_failed ids error db idle))
            (select-accepts (eligible s) rows))))
    where
      rows : List (Operation V)
      rows = (mark_failed ids error db).1.outbox

      chosen : List (Operation V)
      chosen = select (eligible s) rows

      Absent : Operation V → Type 0
      Absent op = Dict.elem op.op_id ids ≡ false

      Eligible : Operation V → Type 0
      Eligible op = eligible s op ≡ true

      Both : Operation V → Type 0
      Both op = Parked ids op × (eligible s op ≡ true)

      absent :
          (op : Operation V) → Parked ids op → eligible s op ≡ true → Dict.elem op.op_id ids ≡ false
      absent op h e = elim (Bool-cases (Dict.elem op.op_id ids)) [
        | inl named ↦ cc (h named, eligible-is_pending s op e)
        | inr free ↦ free
      ]
