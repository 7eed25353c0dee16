-- ===== src/Outbox.antt =====
-- outbox.py: the queue of operations that wait for synchronisation, over the `outbox` table.
pub mod Order
pub mod States
pub mod Retention
pub mod Counts
pub mod Waiting
use dhava.Common.{
  ℕ, ◌+◌, ◌-◌, String, Bool, true, false, not, ◌&&◌, ◌||◌, Option, none, some, List, [], ◌∷◌, ◌++◌,
  leb, ltb, ◌==◌, str_eq, if◌then◌else◌, length, take, select, find, update_where, delete_where,
}
use dhava.Common.Sort.{sort}
use dhava.Dict
use dhava.Dict.{Dict}
use dhava.Result.{Result, ok, raise}
use dhava.Exec.{Exec, modify}
use dhava.Models.{
  Time, Operation, Priority, SyncState, Detail, pending, synced, failed, conflicted, level,
  priorities, priority_value,
}
use dhava.Backend.{Db, transaction}

-- `sync_state = ?`
abbrev pub in_state : SyncState → SyncState → Bool
in_state pending pending = true
in_state synced synced = true
in_state failed failed = true
in_state conflicted conflicted = true
in_state _ _ = false

-- `priority = ?`
abbrev pub same_priority : Priority → Priority → Bool
same_priority p q = str_eq (priority_value p) (priority_value q)

-- `priority IN (...)`
unfoldable pub priority_in : List Priority → Priority → Bool
priority_in [] p = false
priority_in (q ∷ qs) p = same_priority p q || priority_in qs p

-- `[p.value for p in Priority if p.level <= max_priority.level]`
unfoldable pub allowed : Priority → List Priority
unfolding select level
allowed max_priority = select (λ p. leb (level p) (level max_priority)) priorities

-- What the caller of `get_pending` selects by.
pub record Selection : Type 0 where
  pub priority : Option Priority
  pub max_priority : Option Priority
  pub collection : Option String

-- an exact priority, or else a cutoff
abbrev pub priority_allowed : Option Priority → Option Priority → Priority → Bool
priority_allowed (some q) cutoff p = same_priority p q
priority_allowed none (some q) p = priority_in (allowed q) p
priority_allowed none none p = true

abbrev pub collection_allowed : Option String → String → Bool
collection_allowed none c = true
collection_allowed (some d) c = str_eq c d

-- `json_dumps(conflict_detail) if conflict_detail else "Conflict detected"`
abbrev conflict_text : (Dict Detail → String) → Dict Detail → String
conflict_text json_dumps [] = "Conflict detected"
conflict_text json_dumps (d ∷ ds) = json_dumps (d ∷ ds)

module _ {V : Type 0} where
  abbrev pub has_id : String → Operation V → Bool
  has_id id op = str_eq op.op_id id

  -- `WHERE op_id IN (...)`
  abbrev pub has_id_in : List String → Operation V → Bool
  has_id_in ids op = Dict.elem op.op_id ids

  abbrev pub insert_new : Option (Operation V) → Operation V → Exec (Db V) (Unit {0})
  insert_new none op db = (ok tt, record db { outbox = db.outbox ++ op ∷ [] })
  insert_new (some _) op db = (raise "UNIQUE constraint failed: outbox.op_id", db)

  -- `op_id` is the primary key.
  unfoldable pub insert_row : Operation V → Exec (Db V) (Unit {0})
  insert_row op db = insert_new (find (has_id op.op_id) db.outbox) op db

  unfoldable pub enqueue : Operation V → Exec (Db V) (Unit {0})
  unfolding insert_row transaction find
  enqueue op = transaction (insert_row op)

  abbrev pub is_pending : Operation V → Bool
  is_pending op = in_state op.sync_state pending

  unfoldable pub pending_count : Option Priority → Db V → ℕ
  unfolding select
  pending_count none db = length (select is_pending db.outbox)
  pending_count (some p) db =
      length (select (λ op. is_pending op && same_priority op.priority p) db.outbox)

  -- `counts`, with one entry to a priority
  pub breakdown_of : List Priority → Db V → Dict ℕ
  unfolding pending_count
  breakdown_of [] db = []
  breakdown_of (p ∷ ps) db = (priority_value p, pending_count (some p) db) ∷ breakdown_of ps db

  unfoldable pub pending_breakdown : Db V → Dict ℕ
  unfolding breakdown_of
  pending_breakdown db = breakdown_of priorities db

  unfoldable pub eligible : Selection → Operation V → Bool
  unfolding allowed priority_in
  eligible s op =
      is_pending op
      && (priority_allowed s.priority s.max_priority op.priority
          && collection_allowed s.collection op.collection)

  -- `ORDER BY CASE priority ... END ASC, timestamp ASC`
  unfoldable pub urgent_first : Operation V → Operation V → Bool
  urgent_first a b =
      ltb (level a.priority) (level b.priority)
      || (level a.priority == level b.priority && leb a.timestamp b.timestamp)

  unfoldable pub get_pending : ℕ → Selection → Db V → List (Operation V)
  unfolding eligible urgent_first select sort
  get_pending limit s db = take limit (sort urgent_first (select (eligible s) db.outbox))

  -- an `UPDATE` of the outbox in a transaction of its own
  unfoldable pub update_rows :
      (Operation V → Bool) → (Operation V → Operation V) → Exec (Db V) (Unit {0})
  unfolding update_where transaction
  update_rows p f = transaction (modify (λ db. record db { outbox = update_where p f db.outbox }))

  -- `if not op_ids: return`
  abbrev unless_empty : List String → Exec (Db V) (Unit {0}) → Exec (Db V) (Unit {0})
  unless_empty [] run db = (ok tt, db)
  unless_empty (_ ∷ _) run db = run db

  unfoldable pub mark_synced : List String → Time → Exec (Db V) (Unit {0})
  unfolding update_rows Dict.elem
  mark_synced op_ids now = unless_empty op_ids (
      update_rows (has_id_in op_ids)
        (λ op. record op { sync_state = synced; synced_at = some now }))

  unfoldable pub mark_failed : List String → String → Exec (Db V) (Unit {0})
  unfolding update_rows Dict.elem
  mark_failed op_ids error = unless_empty op_ids (
      update_rows (has_id_in op_ids) (λ op. record op {
        sync_state = failed;
        sync_attempts = op.sync_attempts + 1;
        last_error = some error;
      }))

  unfoldable pub mark_conflicted :
      (Dict Detail → String) → String → Dict Detail → Exec (Db V) (Unit {0})
  unfolding update_rows
  mark_conflicted json_dumps op_id detail = update_rows (has_id op_id) (λ op. record op {
    sync_state = conflicted;
    last_error = some (conflict_text json_dumps detail);
  })

  -- The number of rows that the statement changed is returned.
  unfoldable pub reset_rows : Exec (Db V) ℕ
  unfolding update_where select
  reset_rows db = (
    ok (length (select (λ (op : Operation V). in_state op.sync_state failed) db.outbox)),
    record db {
      outbox =
          update_where (λ op. in_state op.sync_state failed)
            (λ op. record op { sync_state = pending }) db.outbox;
    },
  )

  unfoldable pub reset_in_flight : Exec (Db V) ℕ
  unfolding reset_rows transaction
  reset_in_flight = transaction reset_rows

  -- `sync_state = 'synced' AND synced_at < ?`: a null is less than nothing.
  abbrev pub expired : Time → Operation V → Bool
  expired cutoff op =
      in_state op.sync_state synced && elim op.synced_at [ none ↦ false | some t ↦ ltb t cutoff ]

  unfoldable pub purge_rows : Time → Exec (Db V) ℕ
  unfolding delete_where select
  purge_rows cutoff db = (
    ok (length (select (expired cutoff) db.outbox)),
    record db { outbox = delete_where (expired cutoff) db.outbox },
  )

  -- A cutoff before the epoch is 0 here, and no point in time is less than either.
  unfoldable pub purge_synced : Time → Time → Exec (Db V) ℕ
  unfolding purge_rows transaction
  purge_synced older_than now = transaction (purge_rows (now - older_than))

-- The flag `_sync_locked`. `lock` returns whether it was free.
unfoldable pub lock : Exec Bool Bool
lock true = (ok false, true)
lock false = (ok true, true)

unfoldable pub unlock : Exec Bool (Unit {0})
unlock locked = (ok tt, false)

unfoldable pub is_locked : Bool → Bool
is_locked locked = locked
