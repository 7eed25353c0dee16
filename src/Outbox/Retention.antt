-- ===== src/Outbox/Retention.antt =====
-- The queue over its whole life: entry, reset after a failure, and removal.
use dhava.Common.{
  ℕ, ◌+◌, ◌-◌, String, ◌≡◌, ◌<◌, ltb, ◌&&◌, Option, refl, ap, ◌∙◌, ◌⊎◌, inl, inr, Bool, true, false,
  not, none, some, List, [], ◌∷◌, ◌++◌, arith, str_eq, str_eq_iff, if◌then◌else◌, Bool-cases,
  length, select, length-select-not, find,
}
use dhava.Dict
use dhava.Result.{Result, ok, raise}
use dhava.Models.{Time, Operation, SyncState, pending, synced, failed, conflicted}
use dhava.Backend.{Db, transaction_idle, finish}
use dhava.Outbox.{
  in_state, has_id, enqueue, insert_row, insert_new, reset_rows, reset_in_flight, purge_rows,
  purge_synced, expired,
}
use dhava.Outbox.States.{lookup, map_option, when, find-update_where}

module _ {V : Type 0} where
  -- `reset_in_flight` makes every failed operation pending again and changes nothing else of it, nor
  -- of any other operation.
  pub lookup-reset_in_flight :
      (db : Db V) (id : String)
      → db.in_transaction ≡ false
      → lookup id (reset_in_flight db).1
        ≡ map_option
            (λ op. when (in_state op.sync_state failed) (λ o. record o { sync_state = pending }) op)
            (lookup id db)
  unfolding reset_in_flight
  lookup-reset_in_flight db id idle =
      ap (λ (o : Result ℕ × Db V). lookup id o.1) (transaction_idle reset_rows db idle)
      ∙ find-update_where id (λ op. in_state op.sync_state failed)
          (λ op. record op { sync_state = pending }) db.outbox (λ op. refl)

  -- The operation was synchronised before a point in time.
  abbrev pub IsOld : Time → Operation V → Type 0
  IsOld cutoff op = (op.sync_state ≡ synced) × ((t : Time) × (op.synced_at ≡ some t) × (t < cutoff))

  pub expired-IsOld :
      (cutoff : Time) (op : Operation V) → expired cutoff op ≡ true → IsOld cutoff op
  expired-IsOld cutoff op = go op.sync_state op.synced_at
    where
      go :
          (s : SyncState) (at : Option Time)
          → (in_state s synced && elim at [ none ↦ false | some t ↦ ltb t cutoff ]) ≡ true
          → (s ≡ synced) × ((t : Time) × (at ≡ some t) × (t < cutoff))
      go synced (some t) h = (refl, (t, refl, ground (arith, h)))
      go synced none h = cc h
      go pending at h = cc h
      go failed at h = cc h
      go conflicted at h = cc h

  IsOld-expired : (cutoff : Time) (op : Operation V) → IsOld cutoff op → expired cutoff op ≡ true
  IsOld-expired cutoff op (done, (t, at, before)) = rw (done, at) (ground (arith, before))

  -- The rows of a list that are not old, in their order.
  pub data IsRetained (cutoff : Time) : List (Operation V) → List (Operation V) → Type 0 where
    no_rows : IsRetained cutoff [] []
    keeps :
        {op : Operation V} {rows left : List (Operation V)}
        → ¬ IsOld cutoff op
        → IsRetained cutoff rows left
        → IsRetained cutoff (op ∷ rows) (op ∷ left)
    drops :
        {op : Operation V} {rows left : List (Operation V)}
        → IsOld cutoff op
        → IsRetained cutoff rows left
        → IsRetained cutoff (op ∷ rows) left

  abbrev kept : Time → List (Operation V) → List (Operation V)
  kept cutoff rows = select (λ op. not (expired cutoff op)) rows

  purge_synced-eq :
      (older_than now : Time) (db : Db V)
      → db.in_transaction ≡ false
      → let cutoff = now - older_than in
        purge_synced older_than now db ≡ (
          ok (length (select (expired cutoff) db.outbox)),
          record db { outbox = kept cutoff db.outbox; in_transaction = false },
        )
  unfolding purge_synced
  purge_synced-eq older_than now db idle = transaction_idle (purge_rows (now - older_than)) db idle

  kept-IsRetained :
      (cutoff : Time) (rows : List (Operation V)) → IsRetained cutoff rows (kept cutoff rows)
  unfolding select
  kept-IsRetained cutoff [] = no_rows
  kept-IsRetained cutoff (op ∷ rows) = elim (Bool-cases (expired cutoff op)) [
    | inl old ↦ rw old (drops (expired-IsOld cutoff op old) (kept-IsRetained cutoff rows))
    | inr recent ↦
        rw recent
          (keeps (λ h. cc (IsOld-expired cutoff op h, recent)) (kept-IsRetained cutoff rows))
  ]

  -- Outside a transaction, `purge_synced` deletes exactly the operations that were synchronised before
  -- the time that is as long ago as asked, and returns how many they were. Every other operation stays,
  -- one that waits as well as one that was synchronised later, unchanged and in its place.
  pub purge_synced_lem :
      (older_than now : Time) (db : Db V)
      → db.in_transaction ≡ false
      → (removed : ℕ) × ((purge_synced older_than now db).0 ≡ ok removed)
        × (removed + length (purge_synced older_than now db).1.outbox ≡ length db.outbox)
        × IsRetained (now - older_than) db.outbox (purge_synced older_than now db).1.outbox
  purge_synced_lem older_than now db idle = rw (purge_synced-eq older_than now db idle) (
    length (select (expired (now - older_than)) db.outbox),
    refl,
    length-select-not (expired (now - older_than)) db.outbox,
    kept-IsRetained (now - older_than) db.outbox,
  )

  pub find-append :
      (p : Operation V → Bool) (xs ys : List (Operation V))
      → find p (xs ++ ys) ≡ Dict.or_else (find p xs) (find p ys)
  unfolding find
  find-append p [] ys = refl
  find-append p (x ∷ xs) ys = ground (arith, find-append p xs ys)

  pub enqueue-eq :
      (op : Operation V) (db : Db V)
      → db.in_transaction ≡ false
      → enqueue op db
        ≡ finish db (insert_new (lookup op.op_id db) op (record db { in_transaction = true }))
  unfolding enqueue
  enqueue-eq op db idle = transaction_idle (insert_row op) db idle

  pub lookup-appended :
      (op : Operation V) (rows : List (Operation V)) (id : String)
      → find (has_id op.op_id) rows ≡ none
      → find (has_id id) (rows ++ op ∷ [])
        ≡ (if str_eq op.op_id id then some op else find (has_id id) rows)
  lookup-appended op rows id fresh =
      find-append (has_id id) rows (op ∷ []) ∙ go (Bool-cases (str_eq op.op_id id))
    where
      here : find (has_id id) (op ∷ []) ≡ (if str_eq op.op_id id then some op else none)
      here = unfold find in refl

      go :
          (str_eq op.op_id id ≡ true) ⊎ (str_eq op.op_id id ≡ false)
          → Dict.or_else (find (has_id id) rows) (find (has_id id) (op ∷ []))
            ≡ (if str_eq op.op_id id then some op else find (has_id id) rows)
      go (inl same) =
          let none_there : find (has_id id) rows ≡ none =
            rw (← (str_eq_iff op.op_id id).0 same) fresh in
          ground (arith, none_there, here)
      go (inr other) = ground (arith, here)

  -- A new operation enters the queue and nothing else changes there: it is found under its
  -- identifier, and every other identifier shows what it showed.
  pub enqueue_fresh :
      (op : Operation V) (db : Db V) (id : String)
      → db.in_transaction ≡ false
      → lookup op.op_id db ≡ none
      → ((enqueue op db).0 ≡ ok tt)
        × (lookup id (enqueue op db).1 ≡ (if str_eq op.op_id id then some op else lookup id db))
  enqueue_fresh op db id idle fresh =
      rw (enqueue-eq op db idle, fresh) (refl, lookup-appended op db.outbox id fresh)

  -- An operation whose identifier is in the queue already is refused, and nothing changes.
  pub enqueue_duplicate :
      (op old : Operation V) (db : Db V)
      → db.in_transaction ≡ false
      → lookup op.op_id db ≡ some old
      → enqueue op db ≡ (raise "UNIQUE constraint failed: outbox.op_id", db)
  enqueue_duplicate op old db idle found = rw (enqueue-eq op db idle, found)
