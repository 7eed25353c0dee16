-- ===== src/Database/Statements.antt =====
-- Each statement of the store, the queue, the trail and the registry, as an evolution of the database.
use dhava.Common.{
  ℕ, String, ◌≡◌, refl, ap, ◌∙◌, Bool, Option, none, some, List, [], ◌∷◌, str_eq_iff, if_intro,
  find, update_where, delete_where,
}
use dhava.Common.Distinct.{Tests, Keyed-append, Keyed-upsert, Keyed-select, keys-update_where}
use dhava.Dict.{Dict}
use dhava.Result.{Result}
use dhava.Exec.{modify}
use dhava.Exec.Keeps.{Keeps}
use dhava.Models.{
  Time, Operation, OperationType, Record, AuditEntry, Detail, create_entry, create, update, merge,
  delete,
}
use dhava.Backend.{Db, transaction}
use dhava.Store.{has_key, dispatch, apply_operation, write_row}
use dhava.Store.Apply.{has_key-eq, has_key_self, dispatch-record_of, columns_of, record_of, current}
use dhava.Outbox.{
  has_id, insert_row, insert_new, enqueue, update_rows, mark_synced, mark_failed, mark_conflicted,
  reset_rows, reset_in_flight, purge_rows, purge_synced,
}
use dhava.Outbox.Retention.{find-append}
use dhava.Dict
use dhava.Outbox.States.{map_option, when, find-update_where}
use dhava.Audit.{AuditLogger, NewEntry, insert_entry, append_entry, log, has_audit_id}
use dhava.Database.{
  Evolves, Ages, essence, Evolves-IsPreorder, Ages-IsPreorder, transaction-Evolves, OpsKept-refl,
  TrailGrows-refl, record_key, op_key, audit_key,
}

-- audit.py
has_audit_id-Tests : (id : String) → Tests audit_key (has_audit_id id) id
has_audit_id-Tests id e = str_eq_iff e.audit_id id

module _ {V : Type 0} where
  -- store.py
  has_key-Tests : (c i : String) → Tests record_key (has_key {V = V} c i) (c, i)
  has_key-Tests c i r = (
    λ h. let k = has_key-eq c i r h in λ j. (k.0 j, k.1 j),
    λ same.
        has_key_self c i r (ap (λ (k : String × String). k.0) same)
          (ap (λ (k : String × String). k.1) same),
  )

  columns_key :
      (t : OperationType) (row old : Record V) → record_key (columns_of t row old) ≡ record_key old
  columns_key create row old = refl
  columns_key update row old = refl
  columns_key merge row old = refl
  columns_key delete row old = refl

  dispatch-Evolves : (t : OperationType) (op : Operation V) → Keeps Evolves (dispatch t op)
  unfolding write_row
  dispatch-Evolves t op db = rw (dispatch-record_of t op db) (
    OpsKept-refl db,
    TrailGrows-refl db,
    λ s.
        let row = record_of t (current op db) op in
        (
          Keyed-upsert record_key (has_key row.collection row.record_id) (columns_of t row) row
              db.records (has_key-Tests row.collection row.record_id) (columns_key t row) s.0,
          s.1,
          s.2,
          s.3,
        ),
  )

  pub apply_operation-Evolves : (op : Operation V) → Keeps Evolves (apply_operation op)
  unfolding apply_operation
  apply_operation-Evolves op =
      transaction-Evolves (dispatch op.op_type op) (dispatch-Evolves op.op_type op)

  -- outbox.py
  has_id-Tests : (id : String) → Tests op_key (has_id {V = V} id) id
  has_id-Tests id op = str_eq_iff op.op_id id

  insert_new-Evolves :
      (op : Operation V) (db : Db V) (o : Option (Operation V))
      → find (has_id op.op_id) db.outbox ≡ o
      → Evolves db (insert_new o op db).1
  insert_new-Evolves op db (some old) found = Evolves-IsPreorder.same db
  insert_new-Evolves op db none fresh = (
    λ id kept found. (
      kept,
      find-append (has_id id) db.outbox (op ∷ [])
          ∙ ap (λ o. Dict.or_else o (find (has_id id) (op ∷ []))) found,
      refl,
    ),
    TrailGrows-refl db,
    λ s. (
      s.0,
      Keyed-append op_key (has_id op.op_id) db.outbox op (has_id-Tests op.op_id) fresh s.1,
      s.2,
      s.3,
    ),
  )

  pub enqueue-Evolves : (op : Operation V) → Keeps Evolves (enqueue op)
  unfolding enqueue insert_row
  enqueue-Evolves op =
      transaction-Evolves (insert_row op)
        (λ db. insert_new-Evolves op db (find (has_id op.op_id) db.outbox) refl)

  -- what an `UPDATE` may not touch
  abbrev pub IsMark : (Operation V → Operation V) → Type 0
  IsMark f = (op : Operation V) → ((f op).op_id ≡ op.op_id) × (essence (f op) ≡ essence op)

  marked-Evolves :
      (p : Operation V → Bool) (f : Operation V → Operation V)
      → IsMark f
      → (db : Db V) → Evolves db (record db { outbox = update_where p f db.outbox })
  marked-Evolves p f mark db = (
    λ id op found. (
      when (p op) f op,
      find-update_where id p f db.outbox (λ o. (mark o).0)
          ∙ ap (map_option (λ o. when (p o) f o)) found,
      if_intro (λ o. essence o ≡ essence op) (p op) (f op) op (λ _. (mark op).1) (λ _. refl),
    ),
    TrailGrows-refl db,
    λ s. (s.0, rw (keys-update_where op_key p f db.outbox (λ o. (mark o).0)) s.1, s.2, s.3),
  )

  update_rows-Evolves :
      (p : Operation V → Bool) (f : Operation V → Operation V)
      → IsMark f
      → Keeps Evolves (update_rows p f)
  unfolding update_rows
  update_rows-Evolves p f mark =
      transaction-Evolves
        (modify (λ (db : Db V). record db { outbox = update_where p f db.outbox }))
        (marked-Evolves p f mark)

  pub mark_synced-Evolves :
      (ids : List String) (now : Time) → Keeps Evolves (mark_synced {V = V} ids now)
  unfolding mark_synced
  mark_synced-Evolves [] now db = Evolves-IsPreorder.same db
  mark_synced-Evolves (i ∷ ids) now db = update_rows-Evolves _ _ (λ op. (refl, refl)) db

  pub mark_failed-Evolves :
      (ids : List String) (e : String) → Keeps Evolves (mark_failed {V = V} ids e)
  unfolding mark_failed
  mark_failed-Evolves [] e db = Evolves-IsPreorder.same db
  mark_failed-Evolves (i ∷ ids) e db = update_rows-Evolves _ _ (λ op. (refl, refl)) db

  pub mark_conflicted-Evolves :
      (dumps : Dict Detail → String) (id : String) (d : Dict Detail)
      → Keeps Evolves (mark_conflicted {V = V} dumps id d)
  unfolding mark_conflicted
  mark_conflicted-Evolves dumps id d = update_rows-Evolves _ _ (λ op. (refl, refl))

  pub reset_in_flight-Evolves : Keeps Evolves (reset_in_flight {V = V})
  unfolding reset_in_flight reset_rows
  reset_in_flight-Evolves = transaction-Evolves reset_rows (marked-Evolves _ _ (λ op. (refl, refl)))

  append_entry-Evolves :
      (e : AuditEntry) (db : Db V) (o : Option AuditEntry)
      → find (has_audit_id e.audit_id) db.audit_log ≡ o
      → Evolves db (append_entry o e db).1
  append_entry-Evolves e db (some old) found = Evolves-IsPreorder.same db
  append_entry-Evolves e db none fresh = (
    OpsKept-refl db,
    (e ∷ [], refl),
    λ s. (
      s.0,
      s.1,
      Keyed-append audit_key (has_audit_id e.audit_id) db.audit_log e
          (has_audit_id-Tests e.audit_id) fresh s.2,
      s.3,
    ),
  )

  pub log-Evolves :
      (l : AuditLogger) (uuid : String) (now : Time) (n : NewEntry)
      → Keeps Evolves (log {V = V} l uuid now n)
  unfolding log insert_entry
  log-Evolves l uuid now n =
      let e =
        create_entry uuid now n.action_type l.node_id n.details n.user_id n.authority n.timestamp in
      transaction-Evolves (insert_entry e)
        (λ db. append_entry-Evolves e db (find (has_audit_id e.audit_id) db.audit_log) refl)

  -- The removal of operations keeps the trail and the keys.
  pub purge_synced-Ages : (older_than now : Time) → Keeps Ages (purge_synced {V = V} older_than now)
  unfolding purge_synced purge_rows transaction delete_where
  purge_synced-Ages older_than now db =
      if_intro (λ (run : Result ℕ × Db V). Ages db run.1) db.in_transaction _ _
        (λ _. Ages-IsPreorder.same db)
        (λ _. (TrailGrows-refl db, λ s. (s.0, Keyed-select op_key _ db.outbox s.1, s.2, s.3)))
