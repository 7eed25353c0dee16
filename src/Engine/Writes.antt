-- ===== src/Engine/Writes.antt =====
-- A local write, end to end: the record, the operation in the queue, the clocks.
use dhava.Common.{
  ◌+◌, String, ◌≡◌, refl, ap, ◌∙◌, sym, Bool, true, false, none, some, List, [], ◌∷◌, ◌++◌, arith,
  str_eq, str_eq_iff, find, if◌then◌else◌,
}
use dhava.Result.{Result, ok}
use dhava.Exec.{◌>>◌, pure}
use dhava.Models.{Operation, OperationType, Record, pending}
use dhava.VectorClock.{after, from_clocks, compare, increment}
use dhava.VectorClock.Order.{Below, compare_iff}
use dhava.VectorClock.Lattice.{count-from_clocks, count-increment, merge_least}
use dhava.Backend.{Db}
use dhava.Store.{has_key, get_vector_clock}
use dhava.Store.Apply.{
  get-find, current, stored, record_after, apply_operation-stored, current-stored,
}
use dhava.Outbox.{has_id}
use dhava.Outbox.States.{lookup}
use dhava.Outbox.Retention.{enqueue-eq, lookup-appended}
use dhava.Audit.{NewEntry, AuditLogger, has_audit_id}
use dhava.Audit.Trail.{log-eq}
use dhava.Engine.{
  Engine, Readings, LocalWrite, local_operation, local_write, commit_write, log_write, log_if,
  write_details,
}

module _ {V : Type 0} where
  abbrev entry_of : Readings → Operation V → NewEntry
  entry_of r op = record {
    action_type = "local_write";
    details = write_details op;
    user_id = op.user_id;
    authority = op.authority;
    timestamp = none;
  }

  -- A run that returns the row over a database with these records and this queue.
  pub record IsCommitted (row : Record V) (records : List (Record V)) (outbox : List (Operation V))
      (run : Result (Record V) × Db V) : Type 0 where
    pub returns : run.0 ≡ ok row
    pub rows : run.1.records ≡ records
    pub queue : run.1.outbox ≡ outbox
    pub idle : run.1.in_transaction ≡ false

  logged-IsCommitted :
      (b : Bool) (l : AuditLogger) (r : Readings) (op : Operation V) (row : Record V) (d : Db V)
      → d.in_transaction ≡ false
      → find (has_audit_id r.audit_uuid) d.audit_log ≡ none
      → IsCommitted row d.records d.outbox ((log_if b (log_write l r op) >> pure row) d)
  logged-IsCommitted false l r op row d idle unlogged = record {
    returns = refl;
    rows = refl;
    queue = refl;
    idle = idle;
  }
  logged-IsCommitted true l r op row d idle unlogged =
      rw (log-eq l r.audit_uuid r.logged (entry_of r op) d idle, unlogged)
        (record { returns = refl; rows = refl; queue = refl; idle = refl })

  commit_write-IsCommitted :
      (e : Engine V) (r : Readings) (op : Operation V) (db : Db V)
      → db.in_transaction ≡ false
      → lookup op.op_id db ≡ none
      → find (has_audit_id r.audit_uuid) db.audit_log ≡ none
      → IsCommitted
          (record_after (current op db) op)
          (stored op db).records
          (db.outbox ++ op ∷ [])
          (commit_write e r op db)
  unfolding commit_write stored
  commit_write-IsCommitted e r op db idle fresh unlogged = rw (apply_operation-stored op db idle) (
      rw (enqueue-eq op (stored op db) refl, fresh)
        (logged-IsCommitted e.config.audit_enabled e.audit r op (record_after (current op db) op)
          (record (stored op db) { outbox = db.outbox ++ op ∷ []; in_transaction = false }) refl
          unlogged))

  -- A local write outside a transaction, whose two identifiers are fresh, succeeds. It returns the
  -- record that the type of the operation prescribes, and that record is read back under its key; the
  -- operation is in the queue, pending, under its identifier, and every other identifier shows there
  -- what it showed.
  pub local_write_lem :
      (t : OperationType) (r : Readings) (w : LocalWrite V) (e : Engine V) (id : String)
      → e.db.in_transaction ≡ false
      → lookup r.op_uuid e.db ≡ none
      → find (has_audit_id r.audit_uuid) e.db.audit_log ≡ none
      → let op = local_operation t r w e in
        let row = record_after (current op e.db) op in
        ((local_write t r w e).0 ≡ ok row)
        × (current op (local_write t r w e).1.db ≡ some row)
        × (lookup id (local_write t r w e).1.db
            ≡ (if str_eq r.op_uuid id then some op else lookup id e.db))
        × (op.sync_state ≡ pending)
  unfolding local_write local_operation
  local_write_lem t r w e id idle fresh unlogged = (
    done.returns,
    get-find op.collection op.record_id _
        ∙ ap (find (has_key op.collection op.record_id)) done.rows
        ∙ sym (get-find op.collection op.record_id (stored op e.db))
        ∙ current-stored op e.db,
    ap (find (has_id id)) done.queue ∙ lookup-appended op e.db.outbox id fresh,
    refl,
  )
    where
      op : Operation V
      op = local_operation t r w e

      done :
          IsCommitted
            (record_after (current op e.db) op)
            (stored op e.db).records
            (e.db.outbox ++ op ∷ [])
            (commit_write e r op e.db)
      done = commit_write-IsCommitted e r op e.db idle fresh unlogged

  pub local_write_idle :
      (t : OperationType) (r : Readings) (w : LocalWrite V) (e : Engine V)
      → e.db.in_transaction ≡ false
      → lookup r.op_uuid e.db ≡ none
      → find (has_audit_id r.audit_uuid) e.db.audit_log ≡ none
      → (local_write t r w e).1.db.in_transaction ≡ false
  unfolding local_write local_operation
  local_write_idle t r w e idle fresh unlogged =
      (commit_write-IsCommitted e r (local_operation t r w e) e.db idle fresh unlogged).idle

  -- The clock of a local write is causally after the clock that the record had; the global clock
  -- takes it in, and falls nowhere; and the counter goes up by one. This holds also of a write that
  -- raises.
  pub local_write_clocks :
      (t : OperationType) (r : Readings) (w : LocalWrite V) (e : Engine V)
      → let op = local_operation t r w e in
        let before_clock = get_vector_clock w.collection w.record_id e.db in
        let done = (local_write t r w e).1 in
        (compare (from_clocks op.vector_clock) before_clock.clocks ≡ after)
        × Below op.vector_clock done.global_vector_clock.clocks
        × Below e.global_vector_clock.clocks done.global_vector_clock.clocks
        × (done.lamport_counter ≡ e.lamport_counter + 1)
  unfolding local_write local_operation
  local_write_clocks t r w e =
      let before_clock = get_vector_clock w.collection w.record_id e.db in
      let next = increment before_clock e.node_id in
      let least = merge_least e.global_vector_clock next.clocks in
      (
        (compare_iff (from_clocks next.clocks) before_clock.clocks after).1 (
          λ node. grind (
            arith,
            count-from_clocks node next.clocks,
            count-increment before_clock e.node_id node,
          ),
          (
            e.node_id,
            grind (
              arith,
              count-from_clocks e.node_id next.clocks,
              count-increment before_clock e.node_id e.node_id,
              str_eq_iff e.node_id e.node_id,
            ),
          ),
        ),
        least.1,
        least.0,
        refl,
      )
