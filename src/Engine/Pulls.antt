-- ===== src/Engine/Pulls.antt =====
-- Taking in a remote operation: what one turn of the loop leaves of the record and of the clocks.
use dhava.Common.{
  ◌+◌, max, ◌<◌, String, ◌≡◌, refl, ap, ◌∙◌, sym, Bool, true, false, ◌&&◌, none, some, List, arith,
  find,
}
use dhava.Result.{Result, ok}
use dhava.Exec.{◌>>◌}
use dhava.Models.{Time, Operation, Record}
use dhava.Conflict.{Resolution, resolve}
use dhava.Backend.{Db}
use dhava.Store.{apply_operation}
use dhava.Store
use dhava.Store.Apply.{
  current, stored, record_after, apply_operation-stored, current-stored, get-find,
}
use dhava.Audit.{AuditLogger, NewEntry, has_audit_id}
use dhava.Audit.Trail.{log-eq}
use dhava.Engine.{
  Engine, Pull, takes, is_conflict, log_conflict, log_if, apply_if, settle, counted, absorb,
  absorb_as,
}

abbrev conflict_entry : Resolution → NewEntry
conflict_entry resolution = record {
  action_type = "conflict_resolved";
  details = resolution.audit_detail;
  user_id = none;
  authority = none;
  timestamp = none;
}

module _ {V : Type 0} where
  -- A run that succeeds over a database with these records, and leaves no transaction open.
  record IsSettled (records : List (Record V)) (run : Result (Unit {0}) × Db V) : Type 0 where
    pub returns : run.0 ≡ ok tt
    pub rows : run.1.records ≡ records
    pub idle : run.1.in_transaction ≡ false

  logged-IsSettled :
      (b : Bool) (l : AuditLogger) (stamp : String × Time) (r : Resolution) (d : Db V)
      → d.in_transaction ≡ false
      → find (has_audit_id stamp.0) d.audit_log ≡ none
      → IsSettled d.records (log_if b (log_conflict l stamp r) d)
  logged-IsSettled false l stamp r d idle unlogged = record {
    returns = refl;
    rows = refl;
    idle = idle;
  }
  logged-IsSettled true l (uuid, now) r d idle unlogged =
      rw (log-eq l uuid now (conflict_entry r) d idle, unlogged)
        (record { returns = refl; rows = refl; idle = refl })

  abbrev settled_records : Bool → Operation V → Db V → List (Record V)
  settled_records true op db = (stored op db).records
  settled_records false op db = db.records

  settle-IsSettled :
      (e : Engine V) (stamp : String × Time) (op : Operation V) (r : Resolution) (db : Db V)
      → db.in_transaction ≡ false
      → find (has_audit_id stamp.0) db.audit_log ≡ none
      → IsSettled (settled_records (takes r.action) op db) (settle e stamp op r db)
  unfolding settle stored
  settle-IsSettled e stamp op r db idle unlogged = go (takes r.action)
    where
      logs : Bool
      logs = e.config.audit_enabled && is_conflict r.comparison

      go :
          (b : Bool)
          → IsSettled
              (settled_records b op db)
              ((apply_if b op >> log_if logs (log_conflict e.audit stamp r)) db)
      go false = logged-IsSettled logs e.audit stamp r db idle unlogged
      go true =
          rw (apply_operation-stored op db idle)
            (logged-IsSettled logs e.audit stamp r (stored op db) refl unlogged)

  -- the record that a resolution leaves
  abbrev pub settled_record : Bool → Record V → Operation V → Record V
  settled_record true rec op = record_after (some rec) op
  settled_record false rec op = rec

  current-settled :
      (b : Bool) (rec : Record V) (op : Operation V) (db d : Db V)
      → current op db ≡ some rec
      → d.records ≡ settled_records b op db
      → current op d ≡ some (settled_record b rec op)
  current-settled true rec op db d found rows =
      get-find op.collection op.record_id d
      ∙ ap (find (Store.has_key op.collection op.record_id)) rows
      ∙ sym (get-find op.collection op.record_id (stored op db))
      ∙ current-stored op db
      ∙ ap (λ o. some (record_after o op)) found
  current-settled false rec op db d found rows =
      get-find op.collection op.record_id d
      ∙ ap (find (Store.has_key op.collection op.record_id)) rows
      ∙ sym (get-find op.collection op.record_id db)
      ∙ found

  -- What one turn of the loop leaves, if its statements succeed.
  record IsAbsorbed (e : Engine V) (op : Operation V) (r : Resolution) (p : Pull)
      (run : Result Pull × Engine V) : Type 0 where
    pub returns : run.0 ≡ ok (counted r p)
    pub rows : run.1.db.records ≡ settled_records (takes r.action) op e.db
    pub counter : run.1.lamport_counter ≡ max e.lamport_counter op.lamport_timestamp + 1
    pub idle : run.1.db.in_transaction ≡ false

  absorb_as-IsAbsorbed :
      (stamp : String × Time) (op : Operation V) (r : Resolution) (p : Pull) (e : Engine V)
      → e.db.in_transaction ≡ false
      → find (has_audit_id stamp.0) e.db.audit_log ≡ none
      → IsAbsorbed e op r p (absorb_as stamp op r p e)
  unfolding absorb_as
  absorb_as-IsAbsorbed stamp op r p e idle unlogged =
      let done = settle-IsSettled e stamp op r e.db idle unlogged in
      rw done.returns
        (record { returns = refl; rows = done.rows; counter = refl; idle = done.idle })

  absorb-found :
      (stamp : String × Time) (op : Operation V) (p : Pull) (e : Engine V) (rec : Record V)
      → current op e.db ≡ some rec
      → absorb stamp op p e ≡ absorb_as stamp op (resolve e.conflict_resolver (some rec) op) p e
  unfolding absorb
  absorb-found stamp op p e rec found =
      ap (λ o. absorb_as stamp op (resolve e.conflict_resolver o op) p e) found

  -- An operation that meets a record is taken in, outside a transaction and with a fresh identifier
  -- for the audit entry: the run returns the new counts, and the record is the one that the operation
  -- prescribes if the resolver takes the operation, else the record that was there. The counter is
  -- then more than the operation's and more than it was.
  pub absorb_lem :
      (stamp : String × Time) (op : Operation V) (p : Pull) (e : Engine V) (rec : Record V)
      → e.db.in_transaction ≡ false
      → find (has_audit_id stamp.0) e.db.audit_log ≡ none
      → current op e.db ≡ some rec
      → let r = resolve e.conflict_resolver (some rec) op in
        ((absorb stamp op p e).0 ≡ ok (counted r p))
        × (current op (absorb stamp op p e).1.db ≡ some (settled_record (takes r.action) rec op))
        × (op.lamport_timestamp < (absorb stamp op p e).1.lamport_counter)
        × (e.lamport_counter < (absorb stamp op p e).1.lamport_counter)
  absorb_lem stamp op p e rec idle unlogged found =
      let r = resolve e.conflict_resolver (some rec) op in
      let done = absorb_as-IsAbsorbed stamp op r p e idle unlogged in
      rw (absorb-found stamp op p e rec found) (
        done.returns,
        current-settled (takes r.action) rec op e.db (absorb_as stamp op r p e).1.db found
            done.rows,
        omega (arith, done.counter),
        omega (arith, done.counter),
      )
