-- ===== src/Engine.antt =====
-- engine.py: local writes, the tiers of bandwidth, and the loop that takes in pulled operations. The
-- exchange itself is Sync.
pub mod Tiers
pub mod Writes
pub mod Pulls
pub mod Fresh
pub mod Queries
pub mod Convergence
pub mod Crossing
use dhava.Common.{
  ℕ, ◌+◌, max, min, String, Bool, true, false, ◌&&◌, Option, none, some, List, [], ◌∷◌, ltb, leb,
  if◌then◌else◌,
}
use dhava.Dict.{Dict}
use dhava.Result.{Result, ok, raise}
use dhava.Exec.{Exec, ◌>>=◌, ◌>>◌, pure, lift}
use dhava.Models.{
  Time, Operation, OperationType, Record, Priority, p0, p2, p3, p4, create, update, merge, delete,
  priority_value, op_type_value, create_operation, Detail, text,
}
use dhava.Models.Wire.{OperationDict, operation_from_dict}
use dhava.VectorClock.{VectorClock, Comparison, from_clocks, increment}
use dhava.VectorClock
use dhava.Conflict.{
  ConflictResolver, Resolution, ResolutionAction, apply_remote, merge_fields, discard_remote,
  conflict_notified, Relation, non_existent, compared, resolve,
}
use dhava.Backend.{Db}
use dhava.Crypto.{CompressionAlgorithm, zstd}
use dhava.Store.{get_vector_clock, apply_operation}
use dhava.Store
use dhava.Outbox.{enqueue}
use dhava.Audit.{AuditLogger, log}

-- `EngineConfig`. Nothing reads the interval and the attempts of a retry, the size of a payload, nor
-- the size of the queue.
pub record EngineConfig : Type 0 where
  pub sync_interval : Time
  pub retry_interval : Time
  pub max_sync_attempts : ℕ
  pub max_payload_size_bytes : ℕ
  pub batch_size : ℕ
  pub low_bandwidth_threshold_bps : ℕ
  pub high_bandwidth_threshold_bps : ℕ
  pub clock_skew_tolerance : Time
  pub purge_synced_after : Time
  pub max_outbox_size : ℕ
  pub audit_enabled : Bool
  pub compression : CompressionAlgorithm

-- `EngineConfig()`
abbrev pub default_config : EngineConfig
default_config = record {
  sync_interval = 60_000_000;
  retry_interval = 15_000_000;
  max_sync_attempts = 5;
  max_payload_size_bytes = 10_000_000;
  batch_size = 100;
  low_bandwidth_threshold_bps = 128_000;
  high_bandwidth_threshold_bps = 1_000_000;
  clock_skew_tolerance = 1_000_000;
  purge_synced_after = 2_592_000_000_000;
  max_outbox_size = 100_000;
  audit_enabled = true;
  compression = zstd;
}

-- `_calculate_batch_size`
unfoldable pub calculate_batch_size : EngineConfig → ℕ → ℕ
calculate_batch_size c bandwidth_bps =
    if ltb c.high_bandwidth_threshold_bps bandwidth_bps
    then c.batch_size
    else if ltb c.low_bandwidth_threshold_bps bandwidth_bps
    then min c.batch_size 50
    else if ltb 16_000 bandwidth_bps
    then min c.batch_size 20
    else min c.batch_size 5

-- `_calculate_priority_cutoff`
unfoldable pub calculate_priority_cutoff : EngineConfig → ℕ → Priority
calculate_priority_cutoff c bandwidth_bps =
    if leb c.high_bandwidth_threshold_bps bandwidth_bps
    then p4
    else if leb c.low_bandwidth_threshold_bps bandwidth_bps
    then p3
    else if leb 16_000 bandwidth_bps
    then p2
    else p0

-- The store, the queue and the trail of an engine share one database.
pub record Engine (V : Type 0) : Type 0 where
  pub node_id : String
  pub config : EngineConfig
  pub conflict_resolver : ConflictResolver
  pub audit : AuditLogger
  pub lamport_counter : ℕ
  pub global_vector_clock : VectorClock
  pub db : Db V

-- The fresh identifiers and the readings of the clock in one local write.
pub record Readings : Type 0 where
  pub op_uuid : String
  pub audit_uuid : String
  pub now : Time
  pub enqueued : Time
  pub logged : Time

-- What the caller of a local write passes.
pub record LocalWrite (V : Type 0) : Type 0 where
  pub collection : String
  pub record_id : String
  pub payload : Dict V
  pub priority : Priority
  pub user_id : Option String
  pub authority : Option String
  pub source_module : String

-- What a pull has counted so far.
pub record Pull : Type 0 where
  pub pulled_ops_count : ℕ
  pub conflicts_detected : ℕ
  pub conflicts_resolved : ℕ

-- `resolution.action in (APPLY_REMOTE, MERGE_FIELDS)`
abbrev pub takes : ResolutionAction → Bool
takes apply_remote = true
takes merge_fields = true
takes discard_remote = false
takes conflict_notified = false

-- `resolution.comparison == "concurrent"`
abbrev pub is_conflict : Relation → Bool
is_conflict (compared Comparison.concurrent) = true
is_conflict (compared Comparison.before) = false
is_conflict (compared Comparison.after) = false
is_conflict (compared Comparison.equal) = false
is_conflict non_existent = false

abbrev pub counted : Resolution → Pull → Pull
counted resolution p = record {
  pulled_ops_count = p.pulled_ops_count + 1;
  conflicts_detected =
      if is_conflict resolution.comparison then p.conflicts_detected + 1 else p.conflicts_detected;
  conflicts_resolved =
      if takes resolution.action then p.conflicts_resolved + 1 else p.conflicts_resolved;
}

module _ {V : Type 0} where
  -- a statement on the database of the engine
  abbrev pub on_db : {A : Type 0} → Exec (Db V) A → Exec (Engine V) A
  on_db m e = let (r, d) = m e.db in (r, record e { db = d })

  -- The operation of a local write, with the incremented clock of the record.
  unfoldable pub local_operation : OperationType → Readings → LocalWrite V → Engine V → Operation V
  unfolding create_operation
  local_operation t r w e = create_operation r.op_uuid r.now r.enqueued (record {
    node_id = e.node_id;
    op_type = t;
    collection = w.collection;
    record_id = w.record_id;
    payload = w.payload;
    vector_clock = (increment (get_vector_clock w.collection w.record_id e.db) e.node_id).clocks;
    lamport_timestamp = e.lamport_counter + 1;
    priority = w.priority;
    user_id = w.user_id;
    authority = w.authority;
    source_module = w.source_module;
    timestamp = none;
  })

  abbrev pub write_details : Operation V → Dict Detail
  write_details op =
      ("op_id", text op.op_id)
      ∷ ("collection", text op.collection)
      ∷ ("record_id", text op.record_id)
      ∷ ("op_type", text (op_type_value op.op_type))
      ∷ ("priority", text (priority_value op.priority))
      ∷ []

  abbrev pub log_if : Bool → Exec (Db V) (Unit {0}) → Exec (Db V) (Unit {0})
  log_if true m db = m db
  log_if false m db = (ok tt, db)

  abbrev pub log_write : AuditLogger → Readings → Operation V → Exec (Db V) (Unit {0})
  log_write logger r op =
      log logger r.audit_uuid r.logged (record {
        action_type = "local_write";
        details = write_details op;
        user_id = op.user_id;
        authority = op.authority;
        timestamp = none;
      })
      >> pure tt

  -- apply, enqueue and log: three transactions
  unfoldable pub commit_write : Engine V → Readings → Operation V → Exec (Db V) (Record V)
  commit_write e r op = apply_operation op >>= λ stored.
      enqueue op >> (log_if e.config.audit_enabled (log_write e.audit r op) >> pure stored)

  -- The counter and the global clock move before the transactions, and stay if those raise.
  unfoldable pub local_write : OperationType → Readings → LocalWrite V → Exec (Engine V) (Record V)
  unfolding commit_write local_operation
  local_write t r w e =
      let op = local_operation t r w e in
      on_db (commit_write e r op) (record e {
        lamport_counter = e.lamport_counter + 1;
        global_vector_clock = VectorClock.merge e.global_vector_clock op.vector_clock;
      })

  unfoldable pub create_record : Readings → LocalWrite V → Exec (Engine V) (Record V)
  unfolding local_write
  create_record = local_write create

  unfoldable pub update_record : Readings → LocalWrite V → Exec (Engine V) (Record V)
  unfolding local_write
  update_record = local_write update

  unfoldable pub merge_record : Readings → LocalWrite V → Exec (Engine V) (Record V)
  unfolding local_write
  merge_record = local_write merge

  -- `delete` takes no data and returns nothing.
  unfoldable pub delete_record : Readings → LocalWrite V → Exec (Engine V) (Unit {0})
  unfolding local_write
  delete_record r w = local_write delete r (record w { payload = [] }) >> pure tt

  -- the audit entry of a conflict, with a fresh identifier and a reading of the clock
  abbrev pub log_conflict : AuditLogger → String × Time → Resolution → Exec (Db V) (Unit {0})
  log_conflict logger (uuid, now) resolution =
      log logger uuid now (record {
        action_type = "conflict_resolved";
        details = resolution.audit_detail;
        user_id = none;
        authority = none;
        timestamp = none;
      })
      >> pure tt

  -- what the store and the trail do for a resolution
  abbrev pub apply_if : Bool → Operation V → Exec (Db V) (Unit {0})
  apply_if true op = apply_operation op >> pure tt
  apply_if false op = pure tt

  unfoldable pub settle :
      Engine V → String × Time → Operation V → Resolution → Exec (Db V) (Unit {0})
  settle e stamp op resolution db =
      (apply_if (takes resolution.action) op
          >> log_if (e.config.audit_enabled && is_conflict resolution.comparison)
              (log_conflict e.audit stamp resolution))
        db

  -- one turn of the loop over the pulled operations, once the operation is resolved
  unfoldable pub absorb_as : String × Time → Operation V → Resolution → Pull → Exec (Engine V) Pull
  unfolding settle
  absorb_as stamp op resolution p e =
      (on_db (settle e stamp op resolution) >> pure (counted resolution p)) (record e {
        lamport_counter = max e.lamport_counter op.lamport_timestamp + 1;
        global_vector_clock = VectorClock.merge e.global_vector_clock op.vector_clock;
      })

  unfoldable pub absorb : String × Time → Operation V → Pull → Exec (Engine V) Pull
  unfolding absorb_as
  absorb stamp op p e =
      let found = Store.get op.collection op.record_id true e.db in
      absorb_as stamp op (resolve e.conflict_resolver found op) p e

  -- The loop of `sync_now`. Each dict comes with what its audit entry would take.
  unfoldable pub pull_operations :
      List (OperationDict V × (String × Time)) → Pull → Exec (Engine V) Pull
  unfolding absorb operation_from_dict
  pull_operations [] p = pure p
  pull_operations ((d, stamp) ∷ ds) p =
      lift (operation_from_dict d) >>= λ op. absorb stamp op p >>= λ q. pull_operations ds q
