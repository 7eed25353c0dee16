-- ===== src/Models/Wire.antt =====
-- models.py: `to_dict` and `from_dict`. A dict that goes over the wire is a record with one field to a
-- key, `none` if the key is absent. Keys that the readers ignore are left out, and each value has the
-- type that the writers give it. Where a reader treats a null like an absent key, both are `none`.
use dhava.Common.{ℕ, String, Bool, false, Option, some, []}
use dhava.Dict.{Dict}
use dhava.Result.{Result, ok, item, or_default, ◌>>=◌}
use dhava.Models.{
  Time, Operation, Record, AuditEntry, SyncSession, Detail, p2, pending, priority_value,
  priority_of, op_type_value, op_type_of, sync_state_value, sync_state_of,
}

pub record OperationDict (V : Type 0) : Type 0 where
  pub op_id : Option String
  pub node_id : Option String
  pub op_type : Option String
  pub collection : Option String
  pub record_id : Option String
  pub payload : Option (Dict V)
  pub timestamp : Option Time
  pub vector_clock : Option (Dict ℕ)
  pub lamport_timestamp : Option ℕ
  pub priority : Option String
  pub user_id : Option String
  pub authority : Option String
  pub source_module : Option String
  pub sync_state : Option String
  pub synced_at : Option Time
  pub sync_attempts : Option ℕ
  pub last_error : Option String
  pub enqueued_at : Option Time

unfoldable pub operation_to_dict : {V : Type 0} → Operation V → OperationDict V
operation_to_dict x = record {
  op_id = some x.op_id;
  node_id = some x.node_id;
  op_type = some (op_type_value x.op_type);
  collection = some x.collection;
  record_id = some x.record_id;
  payload = some x.payload;
  timestamp = some x.timestamp;
  vector_clock = some x.vector_clock;
  lamport_timestamp = some x.lamport_timestamp;
  priority = some (priority_value x.priority);
  user_id = x.user_id;
  authority = x.authority;
  source_module = some x.source_module;
  sync_state = some (sync_state_value x.sync_state);
  synced_at = x.synced_at;
  sync_attempts = some x.sync_attempts;
  last_error = x.last_error;
  enqueued_at = some x.enqueued_at;
}

unfoldable pub operation_from_dict : {V : Type 0} → OperationDict V → Result (Operation V)
unfolding item op_type_of priority_of sync_state_of
operation_from_dict d = do
  op_id ← item "op_id" d.op_id
  node_id ← item "node_id" d.node_id
  op_type_text ← item "op_type" d.op_type
  op_type ← op_type_of op_type_text
  collection ← item "collection" d.collection
  record_id ← item "record_id" d.record_id
  timestamp ← item "timestamp" d.timestamp
  lamport_timestamp ← item "lamport_timestamp" d.lamport_timestamp
  priority ← priority_of (or_default d.priority (priority_value p2))
  sync_state ← sync_state_of (or_default d.sync_state (sync_state_value pending))
  ok (record {
    op_id = op_id;
    node_id = node_id;
    op_type = op_type;
    collection = collection;
    record_id = record_id;
    payload = or_default d.payload [];
    timestamp = timestamp;
    vector_clock = or_default d.vector_clock [];
    lamport_timestamp = lamport_timestamp;
    priority = priority;
    user_id = d.user_id;
    authority = d.authority;
    source_module = or_default d.source_module "app";
    sync_state = sync_state;
    synced_at = d.synced_at;
    sync_attempts = or_default d.sync_attempts 0;
    last_error = d.last_error;
    enqueued_at = or_default d.enqueued_at timestamp;
  })

pub record RecordDict (V : Type 0) : Type 0 where
  pub record_id : Option String
  pub collection : Option String
  pub contents : Option (Dict V)
  pub version : Option ℕ
  pub vector_clock : Option (Dict ℕ)
  pub last_modified : Option Time
  pub last_modified_by : Option String
  pub deleted : Option Bool
  pub deleted_at : Option Time

unfoldable pub record_to_dict : {V : Type 0} → Record V → RecordDict V
record_to_dict x = record {
  record_id = some x.record_id;
  collection = some x.collection;
  contents = some x.contents;
  version = some x.version;
  vector_clock = some x.vector_clock;
  last_modified = some x.last_modified;
  last_modified_by = some x.last_modified_by;
  deleted = some x.deleted;
  deleted_at = x.deleted_at;
}

unfoldable pub record_from_dict : {V : Type 0} → RecordDict V → Result (Record V)
unfolding item
record_from_dict d = do
  record_id ← item "record_id" d.record_id
  collection ← item "collection" d.collection
  version ← item "version" d.version
  last_modified ← item "last_modified" d.last_modified
  last_modified_by ← item "last_modified_by" d.last_modified_by
  ok (record {
    record_id = record_id;
    collection = collection;
    contents = or_default d.contents [];
    version = version;
    vector_clock = or_default d.vector_clock [];
    last_modified = last_modified;
    last_modified_by = last_modified_by;
    deleted = or_default d.deleted false;
    deleted_at = d.deleted_at;
  })

pub record AuditEntryDict : Type 0 where
  pub audit_id : Option String
  pub timestamp : Option Time
  pub action_type : Option String
  pub node_id : Option String
  pub details : Option (Dict Detail)
  pub user_id : Option String
  pub authority : Option String

unfoldable pub entry_to_dict : AuditEntry → AuditEntryDict
entry_to_dict x = record {
  audit_id = some x.audit_id;
  timestamp = some x.timestamp;
  action_type = some x.action_type;
  node_id = some x.node_id;
  details = some x.details;
  user_id = x.user_id;
  authority = x.authority;
}

unfoldable pub entry_from_dict : AuditEntryDict → Result AuditEntry
unfolding item
entry_from_dict d = do
  audit_id ← item "audit_id" d.audit_id
  timestamp ← item "timestamp" d.timestamp
  action_type ← item "action_type" d.action_type
  node_id ← item "node_id" d.node_id
  ok (record {
    audit_id = audit_id;
    timestamp = timestamp;
    action_type = action_type;
    node_id = node_id;
    details = or_default d.details [];
    user_id = d.user_id;
    authority = d.authority;
  })

pub record SyncSessionDict : Type 0 where
  pub session_id : Option String
  pub peer_node_id : Option String
  pub transport : Option String
  pub started_at : Option Time
  pub ended_at : Option Time
  pub ops_pushed : Option ℕ
  pub bytes_pushed : Option ℕ
  pub push_duration : Option ℕ
  pub ops_pulled : Option ℕ
  pub bytes_pulled : Option ℕ
  pub pull_duration : Option ℕ
  pub conflicts_detected : Option ℕ
  pub conflicts_resolved : Option ℕ
  pub status : Option String
  pub error : Option String

unfoldable pub session_to_dict : SyncSession → SyncSessionDict
session_to_dict x = record {
  session_id = some x.session_id;
  peer_node_id = some x.peer_node_id;
  transport = some x.transport;
  started_at = some x.started_at;
  ended_at = x.ended_at;
  ops_pushed = some x.ops_pushed;
  bytes_pushed = some x.bytes_pushed;
  push_duration = some x.push_duration;
  ops_pulled = some x.ops_pulled;
  bytes_pulled = some x.bytes_pulled;
  pull_duration = some x.pull_duration;
  conflicts_detected = some x.conflicts_detected;
  conflicts_resolved = some x.conflicts_resolved;
  status = some x.status;
  error = x.error;
}

unfoldable pub session_from_dict : SyncSessionDict → Result SyncSession
unfolding item
session_from_dict d = do
  session_id ← item "session_id" d.session_id
  peer_node_id ← item "peer_node_id" d.peer_node_id
  transport ← item "transport" d.transport
  started_at ← item "started_at" d.started_at
  ok (record {
    session_id = session_id;
    peer_node_id = peer_node_id;
    transport = transport;
    started_at = started_at;
    ended_at = d.ended_at;
    ops_pushed = or_default d.ops_pushed 0;
    bytes_pushed = or_default d.bytes_pushed 0;
    push_duration = or_default d.push_duration 0;
    ops_pulled = or_default d.ops_pulled 0;
    bytes_pulled = or_default d.bytes_pulled 0;
    pull_duration = or_default d.pull_duration 0;
    conflicts_detected = or_default d.conflicts_detected 0;
    conflicts_resolved = or_default d.conflicts_resolved 0;
    status = or_default d.status "in_progress";
    error = d.error;
  })
