-- ===== src/Models.antt =====
-- models.py: operations, records, audit entries and sync sessions. Points in time and durations are
-- natural numbers of microseconds. `V` is the type of the values that a payload holds.
mod Enums
pub mod Wire
pub mod RoundTrip
pub mod Media
unfoldable pub use Enums.*
use dhava.Common.{ℕ, String, Bool, Option, none, some}
use dhava.Dict.{Dict}
use dhava.Result.{or_default}

-- a point in time, in microseconds
abbrev pub Time : Type 0
Time = ℕ

pub record Operation (V : Type 0) : Type 0 where
  pub op_id : String
  pub node_id : String
  pub op_type : OperationType
  pub collection : String
  pub record_id : String
  pub payload : Dict V
  pub timestamp : Time
  pub vector_clock : Dict ℕ
  pub lamport_timestamp : ℕ
  pub priority : Priority
  pub user_id : Option String
  pub authority : Option String
  pub source_module : String
  pub sync_state : SyncState
  pub synced_at : Option Time
  pub sync_attempts : ℕ
  pub last_error : Option String
  pub enqueued_at : Time

-- What the caller of `Operation.create` passes.
pub record NewOperation (V : Type 0) : Type 0 where
  pub node_id : String
  pub op_type : OperationType
  pub collection : String
  pub record_id : String
  pub payload : Dict V
  pub vector_clock : Dict ℕ
  pub lamport_timestamp : ℕ
  pub priority : Priority
  pub user_id : Option String
  pub authority : Option String
  pub source_module : String
  pub timestamp : Option Time

-- `Operation.create`. The fresh identifier and the two readings of the clock are arguments.
unfoldable pub create_operation : {V : Type 0} → String → Time → Time → NewOperation V → Operation V
create_operation uuid now enqueued n = record {
  op_id = uuid;
  node_id = n.node_id;
  op_type = n.op_type;
  collection = n.collection;
  record_id = n.record_id;
  payload = n.payload;
  timestamp = or_default n.timestamp now;
  vector_clock = n.vector_clock;
  lamport_timestamp = n.lamport_timestamp;
  priority = n.priority;
  user_id = n.user_id;
  authority = n.authority;
  source_module = n.source_module;
  sync_state = pending;
  synced_at = none;
  sync_attempts = 0;
  last_error = none;
  enqueued_at = enqueued;
}

-- An application record in the local store.
pub record Record (V : Type 0) : Type 0 where
  pub record_id : String
  pub collection : String
  pub contents : Dict V
  pub version : ℕ
  pub vector_clock : Dict ℕ
  pub last_modified : Time
  pub last_modified_by : String
  pub deleted : Bool
  pub deleted_at : Option Time

-- The values that the program writes into the details of an audit entry.
pub data Detail : Type 0 where
  text : String → Detail
  number : ℕ → Detail
  null : Detail

pub record AuditEntry : Type 0 where
  pub audit_id : String
  pub timestamp : Time
  pub action_type : String
  pub node_id : String
  pub details : Dict Detail
  pub user_id : Option String
  pub authority : Option String

-- `AuditEntry.create`, with the fresh identifier and the reading of the clock
unfoldable pub create_entry :
    String
    → Time
    → String
    → String
    → Dict Detail
    → Option String
    → Option String
    → Option Time
    → AuditEntry
create_entry uuid now action node details user authority timestamp = record {
  audit_id = uuid;
  timestamp = or_default timestamp now;
  action_type = action;
  node_id = node;
  details = details;
  user_id = user;
  authority = authority;
}

pub record SyncSession : Type 0 where
  pub session_id : String
  pub peer_node_id : String
  pub transport : String
  pub started_at : Time
  pub ended_at : Option Time
  pub ops_pushed : ℕ
  pub bytes_pushed : ℕ
  pub push_duration : ℕ
  pub ops_pulled : ℕ
  pub bytes_pulled : ℕ
  pub pull_duration : ℕ
  pub conflicts_detected : ℕ
  pub conflicts_resolved : ℕ
  pub status : String
  pub error : Option String
