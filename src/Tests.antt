-- ===== src/Tests.antt =====
-- Data for the tests: two nodes, a few writes, and a queue.
pub mod Clocks
pub mod Resolutions
pub mod Stores
pub mod Queues
pub mod Packets
pub mod Engines
pub mod Servers
pub mod Lines
pub mod Lives
pub mod Sessions
pub mod Keys
pub mod Commands
use dhava.Common.{
  ℕ, String, ◌≡◌, refl, ◌↔◌, Bool, true, false, Option, none, some, List, [], ◌∷◌, ◌==◌, arith, Eq,
  ◌≢◌, str_eq, str_eq_iff,
}
use dhava.Dict.{Dict}
use dhava.Models.{
  Time, Operation, OperationType, Record, Priority, SyncState, create, update, delete, merge, p0,
  p1, p2, p3, pending, synced, failed,
}
use dhava.VectorClock.{VectorClock}
use dhava.Conflict.{ConflictResolver}
use dhava.Backend.{Db, empty}

abbrev pub clock_a : Dict ℕ
clock_a = ("alpha", 2) ∷ ("bravo", 1) ∷ []

abbrev pub clock_b : Dict ℕ
clock_b = ("alpha", 1) ∷ ("bravo", 2) ∷ []

abbrev pub clock_ab : Dict ℕ
clock_ab = ("alpha", 2) ∷ ("bravo", 2) ∷ []

abbrev pub clock_top : Dict ℕ
clock_top = ("alpha", 3) ∷ ("bravo", 2) ∷ []

abbrev pub vc : Dict ℕ → VectorClock
vc d = record { clocks = d }

-- an operation on the record track/t1, with natural numbers in its payload
abbrev pub operation :
    String
    → String
    → OperationType
    → Dict ℕ
    → Time
    → Dict ℕ
    → Priority
    → SyncState
    → Option Time
    → Operation ℕ
operation id node t payload time clock p s done = record {
  op_id = id;
  node_id = node;
  op_type = t;
  collection = "track";
  record_id = "t1";
  payload = payload;
  timestamp = time;
  vector_clock = clock;
  lamport_timestamp = 3;
  priority = p;
  user_id = none;
  authority = some "hq";
  source_module = "app";
  sync_state = s;
  synced_at = done;
  sync_attempts = 0;
  last_error = none;
  enqueued_at = time;
}

abbrev pub op_a : Operation ℕ
op_a = operation "a1" "alpha" update (("lat", 10) ∷ []) 500 clock_a p2 pending none

abbrev pub op_b : Operation ℕ
op_b = operation "b1" "bravo" update (("lat", 20) ∷ []) 520 clock_b p1 pending none

abbrev pub merge_b : Operation ℕ
merge_b = operation "b2" "bravo" merge (("lon", 30) ∷ []) 530 clock_ab p1 pending none

abbrev pub delete_a : Operation ℕ
delete_a = operation "a2" "alpha" delete [] 9_000 clock_a p0 pending none

abbrev pub record_by : Operation ℕ → Bool → Option Time → Record ℕ
record_by op dead at = record {
  record_id = op.record_id;
  collection = op.collection;
  contents = op.payload;
  version = 3;
  vector_clock = op.vector_clock;
  last_modified = op.timestamp;
  last_modified_by = op.node_id;
  deleted = dead;
  deleted_at = at;
}

abbrev pub record_a : Record ℕ
record_a = record_by op_a false none

abbrev pub record_b : Record ℕ
record_b = record_by op_b false none

abbrev pub tombstone_a : Record ℕ
tombstone_a = record_by delete_a true (some 9_000)

abbrev pub resolver : ConflictResolver
resolver = record { node_id = "alpha"; clock_skew_tolerance = 1_000 }

abbrev pub resolver_b : ConflictResolver
resolver_b = record { node_id = "bravo"; clock_skew_tolerance = 1_000 }

abbrev pub done_c : Operation ℕ
done_c = operation "c1" "alpha" create [] 100 clock_b p3 synced (some 200)

abbrev pub failed_d : Operation ℕ
failed_d = operation "d1" "alpha" create [] 110 clock_b p0 failed none

abbrev pub queue : List (Operation ℕ)
queue = op_a ∷ op_b ∷ done_c ∷ failed_d ∷ []

-- a database with one record and four operations in the queue
abbrev pub sample : Db ℕ
sample = record {
  records = record_a ∷ [];
  outbox = queue;
  audit_log = [];
  sync_nodes = [];
  in_transaction = false;
}

number_beq_iff : (a b : ℕ) → (a == b ≡ true) ↔ (a ≡ b)
number_beq_iff a b = (λ h. ground arith, λ h. ground arith)

instance pub number_Eq : Eq ℕ
number_Eq = record { beq = ◌==◌; beq_iff = number_beq_iff }

pub texts_differ : (a b : String) → str_eq a b ≡ false → a ≢ b
texts_differ a b h e = cc (h, (str_eq_iff a b).1 e)
