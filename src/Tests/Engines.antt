-- ===== src/Tests/Engines.antt =====
-- Two engines and the audit trail on concrete writes.
use dhava.Common.{
  ℕ, ◌+◌, ◌<◌, ◌≡◌, ◌⊎◌, refl, false, none, some, [], ◌∷◌, ◌++◌, arith, str_eq, if◌then◌else◌, find,
}
use dhava.Result.{ok, raise}
use dhava.Models.{Operation, Record, AuditEntry, update, pending, p1, text}
use dhava.VectorClock.{after, compare, from_clocks}
use dhava.VectorClock.Order.{Below}
use dhava.Conflict.{resolve}
use dhava.Store.{get_vector_clock}
use dhava.Store.Apply.{current, record_after}
use dhava.Outbox.States.{lookup}
use dhava.Audit.{AuditLogger, NewEntry, log, has_audit_id}
use dhava.Audit.Trail.{entry, log_appends}
use dhava.Engine.{
  Engine, EngineConfig, default_config, Readings, LocalWrite, Pull, local_operation, local_write,
  absorb, counted, takes,
}
use dhava.Engine.Writes.{local_write_lem, local_write_clocks}
use dhava.Engine.Pulls.{settled_record, absorb_lem}
use dhava.Engine.Convergence.{seen, ReplacedBy, exchange_converges}
use dhava.Engine.Crossing.{DeletedBy, buried, exchange_crosses}
use dhava.Tests.Resolutions.{a_b_ne, b_delete}
use dhava.Tests.{
  sample, clock_a, clock_b, vc, op_a, op_b, record_a, record_b, record_by, resolver, resolver_b,
  texts_differ, tombstone_a, delete_a,
}

abbrev pub config : EngineConfig
config = default_config

abbrev pub engine_a : Engine ℕ
engine_a = record {
  node_id = "alpha";
  config = config;
  conflict_resolver = resolver;
  audit = record { node_id = "alpha" };
  lamport_counter = 3;
  global_vector_clock = vc clock_a;
  db = sample;
}

abbrev pub engine_b : Engine ℕ
engine_b = record {
  node_id = "bravo";
  config = config;
  conflict_resolver = resolver_b;
  audit = record { node_id = "bravo" };
  lamport_counter = 3;
  global_vector_clock = vc clock_b;
  db = record sample { records = record_b ∷ [] };
}

abbrev readings : Readings
readings = record { op_uuid = "n1"; audit_uuid = "x1"; now = 600; enqueued = 601; logged = 602 }

abbrev new_position : LocalWrite ℕ
new_position = record {
  collection = "track";
  record_id = "t1";
  payload = ("lat", 11) ∷ [];
  priority = p1;
  user_id = none;
  authority = none;
  source_module = "app";
}

abbrev none_pulled : Pull
none_pulled = record { pulled_ops_count = 0; conflicts_detected = 0; conflicts_resolved = 0 }

replaced : (op : Operation ℕ) → op.op_type ≡ update → ReplacedBy (record_by op false none) op
replaced op plain = record {
  plain = rw plain refl;
  written = record { live = refl; clock = refl; stamp = refl };
  payload = refl;
}

found_a : current op_b sample ≡ some record_a
unfolding dhava.Store.get find
found_a = refl

found_b : current op_a engine_b.db ≡ some record_b
unfolding dhava.Store.get find
found_b = refl

exchange_converges_example :
    (x : Record ℕ) × (y : Record ℕ) × (current op_b
        (absorb ("x1", 700) op_b none_pulled engine_a).1.db
      ≡ some x)
    × (current op_a (absorb ("x2", 700) op_a none_pulled engine_b).1.db ≡ some y)
    × (seen x ≡ seen y)
unfolding find
exchange_converges_example =
    exchange_converges engine_a engine_b record_a record_b op_a op_b ("x1", 700) ("x2", 700)
      none_pulled none_pulled refl refl refl refl refl found_a found_b (replaced op_a refl)
      (replaced op_b refl) (texts_differ "alpha" "bravo" refl) a_b_ne

absorb_lem_example :
    let r = resolve resolver (some record_a) op_b in
    let run = absorb ("x1", 700) op_b none_pulled engine_a in
    (run.0 ≡ ok (counted r none_pulled))
    × (current op_b run.1.db ≡ some (settled_record (takes r.action) record_a op_b))
    × (op_b.lamport_timestamp < run.1.lamport_counter)
    × (engine_a.lamport_counter < run.1.lamport_counter)
unfolding find
absorb_lem_example = absorb_lem ("x1", 700) op_b none_pulled engine_a record_a refl refl found_a

n1_fresh : lookup "n1" sample ≡ none
unfolding find
n1_fresh = refl

local_write_lem_example :
    let op = local_operation update readings new_position engine_a in
    let row = record_after (current op sample) op in
    let run = local_write update readings new_position engine_a in
    (run.0 ≡ ok row)
    × (current op run.1.db ≡ some row)
    × (lookup "a1" run.1.db ≡ (if str_eq "n1" "a1" then some op else lookup "a1" sample))
    × (op.sync_state ≡ pending)
unfolding find
local_write_lem_example =
    local_write_lem update readings new_position engine_a "a1" refl n1_fresh refl

local_write_clocks_example :
    let op = local_operation update readings new_position engine_a in
    let old = get_vector_clock "track" "t1" sample in
    let done = (local_write update readings new_position engine_a).1 in
    (compare (from_clocks op.vector_clock) old.clocks ≡ after)
    × Below op.vector_clock done.global_vector_clock.clocks
    × Below clock_a done.global_vector_clock.clocks
    × (done.lamport_counter ≡ 3 + 1)
local_write_clocks_example = local_write_clocks update readings new_position engine_a

abbrev switch : NewEntry
switch = record {
  action_type = "transport_switch";
  details = ("to", text "satcom") ∷ [];
  user_id = none;
  authority = none;
  timestamp = none;
}

abbrev logger : AuditLogger
logger = record { node_id = "alpha" }

log_appends_example :
    ((find (has_audit_id "x9") sample.audit_log ≡ none)
      × (log logger "x9" 800 switch sample ≡ (
        ok (entry logger "x9" 800 switch sample),
        record sample {
          audit_log = [] ++ entry logger "x9" 800 switch sample ∷ [];
          in_transaction = false;
        },
      )))
    ⊎ ((old : AuditEntry) × (find (has_audit_id "x9") sample.audit_log ≡ some old)
        × (log logger "x9" 800 switch sample
            ≡ (raise "UNIQUE constraint failed: audit_log.audit_id", sample)))
log_appends_example = log_appends logger "x9" 800 switch sample refl

alpha-DeletedBy : DeletedBy tombstone_a delete_a
alpha-DeletedBy = record { deletes = refl; dead = refl; clock = refl; time = refl; author = refl }

-- the engine of the node that deleted
abbrev engine_deleted : Engine ℕ
engine_deleted = record engine_a { db = record sample { records = tombstone_a ∷ [] } }

tombstone_there : current op_b engine_deleted.db ≡ some tombstone_a
unfolding dhava.Store.get find
tombstone_there = refl

exchange_crosses_example :
    (x : Record ℕ) × (y : Record ℕ) × (current op_b
        (absorb ("x1", 700) op_b none_pulled engine_deleted).1.db
      ≡ some x)
    × (current delete_a (absorb ("x2", 700) delete_a none_pulled engine_b).1.db ≡ some y)
    × (seen x ≡ seen record_b)
    × (seen y ≡ buried record_b tombstone_a)
unfolding find
exchange_crosses_example =
    exchange_crosses engine_deleted engine_b tombstone_a record_b delete_a op_b ("x1", 700)
      ("x2", 700) none_pulled none_pulled refl refl refl refl tombstone_there found_b
      alpha-DeletedBy (replaced op_b refl) b_delete (omega arith)
