-- ===== src/Sync/Session.antt =====
-- engine.py: the session of an exchange, and what one call of `sync_now` reads from outside.
use dhava.Common.{
  ℕ, String, Option, none, some, List, [], ◌∷◌, map, str_eq, if◌then◌else◌, length, ◌+◌,
}
use dhava.Dict.{Dict}
use dhava.Exec.{Exec, ◌>>◌, pure}
use dhava.Models.{Time, Operation, Detail, SyncSession, text, number}
use dhava.Backend.{Bytes, Db}
use dhava.Crypto.{CompressionAlgorithm, zstd, gzip, uncompressed}
use dhava.Audit.{NewEntry, log}
use dhava.Node.{SyncEngine}
use dhava.Engine.{Engine, Pull}

-- What one call of `sync_now` reads from outside: clocks, fresh identifiers and the nonce.
pub record SyncReadings : Type 0 where
  pub session_id : String
  pub started : Time
  pub probed : Time
  pub nonce : Bytes
  pub requested : Time
  pub exchange_probed : Time
  pub exchange_elapsed : Time
  pub push_elapsed : Time
  pub received : Time
  pub synced : Time
  pub stamps : ℕ → String × Time
  pub pull_elapsed : Time
  pub ended : Time
  pub push_audit : String × Time
  pub pull_audit : String × Time
  pub status_probed : Time
  pub status_read : Time

-- the engine, and the session that `sync_now` fills in
pub record Running (V W : Type 0) : Type 0 where
  pub node : SyncEngine V W
  pub session : SyncSession

abbrev pub compression_value : CompressionAlgorithm → String
compression_value zstd = "zstd"
compression_value gzip = "gzip"
compression_value uncompressed = "none"

-- `text or default`: a text without characters counts as none
abbrev pub or_text : Option String → String → String
or_text none default = default
or_text (some s) default = if str_eq s "" then default else s

abbrev pub new_session : SyncReadings → String → SyncSession
new_session r peer = record {
  session_id = r.session_id;
  peer_node_id = peer;
  transport = "none";
  started_at = r.started;
  ended_at = none;
  ops_pushed = 0;
  bytes_pushed = 0;
  push_duration = 0;
  ops_pulled = 0;
  bytes_pulled = 0;
  pull_duration = 0;
  conflicts_detected = 0;
  conflicts_resolved = 0;
  status = "in_progress";
  error = none;
}

abbrev pub failed_session : Time → String → SyncSession → SyncSession
failed_session ended e s = record s { status = "failed"; error = some e; ended_at = some ended }

-- the dicts of a payload, each with what its audit entry would take
unfoldable pub with_stamps :
    {A : Type 0} → (ℕ → String × Time) → ℕ → List A → List (A × (String × Time))
with_stamps stamps n [] = []
with_stamps stamps n (x ∷ xs) = (x, stamps n) ∷ with_stamps stamps (n + 1) xs

abbrev pub push_details : String → String → SyncSession → Dict Detail
push_details peer link s =
    ("peer_node_id", text peer)
    ∷ ("transport", text link)
    ∷ ("operations_sent", number s.ops_pushed)
    ∷ ("bytes_transmitted", number s.bytes_pushed)
    ∷ ("duration_seconds", number s.push_duration)
    ∷ []

abbrev pub pull_details : String → String → SyncSession → Dict Detail
pull_details peer link s =
    ("peer_node_id", text peer)
    ∷ ("transport", text link)
    ∷ ("operations_received", number s.ops_pulled)
    ∷ ("bytes_received", number s.bytes_pulled)
    ∷ ("duration_seconds", number s.pull_duration)
    ∷ []

abbrev pub entry_of : String → Dict Detail → NewEntry
entry_of action details = record {
  action_type = action;
  details = details;
  user_id = none;
  authority = none;
  timestamp = none;
}

abbrev pub ids_of : {V : Type 0} → List (Operation V) → List String
ids_of = map (λ op. op.op_id)

abbrev pub no_pull : Pull
no_pull = record { pulled_ops_count = 0; conflicts_detected = 0; conflicts_resolved = 0 }

abbrev pub completed : SyncReadings → Pull → SyncSession → SyncSession
completed r p s = record s {
  pull_duration = r.pull_elapsed;
  ops_pulled = p.pulled_ops_count;
  conflicts_detected = p.conflicts_detected;
  conflicts_resolved = p.conflicts_resolved;
  status = "completed";
  ended_at = some r.ended;
}

abbrev pub log_entry : {V : Type 0} → Engine V → String × Time → NewEntry → Exec (Db V) (Unit {0})
log_entry e (uuid, now) entry = log e.audit uuid now entry >> pure tt

abbrev pub pushed :
    {V : Type 0} → SyncReadings → Bytes → List (Operation V) → SyncSession → SyncSession
pushed r request pending s = record s {
  push_duration = r.push_elapsed;
  bytes_pushed = length request;
  ops_pushed = length pending;
}
