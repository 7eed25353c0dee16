-- ===== src/Server/Create.antt =====
-- server.py: the configuration, the constructor and the factory of a server.
use dhava.Common.{ℕ, String, Bool, true, false, Option, none, some, [], ◌∷◌}
use dhava.Dict.{Dict}
use dhava.Result.{Result, ok, ◌>>=◌}
use dhava.Exec.{Exec}
use dhava.VectorClock.{from_clocks}
use dhava.Conflict.{ConflictResolver}
use dhava.Backend.{Bytes, Db}
use dhava.Backend.Connection
use dhava.Backend.Connection.{Content, SqliteBackend, run_statement}
use dhava.Crypto
use dhava.Crypto.{CryptoLayer, zstd}
use dhava.Crypto.Keys.{Drawing, generate_key}
use dhava.Audit.{AuditLogger}
use dhava.Node.Create.{key_or}
use dhava.Server.{Server}

-- `ServerConfig`. Nothing reads the two bounds.
pub record ServerConfig : Type 0 where
  pub max_concurrent_syncs : ℕ
  pub max_payload_size_bytes : ℕ
  pub audit_enabled : Bool
  pub node_registration_required : Bool

-- `ServerConfig()`
abbrev pub default_config : ServerConfig
default_config = record {
  max_concurrent_syncs = 20;
  max_payload_size_bytes = 50_000_000;
  audit_enabled = true;
  node_registration_required = false;
}

-- `config or ServerConfig()`
abbrev pub config_or_default : Option ServerConfig → ServerConfig
config_or_default none = default_config
config_or_default (some c) = c

module _ {V : Type 0} where
  -- `__init__`
  unfoldable pub new :
      String → ConflictResolver → CryptoLayer → AuditLogger → Option ServerConfig → Db V → Server V
  unfolding from_clocks
  new id resolver crypto audit config db =
      let c = config_or_default config in
      record {
        server_node_id = id;
        conflict_resolver = resolver;
        crypto = crypto;
        audit = audit;
        audit_enabled = c.audit_enabled;
        node_registration_required = c.node_registration_required;
        lamport_counter = 0;
        global_vector_clock = from_clocks ((id, 0) ∷ []);
        db = db;
      }

  -- The resolver has its default tolerance of a second, and the layer its default algorithm.
  unfoldable pub start_server :
      Drawing → String → Option Bytes → Option ServerConfig → Exec (Db V) (Server V)
  unfolding new generate_key Crypto.new
  start_server draw id encryption_key config db = (
    Crypto.new (key_or encryption_key (generate_key draw)) zstd >>= λ layer. ok (
        new id (record { node_id = id; clock_skew_tolerance = 1_000_000 }) layer
          (record { node_id = id }) config db),
    db,
  )

  -- `create`
  unfoldable pub create_server :
      Drawing
      → String
      → String
      → Option Bytes
      → Option ServerConfig
      → Dict (Content V)
      → Result (Server V) × SqliteBackend V
  unfolding start_server Connection.new run_statement
  create_server draw id db_path encryption_key config files =
      run_statement (start_server draw id encryption_key config) (Connection.new db_path files).1
