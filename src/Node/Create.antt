-- ===== src/Node/Create.antt =====
-- engine.py: the factory of an engine, from the file of its database to its constructor.
pub mod Restart
use dhava.Common.{String, Option, none, some, List, [], ◌∷◌}
use dhava.Dict.{Dict}
use dhava.Result.{Result, ok, raise, ◌>>=◌}
use dhava.Exec.{Exec}
use dhava.Models.{Time}
use dhava.VectorClock.{from_clocks}
use dhava.Backend.{Bytes, Db}
use dhava.Backend.Connection
use dhava.Backend.Connection.{Content, SqliteBackend, run_statement}
use dhava.Crypto
use dhava.Crypto.Keys.{Drawing, generate_key}
use dhava.Transport.{Transport, Network, new_manager}
use dhava.Engine.{Engine, EngineConfig, default_config}
use dhava.Node.{SyncEngine, boot}

-- The arguments of `DDILSyncEngine.create`.
pub record NewEngine (W : Type 0) : Type 0 where
  pub node_id : String
  pub db_path : String
  pub transports : List (Transport W)
  pub encryption_key : Option Bytes
  pub config : Option EngineConfig

-- `encryption_key or CryptoLayer.generate_key()`: no bytes are no key.
abbrev pub key_or : Option Bytes → Bytes → Bytes
key_or none drawn = drawn
key_or (some []) drawn = drawn
key_or (some (b ∷ bs)) drawn = b ∷ bs

-- `config or EngineConfig()`
abbrev pub config_or_default : Option EngineConfig → EngineConfig
config_or_default none = default_config
config_or_default (some c) = c

module _ {V W : Type 0} where
  -- the parts that share the database
  abbrev pub parts : NewEngine W → Db V → Engine V
  parts n db =
      let c = config_or_default n.config in
      record {
        node_id = n.node_id;
        config = c;
        conflict_resolver = record {
          node_id = n.node_id;
          clock_skew_tolerance = c.clock_skew_tolerance;
        };
        audit = record { node_id = n.node_id };
        lamport_counter = 0;
        global_vector_clock = from_clocks ((n.node_id, 0) ∷ []);
        db = db;
      }

  -- What the constructor leaves in the database, if it is reached.
  abbrev pub with_database : Db V → Result (SyncEngine V W) → Result (SyncEngine V W) × Db V
  with_database db (ok s) = (ok s, s.engine.db)
  with_database db (raise e) = (raise e, db)

  unfoldable pub start_engine : Drawing → Time → W → NewEngine W → Exec (Db V) (SyncEngine V W)
  unfolding generate_key Crypto.new new_manager boot
  start_engine draw now w n db = with_database db (
      Crypto.new (key_or n.encryption_key (generate_key draw))
        (config_or_default n.config).compression
      >>= λ layer.
          boot (parts n db) layer (record { manager = new_manager n.transports []; world = w }) now)

  -- `create`: the backend is opened first.
  unfoldable pub create_engine :
      Drawing
      → Time
      → W
      → NewEngine W
      → Dict (Content V)
      → Result (SyncEngine V W) × SqliteBackend V
  unfolding start_engine Connection.new run_statement
  create_engine draw now w n files =
      run_statement (start_engine draw now w n) (Connection.new n.db_path files).1
