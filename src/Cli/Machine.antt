-- ===== src/Cli/Machine.antt =====
-- cli.py: the files and the console of a machine, the default paths, and the key file.
use dhava.Common.{
  ℕ, String, ◌<>◌, Bool, true, false, ◌||◌, Option, none, some, List, [], ◌∷◌, ◌++◌, if◌then◌else◌,
}
use dhava.Dict
use dhava.Dict.{Dict}
use dhava.Result.{Result, ok, raise}
use dhava.Exec.{Exec, ◌>>=◌, modify}
use dhava.Models.{Time, Record, Priority, SyncSession}
use dhava.Backend.{Bytes}
use dhava.Backend.Connection.{Content, SqliteBackend, is_memory}
use dhava.Crypto.Keys.{Drawing, generate_key}
use dhava.Transport.{Transport}
use dhava.Engine.{EngineConfig}
use dhava.Node.{SyncEngine, EngineStatus}
use dhava.Node.Create.{create_engine}

-- what a command shows
pub data Line (V : Type 0) : Type 0 where
  initialized : String → String → String → Bytes → Line V
  no_database : String → Line V
  status_table : String → EngineStatus → Line V
  invalid_json : String → Line V
  stored : String → String → ℕ → Priority → Line V
  no_records : String → Line V
  record_table : String → List (Record V) → Line V
  initiating starting stopping stopped benchmark_complete : Line V
  sync_completed : SyncSession → Line V
  sync_failed : Option String → Line V
  status_line : EngineStatus → Line V
  benchmarking : ℕ → Line V
  benchmark_row : String → ℕ → ℕ → Time → Time → Line V

-- the machine on which a command runs, and the world that its links reach
pub record Machine (V W : Type 0) : Type 0 where
  pub home : String
  pub key_files : Dict Bytes
  pub databases : Dict (Content V)
  pub screen : List (Line V)
  pub world : W

-- `typer.Exit(code=1)`
abbrev pub exit_1 : String
exit_1 = "Exit(1)"

-- The options that the commands share.
pub record Options : Type 0 where
  pub node_id : String
  pub db_path : String
  pub key_path : String

abbrev pub is_there : {A : Type 0} → Option A → Bool
is_there none = false
is_there (some a) = true

module _ {V W : Type 0} where
  -- `path.exists()`
  abbrev pub exists : String → Machine V W → Bool
  exists path m = is_there (Dict.get path m.key_files) || is_there (Dict.get path m.databases)

  -- the file in the directory of the program, or the one in the old directory if only that is there
  unfoldable pub default_path : String → Machine V W → String
  unfolding Dict.get
  default_path name m =
      let dhava_path = m.home <> "/.dhava/" <> name in
      let legacy_path = m.home <> "/.ddil-sync/" <> name in
      if exists dhava_path m
      then dhava_path
      else if exists legacy_path m
      then legacy_path
      else dhava_path

  unfoldable pub get_default_key_path : Machine V W → String
  unfolding default_path
  get_default_key_path = default_path "node_key.bin"

  unfoldable pub get_default_db_path : Machine V W → String
  unfolding default_path
  get_default_db_path = default_path "store.db"

  abbrev pub print : Line V → Exec (Machine V W) (Unit {0})
  print line = modify (λ m. record m { screen = m.screen ++ line ∷ [] })

  abbrev pub read_or_write : String → Bytes → Option Bytes → Exec (Machine V W) Bytes
  read_or_write path drawn (some key) m = (ok key, m)
  read_or_write path drawn none m =
      (ok drawn, record m { key_files = Dict.set path drawn m.key_files })

  abbrev pub path_or_default : Option String → Machine V W → String
  path_or_default none m = get_default_key_path m
  path_or_default (some path) m = path

  unfoldable pub load_or_create_key : Drawing → Option String → Exec (Machine V W) Bytes
  unfolding get_default_key_path generate_key Dict.get Dict.set
  load_or_create_key draw key_path m =
      let path = path_or_default key_path m in
      read_or_write path (generate_key draw) (Dict.get path m.key_files) m

  -- What an engine writes is in the file at once; a database in memory is gone with the command.
  abbrev pub saved : String → SyncEngine V W → Dict (Content V) → Dict (Content V)
  saved path s files = if is_memory path then files else Dict.set path (some s.engine.db) files

  abbrev pub run_created :
      {A : Type 0}
      → String
      → List (Line V)
      → Exec (SyncEngine V W) A
      → Result (SyncEngine V W) × SqliteBackend V
      → Exec (Machine V W) A
  run_created path lines body (raise e, b) m = (raise e, record m { databases = b.files })
  run_created path lines body (ok s, b) m =
      let (r, t) = body s in
      (
        r,
        record m {
          databases = saved path t b.files;
          screen = m.screen ++ lines;
          world = t.network.world;
        },
      )

  -- A command makes an engine on the database of its options, prints these lines, and calls methods
  -- on the engine.
  unfoldable pub with_engine :
      {A : Type 0}
      → Drawing
      → Time
      → Options
      → List (Transport W)
      → Option EngineConfig
      → List (Line V)
      → Exec (SyncEngine V W) A
      → Exec (Machine V W) A
  unfolding load_or_create_key create_engine Dict.set
  with_engine draw now o transports config lines body =
      load_or_create_key draw (some o.key_path) >>= λ key. λ m.
        run_created o.db_path lines body
          (create_engine draw now m.world
            (record {
              node_id = o.node_id;
              db_path = o.db_path;
              transports = transports;
              encryption_key = some key;
              config = config;
            })
            m.databases)
          m
