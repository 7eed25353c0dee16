-- ===== src/Cli/Commands.antt =====
-- cli.py: init, status, write, query and sync.
use dhava.Common.{ℕ, String, Option, none, some, List, [], ◌∷◌, str_eq, if◌then◌else◌, Eq}
use dhava.Dict
use dhava.Dict.{Dict}
use dhava.Result.{Result, ok, raise}
use dhava.Exec.{Exec, ◌>>=◌, ◌>>◌, pure, throw, lift, gets}
use dhava.Models.{Time, Record, Priority, SyncSession, priority_of}
use dhava.Backend.Connection
use dhava.Backend.Connection.{SqliteBackend}
use dhava.Crypto.Keys.{KeyLibrary, Drawing, generate_node_key_material}
use dhava.Transport.{Transport}
use dhava.Protocol.{Libraries}
use dhava.Engine.{Readings, LocalWrite, create_record}
use dhava.Engine.Queries
use dhava.Node.{SyncEngine, on_engine, get_status}
use dhava.Sync.{SyncReadings, sync_now}
use dhava.Cli.Machine.{
  Machine, Options, Line, initialized, no_database, status_table, invalid_json, stored, no_records,
  record_table, initiating, sync_completed, sync_failed, exit_1, exists, print, load_or_create_key,
  with_engine,
}

-- What `write` calls of other packages: `json.loads` and `str.upper`.
pub record Texts (V : Type 0) : Type 0 where
  pub json_loads : String → Result (Dict V)
  pub upper : String → String

-- The arguments of `write`.
pub record WriteArguments : Type 0 where
  pub collection : String
  pub record_id : String
  pub data_json : String
  pub priority : String

abbrev pub write_of : {V : Type 0} → WriteArguments → Dict V → Priority → LocalWrite V
write_of a contents priority = record {
  collection = a.collection;
  record_id = a.record_id;
  payload = contents;
  priority = priority;
  user_id = none;
  authority = none;
  source_module = "app";
}

abbrev pub shown : {V : Type 0} → String → List (Record V) → Line V
shown collection [] = no_records collection
shown collection (r ∷ rs) = record_table collection (r ∷ rs)

-- `if server_url`: an empty address is none
abbrev pub links_to : {W : Type 0} → (String → Transport W) → Option String → List (Transport W)
links_to http none = []
links_to http (some url) = if str_eq url "" then [] else http url ∷ []

abbrev pub report : {V : Type 0} → SyncSession → Line V
report session =
    if str_eq session.status "completed" then sync_completed session else sync_failed session.error

module _ {V W : Type 0} where
  -- `SQLiteBackend(db_path)`, then `initialize` once more
  abbrev pub create_database : String → Exec (Machine V W) (Unit {0})
  create_database path m =
      let b = (Connection.new path m.databases).1 in
      (ok tt, record m { databases = (Connection.initialize b).1.files })

  -- The bundle of keys is drawn for the public key that is shown, and nothing of it is stored.
  unfoldable pub init : KeyLibrary → Drawing → Drawing → Options → Exec (Machine V W) (Unit {0})
  unfolding load_or_create_key generate_node_key_material Connection.new Connection.initialize
  init lib draw bundle o =
      load_or_create_key draw (some o.key_path)
      >> (create_database o.db_path
          >> (lift (generate_node_key_material lib bundle o.node_id) >>= λ material.
              print (initialized o.node_id o.db_path o.key_path material.signing_public_key)))

  unfoldable pub status : Drawing → Time → Time → Time → Options → Exec (Machine V W) (Unit {0})
  unfolding with_engine get_status Dict.get
  status draw started probed now o m =
      let shows = with_engine draw started o [] none [] (get_status probed now) >>= λ s.
      print (status_table o.node_id s) in
      (if exists o.db_path m then shows else print (no_database o.db_path) >> throw exit_1) m

  -- the calls on the engine
  abbrev pub write_body :
      Texts V → Readings → WriteArguments → Dict V → Exec (SyncEngine V W) (Record V × Priority)
  write_body texts r a contents = lift (priority_of (texts.upper a.priority)) >>= λ priority.
      on_engine (create_record r (write_of a contents priority)) >>= λ rec. pure (rec, priority)

  -- The engine is made before the priority is read, which may raise.
  abbrev pub write_data :
      Texts V
      → Drawing
      → Time
      → Readings
      → Options
      → WriteArguments
      → Result (Dict V)
      → Exec (Machine V W) (Unit {0})
  write_data texts draw started r o a (raise problem) = print (invalid_json problem) >> throw exit_1
  write_data texts draw started r o a (ok contents) =
      with_engine draw started o [] none [] (write_body texts r a contents) >>= λ (rec, priority).
      print (stored a.record_id a.collection rec.version priority)

  unfoldable pub write :
      Texts V → Drawing → Time → Readings → Options → WriteArguments → Exec (Machine V W) (Unit {0})
  unfolding with_engine create_record priority_of
  write texts draw started r o a =
      write_data texts draw started r o a (texts.json_loads a.data_json)

  unfoldable pub query :
      ⦃e : Eq V⦄ → Drawing → Time → Options → String → ℕ → Exec (Machine V W) (Unit {0})
  unfolding with_engine Queries.query
  query draw started o collection limit =
      with_engine draw started o [] none [] (on_engine (gets (Queries.query collection [] limit 0)))
      >>= λ records. print (shown collection records)

  -- `http` is the constructor of the link to an address.
  unfoldable pub sync :
      Libraries V
      → (String → Transport W)
      → Drawing
      → Time
      → SyncReadings
      → Options
      → Option String
      → Exec (Machine V W) (Unit {0})
  unfolding with_engine sync_now
  sync lib http draw started r o server_url =
      with_engine draw started o (links_to http server_url) none (initiating ∷ [])
        (sync_now lib r "server")
      >>= λ session. print (report session)
