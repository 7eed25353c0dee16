-- ===== src/Cli/Writes.antt =====
-- cli.py: a write on the command line is in the file of the database when the command returns.
use dhava.Common.{
  ℕ, ◌≡◌, refl, ap, ◌∙◌, true, false, Option, none, some, List, [], ◌∷◌, ◌++◌, length, str_eq,
  str_eq_iff, if_true, find, inl, inr,
}
use mathlib.Core.List.{append-nil}
use dhava.Dict
use dhava.Dict.{Dict}
use dhava.Result.{Result, ok}
use dhava.Exec.{Exec}
use dhava.Models.{Time, Operation, Record, Priority, create, pending, priority_of}
use dhava.Backend.{Bytes, Db}
use dhava.Backend.Connection.{Content, SqliteBackend, is_memory}
use dhava.Backend.Connection.Life.{get-set_self}
use dhava.Crypto.Keys.{Drawing}
use dhava.Store
use dhava.Store.{has_key, hide_deleted}
use dhava.Store.Apply.{current, record_after}
use dhava.Outbox.States.{lookup, map_option}
use dhava.Audit.{has_audit_id}
use dhava.Transport.{Transport}
use dhava.Engine.{EngineConfig, Readings, local_write, local_operation, create_record}
use dhava.Engine.Writes.{local_write_lem, local_write_idle}
use dhava.Node.{SyncEngine}
use dhava.Node.Create.{NewEngine, create_engine}
use dhava.Node.Create.Restart.{tables_of, IsRestarted, create_engine-IsRestarted}
use dhava.Cli.Machine.{Machine, Options, Line, stored, run_created, load_or_create_key, with_engine}
use dhava.Cli.Commands.{Texts, WriteArguments, write, write_of, write_body}

-- the arguments with which a command makes its engine
abbrev pub engine_of :
    {W : Type 0} → Options → List (Transport W) → Option EngineConfig → Bytes → NewEngine W
engine_of o transports config key = record {
  node_id = o.node_id;
  db_path = o.db_path;
  transports = transports;
  encryption_key = some key;
  config = config;
}

module _ {V W : Type 0} where
  -- the calls of a write on an engine that takes it
  write_body-ends :
      (texts : Texts V) (r : Readings) (a : WriteArguments) (contents : Dict V) (p : Priority)
      (row : Record V) (s : SyncEngine V W)
      → priority_of (texts.upper a.priority) ≡ ok p
      → (local_write create r (write_of a contents p) s.engine).0 ≡ ok row
      → write_body texts r a contents s ≡ (
        ok (row, p),
        record s { engine = (local_write create r (write_of a contents p) s.engine).1 },
      )
  unfolding create_record
  write_body-ends texts r a contents p row s priority returns = rw priority (rw returns refl)

module _ {V W : Type 0} (draw : Drawing) (now : Time) (o : Options) (m : Machine V W) where
  -- A machine that was initialised: the key file holds a key, the database is in a file, and no
  -- transaction is open in it.
  pub record IsInitialized (b : ℕ) (bs : Bytes) : Type 0 where
    pub key : Dict.get o.key_path m.key_files ≡ some (b ∷ bs)
    pub full : length (b ∷ bs) ≡ 32
    pub disk : is_memory o.db_path ≡ false
    pub idle : (tables_of (Dict.get o.db_path m.databases)).in_transaction ≡ false

  run_created-ok :
      {A : Type 0} (lines : List (Line V)) (body : Exec (SyncEngine V W) A)
      (run : Result (SyncEngine V W) × SqliteBackend V) (s : SyncEngine V W) (m' : Machine V W)
      → run.0 ≡ ok s
      → is_memory o.db_path ≡ false
      → run_created o.db_path lines body run m' ≡ (
        (body s).0,
        record m' {
          databases = Dict.set o.db_path (some (body s).1.engine.db) run.1.files;
          screen = m'.screen ++ lines;
          world = (body s).1.network.world;
        },
      )
  run_created-ok lines body run s m' started disk =
      ap (λ (x : Result (SyncEngine V W)). run_created o.db_path lines body (x, run.1) m') started
      ∙ rw disk refl

  -- the engine starts on what is in the file, and what it leaves is in the file
  pub with_engine-runs :
      {A : Type 0} (b : ℕ) (bs : Bytes) (transports : List (Transport W))
      (config : Option EngineConfig) (lines : List (Line V)) (body : Exec (SyncEngine V W) A)
      → IsInitialized b bs
      → (s : SyncEngine V W) × IsRestarted
          (engine_of o transports config (b ∷ bs))
          (tables_of (Dict.get o.db_path m.databases))
          s
        × ((files : Dict (Content V)) × (with_engine draw now o transports config lines body m ≡ (
          (body s).0,
          record m {
            databases = Dict.set o.db_path (some (body s).1.engine.db) files;
            screen = m.screen ++ lines;
            world = (body s).1.network.world;
          },
        )))
  unfolding with_engine load_or_create_key
  with_engine-runs b bs transports config lines body i =
      let n = engine_of o transports config (b ∷ bs) in
      elim (create_engine-IsRestarted draw now m.world n m.databases i.disk i.idle) [
        | inl (_, (s, starts, restarted, kept)) ↦ (
          s,
          restarted,
          (
            (create_engine draw now m.world n m.databases).1.files,
            rw i.key (
                run_created-ok lines body (create_engine draw now m.world n m.databases) s m starts
                  i.disk),
          ),
        )
        | inr (wrong, _, _) ↦ absurd (wrong i.full)
      ]

  -- What a write leaves in the file and on the console.
  pub record IsWritten (r : Readings) (a : WriteArguments) (contents : Dict V) (p : Priority)
      (before d : Db V) (after : Machine V W) : Type 0 where
    pub in_file : Dict.get o.db_path after.databases ≡ some (some d)
    pub row : Record V
    pub found : Store.get a.collection a.record_id true d ≡ some row
    pub holds : (row.contents ≡ contents) × (row.deleted ≡ false)
    pub operation : Operation V
    pub queued : lookup r.op_uuid d ≡ some operation
    pub waits :
        (operation.sync_state ≡ pending) × (operation.priority ≡ p) × (operation.payload ≡ contents)
    pub key_files : after.key_files ≡ m.key_files
    pub idle : d.in_transaction ≡ false
    pub told : after.screen ≡ m.screen ++ stored a.record_id a.collection row.version p ∷ []

  -- On a machine that was initialised, a write with valid JSON and a valid priority, whose two
  -- identifiers are new to the file, returns. In the file there is then a record under the key,
  -- live and with exactly these data, and an operation with these data and this priority that waits
  -- in the queue; the console shows the version of that record.
  pub write-IsWritten :
      (texts : Texts V) (r : Readings) (a : WriteArguments) (b : ℕ) (bs : Bytes) (contents : Dict V)
      (p : Priority)
      → IsInitialized b bs
      → texts.json_loads a.data_json ≡ ok contents
      → priority_of (texts.upper a.priority) ≡ ok p
      → lookup r.op_uuid (tables_of (Dict.get o.db_path m.databases)) ≡ none
      → find (has_audit_id r.audit_uuid) (tables_of (Dict.get o.db_path m.databases)).audit_log
        ≡ none
      → ((write texts draw now r o a m).0 ≡ ok tt)
        × ((d : Db V) × IsWritten r a contents p
              (tables_of (Dict.get o.db_path m.databases))
              d
              (write texts draw now r o a m).1)
  unfolding write create_record local_operation
  write-IsWritten texts r a b bs contents p i json priority fresh unlogged =
      let body = write_body texts r a contents in
      let (s, restarted, (files, ran)) = with_engine-runs b bs [] none [] body i in
      let w = write_of a contents p in
      let op = local_operation create r w s.engine in
      let new_op = restarted.queue r.op_uuid ∙ ap (map_option _) fresh in
      let new_entry = ap (find (has_audit_id r.audit_uuid)) restarted.trail ∙ unlogged in
      let (returns, found, queued, waits) =
        local_write_lem create r w s.engine r.op_uuid restarted.idle new_op new_entry in
      let after = (local_write create r w s.engine).1 in
      let row = record_after (current op s.engine.db) op in
      let ends = write_body-ends texts r a contents p row s priority returns in
      rw (json, ran, ends)
        (
          refl,
          (
            after.db,
            record {
              in_file = get-set_self o.db_path (some after.db) files;
              row = row;
              found = found;
              holds = (refl, refl);
              operation = op;
              queued =
                  queued
                  ∙ if_true (str_eq r.op_uuid r.op_uuid) _ _
                      ((str_eq_iff r.op_uuid r.op_uuid).1 refl);
              waits = (refl, refl, refl);
              key_files = refl;
              idle = local_write_idle create r w s.engine restarted.idle new_op new_entry;
              told =
                  ap (λ before. before ++ stored a.record_id a.collection row.version p ∷ [])
                    (append-nil m.screen);
            },
          ),
        )
