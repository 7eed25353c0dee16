-- ===== src/Node/Create/Restart.antt =====
-- engine.py: a node that starts again finds what it has left in the file of its database.
use dhava.Common.{
  ℕ, String, ◌≡◌, ◌≢◌, ◌⊎◌, inl, inr, refl, ap, ◌∙◌, false, Option, none, some, arith, length, ◌==◌,
  Bool-cases,
}
use mathlib.Core.Path.{subst}
use dhava.Dict
use dhava.Dict.{Dict}
use dhava.Result.{Result, ok, raise}
use dhava.Exec.{Exec}
use dhava.Models.{Time, pending, failed}
use dhava.Backend.{Bytes, Db, empty, transaction_idle}
use dhava.Backend.Connection
use dhava.Backend.Connection.{
  connect, Content, SqliteBackend, is_memory, with_tables, or_blank, run_statement,
}
use dhava.Backend.Connection.Life.{
  IsOnFile, idle_on, get-set_self, connect-file, initialize-file, run_statement_at_rest,
}
use dhava.Crypto
use dhava.Crypto.{CryptoLayer}
use dhava.Crypto.Keys.{Drawing, generate_key}
use dhava.Crypto.Keys.Laws.{new-Accepts}
use dhava.Outbox.{in_state, reset_in_flight, reset_rows}
use dhava.Outbox.States.{lookup, map_option, when}
use dhava.Outbox.Retention.{lookup-reset_in_flight}
use dhava.Node.{SyncEngine, disconnected, boot}
use dhava.Node.Create.{NewEngine, key_or, config_or_default, start_engine, create_engine}

module _ {V : Type 0} where
  -- the tables of a file: new ones, if it holds none yet
  abbrev pub tables_of : Option (Content V) → Db V
  tables_of none = empty V
  tables_of (some none) = empty V
  tables_of (some (some db)) = db

  tables_of-with : (c : Option (Content V)) → with_tables (or_blank c) ≡ some (tables_of c)
  tables_of-with none = refl
  tables_of-with (some none) = refl
  tables_of-with (some (some db)) = refl

  -- The constructor of the backend creates the tables that are not there, and keeps those that are.
  pub new-IsOnFile :
      (path : String) (files : Dict (Content V))
      → is_memory path ≡ false
      → IsOnFile path (idle_on (tables_of (Dict.get path files))) (Connection.new path files).1
  unfolding Connection.new Connection.get_connection
  new-IsOnFile path files disk =
      let connected : SqliteBackend V = record {
        db_path = path;
        conn = some (connect path);
        files = files;
      } in
      rw
        (initialize-file path none (or_blank (Dict.get path files)) connected refl
          (connect-file path disk) refl)
        (record {
          path_is = refl;
          linked = refl;
          held =
              get-set_self path (with_tables (or_blank (Dict.get path files))) files
              ∙ ap some (tables_of-with (Dict.get path files));
        })

  reset_in_flight-eq :
      (db : Db V)
      → db.in_transaction ≡ false
      → (count : ℕ) × (reset_in_flight db ≡ (ok count, (reset_in_flight db).1))
        × ((reset_in_flight db).1.records ≡ db.records)
        × ((reset_in_flight db).1.audit_log ≡ db.audit_log)
        × ((reset_in_flight db).1.in_transaction ≡ false)
  unfolding reset_in_flight reset_rows
  reset_in_flight-eq db idle = rw (transaction_idle reset_rows db idle) (_, refl, refl, refl, refl)

-- What an engine finds of its database when it starts.
pub record IsRestarted {V W : Type 0} (n : NewEngine W) (db : Db V) (s : SyncEngine V W)
    : Type 0 where
  pub node_id : s.engine.node_id ≡ n.node_id
  pub offline : s.state ≡ disconnected
  pub idle : s.engine.db.in_transaction ≡ false
  pub records : s.engine.db.records ≡ db.records
  pub trail : s.engine.db.audit_log ≡ db.audit_log
  pub queue :
      (id : String)
      → lookup id s.engine.db
        ≡ map_option
            (λ op. when (in_state op.sync_state failed) (λ o. record o { sync_state = pending }) op)
            (lookup id db)

-- the key of the layer
abbrev pub key_of : {W : Type 0} → Drawing → NewEngine W → Bytes
key_of draw n = key_or n.encryption_key (generate_key draw)

module _ {V W : Type 0} (draw : Drawing) (now : Time) (w : W) (n : NewEngine W) where
  -- a start that succeeds
  abbrev Starts : Db V → Result (SyncEngine V W) × Db V → Type 0
  Starts db run = (s : SyncEngine V W) × (run.0 ≡ ok s) × (run.1 ≡ s.engine.db) × IsRestarted n db s

  start_engine-Starts :
      (db : Db V)
      → db.in_transaction ≡ false
      → length (key_of draw n) ≡ 32
      → Starts db (start_engine draw now w n db)
  unfolding start_engine boot
  start_engine-Starts db idle full =
      let (count, eq, records, trail, still) = reset_in_flight-eq db idle in
      rw (new-Accepts (key_of draw n) full (config_or_default n.config).compression, eq)
        (
          _,
          refl,
          refl,
          record {
            node_id = refl;
            offline = refl;
            idle = still;
            records = records;
            trail = trail;
            queue = λ id. lookup-reset_in_flight db id idle;
          },
        )

  start_engine-refuses :
      (db : Db V)
      → length (key_of draw n) ≢ 32
      → start_engine draw now w n db
        ≡ (raise "Encryption key must be exactly 32 bytes (256 bits)", db)
  unfolding start_engine Crypto.new
  start_engine-refuses db wrong =
      let no : (length (key_of draw n) == 32) ≡ false = ground (arith, wrong) in rw no refl

  -- An engine is created on a file, in which no transaction is open. If the key, given or drawn, has
  -- 32 bytes, it starts without a link. The records and the trail are those of the file, or none if
  -- it had no tables; the queue is the one of the file, with every failed operation pending again; and
  -- the file holds what the engine has. With any other key `create` raises, and the file keeps its
  -- tables.
  pub create_engine-IsRestarted :
      (files : Dict (Content V))
      → is_memory n.db_path ≡ false
      → (tables_of (Dict.get n.db_path files)).in_transaction ≡ false
      → let db = tables_of (Dict.get n.db_path files) in
        let run = create_engine draw now w n files in
        ((length (key_of draw n) ≡ 32)
          × ((s : SyncEngine V W) × (run.0 ≡ ok s)
              × IsRestarted n db s
              × IsOnFile n.db_path (idle_on s.engine.db) run.1))
        ⊎ ((length (key_of draw n) ≢ 32)
            × (run.0 ≡ raise "Encryption key must be exactly 32 bytes (256 bits)")
            × IsOnFile n.db_path (idle_on db) run.1)
  unfolding create_engine
  create_engine-IsRestarted files disk idle =
      let db = tables_of (Dict.get n.db_path files) in
      let b = (Connection.new n.db_path files).1 in
      let statement : Exec (Db V) (SyncEngine V W) = start_engine draw now w n in
      let found = new-IsOnFile n.db_path files disk in
      elim (Bool-cases (length (key_of draw n) == 32)) [
        | inl full ↦
            let (s, starts, left, restarted) = start_engine-Starts db idle (ground (arith, full)) in
            let (ran, kept) =
              run_statement_at_rest n.db_path statement db b found idle
                (ap (λ (d : Db V). d.in_transaction) left ∙ restarted.idle) in
            inl (
              ground (arith, full),
              (
                s,
                ran ∙ starts,
                restarted,
                subst (λ d. IsOnFile n.db_path (idle_on d) (run_statement statement b).1) left kept,
              ),
            )
        | inr wrong ↦
            let refuses = start_engine-refuses db (λ h. ground (arith, h, wrong)) in
            let left = ap (λ (o : Result (SyncEngine V W) × Db V). o.1) refuses in
            let (ran, kept) =
              run_statement_at_rest n.db_path statement db b found idle
                (ap (λ (d : Db V). d.in_transaction) left ∙ idle) in
            inr (
              λ h. ground (arith, h, wrong),
              ran ∙ ap (λ (o : Result (SyncEngine V W) × Db V). o.0) refuses,
              subst (λ d. IsOnFile n.db_path (idle_on d) (run_statement statement b).1) left kept,
            )
      ]
