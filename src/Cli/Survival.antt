-- ===== src/Cli/Survival.antt =====
-- cli.py: what a command writes, the next command reads.
use dhava.Common.{ℕ, String, ◌≡◌, refl, ap, ◌∙◌, true, false, Option, none, some, List, find}
use dhava.Dict
use dhava.Dict.{Dict}
use dhava.Result.{Result, ok}
use dhava.Exec.{gets}
use dhava.Models.{Time, Record, Priority, priority_of}
use dhava.Backend.{Bytes, Db}
use dhava.Crypto.Keys.{Drawing}
use dhava.Store
use dhava.Store.{has_key, hide_deleted}
use dhava.Store.Reads.{get-visible}
use dhava.Outbox.States.{lookup}
use dhava.Audit.{has_audit_id}
use dhava.Transport.{Transport}
use dhava.Engine.{EngineConfig, Readings}
use dhava.Engine.Queries
use dhava.Node.{on_engine}
use dhava.Node.Create.Restart.{tables_of}
use dhava.Cli.Machine.{Machine, Options, Line, with_engine}
use dhava.Cli.Commands.{Texts, WriteArguments, write}
use dhava.Cli.Writes.{IsInitialized, with_engine-runs, write-IsWritten}

module _ {V : Type 0} where
  visible-records :
      (c i : String) (db d : Db V) (row : Record V)
      → d.records ≡ db.records
      → Store.get c i true db ≡ some row
      → row.deleted ≡ false
      → Store.get c i false d ≡ some row
  unfolding Store.get
  visible-records c i db d row same found live =
      ap (λ rows. hide_deleted false (find (has_key c i) rows)) same
      ∙ get-visible c i db
      ∙ ap (hide_deleted false) found
      ∙ rw live refl

module _ {V W : Type 0} where
  -- A write survives its command: on a machine that was initialised, a write with valid JSON and a
  -- valid priority, whose two identifiers are new to the file, returns, and an engine that the next
  -- command of the node makes on the file finds under the key a live record with exactly these data.
  pub write_survives :
      (draw : Drawing) (now : Time) (o : Options) (m : Machine V W) (texts : Texts V) (r : Readings)
      (a : WriteArguments) (b : ℕ) (bs : Bytes) (contents : Dict V) (p : Priority)
      (draw_later : Drawing) (later : Time) (transports : List (Transport W))
      (config : Option EngineConfig) (lines : List (Line V))
      → IsInitialized draw now o m b bs
      → texts.json_loads a.data_json ≡ ok contents
      → priority_of (texts.upper a.priority) ≡ ok p
      → lookup r.op_uuid (tables_of (Dict.get o.db_path m.databases)) ≡ none
      → find (has_audit_id r.audit_uuid) (tables_of (Dict.get o.db_path m.databases)).audit_log
        ≡ none
      → ((write texts draw now r o a m).0 ≡ ok tt)
        × ((row : Record V) × (row.contents ≡ contents)
            × ((with_engine draw_later later o transports config lines
                  (on_engine (gets (Queries.get a.collection a.record_id)))
                  (write texts draw now r o a m).1).0
                ≡ ok (some row)))
  unfolding Queries.get
  write_survives draw now o m texts r a b bs contents p draw_later later transports config lines i
        json priority fresh unlogged =
      let (done, (d, written)) =
        write-IsWritten draw now o m texts r a b bs contents p i json priority fresh unlogged in
      let after = (write texts draw now r o a m).1 in
      let still : IsInitialized draw_later later o after b bs = record {
        key = ap (Dict.get o.key_path) written.key_files ∙ i.key;
        full = i.full;
        disk = i.disk;
        idle = ap (λ c. (tables_of c).in_transaction) written.in_file ∙ written.idle;
      } in
      let (s, restarted, (files, ran)) =
        with_engine-runs draw_later later o after b bs transports config lines
          (on_engine (gets (Queries.get a.collection a.record_id))) still in
      (
        done,
        (
          written.row,
          written.holds.0,
          ap (λ (x : Result (Option (Record V)) × Machine V W). x.0) ran
              ∙ ap ok (
                  visible-records a.collection a.record_id d s.engine.db written.row
                    (restarted.records ∙ ap (λ c. (tables_of c).records) written.in_file)
                    written.found written.holds.1),
        ),
      )
