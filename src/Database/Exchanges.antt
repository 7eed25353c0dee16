-- ===== src/Database/Exchanges.antt =====
-- What the methods of the engine do to the database, whether they return or raise.
use dhava.Common.{max, String, Bool, true, false, List, [], ◌∷◌, ◌&&◌, ◌+◌}
use dhava.Exec.{Exec, ◌>>=◌, ◌>>◌, pure, lift}
use dhava.Exec.Keeps.{Keeps, IsPreorder, OnPart, OnPart-IsPreorder, Keeps->>=}
use dhava.Models.{Time, Operation, OperationType}
use dhava.Models.Wire.{OperationDict, operation_from_dict}
use dhava.Backend.{Db}
use dhava.Conflict.{Resolution, resolve}
use dhava.Audit.{AuditLogger, log}
use dhava.Store
use dhava.Store.{apply_operation}
use dhava.Outbox.{enqueue}
use dhava.Engine
use dhava.Engine.{
  Engine, Readings, LocalWrite, Pull, commit_write, local_write, local_operation, log_if, log_write,
  log_conflict, apply_if, takes, is_conflict, settle, absorb_as, absorb, pull_operations,
}
use dhava.VectorClock
use dhava.Database.{Evolves, Evolves-IsPreorder}
use dhava.Database.Statements.{apply_operation-Evolves, enqueue-Evolves, log-Evolves}

module _ {V : Type 0} where
  pub log_if-Evolves :
      (b : Bool) (m : Exec (Db V) (Unit {0})) → Keeps Evolves m → Keeps Evolves (log_if b m)
  log_if-Evolves true m k db = k db
  log_if-Evolves false m k db = Evolves-IsPreorder.same db

  pub apply_if-Evolves : (b : Bool) (op : Operation V) → Keeps Evolves (apply_if b op)
  apply_if-Evolves true op db =
      Keeps->>= Evolves Evolves-IsPreorder (apply_operation op) (λ _. pure tt)
        (apply_operation-Evolves op) (λ _ db. Evolves-IsPreorder.same db) db
  apply_if-Evolves false op db = Evolves-IsPreorder.same db

  -- a method that logs and returns nothing
  pub log_then-Evolves :
      {A : Type 0} (m : Exec (Db V) A) → Keeps Evolves m → Keeps Evolves (m >> pure tt)
  log_then-Evolves m k =
      Keeps->>= Evolves Evolves-IsPreorder m (λ _. pure tt) k (λ _ db. Evolves-IsPreorder.same db)

  pub log_conflict-Evolves :
      (l : AuditLogger) (stamp : String × Time) (resolution : Resolution)
      → Keeps Evolves (log_conflict {V = V} l stamp resolution)
  log_conflict-Evolves l (uuid, now) resolution =
      log_then-Evolves (log l uuid now _) (log-Evolves l uuid now _)

  -- engine.py
  commit_write-Evolves :
      (e : Engine V) (r : Readings) (op : Operation V) → Keeps Evolves (commit_write e r op)
  unfolding commit_write
  commit_write-Evolves e r op =
      let logs = log_if e.config.audit_enabled (log_write e.audit r op) in
      Keeps->>= Evolves Evolves-IsPreorder (apply_operation op)
        (λ stored. enqueue op >> (logs >> pure stored)) (apply_operation-Evolves op)
        (λ stored.
          Keeps->>= Evolves Evolves-IsPreorder (enqueue op) (λ _. logs >> pure stored)
            (enqueue-Evolves op)
            (λ _.
              Keeps->>= Evolves Evolves-IsPreorder logs (λ _. pure stored)
                (log_if-Evolves e.config.audit_enabled (log_write e.audit r op) (
                  log_then-Evolves (log e.audit r.audit_uuid r.logged _)
                    (log-Evolves e.audit r.audit_uuid r.logged _)))
                (λ _ db. Evolves-IsPreorder.same db)))

  abbrev pub EngineEvolves : Engine V → Engine V → Type 0
  EngineEvolves = OnPart (λ e. e.db) Evolves

  pub EngineEvolves-IsPreorder : IsPreorder EngineEvolves
  EngineEvolves-IsPreorder = OnPart-IsPreorder Evolves Evolves-IsPreorder (λ (e : Engine V). e.db)

  pub local_write-Evolves :
      (t : OperationType) (r : Readings) (w : LocalWrite V)
      → Keeps EngineEvolves (local_write t r w)
  unfolding local_write
  local_write-Evolves t r w e = commit_write-Evolves e r (local_operation t r w e) e.db

  settle-Evolves :
      (e : Engine V) (stamp : String × Time) (op : Operation V) (resolution : Resolution)
      → Keeps Evolves (Engine.settle e stamp op resolution)
  unfolding Engine.settle
  settle-Evolves e stamp op resolution =
      Keeps->>= Evolves Evolves-IsPreorder (apply_if (takes resolution.action) op) _
        (apply_if-Evolves (takes resolution.action) op)
        (λ _.
          log_if-Evolves (e.config.audit_enabled && is_conflict resolution.comparison)
            (log_conflict e.audit stamp resolution) (log_conflict-Evolves e.audit stamp resolution))

  absorb-Evolves :
      (stamp : String × Time) (op : Operation V) (p : Pull)
      → Keeps EngineEvolves (absorb stamp op p)
  unfolding absorb absorb_as
  absorb-Evolves stamp op p e =
      let found = Store.get op.collection op.record_id true e.db in
      let resolution = resolve e.conflict_resolver found op in
      Keeps->>= EngineEvolves EngineEvolves-IsPreorder
        (Engine.on_db (Engine.settle e stamp op resolution))
        (λ _. pure (Engine.counted resolution p)) (λ f. settle-Evolves e stamp op resolution f.db)
        (λ _ f. Evolves-IsPreorder.same f.db)
        (record e {
          lamport_counter = max e.lamport_counter op.lamport_timestamp + 1;
          global_vector_clock = VectorClock.merge e.global_vector_clock op.vector_clock;
        })

  pub pull_operations-Evolves :
      (ds : List (OperationDict V × (String × Time))) (p : Pull)
      → Keeps EngineEvolves (pull_operations ds p)
  unfolding pull_operations
  pull_operations-Evolves [] p e = Evolves-IsPreorder.same e.db
  pull_operations-Evolves ((d, stamp) ∷ ds) p e =
      Keeps->>= EngineEvolves EngineEvolves-IsPreorder (lift (operation_from_dict d))
        (λ op. absorb stamp op p >>= λ q. pull_operations ds q) (λ e. Evolves-IsPreorder.same e.db)
        (λ op.
          Keeps->>= EngineEvolves EngineEvolves-IsPreorder (absorb stamp op p)
            (λ q. pull_operations ds q) (absorb-Evolves stamp op p)
            (λ q. pull_operations-Evolves ds q))
        e
