-- ===== src/Database/Serving.antt =====
-- What the methods of the server do to its database, whether they return or raise.
use dhava.Common.{ℕ, String, true, List, [], ◌∷◌, ◌++◌, if_intro, str_eq, length, ◌&&◌, ◌+◌, Eq}
use dhava.Result.{Result, ok, raise}
use dhava.Exec.{◌>>◌, pure, lift}
use dhava.Exec.Keeps.{Keeps, IsPreorder, OnPart, OnPart-IsPreorder, Keeps->>=}
use dhava.Models.{Time, Operation}
use dhava.Models.Wire.{OperationDict, operation_from_dict}
use dhava.Backend.{Bytes}
use dhava.Conflict.{Resolution, resolve}
use dhava.Crypto.{unpack}
use dhava.Store
use dhava.VectorClock
use dhava.Protocol.{Libraries, SyncPushRequest, SyncPullResponse}
use dhava.Engine.{log_if, log_conflict, apply_if, takes, is_conflict}
use dhava.Server.{
  Server, Fresh, settle, on_db, accept, accept_operations, with_cause, unpacked, decrypted,
  received, respond, registered, get_node_status, handle_sync_request, update_node_sync_telemetry,
  get_operations_for_peer, answer,
}
use dhava.Database.{Evolves, Evolves-IsPreorder}
use dhava.Database.Registry.{telemetry-Evolves}
use dhava.Database.Exchanges.{log_if-Evolves, apply_if-Evolves, log_conflict-Evolves}

module _ {V : Type 0} where
  abbrev pub ServerEvolves : Server V → Server V → Type 0
  ServerEvolves = OnPart (λ s. s.db) Evolves

  ServerEvolves-IsPreorder : IsPreorder ServerEvolves
  ServerEvolves-IsPreorder = OnPart-IsPreorder Evolves Evolves-IsPreorder (λ (s : Server V). s.db)

  abbrev unmoved : (s : Server V) → ServerEvolves s s
  unmoved s = Evolves-IsPreorder.same s.db

  settle-Evolves :
      (s : Server V) (stamp : String × Time) (op : Operation V) (resolution : Resolution)
      → Keeps Evolves (settle s stamp op resolution)
  unfolding settle
  settle-Evolves s stamp op resolution =
      let logs =
        log_if (s.audit_enabled && is_conflict resolution.comparison)
          (log_conflict s.audit stamp resolution) in
      Keeps->>= Evolves Evolves-IsPreorder logs (λ _. apply_if (takes resolution.action) op)
        (log_if-Evolves (s.audit_enabled && is_conflict resolution.comparison)
          (log_conflict s.audit stamp resolution) (log_conflict-Evolves s.audit stamp resolution))
        (λ _. apply_if-Evolves (takes resolution.action) op)

  accept-Evolves :
      (stamp : String × Time) (op : Operation V) → Keeps ServerEvolves (accept stamp op)
  unfolding accept
  accept-Evolves stamp op s =
      settle-Evolves s stamp op
        (resolve s.conflict_resolver (Store.get op.collection op.record_id true s.db) op) s.db

  accept_operations-Evolves :
      (stamps : ℕ → String × Time) (n : ℕ) (ds : List (OperationDict V)) (acked : List String)
      → Keeps ServerEvolves (accept_operations stamps n ds acked)
  unfolding accept_operations
  accept_operations-Evolves stamps n [] acked s = unmoved s
  accept_operations-Evolves stamps n (d ∷ ds) acked s =
      Keeps->>= ServerEvolves ServerEvolves-IsPreorder (lift (operation_from_dict d))
        (λ op. accept (stamps n) op >> accept_operations stamps (n + 1) ds (acked ++ op.op_id ∷ []))
        unmoved
        (λ op.
          Keeps->>= ServerEvolves ServerEvolves-IsPreorder (accept (stamps n) op)
            (λ _. accept_operations stamps (n + 1) ds (acked ++ op.op_id ∷ []))
            (accept-Evolves (stamps n) op)
            (λ _. accept_operations-Evolves stamps (n + 1) ds (acked ++ op.op_id ∷ [])))
        s

  with_cause-Evolves :
      (before : Server V) (run : Result (List String) × Server V)
      → ServerEvolves before run.1
      → ServerEvolves before (with_cause run).1
  with_cause-Evolves before (raise e, s) h = h
  with_cause-Evolves before (ok ids, s) h = h

  unpacked-Evolves :
      (stamps : ℕ → String × Time) (r : Result (List (OperationDict V)))
      → Keeps ServerEvolves (unpacked stamps r)
  unpacked-Evolves stamps (raise e) s = unmoved s
  unpacked-Evolves stamps (ok ds) s =
      with_cause-Evolves s (accept_operations stamps 0 ds [] s)
        (accept_operations-Evolves stamps 0 ds [] s)

  decrypted-Evolves :
      (lib : Libraries V) (fresh : Fresh) (req : SyncPushRequest) (r : Result Bytes)
      → Keeps ServerEvolves (decrypted lib fresh req r)
  decrypted-Evolves lib fresh req (raise e) s = unmoved s
  decrypted-Evolves lib fresh req (ok raw) s =
      if_intro (λ (run : Result (List String) × Server V). ServerEvolves s run.1)
        (str_eq (lib.hexdigest raw) req.payload_hash) _ _
        (λ _. unpacked-Evolves fresh.stamps (lib.unpack_msgpack raw) s) (λ _. unmoved s)

  received-Evolves :
      (lib : Libraries V) (fresh : Fresh) (req : SyncPushRequest) (payload : Bytes)
      → Keeps ServerEvolves (received lib fresh req payload)
  received-Evolves lib fresh req [] s = unmoved s
  received-Evolves lib fresh req (b ∷ bs) s =
      decrypted-Evolves lib fresh req (unpack lib.platform s.crypto (b ∷ bs)) s

  respond-Evolves :
      ⦃e : Eq V⦄ (lib : Libraries V) (fresh : Fresh) (req : SyncPushRequest)
      (r : Result (List String))
      → Keeps ServerEvolves (respond lib fresh req r)
  respond-Evolves lib fresh req (raise e) s = unmoved s
  respond-Evolves lib fresh req (ok acked) s =
      let telemetry = update_node_sync_telemetry fresh.now req.node_id (length acked) "ok" in
      let delta =
        get_operations_for_peer lib fresh.now (VectorClock.from_clocks req.sender_vector_clock)
          req.node_id s.db in
      Keeps->>= ServerEvolves ServerEvolves-IsPreorder (on_db telemetry)
        (λ _. pure (answer lib fresh req s acked delta))
        (λ t. telemetry-Evolves fresh.now req.node_id (length acked) "ok" t.db) (λ _. unmoved) s

  -- Whatever a push request holds, and however the server answers it, the database evolves: no
  -- operation of the queue is lost, entries are only added to the trail, and keys that
  -- occurred once still do.
  pub handle_sync_request-Evolves :
      ⦃e : Eq V⦄ (lib : Libraries V) (fresh : Fresh) (req : SyncPushRequest) (s : Server V)
      → Evolves s.db (handle_sync_request lib fresh req s).1.db
  unfolding handle_sync_request
  handle_sync_request-Evolves lib fresh req s =
      let run = received lib fresh req req.encrypted_payload s in
      if_intro (λ (done : Result SyncPullResponse × Server V). ServerEvolves s done.1)
        (registered s (get_node_status req.node_id s.db)) _ _
        (λ _.
          Evolves-IsPreorder.trans s.db run.1.db (respond lib fresh req run.0 run.1).1.db
            (received-Evolves lib fresh req req.encrypted_payload s)
            (respond-Evolves lib fresh req run.0 run.1))
        (λ _. unmoved s)
