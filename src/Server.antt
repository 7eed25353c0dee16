-- ===== src/Server.antt =====
-- server.py: the answer to a push. The lock is left out.
pub mod Delta
pub mod Nodes
pub mod Answers
pub mod Acks
pub mod Serves
pub mod Create
pub use dhava.Server.Nodes.{NodeInfo, has_node_id, registered_again, new_node, synced_again}
unfoldable pub use dhava.Server.Nodes.{
  get_node_status, list_nodes, upsert_node, register_node, count_synced, update_node_sync_telemetry,
}
pub use dhava.Server.Delta.{newer, wanted}
unfoldable pub use dhava.Server.Delta.{
  delta_operation, delta_of_records, delta_of_collections, get_operations_for_peer,
}
use dhava.Common.{
  ℕ, ◌+◌, max, String, ◌<>◌, Bool, true, false, not, ◌&&◌, Option, none, some, List, [], ◌∷◌, ◌++◌,
  map, leb, str_eq, if◌then◌else◌, length, find, update_where, upsert, Eq,
}
use dhava.Common.Sort.{sort}
use dhava.Dict.{Dict}
use dhava.Result.{Result, ok, raise}
use dhava.Exec.{Exec, ◌>>=◌, ◌>>◌, pure, lift, modify}
use dhava.Models.{Time, Operation, Record, OperationType, update, delete, p2, pending}
use dhava.Models.Wire.{OperationDict, operation_from_dict, operation_to_dict}
use dhava.VectorClock.{VectorClock, Comparison, from_clocks, compare}
use dhava.VectorClock
use dhava.Conflict.{ConflictResolver, Resolution, resolve}
use dhava.Crypto.{Platform, CryptoLayer, pack, unpack}
use dhava.Backend.{Bytes, Db, NodeRow, transaction}
use dhava.Store.{get_all_collections}
use dhava.Store
use dhava.Audit.{AuditLogger}
use dhava.Engine.{takes, is_conflict, log_conflict, log_if, apply_if}
use dhava.Protocol.{Libraries, SyncPushRequest, SyncPullResponse, create_response}

-- `DDILSyncServer`, with the two fields of its configuration that are read
pub record Server (V : Type 0) : Type 0 where
  pub server_node_id : String
  pub conflict_resolver : ConflictResolver
  pub crypto : CryptoLayer
  pub audit : AuditLogger
  pub audit_enabled : Bool
  pub node_registration_required : Bool
  pub lamport_counter : ℕ
  pub global_vector_clock : VectorClock
  pub db : Db V

-- What one request takes from outside: the nonce of the answer, the readings of the clock, and a
-- fresh identifier and a reading for the audit entry of each operation.
pub record Fresh : Type 0 where
  pub nonce : Bytes
  pub now : Time
  pub stamps : ℕ → String × Time

-- what the handler makes of an exception
abbrev pub with_cause : {A S : Type 0} → Result A × S → Result A × S
with_cause (raise e, s) = (raise ("Failed to unpack operations: " <> e), s)
with_cause (ok a, s) = (ok a, s)

module _ {V : Type 0} where
  abbrev pub on_db : {A : Type 0} → Exec (Db V) A → Exec (Server V) A
  on_db m s = let (r, d) = m s.db in (r, record s { db = d })

  -- the trail before the store
  unfoldable pub settle :
      Server V → String × Time → Operation V → Resolution → Exec (Db V) (Unit {0})
  settle s stamp op resolution db =
      (log_if (s.audit_enabled && is_conflict resolution.comparison)
            (log_conflict s.audit stamp resolution)
          >> apply_if (takes resolution.action) op)
        db

  -- one turn of the loop over the pushed operations
  unfoldable pub accept : String × Time → Operation V → Exec (Server V) (Unit {0})
  unfolding settle
  accept stamp op s =
      let found = Store.get op.collection op.record_id true s.db in
      on_db (settle s stamp op (resolve s.conflict_resolver found op)) (record s {
        lamport_counter = max s.lamport_counter op.lamport_timestamp + 1;
        global_vector_clock = VectorClock.merge s.global_vector_clock op.vector_clock;
      })

  -- The loop, with the identifiers acknowledged so far and the number of the turn.
  unfoldable pub accept_operations :
      (ℕ → String × Time) → ℕ → List (OperationDict V) → List String → Exec (Server V) (List String)
  unfolding accept operation_from_dict
  accept_operations stamps n [] acked = pure acked
  accept_operations stamps n (d ∷ ds) acked = lift (operation_from_dict d) >>= λ op.
      accept (stamps n) op >> accept_operations stamps (n + 1) ds (acked ++ op.op_id ∷ [])

  -- What the `try` block comes to: the acknowledged identifiers, or an early return with an error.
  abbrev pub unpacked :
      (ℕ → String × Time) → Result (List (OperationDict V)) → Exec (Server V) (List String)
  unpacked stamps (raise e) s = (raise ("Failed to unpack operations: " <> e), s)
  unpacked stamps (ok ds) s = with_cause (accept_operations stamps 0 ds [] s)

  abbrev pub decrypted :
      Libraries V → Fresh → SyncPushRequest → Result Bytes → Exec (Server V) (List String)
  decrypted lib fresh req (raise e) s = (raise ("Failed to unpack operations: " <> e), s)
  decrypted lib fresh req (ok raw) s =
      let run = unpacked fresh.stamps (lib.unpack_msgpack raw) s in
      if str_eq (lib.hexdigest raw) req.payload_hash
      then run
      else (raise "Payload hash mismatch (integrity check failed)", s)

  -- `if request.encrypted_payload:`
  abbrev pub received :
      Libraries V → Fresh → SyncPushRequest → Bytes → Exec (Server V) (List String)
  received lib fresh req [] s = (ok [], s)
  received lib fresh req (b ∷ bs) s =
      decrypted lib fresh req (unpack lib.platform s.crypto (b ∷ bs)) s

  abbrev pub refusal : Libraries V → Fresh → SyncPushRequest → Server V → String → SyncPullResponse
  refusal lib fresh req s e = create_response lib.hexdigest fresh.now (record {
    node_id = s.server_node_id;
    session_id = req.session_id;
    status = "error";
    acked_op_ids = [];
    rejected_op_ids = [];
    encrypted_payload = [];
    raw_payload = [];
    operation_count = 0;
    error = some e;
  })

  -- no payload at all if there is no operation
  abbrev pub unless_none : List (Operation V) → Bytes → Bytes
  unless_none [] b = []
  unless_none (_ ∷ _) b = b

  abbrev pub answer :
      Libraries V
      → Fresh
      → SyncPushRequest
      → Server V
      → List String
      → List (Operation V)
      → SyncPullResponse
  answer lib fresh req s acked delta =
      let raw = lib.pack_msgpack (map operation_to_dict delta) in
      create_response lib.hexdigest fresh.now (record {
        node_id = s.server_node_id;
        session_id = req.session_id;
        status = "ok";
        acked_op_ids = acked;
        rejected_op_ids = [];
        encrypted_payload = unless_none delta (pack lib.platform s.crypto fresh.nonce raw);
        raw_payload = unless_none delta raw;
        operation_count = length delta;
        error = none;
      })

  -- The delta is read before the telemetry is written.
  abbrev pub respond :
      ⦃e : Eq V⦄
      → Libraries V
      → Fresh
      → SyncPushRequest
      → Result (List String)
      → Exec (Server V) SyncPullResponse
  respond lib fresh req (raise e) s = (ok (refusal lib fresh req s e), s)
  respond lib fresh req (ok acked) s =
      let peer_vc = from_clocks req.sender_vector_clock in
      let delta = get_operations_for_peer lib fresh.now peer_vc req.node_id s.db in
      (on_db (update_node_sync_telemetry fresh.now req.node_id (length acked) "ok")
          >> pure (answer lib fresh req s acked delta))
        s

  abbrev pub registered : Server V → Option (NodeInfo V) → Bool
  registered s none = not s.node_registration_required
  registered s (some _) = true

  unfoldable pub handle_sync_request :
      ⦃e : Eq V⦄ → Libraries V → Fresh → SyncPushRequest → Exec (Server V) SyncPullResponse
  unfolding get_node_status accept_operations get_operations_for_peer update_node_sync_telemetry
      create_response
  handle_sync_request lib fresh req s =
      let (result, t) = received lib fresh req req.encrypted_payload s in
      let done = respond lib fresh req result t in
      if registered s (get_node_status req.node_id s.db) then done else (
        ok (
            refusal lib fresh req s
              ("Node '" <> req.node_id <> "' is not registered on this server")),
        s,
      )
