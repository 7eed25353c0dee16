-- ===== src/Sync.antt =====
-- engine.py: an exchange with a peer, from the choice of a link to the session that is returned.
pub mod Session
pub mod Intake
pub mod Conclude
pub mod Completes
pub mod Outcome
pub mod Loop
pub use dhava.Sync.Session.{
  SyncReadings, Running, compression_value, or_text, new_session, failed_session, push_details,
  pull_details, entry_of, ids_of, no_pull, completed, log_entry, pushed,
}
unfoldable pub use dhava.Sync.Session.{with_stamps}
use dhava.Common.{
  ℕ, ◌-◌, String, ◌<>◌, Bool, true, false, Option, none, some, List, [], ◌∷◌, ◌++◌, map, ltb,
  str_eq, if◌then◌else◌, length, ◌+◌,
}
use dhava.Dict.{Dict}
use dhava.Result.{Result, ok, raise}
use dhava.Exec.{Exec, ◌>>=◌, ◌>>◌, pure, lift, modify, for_each}
use dhava.Models.{Time, Operation, Detail, SyncSession, text, number}
use dhava.Models.Wire.{OperationDict, operation_to_dict}
use dhava.VectorClock.{from_clocks}
use dhava.Conflict.{ConflictResolver}
use dhava.Backend.{Bytes, Db}
use dhava.Crypto.{CryptoLayer, CompressionAlgorithm, zstd, gzip, uncompressed, pack, unpack}
use dhava.Outbox.{
  Selection, get_pending, mark_failed, mark_synced, pending_count, pending_breakdown, lock, unlock,
  reset_in_flight, purge_synced,
}
use dhava.Audit.{AuditLogger, NewEntry, log}
use dhava.Transport.{
  on_world, Transport, TransportManager, TransportResult, Network, quietly, get_active_transport,
  close_all,
}
use dhava.Transport.Relay.{exchange}
use dhava.Protocol.{
  Libraries, SyncPushRequest, SyncPullResponse, create_request, serialize_request,
  deserialize_response,
}
use dhava.Node.{
  EngineState, EngineStatus, SyncEngine, disconnected, connected, syncing, error, on_network,
  on_engine, notify_status_change,
}
use dhava.Engine
use dhava.Engine.{
  Engine, EngineConfig, Pull, calculate_batch_size, calculate_priority_cutoff, log_if,
  pull_operations,
}

module _ {V W : Type 0} where
  abbrev pub on_node : {A : Type 0} → Exec (SyncEngine V W) A → Exec (Running V W) A
  on_node m run = let (r, s) = m run.node in (r, record run { node = s })

  abbrev pub on_store : {A : Type 0} → Exec (Db V) A → Exec (Running V W) A
  on_store m = on_node (on_engine (Engine.on_db m))

  abbrev pub in_session : (SyncSession → SyncSession) → Exec (Running V W) (Unit {0})
  in_session f run = (ok tt, record run { session = f run.session })

  -- the batch for a link of this bandwidth
  unfoldable pub pending_batch : ℕ → SyncEngine V W → List (Operation V)
  unfolding calculate_batch_size calculate_priority_cutoff get_pending
  pending_batch bandwidth s =
      let config = s.engine.config in
      get_pending (calculate_batch_size config bandwidth)
        (record {
          priority = none;
          max_priority = some (calculate_priority_cutoff config bandwidth);
          collection = none;
        })
        s.engine.db

  unfoldable pub request_of :
      Libraries V → SyncReadings → List (Operation V) → Running V W → SyncPushRequest
  unfolding create_request
  request_of lib r pending run =
      let raw = lib.pack_msgpack (map operation_to_dict pending) in
      create_request lib.hexdigest r.requested (record {
        node_id = run.node.engine.node_id;
        sender_vector_clock = run.node.engine.global_vector_clock.clocks;
        encrypted_payload = pack lib.platform run.node.crypto r.nonce raw;
        raw_payload = raw;
        operation_count = length pending;
        compression = compression_value run.node.engine.config.compression;
        session_id = run.session.session_id;
      })

  -- An exchange that failed: the batch is marked, and the engine stays connected.
  abbrev pub close_failed : Time → String → Running V W → Running V W
  close_failed ended e run =
      let session = failed_session ended e run.session in
      record {
        node = record run.node { last_error = some e; state = connected; last_sync = some session };
        session = session;
      }

  unfoldable pub give_up : Time → List (Operation V) → String → Exec (Running V W) (Unit {0})
  unfolding mark_failed
  give_up ended pending e =
      on_store (mark_failed (ids_of pending) e) >> modify (close_failed ended e)

  -- `if pull_resp.encrypted_payload:`
  unfoldable pub pull : Libraries V → SyncReadings → Bytes → Exec (Running V W) Pull
  unfolding pull_operations unpack with_stamps
  pull lib r [] run = (ok no_pull, run)
  pull lib r (b ∷ bs) run =
      (lift (unpack lib.platform run.node.crypto (b ∷ bs)) >>= λ raw.
      lift (lib.unpack_msgpack raw) >>= λ dicts.
      on_node (on_engine (pull_operations (with_stamps r.stamps 0 dicts) no_pull)))
        run

  -- one entry for the push, and one for the pull if it brought anything
  abbrev pub log_session : SyncReadings → String → String → Exec (Running V W) (Unit {0})
  log_session r peer link run =
      let e = run.node.engine in
      let s = run.session in
      on_store
        (log_if e.config.audit_enabled (
          log_entry e r.push_audit (entry_of "sync_push" (push_details peer link s))
          >> log_if (ltb 0 s.ops_pulled)
              (log_entry e r.pull_audit (entry_of "sync_pull" (pull_details peer link s)))))
        run

  abbrev pub close_completed : Running V W → Running V W
  close_completed run = record run {
    node = record run.node { state = connected; last_sync = some run.session };
  }

  -- the engine is connected again, and tells who listens
  unfoldable pub close_session : SyncReadings → Exec (Running V W) (Unit {0})
  unfolding notify_status_change
  close_session r =
      modify close_completed >> on_node (notify_status_change r.status_probed r.status_read)

  -- the counts of the pull, the entries of the trail, and the end
  unfoldable pub conclude : SyncReadings → String → String → Pull → Exec (Running V W) (Unit {0})
  unfolding close_session log
  conclude r peer link p =
      in_session (completed r p) >> (log_session r peer link >> close_session r)

  -- an answer that is no error
  unfoldable pub complete :
      Libraries V → SyncReadings → Transport W → SyncPullResponse → Exec (Running V W) (Unit {0})
  unfolding mark_synced pull conclude
  complete lib r t resp =
      on_store (mark_synced resp.acked_op_ids r.synced)
      >> (pull lib r resp.encrypted_payload >>= conclude r resp.node_id t.name)

  abbrev pub react :
      Libraries V
      → SyncReadings
      → Transport W
      → List (Operation V)
      → SyncPullResponse
      → Exec (Running V W) (Unit {0})
  react lib r t pending resp =
      if str_eq resp.status "error"
      then give_up r.ended pending (or_text resp.error "Remote server returned error")
      else complete lib r t resp

  -- The length of the answer is noted once it has been read.
  unfoldable pub process :
      Libraries V
      → SyncReadings
      → Transport W
      → List (Operation V)
      → Bytes
      → Exec (Running V W) (Unit {0})
  unfolding complete give_up
  process lib r t pending raw = lift (deserialize_response lib.codec r.received raw) >>= λ resp.
      in_session (λ s. record s { bytes_pulled = length raw }) >> react lib r t pending resp

  -- `if not transport_res.success or resp_bytes is None`
  abbrev pub outcome :
      Libraries V
      → SyncReadings
      → Transport W
      → List (Operation V)
      → Option Bytes × TransportResult
      → Exec (Running V W) (Unit {0})
  outcome lib r t pending (none, res) =
      give_up r.ended pending (or_text res.error "Peer did not respond")
  outcome lib r t pending (some raw, res) =
      if res.success
      then process lib r t pending raw
      else give_up r.ended pending (or_text res.error "Peer did not respond")

  unfoldable pub transmit :
      Libraries V
      → SyncReadings
      → Transport W
      → List (Operation V)
      → Bytes
      → Exec (Running V W) (Unit {0})
  unfolding process give_up exchange
  transmit lib r t pending request =
      on_node (on_network (exchange r.exchange_probed r.exchange_elapsed request)) >>= λ answer.
      in_session (pushed r request pending) >> outcome lib r t pending answer

  abbrev pub attempt :
      Libraries V → SyncReadings → Transport W → List (Operation V) → Exec (Running V W) (Unit {0})
  attempt lib r t pending run =
      transmit lib r t pending (serialize_request lib.codec (request_of lib r pending run)) run

  -- Whether the lock was free is not looked at.
  abbrev pub take_lock : Running V W → Running V W
  take_lock run = record run {
    node = record run.node { sync_locked = (lock run.node.sync_locked).1 };
  }

  abbrev pub exchange_batch :
      Libraries V → SyncReadings → Transport W → ℕ → Exec (Running V W) (Unit {0})
  exchange_batch lib r t bandwidth run =
      attempt lib r t (pending_batch bandwidth run.node) (take_lock run)

  -- the `try` block
  unfoldable pub session_body :
      Libraries V → SyncReadings → Transport W → Exec (Running V W) (Unit {0})
  unfolding transmit request_of pending_batch lock
  session_body lib r t =
      on_node (on_network (on_world t.estimate_bandwidth)) >>= exchange_batch lib r t

  -- `except Exception`, then `finally`
  abbrev pub finish : Time → Result (Unit {0}) × Running V W → Result SyncSession × SyncEngine V W
  finish ended (ok _, run) =
      (ok run.session, record run.node { sync_locked = (unlock run.node.sync_locked).1 })
  finish ended (raise e, run) =
      let session = failed_session ended e run.session in
      (
        ok session,
        record run.node {
          last_error = some e;
          state = error;
          last_sync = some session;
          sync_locked = (unlock run.node.sync_locked).1;
        },
      )

  abbrev pub sync_over :
      Libraries V → SyncReadings → String → Option (Transport W) → Exec (SyncEngine V W) SyncSession
  sync_over lib r peer none s =
      let session = failed_session r.ended "No active transport available" (new_session r peer) in
      (ok session, record s { state = disconnected; last_sync = some session })
  sync_over lib r peer (some t) s = finish r.ended (
      session_body lib r t (record {
        node = record s { state = syncing };
        session = record (new_session r peer) { transport = t.name };
      }))

  unfoldable pub sync_now : Libraries V → SyncReadings → String → Exec (SyncEngine V W) SyncSession
  unfolding session_body get_active_transport unlock
  sync_now lib r peer = on_network (get_active_transport r.probed) >>= sync_over lib r peer
