-- ===== src/Database/Syncing.antt =====
-- What an exchange does to the database of the engine, whether it completes, fails or raises.
use dhava.Common.{String, Option, none, some, List, [], ◌∷◌, if_intro, str_eq, length, ltb}
use dhava.Result.{Result, ok, raise}
use dhava.Exec.{Exec, ◌>>=◌, ◌>>◌, lift, modify}
use dhava.Exec.Keeps.{Keeps, IsPreorder, OnPart, OnPart-IsPreorder, Keeps->>=}
use dhava.Models.{Time, Operation}
use dhava.Backend.{Bytes, Db}
use dhava.Crypto.{unpack}
use dhava.Audit.{NewEntry, log}
use dhava.Outbox.{mark_failed, mark_synced}
use dhava.Protocol.{Libraries, SyncPullResponse, deserialize_response, serialize_request}
use dhava.Transport.{Transport, TransportResult, on_world, get_active_transport}
use dhava.Transport.Relay.{exchange}
use dhava.Node.{SyncEngine, on_engine, on_network, get_status, tell, notify_status_change}
use dhava.Engine.{Engine, Pull, log_if, pull_operations}
use dhava.Sync.{
  Running, SyncReadings, on_store, on_node, in_session, close_failed, close_completed, completed,
  pull, log_session, log_entry, entry_of, push_details, pull_details, with_stamps, no_pull, give_up,
  complete, process, outcome, session_body, finish, sync_over, sync_now, ids_of, or_text, pushed,
  request_of, pending_batch, take_lock, react, transmit, close_session, conclude, exchange_batch,
}
use dhava.Database.{Evolves, Evolves-IsPreorder}
use dhava.Database.Statements.{log-Evolves, mark_failed-Evolves, mark_synced-Evolves}
use dhava.Database.Exchanges.{log_if-Evolves, log_then-Evolves, pull_operations-Evolves}

log_entry-Evolves :
    {V : Type 0} (e : Engine V) (stamp : String × Time) (entry : NewEntry)
    → Keeps Evolves (log_entry e stamp entry)
log_entry-Evolves e (uuid, now) entry =
    log_then-Evolves (log e.audit uuid now entry) (log-Evolves e.audit uuid now entry)

module _ {V W : Type 0} (lib : Libraries V) (r : SyncReadings) where
  abbrev RunEvolves : Running V W → Running V W → Type 0
  RunEvolves = OnPart (λ run. run.node.engine.db) Evolves

  RunEvolves-IsPreorder : IsPreorder RunEvolves
  RunEvolves-IsPreorder =
      OnPart-IsPreorder Evolves Evolves-IsPreorder (λ (run : Running V W). run.node.engine.db)

  chain :
      {A B : Type 0} (m : Exec (Running V W) A) (f : A → Exec (Running V W) B)
      → Keeps RunEvolves m
      → ((a : A) → Keeps RunEvolves (f a))
      → Keeps RunEvolves (m >>= f)
  chain = Keeps->>= RunEvolves RunEvolves-IsPreorder

  abbrev unmoved : (run : Running V W) → RunEvolves run run
  unmoved run = Evolves-IsPreorder.same run.node.engine.db

  give_up-Evolves :
      (pending : List (Operation V)) (e : String) → Keeps RunEvolves (give_up r.ended pending e)
  unfolding give_up
  give_up-Evolves pending e =
      chain (on_store (mark_failed (ids_of pending) e)) (λ _. modify (close_failed r.ended e))
        (λ run. mark_failed-Evolves (ids_of pending) e run.node.engine.db) (λ _. unmoved)

  pull-Evolves : (payload : Bytes) → Keeps RunEvolves (pull lib r payload)
  unfolding pull
  pull-Evolves [] run = unmoved run
  pull-Evolves (b ∷ bs) run =
      let opened = lift (unpack lib.platform run.node.crypto (b ∷ bs)) in
      chain opened
        (λ raw. lift (lib.unpack_msgpack raw) >>= λ dicts.
          on_node (on_engine (pull_operations (with_stamps r.stamps 0 dicts) no_pull)))
        unmoved
        (λ raw.
          chain (lift (lib.unpack_msgpack raw))
            (λ dicts. on_node (on_engine (pull_operations (with_stamps r.stamps 0 dicts) no_pull)))
            unmoved
            (λ dicts s.
              pull_operations-Evolves (with_stamps r.stamps 0 dicts) no_pull s.node.engine))
        run

  log_session-Evolves : (peer link : String) → Keeps RunEvolves (log_session r peer link)
  log_session-Evolves peer link run =
      let e = run.node.engine in
      let push =
        log_entry e r.push_audit (entry_of "sync_push" (push_details peer link run.session)) in
      let pulls =
        log_if (ltb 0 run.session.ops_pulled)
          (log_entry e r.pull_audit (entry_of "sync_pull" (pull_details peer link run.session))) in
      log_if-Evolves e.config.audit_enabled (push >> pulls)
        (Keeps->>= Evolves Evolves-IsPreorder push (λ _. pulls) (log_entry-Evolves e r.push_audit _)
          (λ _.
            log_if-Evolves (ltb 0 run.session.ops_pulled) _ (log_entry-Evolves e r.pull_audit _)))
        e.db

  -- The status callbacks and the search for a link do not reach the database.
  notify-Evolves :
      (probed now : Time) (s : SyncEngine V W)
      → Evolves s.engine.db (notify_status_change probed now s).1.engine.db
  unfolding notify_status_change get_status
  notify-Evolves probed now =
      let R = OnPart (λ (s : SyncEngine V W). s.engine.db) Evolves in
      let po = OnPart-IsPreorder Evolves Evolves-IsPreorder (λ (s : SyncEngine V W). s.engine.db) in
      Keeps->>= R po (get_status probed now) tell
        (Keeps->>= R po (on_network (get_active_transport probed)) _ (λ s. po.same s)
          (λ _ s. po.same s))
        (λ _ s. po.same s)

  conclude-Evolves : (peer link : String) (p : Pull) → Keeps RunEvolves (conclude r peer link p)
  unfolding conclude close_session
  conclude-Evolves peer link p run =
      chain (log_session r peer link) (λ _. close_session r) (log_session-Evolves peer link)
        (λ _ s. notify-Evolves r.status_probed r.status_read (close_completed s).node)
        (record run { session = completed r p run.session })

  complete-Evolves :
      (t : Transport W) (resp : SyncPullResponse) → Keeps RunEvolves (complete lib r t resp)
  unfolding complete
  complete-Evolves t resp =
      let pulled = pull lib r resp.encrypted_payload in
      chain (on_store (mark_synced resp.acked_op_ids r.synced))
        (λ _. pulled >>= conclude r resp.node_id t.name)
        (λ run. mark_synced-Evolves resp.acked_op_ids r.synced run.node.engine.db)
        (λ _.
          chain pulled (conclude r resp.node_id t.name) (pull-Evolves resp.encrypted_payload)
            (conclude-Evolves resp.node_id t.name))

  react-Evolves :
      (t : Transport W) (pending : List (Operation V)) (resp : SyncPullResponse)
      → Keeps RunEvolves (react lib r t pending resp)
  react-Evolves t pending resp run =
      if_intro (λ (m : Exec (Running V W) (Unit {0})). RunEvolves run (m run).1)
        (str_eq resp.status "error") _ _
        (λ _. give_up-Evolves pending (or_text resp.error "Remote server returned error") run)
        (λ _. complete-Evolves t resp run)

  process-Evolves :
      (t : Transport W) (pending : List (Operation V)) (raw : Bytes)
      → Keeps RunEvolves (process lib r t pending raw)
  unfolding process
  process-Evolves t pending raw =
      chain (lift (deserialize_response lib.codec r.received raw))
        (λ resp.
          in_session (λ s. record s { bytes_pulled = length raw }) >> react lib r t pending resp)
        unmoved
        (λ resp run.
          react-Evolves t pending resp
            (record run { session = record run.session { bytes_pulled = length raw } }))

  outcome-Evolves :
      (t : Transport W) (pending : List (Operation V)) (answer : Option Bytes × TransportResult)
      → Keeps RunEvolves (outcome lib r t pending answer)
  outcome-Evolves t pending (none, res) run =
      give_up-Evolves pending (or_text res.error "Peer did not respond") run
  outcome-Evolves t pending (some raw, res) run =
      if_intro (λ (m : Exec (Running V W) (Unit {0})). RunEvolves run (m run).1) res.success _ _
        (λ _. process-Evolves t pending raw run)
        (λ _. give_up-Evolves pending (or_text res.error "Peer did not respond") run)

  transmit-Evolves :
      (t : Transport W) (pending : List (Operation V)) (request : Bytes)
      → Keeps RunEvolves (transmit lib r t pending request)
  unfolding transmit
  transmit-Evolves t pending request =
      chain (on_node (on_network (exchange r.exchange_probed r.exchange_elapsed request)))
        (λ answer. in_session (pushed r request pending) >> outcome lib r t pending answer) unmoved
        (λ answer run.
          outcome-Evolves t pending answer
            (record run { session = pushed r request pending run.session }))

  session_body-Evolves : (t : Transport W) → Keeps RunEvolves (session_body lib r t)
  unfolding session_body
  session_body-Evolves t =
      chain (on_node (on_network (on_world t.estimate_bandwidth))) (exchange_batch lib r t) unmoved
        (λ bandwidth run.
          let pending = pending_batch bandwidth run.node in
          transmit-Evolves t pending
            (serialize_request lib.codec (request_of lib r pending (take_lock run)))
            (take_lock run))

  finish-Evolves :
      (before : Db V) (run : Result (Unit {0}) × Running V W)
      → Evolves before run.1.node.engine.db
      → Evolves before (finish r.ended run).1.engine.db
  finish-Evolves before (ok a, run) h = h
  finish-Evolves before (raise e, run) h = h

  sync_over-Evolves :
      (peer : String) (o : Option (Transport W)) (s : SyncEngine V W)
      → Evolves s.engine.db (sync_over lib r peer o s).1.engine.db
  sync_over-Evolves peer none s = Evolves-IsPreorder.same s.engine.db
  sync_over-Evolves peer (some t) s = finish-Evolves s.engine.db _ (session_body-Evolves t _)

  -- However an exchange ends, the database of the engine evolves: every operation of the queue is
  -- still there under its identifier, changed at most in the marks of its synchronisation; entries
  -- are only added at the end of the trail; and if the keys of each table occurred once before, they do after.
  pub sync_now-Evolves :
      (peer : String) (s : SyncEngine V W) → Evolves s.engine.db (sync_now lib r peer s).1.engine.db
  unfolding sync_now
  sync_now-Evolves peer =
      let R = OnPart (λ (s : SyncEngine V W). s.engine.db) Evolves in
      let po = OnPart-IsPreorder Evolves Evolves-IsPreorder (λ (s : SyncEngine V W). s.engine.db) in
      Keeps->>= R po (on_network (get_active_transport r.probed)) (sync_over lib r peer)
        (λ s. po.same s) (sync_over-Evolves peer)
