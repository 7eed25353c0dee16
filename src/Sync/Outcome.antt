-- ===== src/Sync/Outcome.antt =====
-- How an exchange ends: on every path a session comes back that says so, and the engine agrees.
use dhava.Common.{String, ◌≡◌, ◌⊎◌, refl, inl, inr, false, Option, none, some, List, str_eq, length}
use dhava.Result.{Result, ok, raise}
use dhava.Exec.{Exec, ◌>>=◌, ◌>>◌, lift, modify}
use dhava.Exec.Ensures.{Ensures->>, OkPost, OkPost-any, Ensures, Ensures->>=, Ensures_if, Always}
use dhava.Exec.Keeps.{Keeps, IsPreorder, Keeps->>=}
use dhava.Models.{Time, Operation, SyncSession}
use dhava.Backend.{Bytes}
use dhava.Engine.{Pull}
use dhava.Outbox.{unlock, mark_failed, mark_synced}
use dhava.Transport.{on_world, Transport, TransportResult, get_active_transport}
use dhava.Transport.Relay.{exchange}
use dhava.Protocol.{Libraries, SyncPullResponse, deserialize_response, serialize_request}
use dhava.Node.{
  SyncEngine, disconnected, connected, error, on_network, get_status, tell, notify_status_change,
}
use dhava.Sync.{
  Running, SyncReadings, on_store, on_node, in_session, close_failed, close_completed, completed,
  pull, log_session, give_up, complete, process, outcome, session_body, finish, sync_now, ids_of,
  or_text, pushed, request_of, pending_batch, take_lock, react, transmit, close_session, conclude,
  exchange_batch, failed_session, new_session,
}

-- What the status of a finished session says of the state of the engine.
abbrev pub Agrees : {V W : Type 0} → SyncSession → SyncEngine V W → Type 0
Agrees session s =
    ((session.status ≡ "completed") × (s.state ≡ connected))
    ⊎ ((session.status ≡ "failed") × (s.state ≡ connected) × (s.last_error ≡ session.error))
    ⊎ ((session.status ≡ "failed") × (s.state ≡ error) × (s.last_error ≡ session.error))
    ⊎ ((session.status ≡ "failed") × (s.state ≡ disconnected))

pub record IsFinished {V W : Type 0} (ended : Time) (session : SyncSession) (s : SyncEngine V W)
    : Type 0 where
  pub ended_is : session.ended_at ≡ some ended
  pub recorded : s.last_sync ≡ some session
  pub unlocked : s.sync_locked ≡ false
  pub agrees : Agrees session s

module _ {V W : Type 0} (lib : Libraries V) (r : SyncReadings) where
  abbrev Anything : Running V W → Type 0
  Anything run = Unit

  -- the session is complete, and not yet recorded
  abbrev Done : Running V W → Type 0
  Done run = (run.session.ended_at ≡ some r.ended) × (run.session.status ≡ "completed")

  abbrev Closed : Running V W → Type 0
  Closed run =
      (run.session.ended_at ≡ some r.ended)
      × (run.node.last_sync ≡ some run.session)
      × (run.node.state ≡ connected)
      × ((run.session.status ≡ "completed")
          ⊎ ((run.session.status ≡ "failed") × (run.node.last_error ≡ run.session.error)))

  abbrev anyway : {A : Type 0} (m : Exec (Running V W) A) → Ensures Anything m (Always Anything)
  anyway m run _ = OkPost-any (Always Anything) (m run) (λ _. tt)

  give_up-Closed :
      (pending : List (Operation V)) (e : String)
      → Ensures Anything (give_up r.ended pending e) (Always Closed)
  unfolding give_up
  give_up-Closed pending e =
      let marked = on_store (mark_failed (ids_of pending) e) in
      Ensures->> Anything Anything Closed marked (modify (close_failed r.ended e)) (anyway marked)
        (λ run _. (refl, refl, refl, inr (refl, refl)))

  -- What a status callback cannot reach.
  abbrev SameVerdict : SyncEngine V W → SyncEngine V W → Type 0
  SameVerdict s t =
      (t.state ≡ s.state) × (t.last_sync ≡ s.last_sync) × (t.last_error ≡ s.last_error)

  SameVerdict-IsPreorder : IsPreorder SameVerdict
  SameVerdict-IsPreorder = record {
    same = λ s. (refl, refl, refl);
    trans = λ s t u h k. (rw k.0 h.0, rw k.1 h.1, rw k.2 h.2);
  }

  notify_SameVerdict :
      (probed now : Time) → Keeps SameVerdict (notify_status_change {V = V} {W = W} probed now)
  unfolding notify_status_change get_status
  notify_SameVerdict probed now =
      Keeps->>= SameVerdict SameVerdict-IsPreorder (get_status probed now) tell
        (Keeps->>= SameVerdict SameVerdict-IsPreorder (on_network (get_active_transport probed)) _
          (λ s. (refl, refl, refl)) (λ _ s. (refl, refl, refl)))
        (λ _ s. (refl, refl, refl))

  close_session-Closed : Ensures Done (close_session {V = V} {W = W} r) (Always Closed)
  unfolding close_session
  close_session-Closed run d =
      let notify = notify_status_change r.status_probed r.status_read in
      let k = notify_SameVerdict r.status_probed r.status_read (close_completed run).node in
      OkPost-any (Always Closed) (on_node notify (close_completed run))
        (λ _. (d.0, k.1, k.0, inl d.1))

  conclude-Closed :
      (peer link : String) (p : Pull) → Ensures Anything (conclude r peer link p) (Always Closed)
  unfolding conclude
  conclude-Closed peer link p run _ =
      let logs = log_session r peer link in
      Ensures->> Done Done Closed logs (close_session r)
        (λ s d. OkPost-any (Always Done) (logs s) (λ _. d)) close_session-Closed
        (record run { session = completed r p run.session }) (refl, refl)

  complete-Closed :
      (t : Transport W) (resp : SyncPullResponse)
      → Ensures Anything (complete lib r t resp) (Always Closed)
  unfolding complete
  complete-Closed t resp =
      let marked = on_store (mark_synced resp.acked_op_ids r.synced) in
      let pulled = pull lib r resp.encrypted_payload in
      Ensures->> Anything Anything Closed marked (pulled >>= conclude r resp.node_id t.name)
        (anyway marked)
        (Ensures->>= Anything (Always Anything) (Always Closed) pulled
          (conclude r resp.node_id t.name) (anyway pulled) (conclude-Closed resp.node_id t.name))

  process-Closed :
      (t : Transport W) (pending : List (Operation V)) (raw : Bytes)
      → Ensures Anything (process lib r t pending raw) (Always Closed)
  unfolding process
  process-Closed t pending raw =
      let parsed = lift (deserialize_response lib.codec r.received raw) in
      Ensures->>= Anything (Always Anything) (Always Closed) parsed
        (λ resp.
          in_session (λ s. record s { bytes_pulled = length raw }) >> react lib r t pending resp)
        (anyway parsed)
        (λ resp run _.
          Ensures_if Anything (Always Closed) (str_eq resp.status "error") _ (complete lib r t resp)
            (give_up-Closed pending (or_text resp.error "Remote server returned error"))
            (complete-Closed t resp)
            (record run { session = record run.session { bytes_pulled = length raw } }) tt)

  outcome-Closed :
      (t : Transport W) (pending : List (Operation V)) (answer : Option Bytes × TransportResult)
      → Ensures Anything (outcome lib r t pending answer) (Always Closed)
  outcome-Closed t pending (none, res) =
      give_up-Closed pending (or_text res.error "Peer did not respond")
  outcome-Closed t pending (some raw, res) =
      Ensures_if Anything (Always Closed) res.success (process lib r t pending raw) _
        (process-Closed t pending raw)
        (give_up-Closed pending (or_text res.error "Peer did not respond"))

  transmit-Closed :
      (t : Transport W) (pending : List (Operation V)) (request : Bytes)
      → Ensures Anything (transmit lib r t pending request) (Always Closed)
  unfolding transmit
  transmit-Closed t pending request =
      let exchanged =
        on_node (on_network (exchange r.exchange_probed r.exchange_elapsed request)) in
      Ensures->>= Anything (Always Anything) (Always Closed) exchanged
        (λ answer. in_session (pushed r request pending) >> outcome lib r t pending answer)
        (anyway exchanged)
        (λ answer run _.
          outcome-Closed t pending answer
            (record run { session = pushed r request pending run.session }) tt)

  session_body-Closed : (t : Transport W) → Ensures Anything (session_body lib r t) (Always Closed)
  unfolding session_body
  session_body-Closed t =
      let asked = on_node (on_network (on_world t.estimate_bandwidth)) in
      Ensures->>= Anything (Always Anything) (Always Closed) asked (exchange_batch lib r t)
        (anyway asked)
        (λ bandwidth run _.
          let pending = pending_batch bandwidth run.node in
          transmit-Closed t pending
            (serialize_request lib.codec (request_of lib r pending (take_lock run))) (take_lock run)
            tt)

  finish-IsFinished :
      (run : Result (Unit {0}) × Running V W)
      → OkPost (Always Closed) run
      → (session : SyncSession) × ((finish r.ended run).0 ≡ ok session)
        × IsFinished r.ended session (finish r.ended run).1
  unfolding unlock
  finish-IsFinished (ok a, run) c = (
    run.session,
    refl,
    record { ended_is = c.0; recorded = c.1; unlocked = refl; agrees = agree c.3 },
  )
    where
      agree :
          (run.session.status ≡ "completed")
            ⊎ ((run.session.status ≡ "failed") × (run.node.last_error ≡ run.session.error))
          → Agrees run.session (finish r.ended (ok a, run)).1
      agree (inl done) = inl (done, c.2)
      agree (inr (failed, e)) = inr (inl (failed, c.2, e))
  finish-IsFinished (raise e, run) c = (
    failed_session r.ended e run.session,
    refl,
    record {
      ended_is = refl;
      recorded = refl;
      unlocked = refl;
      agrees = inr (inr (inl (refl, refl, refl)));
    },
  )

  pub sync_now-IsFinished :
      (peer : String) (s : SyncEngine V W) (o : Option (Transport W))
      → s.sync_locked ≡ false
      → (get_active_transport r.probed s.network).0 ≡ ok o
      → (session : SyncSession) × ((sync_now lib r peer s).0 ≡ ok session)
        × IsFinished r.ended session (sync_now lib r peer s).1
  unfolding sync_now
  sync_now-IsFinished peer s none free found = rw found (
    failed_session r.ended "No active transport available" (new_session r peer),
    refl,
    record {
      ended_is = refl;
      recorded = refl;
      unlocked = free;
      agrees = inr (inr (inr (refl, refl)));
    },
  )
  sync_now-IsFinished peer s (some t) free found =
      rw found (finish-IsFinished _ (session_body-Closed t _ tt))
