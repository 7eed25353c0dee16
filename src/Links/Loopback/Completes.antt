-- ===== src/Links/Loopback/Completes.antt =====
-- engine.py and server.py over a loopback link: an exchange from the call of `sync_now` to its end.
use dhava.Common.{
  String, ◌≡◌, inl, inr, refl, ap, ◌∙◌, Bool, true, Option, some, List, [], ◌∷◌, map, length, Eq,
  find,
}
use dhava.Result.{Result, ok, raise}
use dhava.Exec.Succeeds.{Returns}
use dhava.Models.{Operation, SyncSession}
use dhava.Models.Wire.{operation_to_dict}
use dhava.Backend.{Bytes}
use dhava.Crypto.{AesGcm, Compressor, CryptoLayer, pack}
use dhava.Crypto.RoundTrip.{IsCipher, AreCompressors, node, unpack-pack}
use dhava.Outbox.{has_id, lock}
use dhava.Outbox.States.{lookup-mark_synced}
use dhava.Engine.Fresh.{AreFresh}
use dhava.Protocol.{create_response, Libraries, serialize_request, serialize_response}
use dhava.Server.{Server, registered, unless_none, get_node_status, handle_sync_request}
use dhava.Server.Serves.{informed, handle_sync_request-welcome}
use dhava.Transport.{Transport, Network}
use dhava.Node.{SyncEngine, syncing}
use dhava.Sync.{
  Running, SyncReadings, request_of, pending_batch, new_session, session_body, transmit, sync_now,
  ids_of, pushed, finish,
}
use dhava.Sync.Conclude.{Closing}
use dhava.Sync.Completes.{Encloses, Completes, process-Completes, with_length}
use dhava.Links.Loopback.{Loopback, loopback_transport}
use dhava.Links.Loopback.Exchange.{sealed, request_of-Carries}
use dhava.Links.Loopback.Network.{
  link, network_of, after_call, get_active_transport-link, exchange-link,
}
use dhava.Links.Loopback.Parties.{
  batch, asked, delta, answer, Drawn, Understood, IsExchanged, Nothing,
}

module _ {V : Type 0} ⦃e : Eq V⦄ (a : AesGcm) (g z : Compressor) (ia : IsCipher a)
    (cs : AreCompressors g z) (installed : Bool) (lib : Libraries V)
    (platform_is : lib.platform ≡ node a g z installed) (r : SyncReadings) where
  answer-Encloses :
      (f : AreFresh r.stamps (Closing r)) (s : SyncEngine V (Loopback V)) (c : CryptoLayer)
      (nonce : Bytes) (ops : List (Operation V))
      → length nonce ≡ 12
      → c ≡ s.crypto
      → lib.unpack_msgpack (lib.pack_msgpack (map operation_to_dict ops))
        ≡ ok (map operation_to_dict ops)
      → Encloses r lib f s
          (unless_none ops
            (pack lib.platform c nonce (lib.pack_msgpack (map operation_to_dict ops))))
          ops
  answer-Encloses f s c nonce [] n key law = inl (refl, refl)
  answer-Encloses f s c nonce (op ∷ ops) n key law = inr (
    lib.pack_msgpack (map operation_to_dict (op ∷ ops)),
    sealed lib c nonce (lib.pack_msgpack (map operation_to_dict (op ∷ ops))) n,
    rw (key, platform_is) (unpack-pack a g z cs ia installed installed s.crypto nonce _ (λ h. h) n),
    law,
  )

  module _ (name peer : String) (s : SyncEngine V (Loopback V)) (l : Loopback V)
      (srv : Server V) where
    -- the run when the batch is sent
    abbrev started : Option String → Running V (Loopback V)
    started active = record {
      node = record s {
        network = network_of lib name active l;
        state = syncing;
        sync_locked = (lock s.sync_locked).1;
      };
      session = record (new_session r peer) { transport = (link lib name).name };
    }

    abbrev request : Bytes
    request = serialize_request lib.codec (asked lib r peer s l srv)

    abbrev sent : Option String → Running V (Loopback V)
    sent active = record (started active) {
      session = pushed r request (batch lib r peer s l srv) (started active).session;
    }

    transmit-Completes :
        (active : Option String)
        → l.connected ≡ true
        → l.server ≡ some srv
        → registered srv (get_node_status s.engine.node_id srv.db) ≡ true
        → (d : Drawn lib r peer s l srv) → Understood lib r peer s l srv
        → Returns
            (transmit lib r (link lib name) (batch lib r peer s l srv) request (started active))
            (λ _ after.
              Completes r lib d.for_engine
                (length (delta lib r peer s l srv))
                (answer lib r peer s l srv)
                (with_length r lib d.for_engine
                  (serialize_response lib.codec (answer lib r peer s l srv))
                  (sent active))
                after)
    unfolding transmit request_of create_response
    transmit-Completes active on at known d u =
        let q = asked lib r peer s l srv in
        let ops = batch lib r peer s l srv in
        let fresh = l.fresh l.calls in
        let c =
          request_of-Carries a g z ia cs installed lib platform_is r ops
            (record { node = s; session = new_session r peer }) srv u.nonce u.key u.batch_unpacks in
        let (answers, served) =
          handle_sync_request-welcome lib fresh q Nothing ops srv known d.for_server c
            d.server_ready in
        let reply = answer lib r peer s l srv in
        let called = after_call lib name (handle_sync_request lib fresh q srv).1 l in
        let (b, exchanged) =
          exchange-link lib name r.exchange_probed r.exchange_elapsed active q reply srv l on at
            u.request_unpacks answers in
        let (x, found) =
          get_active_transport-link lib name r.status_probed b called
            (handle_sync_request lib fresh q srv).1 on refl in
        rw exchanged (
          process-Completes r lib d.for_engine (link lib name) ops reply (delta lib r peer s l srv)
            (record {
              node = record s {
                network = network_of lib name b called;
                state = syncing;
                sync_locked = (lock s.sync_locked).1;
              };
              session = pushed r request ops (started active).session;
            })
            u.response_unpacks refl d.apart
            (answer-Encloses d.for_engine s (informed lib fresh q srv).crypto fresh.nonce
              (delta lib r peer s l srv) u.nonce_back (served.crypto ∙ u.key) u.delta_unpacks)
            d.engine_ready
            (
              some (link lib name),
              ap (λ (o : Result (Option (Transport (Loopback V))) × Network (Loopback V)). o.0)
                  found,
            ))

    sync_now-transmit :
        (active : Option String)
        → s.network ≡ network_of lib name active l
        → l.connected ≡ true
        → l.server ≡ some srv
        → (b : Option String) × (sync_now lib r peer s
            ≡ finish r.ended
                (transmit lib r (link lib name) (batch lib r peer s l srv) request (started b)))
    unfolding sync_now session_body loopback_transport request_of pending_batch lock
    sync_now-transmit active net on at =
        let (b, found) = get_active_transport-link lib name r.probed active l srv on at in
        (b, rw (net, found) refl)

    finished-IsExchanged :
        (b : Option String) (d : Drawn lib r peer s l srv)
        (run : Result (Unit {0}) × Running V (Loopback V))
        → Returns run (λ _ after.
          Completes r lib d.for_engine
            (length (delta lib r peer s l srv))
            (answer lib r peer s l srv)
            (with_length r lib d.for_engine
              (serialize_response lib.codec (answer lib r peer s l srv))
              (sent b))
            after)
        → (session : SyncSession) × ((finish r.ended run).0 ≡ ok session)
          × IsExchanged lib r peer s l srv session (finish r.ended run).1
    unfolding create_response
    finished-IsExchanged b d (raise problem, after) (x, eq, c) = cc eq
    finished-IsExchanged b d (ok x, after) (y, eq, (p, counts, session, outbox)) = (
      after.session,
      refl,
      record {
        status = ap (λ (o : SyncSession). o.status) session;
        pushed_all = ap (λ (o : SyncSession). o.ops_pushed) session;
        pulled_all = ap (λ (o : SyncSession). o.ops_pulled) session ∙ counts;
        queue = λ id.
            ap (find (has_id id)) outbox
            ∙ lookup-mark_synced (ids_of (batch lib r peer s l srv)) r.synced s.engine.db id
                d.engine_ready.idle;
      },
    )

    -- An exchange over a loopback link that is up and is the only link of the engine's manager,
    -- which has no callbacks, with a server that has the same key, the same compression algorithm
    -- and the same libraries. The server takes pushes of the node, no transaction is open on either
    -- side, the fresh identifiers differ from each other and are new to the two trails, the nonces
    -- have 12 bytes, the ciphers and compressors undo what they do, and msgpack gives back the
    -- messages and dicts of this exchange. Then `sync_now` returns a session with the status
    -- "completed": it counts the whole batch as pushed and all that the server had for the node as
    -- pulled, and in the queue exactly the operations of the batch are now synced, every other one
    -- being as it was.
    pub sync_now-IsExchanged :
        (active : Option String)
        → s.network ≡ network_of lib name active l
        → l.connected ≡ true
        → l.server ≡ some srv
        → registered srv (get_node_status s.engine.node_id srv.db) ≡ true
        → Drawn lib r peer s l srv
        → Understood lib r peer s l srv
        → (session : SyncSession) × ((sync_now lib r peer s).0 ≡ ok session)
          × IsExchanged lib r peer s l srv session (sync_now lib r peer s).1
    sync_now-IsExchanged active net on at known d u =
        let (b, same) = sync_now-transmit active net on at in
        rw same (finished-IsExchanged b d _ (transmit-Completes b on at known d u))
