-- ===== src/Links/Loopback/Parties.antt =====
-- engine.py and server.py over a loopback link: what the two have for each other, and what an exchange
-- needs of them.
use dhava.Common.{String, ◌≡◌, ◌≢◌, List, map, length, Eq}
use dhava.Result.{ok}
use dhava.Models.{Operation, SyncSession}
use dhava.Models.Wire.{operation_to_dict}
use dhava.Dict
use dhava.Outbox.States.{lookup, map_option, when, as_synced}
use dhava.Audit.Fresh.{Ready}
use dhava.Engine.Fresh.{From, AreFresh}
use dhava.Protocol.{Libraries, SyncPushRequest, SyncPullResponse}
use dhava.Protocol.RoundTrip.{UnpacksRequest, UnpacksResponse}
use dhava.Server.{Server}
use dhava.Server.Serves.{delta_of, welcome}
use dhava.Node.{SyncEngine}
use dhava.Sync.{SyncReadings, request_of, pending_batch, new_session, ids_of}
use dhava.Sync.Conclude.{Closing}
use dhava.Links.Loopback.{Loopback}

-- no identifier at all
abbrev pub Nothing : String → Type 0
Nothing id = ⊥

module _ {V : Type 0} ⦃e : Eq V⦄ (lib : Libraries V) (r : SyncReadings) (peer : String)
    (s : SyncEngine V (Loopback V)) (l : Loopback V) (srv : Server V) where
  -- what the engine has for the link
  abbrev pub batch : List (Operation V)
  batch = pending_batch l.bandwidth_bps s

  -- the request that it makes of it
  abbrev pub asked : SyncPushRequest
  asked = request_of lib r batch (record { node = s; session = new_session r peer })

  -- what the server has for the engine, and its answer
  abbrev pub delta : List (Operation V)
  delta = delta_of lib (l.fresh l.calls) asked srv

  abbrev pub answer : SyncPullResponse
  answer = welcome lib (l.fresh l.calls) asked batch srv

  -- The fresh identifiers of both sides differ from each other, and no trail holds them; no
  -- transaction is open.
  pub record Drawn : Type 0 where
    pub for_engine : AreFresh r.stamps (Closing r)
    pub apart : r.push_audit.0 ≢ r.pull_audit.0
    pub engine_ready : Ready (From r.stamps (Closing r) 0) s.engine.db
    pub for_server : AreFresh (l.fresh l.calls).stamps Nothing
    pub server_ready : Ready (From (l.fresh l.calls).stamps Nothing 0) srv.db

  -- The two sides have the same key and compression algorithm, each nonce has 12 bytes, and msgpack
  -- gives back what was packed.
  pub record Understood : Type 0 where
    pub key : srv.crypto ≡ s.crypto
    pub nonce : length r.nonce ≡ 12
    pub nonce_back : length (l.fresh l.calls).nonce ≡ 12
    pub batch_unpacks :
        lib.unpack_msgpack (lib.pack_msgpack (map operation_to_dict batch))
        ≡ ok (map operation_to_dict batch)
    pub delta_unpacks :
        lib.unpack_msgpack (lib.pack_msgpack (map operation_to_dict delta))
        ≡ ok (map operation_to_dict delta)
    pub request_unpacks : UnpacksRequest lib.codec asked
    pub response_unpacks : UnpacksResponse lib.codec answer

  -- What a complete exchange leaves of the engine.
  pub record IsExchanged (session : SyncSession) (after : SyncEngine V (Loopback V)) : Type 0 where
    pub status : session.status ≡ "completed"
    pub pushed_all : session.ops_pushed ≡ length batch
    pub pulled_all : session.ops_pulled ≡ length delta
    pub queue :
        (id : String)
        → lookup id after.engine.db
          ≡ map_option
              (λ op. when (Dict.elem op.op_id (ids_of batch)) (as_synced r.synced) op)
              (lookup id s.engine.db)
