-- ===== src/Links/Loopback/Exchange.antt =====
-- An engine and a server that talk over a loopback link: the request, the answer and what it says.
use dhava.Common.{
  ◌<◌, ◌≡◌, refl, sym, ap, ◌∙◌, Bool, Option, some, List, map, length, length-append, arith, Eq,
  if_intro,
}
use dhava.Result.{Result, ok, raise}
use dhava.Exec.{continue, pure}
use dhava.Models.{Operation}
use dhava.Models.Wire.{operation_to_dict}
use dhava.Backend.{Bytes}
use dhava.Crypto.{AesGcm, Compressor, CryptoLayer, pack}
use dhava.Crypto.RoundTrip.{IsCipher, AreCompressors, node, unpack-pack}
use dhava.Protocol.{
  Libraries, SyncPushRequest, SyncPullResponse, create_request, serialize_request,
  serialize_response,
}
use dhava.Protocol.RoundTrip.{UnpacksRequest, deserialize-serialize_request}
use dhava.Server.{Server, handle_sync_request}
use dhava.Server.Acks.{Carries, Acks, handle_sync_request-Acks}
use dhava.Sync.{Running, SyncReadings, request_of}
use dhava.Links.Loopback.{Loopback, on_server, serve, served_by, send_receive}

-- A method that answers with bytes has made them from a message.
answered :
    {S A : Type 0} (encode : A → Bytes) (raw : Bytes) (run : Result A × S)
    → (continue run.0 (λ x. pure (some (encode x))) run.1).0 ≡ ok (some raw)
    → (x : A) × (run.0 ≡ ok x) × (raw ≡ encode x)
answered encode raw (ok x, s) h = (x, refl, cc h)
answered encode raw (raise e, s) h = cc h

module _ {V : Type 0} ⦃e : Eq V⦄ (lib : Libraries V) where
  pub parsed :
      (q : SyncPushRequest) (s : Server V) (l : Loopback V)
      → UnpacksRequest lib.codec q
      → let run = on_server s (λ fresh. handle_sync_request lib fresh q) l in
        serve lib (serialize_request lib.codec q) s l
        ≡ continue run.0 (λ resp. pure (some (serialize_response lib.codec resp))) run.1
  unfolding serve
  parsed q s l law = rw (deserialize-serialize_request lib.codec (l.arrived l.calls) q law) refl

  reached :
      (request raw : Bytes) (s : Server V) (l : Loopback V)
      → l.server ≡ some s
      → (send_receive lib request l).0 ≡ ok (some raw)
      → (serve lib request s l).0 ≡ ok (some raw)
  unfolding send_receive
  reached request raw s l at =
      if_intro
        (λ (o : Result (Option Bytes) × Loopback V).
          o.0 ≡ ok (some raw) → (serve lib request s l).0 ≡ ok (some raw))
        l.connected _ _ (λ _ h. ap (λ o. (served_by lib request o l).0) (sym at) ∙ h) (λ _ h. cc h)

  served :
      (q : SyncPushRequest) (s : Server V) (l : Loopback V) (raw : Bytes)
      → UnpacksRequest lib.codec q
      → (serve lib (serialize_request lib.codec q) s l).0 ≡ ok (some raw)
      → (resp : SyncPullResponse) × ((handle_sync_request lib (l.fresh l.calls) q s).0 ≡ ok resp)
        × (raw ≡ serialize_response lib.codec resp)
  served q s l raw law h =
      answered (serialize_response lib.codec) raw
        (on_server s (λ fresh. handle_sync_request lib fresh q) l)
        (sym (ap (λ (run : Result (Option Bytes) × Loopback V). run.0) (parsed q s l law)) ∙ h)

  pub sealed :
      (c : CryptoLayer) (nonce raw : Bytes)
      → length nonce ≡ 12
      → 0 < length (pack lib.platform c nonce raw)
  unfolding pack
  sealed c nonce raw n = omega (arith, n, length-append {0} nonce)

-- The two peers run the same libraries, which keep what they document.
module _ {V W : Type 0} ⦃e : Eq V⦄ (a : AesGcm) (g z : Compressor) (ia : IsCipher a)
    (cs : AreCompressors g z) (installed : Bool) (lib : Libraries V)
    (platform_is : lib.platform ≡ node a g z installed) (r : SyncReadings)
    (pending : List (Operation V)) (run : Running V W) where
  -- msgpack gives the dicts of the batch back
  abbrev pub Unpacks : Type 0
  Unpacks =
      lib.unpack_msgpack (lib.pack_msgpack (map operation_to_dict pending))
      ≡ ok (map operation_to_dict pending)

  pub request_of-Carries :
      (s : Server V)
      → length r.nonce ≡ 12
      → s.crypto ≡ run.node.crypto
      → Unpacks
      → Carries lib s (request_of lib r pending run) pending
  unfolding request_of create_request
  request_of-Carries s n key unpacks = record {
    raw = lib.pack_msgpack (map operation_to_dict pending);
    not_empty =
        sealed lib run.node.crypto r.nonce (lib.pack_msgpack (map operation_to_dict pending)) n;
    opens =
        rw (key, platform_is)
          (unpack-pack a g z cs ia installed installed run.node.crypto r.nonce
            (lib.pack_msgpack (map operation_to_dict pending)) (λ h. h) n);
    hashes = refl;
    unpacks = unpacks;
  }

  -- A batch that an engine sends over a loopback link to a server with the same key, the same
  -- compression algorithm and the same libraries: the bytes that come back, if any do, are a
  -- serialised response, and it acknowledges exactly the operations of the batch, in their order,
  -- or it is an error and acknowledges none. The nonce has 12 bytes, the ciphers and compressors
  -- undo what they do, and msgpack gives back the request and the dicts of the batch.
  pub send_receive-Acks :
      (s : Server V) (l : Loopback V) (raw : Bytes)
      → length r.nonce ≡ 12
      → s.crypto ≡ run.node.crypto
      → Unpacks
      → UnpacksRequest lib.codec (request_of lib r pending run)
      → l.server ≡ some s
      → (send_receive lib (serialize_request lib.codec (request_of lib r pending run)) l).0
        ≡ ok (some raw)
      → (resp : SyncPullResponse) × (raw ≡ serialize_response lib.codec resp) × Acks pending resp
  send_receive-Acks s l raw n key unpacks law at h =
      let q = request_of lib r pending run in
      let (resp, handled, encoded) =
        served lib q s l raw law (reached lib (serialize_request lib.codec q) raw s l at h) in
      (
        resp,
        encoded,
        handle_sync_request-Acks lib (l.fresh l.calls) q pending s resp
            (request_of-Carries s n key unpacks) handled,
      )
