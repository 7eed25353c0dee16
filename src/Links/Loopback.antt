-- ===== src/Links/Loopback.antt =====
-- transports/loopback.py: an engine and a server in one process. A request is handed to the server as
-- bytes, and the answer comes back as bytes.
pub mod Exchange
pub mod Network
pub mod Parties
pub mod Completes
use dhava.Common.{
  ℕ, suc, String, Bool, true, false, ◌&&◌, Option, none, some, ◌+◌, Eq, if◌then◌else◌,
}
use dhava.Result.{Result, ok, raise}
use dhava.Exec.{Exec, ◌>>=◌, pure, lift}
use dhava.Models.{Time}
use dhava.Backend.{Bytes}
use dhava.Protocol.{
  Libraries, SyncPushRequest, SyncPullResponse, deserialize_request, serialize_response,
}
use dhava.Server.{Server, Fresh, handle_sync_request}
use dhava.Transport.{Transport}

-- The link, and what the server reads from outside in each call: `calls` is the number of calls so
-- far, and `arrived` the reading of the clock when a request is parsed.
pub record Loopback (V : Type 0) : Type 0 where
  pub server : Option (Server V)
  pub connected : Bool
  pub bandwidth_bps : ℕ
  pub latency : Time
  pub calls : ℕ
  pub arrived : ℕ → Time
  pub fresh : ℕ → Fresh

module _ {V : Type 0} where
  -- `self.server is not None`
  abbrev pub has_server : Option (Server V) → Bool
  has_server none = false
  has_server (some s) = true

  abbrev pub available : Loopback V → Bool
  available l = l.connected && has_server l.server

  -- the call of the server's method, which may raise
  abbrev pub on_server : {A : Type 0} → Server V → (Fresh → Exec (Server V) A) → Exec (Loopback V) A
  on_server s method l =
      let (r, t) = method (l.fresh l.calls) s in
      (r, record l { server = some t; calls = l.calls + 1 })

  unfoldable pub serve :
      ⦃e : Eq V⦄ → Libraries V → Bytes → Server V → Exec (Loopback V) (Option Bytes)
  unfolding handle_sync_request deserialize_request serialize_response
  serve lib request s l =
      (lift (deserialize_request lib.codec (l.arrived l.calls) request) >>= λ req.
      on_server s (λ fresh. handle_sync_request lib fresh req) >>= λ resp.
      pure (some (serialize_response lib.codec resp)))
        l

  abbrev pub served_by :
      ⦃e : Eq V⦄ → Libraries V → Bytes → Option (Server V) → Exec (Loopback V) (Option Bytes)
  served_by lib request none = pure none
  served_by lib request (some s) = serve lib request s

  unfoldable pub send_receive : ⦃e : Eq V⦄ → Libraries V → Bytes → Exec (Loopback V) (Option Bytes)
  unfolding serve
  send_receive lib request l =
      if l.connected then served_by lib request l.server l else (ok none, l)

  -- the link as the manager and the engine see it
  unfoldable pub loopback_transport : ⦃e : Eq V⦄ → Libraries V → String → Transport (Loopback V)
  unfolding send_receive
  loopback_transport lib name = record {
    name = name;
    is_available = λ l. (ok (available l), l);
    estimate_bandwidth = λ l. (ok l.bandwidth_bps, l);
    estimate_latency = λ l. (ok l.latency, l);
    send = λ payload l. (ok (available l), l);
    receive = pure none;
    send_receive = send_receive lib;
    close = pure tt;
  }
