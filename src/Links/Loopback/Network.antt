-- ===== src/Links/Loopback/Network.antt =====
-- A manager whose only link is a loopback link to a server.
use dhava.Common.{
  ◌+◌, String, ◌≡◌, refl, ap, ◌∙◌, Bool, true, false, Option, none, some, [], ◌∷◌, Eq,
  if◌then◌else◌, if_true, str_eq, str_eq_iff, length,
}
use dhava.Result.{ok}
use dhava.Models.{Time}
use dhava.Dict
use dhava.Protocol.{
  Libraries, SyncPushRequest, SyncPullResponse, serialize_request, serialize_response,
}
use dhava.Protocol.RoundTrip.{UnpacksRequest}
use dhava.Server.{Server, handle_sync_request}
use dhava.Transport.{
  Transport, Network, served, at_least_1ms, get_active_transport, first_available, announce,
  announce_new,
}
use dhava.Transport.Relay.{exchange}
use dhava.Links.Loopback.{Loopback, available, served_by, send_receive, loopback_transport}
use dhava.Links.Loopback.Exchange.{parsed}

module _ {V : Type 0} ⦃e : Eq V⦄ (lib : Libraries V) (name : String) where
  abbrev pub link : Transport (Loopback V)
  link = loopback_transport lib name

  abbrev pub network_of : Option String → Loopback V → Network (Loopback V)
  network_of active l = record {
    manager = record {
      transports = (name, link) ∷ [];
      preference_order = name ∷ [];
      callbacks = [];
      last_active_name = active;
    };
    world = l;
  }

  named : str_eq name name ≡ true
  named = (str_eq_iff name name).1 refl

  announce_new-link :
      (now : Time) (active : Option String) (l : Loopback V)
      → (a : Option String) × (announce_new now name link (network_of active l)
          ≡ (ok tt, network_of a l))
  unfolding announce loopback_transport
  announce_new-link now none l = (some name, refl)
  announce_new-link now (some old) l = go (str_eq old name)
    where
      go :
          (b : Bool)
          → (a : Option String) × ((if b
                then (ok tt, network_of (some old) l)
                else announce now name link (network_of (some old) l))
              ≡ (ok tt, network_of a l))
      go true = (some old, refl)
      go false = (some name, refl)

  available-link :
      (l : Loopback V) (s : Server V) → l.connected ≡ true → l.server ≡ some s → available l ≡ true
  available-link l s on at = rw (on, at) refl

  -- The search finds the link, and leaves the world as it is.
  pub get_active_transport-link :
      (now : Time) (active : Option String) (l : Loopback V) (s : Server V)
      → l.connected ≡ true
      → l.server ≡ some s
      → (a : Option String) × (get_active_transport now (network_of active l)
          ≡ (ok (some link), network_of a l))
  unfolding get_active_transport first_available loopback_transport Dict.get
  get_active_transport-link now active l s on at =
      let (a, eq) = announce_new-link now active l in
      (a, rw named (rw (available-link l s on at) (rw eq refl)))

  -- the link once it has served a request
  abbrev pub after_call : Server V → Loopback V → Loopback V
  after_call t l = record l { server = some t; calls = l.calls + 1 }

  send_receive-link :
      (q : SyncPushRequest) (resp : SyncPullResponse) (s : Server V) (l : Loopback V)
      → l.connected ≡ true
      → l.server ≡ some s
      → UnpacksRequest lib.codec q
      → (handle_sync_request lib (l.fresh l.calls) q s).0 ≡ ok resp
      → send_receive lib (serialize_request lib.codec q) l ≡ (
        ok (some (serialize_response lib.codec resp)),
        after_call (handle_sync_request lib (l.fresh l.calls) q s).1 l,
      )
  unfolding send_receive
  send_receive-link q resp s l on at law answers =
      let request = serialize_request lib.codec q in
      if_true l.connected (served_by lib request l.server l) (ok none, l) on
      ∙ ap (λ o. served_by lib request o l) at
      ∙ parsed lib q s l law
      ∙ rw answers refl

  -- The exchange of a request that the server answers.
  pub exchange-link :
      (now elapsed : Time) (active : Option String) (q : SyncPushRequest) (resp : SyncPullResponse)
      (s : Server V) (l : Loopback V)
      → l.connected ≡ true
      → l.server ≡ some s
      → UnpacksRequest lib.codec q
      → (handle_sync_request lib (l.fresh l.calls) q s).0 ≡ ok resp
      → (a : Option String) × (exchange now elapsed
            (serialize_request lib.codec q)
            (network_of active l)
          ≡ (
            ok (
              some (serialize_response lib.codec resp),
              served name (length (serialize_request lib.codec q)) (at_least_1ms elapsed),
            ),
            network_of a (after_call (handle_sync_request lib (l.fresh l.calls) q s).1 l),
          ))
  unfolding exchange loopback_transport
  exchange-link now elapsed active q resp s l on at law answers =
      let (a, eq) = get_active_transport-link now active l s on at in
      (a, rw eq (rw (send_receive-link q resp s l on at law answers) refl))
