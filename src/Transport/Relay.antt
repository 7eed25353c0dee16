-- ===== src/Transport/Relay.antt =====
-- transport.py: sending, receiving and exchanging over the link that the manager chooses.
use dhava.Common.{ℕ, Bool, true, false, Option, none, some, length}
use dhava.Result.{Result, ok, raise}
use dhava.Exec.{Exec, ◌>>=◌}
use dhava.Models.{Time}
use dhava.Backend.{Bytes}
use dhava.Transport.{Network, failure, served, at_least_1ms, or_nothing, get_active_transport}
use dhava.Transport.Base.{Transport, TransportResult}

module _ {W : Type 0} where
  abbrev pub sent_result : Transport W → ℕ → Time → Result Bool → TransportResult
  sent_result t size d (ok true) = served t.name size d
  sent_result t size d (ok false) = failure t.name 0 d "Transport send failed"
  sent_result t size d (raise e) = failure t.name 0 d e

  abbrev pub send_over : Bytes → Time → Option (Transport W) → Exec (Network W) TransportResult
  send_over payload elapsed none n =
      (ok (failure "none" 0 0 "No transport currently available (network denied)"), n)
  send_over payload elapsed (some t) n =
      let (r, w) = t.send payload n.world in
      (ok (sent_result t (length payload) (at_least_1ms elapsed) r), record n { world = w })

  -- The reading of the clock is for the probe, and the time that passed for the report.
  unfoldable pub send : Time → Time → Bytes → Exec (Network W) TransportResult
  unfolding get_active_transport
  send now elapsed payload = get_active_transport now >>= send_over payload elapsed

  abbrev pub receive_over : Option (Transport W) → Exec (Network W) (Option Bytes)
  receive_over none n = (ok none, n)
  receive_over (some t) n =
      let (r, w) = t.receive n.world in (ok (or_nothing r), record n { world = w })

  unfoldable pub receive : Time → Exec (Network W) (Option Bytes)
  unfolding get_active_transport
  receive now = get_active_transport now >>= receive_over

  abbrev pub exchanged :
      Transport W → ℕ → Time → Result (Option Bytes) → Option Bytes × TransportResult
  exchanged t size d (ok (some answer)) = (some answer, served t.name size d)
  exchanged t size d (ok none) =
      (none, failure t.name size d "No response received from remote peer")
  exchanged t size d (raise e) = (none, failure t.name 0 d e)

  abbrev pub exchange_over :
      Bytes → Time → Option (Transport W) → Exec (Network W) (Option Bytes × TransportResult)
  exchange_over request elapsed none n = (ok (none, failure "none" 0 0 "No transport available"), n)
  exchange_over request elapsed (some t) n =
      let (r, w) = t.send_receive request n.world in
      (ok (exchanged t (length request) (at_least_1ms elapsed) r), record n { world = w })

  unfoldable pub exchange : Time → Time → Bytes → Exec (Network W) (Option Bytes × TransportResult)
  unfolding get_active_transport
  exchange now elapsed request = get_active_transport now >>= exchange_over request elapsed
