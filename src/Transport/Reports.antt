-- ===== src/Transport/Reports.antt =====
-- What the manager reports of an exchange and of a transmission, whatever the link does.
use dhava.Common.{ℕ, ◌≤◌, ◌≡◌, refl, Bool, true, false, not, Option, none, some, arith, length}
use dhava.Result.{Result, ok, raise}
use dhava.Models.{Time}
use dhava.Backend.{Bytes}
use dhava.Transport.{Transport, TransportResult, Network, get_active_transport, at_least_1ms}
use dhava.Transport.Relay.{exchange, exchange_over, exchanged}

abbrev pub is_some : {A : Type 0} → Option A → Bool
is_some none = false
is_some (some _) = true

-- A report is of a success exactly if it has no error, and claims at most the bytes of the request.
pub record IsReport (size : ℕ) (succeeded : Bool) (res : TransportResult) : Type 0 where
  pub success_is : res.success ≡ succeeded
  pub error_is : is_some res.error ≡ not succeeded
  pub bounded : res.bytes_sent ≤ size

module _ {W : Type 0} (now elapsed : Time) where
  exchanged-IsReport :
      (t : Transport W) (size : ℕ) (r : Result (Option Bytes))
      → IsReport size
          (is_some (exchanged t size (at_least_1ms elapsed) r).0)
          (exchanged t size (at_least_1ms elapsed) r).1
  exchanged-IsReport t size (ok (some a)) = ground arith
  exchanged-IsReport t size (ok none) = ground arith
  exchanged-IsReport t size (raise e) = ground arith

  exchange_over-IsReport :
      (request : Bytes) (o : Option (Transport W)) (n : Network W)
      → (resp : Option Bytes) × (res : TransportResult) × ((exchange_over request elapsed o n).0
          ≡ ok (resp, res))
        × IsReport (length request) (is_some resp) res
  exchange_over-IsReport request none n = (none, _, refl, ground arith)
  exchange_over-IsReport request (some t) n =
      (_, _, refl, exchanged-IsReport t (length request) (t.send_receive request n.world).0)

  -- If the search for a link does not raise, an exchange does not either, whatever the link raises. It
  -- reports a success exactly if it returns an answer, an error exactly if it does not, and at most
  -- the bytes of the request as sent.
  pub exchange-IsReport :
      (request : Bytes) (n : Network W) (o : Option (Transport W))
      → (get_active_transport now n).0 ≡ ok o
      → (resp : Option Bytes) × (res : TransportResult) × ((exchange now elapsed request n).0
          ≡ ok (resp, res))
        × IsReport (length request) (is_some resp) res
  unfolding exchange
  exchange-IsReport request n o found =
      rw found (exchange_over-IsReport request o (get_active_transport now n).1)
