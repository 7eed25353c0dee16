-- ===== src/Links/Http.antt =====
-- transports/http.py: requests to a server, with repeated attempts. The client is the interface of the
-- library `httpx`; its calls may raise.
pub mod Attempts
use dhava.Common.{
  ℕ, zero, suc, String, ◌+◌, ◌-◌, ◌/◌, max, Bool, true, false, Option, none, some, length, ◌==◌,
  if◌then◌else◌,
}
use dhava.Result.{Result, ok, raise}
use dhava.Exec.{Exec, ◌>>=◌, ◌>>◌, pure}
use dhava.Models.{Time}
use dhava.Backend.{Bytes}
use dhava.Transport.{Transport, at_least_1ms}
use dhava.Links.{
  Meter, Link, measured, bits_per_second, or_else, on_wire, note, buffer, take_received,
}

-- `httpx.Response`
pub record Response : Type 0 where
  pub status_code : ℕ
  pub content : Bytes

-- `httpx.Client` with the address of the server, and `time.perf_counter`, which does not raise
pub record Client (N : Type 0) : Type 0 where
  pub get : Exec N Response
  pub post : Bytes → Exec N Response
  pub close_client : Exec N (Unit {0})
  pub perf_counter : N → Time × N

module _ {N : Type 0} (client : Client N) where
  abbrev clock : Exec (Link N) Time
  clock l = let (t, w) = client.perf_counter l.wire in (ok t, record l { wire = w })

  unfoldable pub is_available : Exec (Link N) Bool
  is_available = or_else false (
      clock >>= λ start. on_wire client.get >>= λ resp. clock >>= λ stop.
      note (λ m. record m { latency = at_least_1ms (stop - start) })
      >> pure (if resp.status_code == 200 then true else resp.status_code == 204))

  -- `send` takes the answer to the buffer, and empties it if there is none.
  abbrev pub taken : Bytes → Time → Response → Exec (Link N) Bool
  taken payload duration resp =
      if resp.status_code == 200
      then note (λ m. record m {
        bandwidth_bps = bits_per_second (length payload + length resp.content) duration;
        latency = duration / 2;
        last_received_bytes = some resp.content;
      })
        >> pure true
      else buffer none

  abbrev pub emptied : Result Bool × Link N → Result Bool × Link N
  emptied (ok b, l) = (ok b, l)
  emptied (raise e, l) = buffer none l

  unfoldable pub send : Bytes → Exec (Link N) Bool
  send payload l = emptied (
      (clock >>= λ start. on_wire (client.post payload) >>= λ resp.
      clock >>= λ stop. taken payload (at_least_1ms (stop - start)) resp)
        l)

  -- an answer with the status 200
  abbrev pub accepted : Bytes → Time → Response → Exec (Link N) (Option Bytes)
  accepted request duration resp =
      if resp.status_code == 200
      then note (measured (length request + length resp.content) duration)
        >> pure (some resp.content)
      else pure none

  -- one turn of the loop: an answer, or none, with an exception taken for none
  unfoldable pub attempt : Bytes → Exec (Link N) (Option Bytes)
  attempt request = or_else none (
      clock >>= λ start. on_wire (client.post request) >>= λ resp.
      clock >>= λ stop. accepted request (at_least_1ms (stop - start)) resp)

  abbrev pub or_again : Option Bytes → Exec (Link N) (Option Bytes) → Exec (Link N) (Option Bytes)
  or_again (some answer) next = pure (some answer)
  or_again none next = next

  unfoldable pub attempts : ℕ → Bytes → Exec (Link N) (Option Bytes)
  unfolding attempt
  attempts zero request = pure none
  attempts (suc n) request = attempt request >>= λ answer. or_again answer (attempts n request)

  unfoldable pub send_receive : ℕ → Bytes → Exec (Link N) (Option Bytes)
  unfolding attempts
  send_receive retry_count request = attempts (max 1 retry_count) request

  -- the link as the manager and the engine see it
  pub http_transport : String → ℕ → Transport (Link N)
  unfolding is_available send take_received send_receive
  http_transport name retry_count = record {
    name = name;
    is_available = is_available;
    estimate_bandwidth = λ l. (ok l.meter.bandwidth_bps, l);
    estimate_latency = λ l. (ok l.meter.latency, l);
    send = send;
    receive = take_received;
    send_receive = send_receive retry_count;
    close = or_else tt (on_wire client.close_client);
  }
