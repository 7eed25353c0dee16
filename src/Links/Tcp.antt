-- ===== src/Links/Tcp.antt =====
-- transports/tcp.py: an exchange over a socket that is opened for it. The socket is the interface of
-- the operating system; its calls may raise, and `recv` may return fewer bytes than asked.
pub mod Intact
use dhava.Common.{ℕ, String, ◌+◌, ◌-◌, max, Bool, true, false, Option, none, some, ◌++◌, length}
use dhava.Result.{Result, ok, raise}
use dhava.Exec.{Exec, ◌>>=◌, ◌>>◌, pure, throw}
use dhava.Models.{Time}
use dhava.Backend.{Bytes}
use dhava.Framing.{Sha256, Header, frame_payload, unframe_payload, frame_header_size}
use dhava.Transport.{Transport, at_least_1ms}
use dhava.Links.{
  Meter, Link, measured, framed, parse_header, or_else, on_wire, note, buffer, take_received,
}
use dhava.Links.Stream.{Reading, complete, closed, exhausted, recv_exactly}

-- `socket` and `time.perf_counter`, which does not raise
pub record Sockets (N : Type 0) : Type 0 where
  pub connect : Exec N (Unit {0})
  pub sendall : Bytes → Exec N (Unit {0})
  pub recv : ℕ → Exec N Bytes
  pub disconnect : N → N
  pub perf_counter : N → Time × N

module _ {N : Type 0} (net : Sockets N) (sha : Sha256) where
  abbrev pub clock : Exec (Link N) Time
  clock l = let (t, w) = net.perf_counter l.wire in (ok t, record l { wire = w })

  -- the end of `with socket.create_connection(...)`
  abbrev pub leaving : {A : Type 0} → Exec (Link N) A → Exec (Link N) A
  leaving m l = let (r, k) = m l in (r, record k { wire = net.disconnect k.wire })

  abbrev pub opened : {A : Type 0} → Exec (Link N) A → Exec (Link N) A
  opened m = on_wire net.connect >>= λ _. leaving m

  unfoldable pub is_available : Exec (Link N) Bool
  is_available = or_else false (
      clock >>= λ start. opened (
        clock >>= λ stop.
        note (λ m. record m { latency = at_least_1ms (stop - start) }) >> pure true))

  -- The frame is complete: it is timed, checked and counted.
  unfoldable pub conclude : Time → ℕ → Bytes → Exec (Link N) (Option Bytes)
  unfolding unframe_payload
  conclude start sent raw = clock >>= λ stop. framed (unframe_payload sha raw) >>= λ parts.
      note (measured (sent + length raw) (at_least_1ms (stop - start))) >> pure (some parts.0)

  -- `return None` if the stream ends too early
  abbrev pub when_complete :
      Reading → (Bytes → Exec (Link N) (Option Bytes)) → Exec (Link N) (Option Bytes)
  when_complete (complete bytes) next = next bytes
  when_complete closed next = pure none
  when_complete exhausted next = throw "no turns left"

  unfoldable pub read_payload : Time → ℕ → Bytes → Exec (Link N) (Option Bytes)
  unfolding conclude recv_exactly parse_header
  read_payload start sent header = parse_header header >>= λ h.
      on_wire (recv_exactly net.recv h.size) >>= λ reading.
      when_complete reading (λ payload. conclude start sent (header ++ payload))

  unfoldable pub read_frame : Time → ℕ → Exec (Link N) (Option Bytes)
  unfolding read_payload
  read_frame start sent = on_wire (recv_exactly net.recv frame_header_size) >>= λ reading.
      when_complete reading (read_payload start sent)

  unfoldable pub talk : Time → Bytes → Exec (Link N) (Option Bytes)
  unfolding read_frame frame_payload
  talk start request = framed (frame_payload sha request) >>= λ frame.
      on_wire (net.sendall frame) >>= λ _. read_frame start (length frame)

  unfoldable pub send_receive : Bytes → Exec (Link N) (Option Bytes)
  unfolding talk
  send_receive request = or_else none (clock >>= λ start. opened (talk start request))

  unfoldable pub send : Bytes → Exec (Link N) Bool
  unfolding send_receive
  send payload = send_receive payload >>= buffer

  -- the link as the manager and the engine see it
  pub tcp_transport : String → Transport (Link N)
  unfolding is_available send_receive send take_received
  tcp_transport name = record {
    name = name;
    is_available = is_available;
    estimate_bandwidth = λ l. (ok l.meter.bandwidth_bps, l);
    estimate_latency = λ l. (ok l.meter.latency, l);
    send = send;
    receive = take_received;
    send_receive = send_receive;
    close = pure tt;
  }
