-- ===== src/Links/Serial.antt =====
-- transports/serial.py: an exchange over a serial port. The port is the interface of the library
-- `serial`, which may not be installed; `read` gives fewer bytes than asked when its time is over.
pub mod Intact
use dhava.Common.{
  ℕ, String, ◌+◌, ◌*◌, ◌/◌, ◌<◌, ◌≡◌, refl, max, Bool, true, false, Option, none, some, List, ◌++◌,
  length, ltb, arith, not, if◌then◌else◌, if_false,
}
use mathlib.Core.List.{append_assoc, append-nil}
use dhava.Result.{Result, ok, raise}
use dhava.Exec.{Exec, ◌>>=◌, ◌>>◌, pure, throw, modify}
use dhava.Models.{Time}
use dhava.Backend.{Bytes}
use dhava.Framing
use dhava.Framing.{
  Sha256, Header, frame_payload, unframe_payload, pack_header, frame_header_size, u32_mod,
}
use dhava.Transport.{Transport}
use dhava.Links.{Meter, Link, framed, parse_header, or_else}

-- `serial.Serial`: `open_port` is its constructor, with the port and the rate of the link
pub record Ports (N : Type 0) : Type 0 where
  pub installed : Bool
  pub open_port : Exec N (Unit {0})
  pub is_open : Exec N Bool
  -- the time limit, and both buffers emptied
  pub prepare : Exec N (Unit {0})
  pub write : Bytes → Exec N (Unit {0})
  pub flush : Exec N (Unit {0})
  pub read : ℕ → Exec N Bytes
  pub close_port : Exec N (Unit {0})

-- the link: `connected` is that `_serial` is an object
pub record SerialLink (N : Type 0) : Type 0 where
  pub connected : Bool
  pub last_received_bytes : Option Bytes
  pub wire : N

-- `max(1200, int(baudrate * 0.8))`
unfoldable pub bandwidth_of_rate : ℕ → ℕ
bandwidth_of_rate baudrate = max 1_200 (baudrate * 8 / 10)

module _ {N : Type 0} (port : Ports N) (sha : Sha256) where
  abbrev pub on_port : {A : Type 0} → Exec N A → Exec (SerialLink N) A
  on_port m l = let (r, w) = m l.wire in (r, record l { wire = w })

  abbrev opening : SerialLink N → Result (Unit {0}) × N → Bool × SerialLink N
  opening l (ok _, w) = (true, record l { connected = true; wire = w })
  opening l (raise e, w) = (false, record l { connected = false; wire = w })

  -- `_get_serial`: whether there is a port, which is opened if it is not yet
  unfoldable pub get_serial : SerialLink N → Bool × SerialLink N
  get_serial l =
      if not port.installed
      then (false, l)
      else if l.connected
      then (true, l)
      else opening l (port.open_port l.wire)

  abbrev pub with_serial :
      {A : Type 0} → A → Exec (SerialLink N) A → Bool × SerialLink N → Result A × SerialLink N
  with_serial missing m (true, l) = or_else missing m l
  with_serial missing m (false, l) = (ok missing, l)

  unfoldable pub is_available : Exec (SerialLink N) Bool
  unfolding get_serial
  is_available l = with_serial false (on_port port.is_open) (get_serial l)

  -- `return None` if fewer bytes came than asked
  abbrev pub if_all :
      ℕ → Bytes → Exec (SerialLink N) (Option Bytes) → Exec (SerialLink N) (Option Bytes)
  if_all n bytes next l = if ltb (length bytes) n then (ok none, l) else next l

  unfoldable pub extract : Bytes → Exec (SerialLink N) (Option Bytes)
  unfolding unframe_payload
  extract raw = framed (unframe_payload sha raw) >>= λ parts. pure (some parts.0)

  unfoldable pub read_payload : Bytes → Exec (SerialLink N) (Option Bytes)
  unfolding parse_header extract
  read_payload header = parse_header header >>= λ h.
      on_port (port.read h.size) >>= λ payload. if_all h.size payload (extract (header ++ payload))

  unfoldable pub read_frame : Exec (SerialLink N) (Option Bytes)
  unfolding read_payload
  read_frame = on_port (port.read frame_header_size) >>= λ header.
      if_all frame_header_size header (read_payload header)

  unfoldable pub talk : Bytes → Exec (SerialLink N) (Option Bytes)
  unfolding read_frame frame_payload
  talk request = on_port port.prepare >>= λ _. framed (frame_payload sha request) >>= λ frame.
      on_port (port.write frame >> port.flush) >>= λ _. read_frame

  unfoldable pub send_receive : Bytes → Exec (SerialLink N) (Option Bytes)
  unfolding talk get_serial
  send_receive request l = with_serial none (talk request) (get_serial l)

  -- An answer that came before stays in the buffer if none comes now.
  abbrev buffer : Option Bytes → Exec (SerialLink N) Bool
  buffer none l = (ok false, l)
  buffer (some answer) l = (ok true, record l { last_received_bytes = some answer })

  unfoldable pub send : Bytes → Exec (SerialLink N) Bool
  unfolding send_receive
  send payload = send_receive payload >>= buffer

  unfoldable pub receive : Exec (SerialLink N) (Option Bytes)
  receive l = (ok l.last_received_bytes, record l { last_received_bytes = none })

  unfoldable pub close : Exec (SerialLink N) (Unit {0})
  close l =
      if l.connected
      then (ok tt, record l { connected = false; wire = (port.close_port l.wire).1 })
      else (ok tt, l)

  -- the link as the manager and the engine see it
  pub serial_transport : String → ℕ → Transport (SerialLink N)
  unfolding is_available send receive send_receive close bandwidth_of_rate
  serial_transport name baudrate = record {
    name = name;
    is_available = is_available;
    estimate_bandwidth = pure (bandwidth_of_rate baudrate);
    estimate_latency = pure 100_000;
    send = send;
    receive = receive;
    send_receive = send_receive;
    close = close;
  }
