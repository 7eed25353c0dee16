-- ===== src/Links.antt =====
-- transports/tcp.py, serial.py, http.py, file.py and loopback.py: the links. What each does to the
-- outside goes through an interface of the operating system or of a client library.
pub mod Stream
pub mod Tcp
pub mod Serial
pub mod Http
pub mod Loopback
pub mod File
use dhava.Common.{
  ℕ, ◌+◌, ◌-◌, ◌*◌, ◌/◌, ◌<◌, ◌≡◌, ap, ◌∙◌, arith, if_true, max, Bool, true, false, Option, none,
  some, List, [], ◌∷◌, ◌++◌, ltb, ◌==◌, if◌then◌else◌, length,
}
use dhava.Result.{Result, ok, raise}
use dhava.Exec.{Exec, ◌>>=◌, ◌>>◌, pure, throw, modify}
use dhava.Models.{Time}
use dhava.Backend.{Bytes}
use dhava.Framing.{
  Framed, Header, Sha256, ok, error, frame_header_size, unpack_header, pack_header, u32_mod,
}
use dhava.Framing.RoundTrip.{length-pack_header, unpack_header-pack_header, header_of}

-- the fields of a link that its calls change; a latency is in microseconds
pub record Meter : Type 0 where
  pub bandwidth_bps : ℕ
  pub latency : Time
  pub last_received_bytes : Option Bytes

-- a link and what it is connected to
pub record Link (N : Type 0) : Type 0 where
  pub meter : Meter
  pub wire : N

-- `int((total_bytes * 8) / duration)`, of a duration in microseconds
abbrev pub bits_per_second : ℕ → Time → ℕ
bits_per_second total_bytes duration = total_bytes * 8 * 1_000_000 / duration

-- what an exchange shows of a link
abbrev pub measured : ℕ → Time → Meter → Meter
measured total_bytes duration m = record m {
  bandwidth_bps = max 1_000 (bits_per_second total_bytes duration);
  latency = duration / 2;
}

-- An exception of the framing functions is not told from the others here.
abbrev pub framed : {S A : Type 0} → Framed A → Exec S A
framed (ok a) s = (ok a, s)
framed (error e) s = (raise "invalid frame", s)

-- `struct.unpack("!4sB I 32s", header)`, which wants exactly that many bytes
unfoldable pub parse_header : {S : Type 0} → Bytes → Exec S Header
unfolding unpack_header
parse_header header s =
    if length header == frame_header_size
    then (ok (unpack_header header), s)
    else (raise "unpack requires a buffer of 41 bytes", s)

pub parse_header-pack_header :
    {S : Type 0} (sha : Sha256) (payload : Bytes) (s : S)
    → length payload < u32_mod
    → parse_header (pack_header sha payload) s ≡ (ok (header_of sha payload), s)
unfolding parse_header
parse_header-pack_header sha payload s h =
    if_true (length (pack_header sha payload) == frame_header_size) _ _
      (ground (arith, length-pack_header sha payload))
    ∙ ap (λ x. (ok x, s)) (unpack_header-pack_header sha payload h)

-- `except Exception: return default`
abbrev pub rescued : {S A : Type 0} → A → Result A × S → Result A × S
rescued default (ok a, s) = (ok a, s)
rescued default (raise e, s) = (ok default, s)

pub rescued_ok :
    {S A : Type 0} (default : A) (run : Result A × S) (a : A)
    → run.0 ≡ ok a
    → (rescued default run).0 ≡ ok a
rescued_ok default (ok x, s) a h = h
rescued_ok default (raise e, s) a h = cc h

abbrev pub or_else : {S A : Type 0} → A → Exec S A → Exec S A
or_else default m s = rescued default (m s)

module _ {N : Type 0} where
  abbrev pub on_wire : {A : Type 0} → Exec N A → Exec (Link N) A
  on_wire m l = let (r, w) = m l.wire in (r, record l { wire = w })

  abbrev pub note : (Meter → Meter) → Exec (Link N) (Unit {0})
  note f = modify (λ l. record l { meter = f l.meter })

  abbrev pub buffer : Option Bytes → Exec (Link N) Bool
  buffer answer =
      note (λ m. record m { last_received_bytes = answer })
      >> pure (elim answer [ none ↦ false | some _ ↦ true ])

  -- `receive`: the buffered answer, once
  unfoldable pub take_received : Exec (Link N) (Option Bytes)
  take_received l = (
    ok l.meter.last_received_bytes,
    record l { meter = record l.meter { last_received_bytes = none } },
  )
