-- ===== src/Transport/Base.antt =====
-- transports/base.py: a link as an interface over the state of a world, which it may change; it may
-- raise.
use dhava.Common.{ℕ, String, Bool, Option, none, if◌then◌else◌}
use dhava.Exec.{Exec, ◌>>=◌, pure}
use dhava.Models.{Time}
use dhava.Backend.{Bytes}

-- `TransportStatus`. Latencies are microseconds here; nothing in the program sets `error`.
pub record TransportStatus : Type 0 where
  pub name : String
  pub available : Bool
  pub estimated_bandwidth : ℕ
  pub latency : Time
  pub last_checked : Time
  pub error : Option String

-- `TransportResult`
pub record TransportResult : Type 0 where
  pub success : Bool
  pub bytes_sent : ℕ
  pub duration : Time
  pub transport_used : String
  pub error : Option String

-- `Transport`. Every link of the program gets its name once, from its constructor.
pub record Transport (W : Type 0) : Type 0 where
  pub name : String
  pub is_available : Exec W Bool
  pub estimate_bandwidth : Exec W ℕ
  pub estimate_latency : Exec W Time
  pub send : Bytes → Exec W Bool
  pub receive : Exec W (Option Bytes)
  pub send_receive : Bytes → Exec W (Option Bytes)
  pub close : Exec W (Unit {0})

-- The `send_receive` that a link has if it defines none of its own.
unfoldable pub default_send_receive :
    {W : Type 0} → (Bytes → Exec W Bool) → Exec W (Option Bytes) → Bytes → Exec W (Option Bytes)
default_send_receive send receive request =
    send request >>= λ sent. if sent then receive else pure none
