-- ===== src/Cli/Daemon.antt =====
-- cli.py: the daemon. The background thread and the loop that shows the status take turns, in the
-- order of a list of ticks, until the user interrupts.
use dhava.Common.{String, Option, some, List, [], ◌∷◌, ◌++◌}
use dhava.Result.{Result, ok, raise}
use dhava.Exec.{Exec, ◌>>=◌, ◌>>◌, lift, modify}
use dhava.Models.{Time}
use dhava.Crypto.Keys.{Drawing}
use dhava.Transport.{Transport}
use dhava.Protocol.{Libraries}
use dhava.Engine.{EngineConfig, default_config}
use dhava.Node.{SyncEngine, EngineStatus, get_status, stop}
use dhava.Sync.Loop.{TurnReadings, Worker, turn, in_node}
use dhava.Cli.Machine.{
  Machine, Options, Line, status_line, starting, stopping, stopped, with_engine,
}
use dhava.Cli.Commands.{links_to}

-- a turn of the background thread, or a look at the status with its two readings of the clock
pub data Tick : Type 0 where
  turned : TurnReadings → Tick
  looked : Time → Time → Tick

-- how the loop ended, what it showed, and the thread
abbrev pub Watched : Type 0 → Type 0 → Type 0
Watched V W = (Result (Unit {0}) × List (Line V)) × Worker V W

-- `EngineConfig(sync_interval_seconds=interval)`
abbrev pub every : Time → EngineConfig
every interval = record default_config { sync_interval = interval }

abbrev pub last_line : {V : Type 0} → Result (Unit {0}) → List (Line V)
last_line (ok _) = stopped ∷ []
last_line (raise e) = []

module _ {V W : Type 0} where
  abbrev pub with_line : Line V → Watched V W → Watched V W
  with_line line ((r, lines), w) = ((r, line ∷ lines), w)

  abbrev pub after_look : Result EngineStatus → Worker V W → Watched V W → Watched V W
  after_look (ok s) w rest = with_line (status_line s) rest
  after_look (raise e) w rest = ((raise e, []), w)

  -- `while True`, up to the interrupt
  unfoldable pub watch : Libraries V → List Tick → Worker V W → Watched V W
  unfolding turn get_status
  watch lib [] w = ((ok tt, []), w)
  watch lib (turned r ∷ ticks) w = watch lib ticks (turn lib r w)
  watch lib (looked probed now ∷ ticks) w =
      let (r, v) = in_node (get_status probed now) w in after_look r v (watch lib ticks v)

  -- `except KeyboardInterrupt`; another exception leaves the engine as it is
  abbrev pub interrupted :
      Result (Unit {0}) → List (Line V) → Exec (SyncEngine V W) (Result (Unit {0}) × List (Line V))
  interrupted (raise e) lines s = (ok (raise e, lines), s)
  interrupted (ok _) lines s = let (r, t) = stop s in (ok (r, lines ++ stopping ∷ last_line r), t)

  unfoldable pub run_daemon :
      Libraries V → Time → List Tick → Exec (SyncEngine V W) (Result (Unit {0}) × List (Line V))
  unfolding watch stop
  run_daemon lib now ticks s =
      let ((r, lines), w) = watch lib ticks (record { node = s; last_purge = now }) in
      interrupted r lines w.node

  unfoldable pub daemon :
      Libraries V
      → (String → Transport W)
      → Drawing
      → Time
      → Time
      → List Tick
      → Time
      → Options
      → Option String
      → Exec (Machine V W) (Unit {0})
  unfolding with_engine run_daemon
  daemon lib http draw started thread_started ticks interval o server_url =
      with_engine draw started o (links_to http server_url) (some (every interval)) (starting ∷ [])
        (run_daemon lib thread_started ticks)
      >>= λ (outcome, lines).
          modify (λ (m : Machine V W). record m { screen = m.screen ++ lines }) >> lift outcome
