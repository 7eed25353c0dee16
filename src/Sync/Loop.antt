-- ===== src/Sync/Loop.antt =====
-- engine.py: the background loop. The thread and its event are left out: a turn of the loop is a
-- function of the engine, and the waiting between two turns is no change.
pub mod Steps
use dhava.Common.{ℕ, ◌-◌, String, ltb, Bool, Option, none, some, if◌then◌else◌}
use dhava.Result.{Result, ok, raise}
use dhava.Exec.{Exec, ◌>>=◌, ◌>>◌, pure, modify}
use dhava.Models.{Time}
use dhava.Outbox.{pending_count, purge_synced}
use dhava.Transport.{Transport, get_active_transport, close_all}
use dhava.Engine
use dhava.Node.{
  EngineState, SyncEngine, disconnected, connected, syncing, error, on_network, on_engine,
}
use dhava.Protocol.{Libraries}
use dhava.Sync.{SyncReadings, sync_now}

-- the part of a turn that needs no link, and the part that does
abbrev pub reconnected : EngineState → EngineState
reconnected disconnected = connected
reconnected connected = connected
reconnected syncing = syncing
reconnected error = error

-- an hour, in microseconds
abbrev pub purge_interval : Time
purge_interval = 3_600_000_000

module _ {V W : Type 0} where
  abbrev pub turn_over :
      Libraries V → SyncReadings → String → Option (Transport W) → Exec (SyncEngine V W) (Unit {0})
  turn_over lib r peer none s = (ok tt, record s { state = disconnected })
  turn_over lib r peer (some t) s =
      let u = record s { state = reconnected s.state } in
      if ltb 0 (pending_count none u.engine.db)
      then (sync_now lib r peer >> pure tt) u
      else (ok tt, u)

-- What one turn of the loop reads from outside.
pub record TurnReadings : Type 0 where
  pub probed : Time
  pub sync : SyncReadings
  pub checked : Time
  pub purged : Time
  pub purge_noted : Time

-- the thread: the engine, and when it purged last
pub record Worker (V W : Type 0) : Type 0 where
  pub node : SyncEngine V W
  pub last_purge : Time

module _ {V W : Type 0} where
  abbrev pub in_node : {A : Type 0} → Exec (SyncEngine V W) A → Exec (Worker V W) A
  in_node m w = let (r, s) = m w.node in (r, record w { node = s })

  abbrev pub purge : TurnReadings → Exec (Worker V W) (Unit {0})
  purge r w =
      (in_node (
            on_engine
              (Engine.on_db (purge_synced w.node.engine.config.purge_synced_after r.purged)))
          >> modify (λ (v : Worker V W). record v { last_purge = r.purge_noted }))
        w

  abbrev pub purge_if_due : TurnReadings → Exec (Worker V W) (Unit {0})
  purge_if_due r w = if ltb purge_interval (r.checked - w.last_purge) then purge r w else (ok tt, w)

  -- the `try` block of a turn; the peer is the default one
  unfoldable pub turn_body : Libraries V → TurnReadings → Exec (Worker V W) (Unit {0})
  unfolding get_active_transport sync_now pending_count purge_synced
  turn_body lib r =
      in_node (on_network (get_active_transport r.probed) >>= turn_over lib r.sync "server")
      >> purge_if_due r

  abbrev pub noted : Result (Unit {0}) × Worker V W → Worker V W
  noted (ok _, w) = w
  noted (raise e, w) = record w { node = record w.node { last_error = some e } }

  -- A turn never raises: it notes the error.
  unfoldable pub turn : Libraries V → TurnReadings → Worker V W → Worker V W
  unfolding turn_body
  turn lib r w = noted (turn_body lib r w)
