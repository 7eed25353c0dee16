-- ===== src/Node.antt =====
-- engine.py: the state of the engine, its constructor, and its status.
pub mod Create
use dhava.Common.{◌++◌, ◌∷◌, ℕ, ◌-◌, String, Bool, false, Option, none, some, List, [], ◌∷◌}
use dhava.Dict.{Dict}
use dhava.Result.{Result, ok, raise}
use dhava.Exec.{Exec, ◌>>=◌, for_each}
use dhava.Models.{Time, SyncSession}
use dhava.VectorClock.{from_clocks}
use dhava.Backend.{Db}
use dhava.Crypto.{CryptoLayer}
use dhava.Outbox.{pending_count, pending_breakdown, reset_in_flight}
use dhava.Transport.{close_all, Transport, Network, quietly, get_active_transport, on_world}
use dhava.Engine.{Engine}

pub data EngineState : Type 0 where
  disconnected connected syncing error : EngineState

pub record EngineStatus : Type 0 where
  pub state : EngineState
  pub active_transport : Option String
  pub pending_ops : ℕ
  pub pending_by_priority : Dict ℕ
  pub last_sync : Option SyncSession
  pub last_error : Option String
  pub uptime : Time
  pub node_id : String

-- The whole of `DDILSyncEngine`: what writes and pulls use, and what an exchange adds.
pub record SyncEngine (V W : Type 0) : Type 0 where
  pub engine : Engine V
  pub crypto : CryptoLayer
  pub network : Network W
  pub sync_locked : Bool
  pub state : EngineState
  pub last_sync : Option SyncSession
  pub last_error : Option String
  pub start_time : Time
  pub status_callbacks : List (EngineStatus → Exec W (Unit {0}))

abbrev pub name_of : {W : Type 0} → Option (Transport W) → Option String
name_of none = none
name_of (some t) = some t.name

module _ {V W : Type 0} where
  abbrev pub on_network : {A : Type 0} → Exec (Network W) A → Exec (SyncEngine V W) A
  on_network m s = let (r, n) = m s.network in (r, record s { network = n })

  abbrev pub on_engine : {A : Type 0} → Exec (Engine V) A → Exec (SyncEngine V W) A
  on_engine m s = let (r, e) = m s.engine in (r, record s { engine = e })

  abbrev pub booted :
      Engine V → CryptoLayer → Network W → Time → Result ℕ × Db V → Result (SyncEngine V W)
  booted e crypto network now (raise problem, d) = raise problem
  booted e crypto network now (ok _, d) = ok (record {
    engine = record e {
      lamport_counter = 0;
      global_vector_clock = from_clocks ((e.node_id, 0) ∷ []);
      db = d;
    };
    crypto = crypto;
    network = network;
    sync_locked = false;
    state = disconnected;
    last_sync = none;
    last_error = none;
    start_time = now;
    status_callbacks = [];
  })

  -- The constructor: operations that failed before are pending again.
  unfoldable pub boot : Engine V → CryptoLayer → Network W → Time → Result (SyncEngine V W)
  unfolding reset_in_flight
  boot e crypto network now = booted e crypto network now (reset_in_flight e.db)

  -- The search for a link may change which one is active.
  unfoldable pub get_status : Time → Time → Exec (SyncEngine V W) EngineStatus
  unfolding get_active_transport pending_count pending_breakdown
  get_status probed now = on_network (get_active_transport probed) >>= λ active. λ s. (
    ok (record {
      state = s.state;
      active_transport = name_of active;
      pending_ops = pending_count none s.engine.db;
      pending_by_priority = pending_breakdown s.engine.db;
      last_sync = s.last_sync;
      last_error = s.last_error;
      uptime = now - s.start_time;
      node_id = s.engine.node_id;
    }),
    s,
  )

  abbrev pub tell : EngineStatus → Exec (SyncEngine V W) (Unit {0})
  tell status s =
      on_network (on_world (for_each s.status_callbacks (λ callback. quietly (callback status)))) s

  -- `_notify_status_change`
  unfoldable pub notify_status_change : Time → Time → Exec (SyncEngine V W) (Unit {0})
  unfolding get_status
  notify_status_change probed now = get_status probed now >>= tell

  unfoldable pub register_status_callback :
      (EngineStatus → Exec W (Unit {0})) → SyncEngine V W → SyncEngine V W
  register_status_callback callback s = record s {
    status_callbacks = s.status_callbacks ++ callback ∷ [];
  }

  -- The end of the background thread, which closes the links.
  unfoldable pub stop : Exec (SyncEngine V W) (Unit {0})
  unfolding close_all
  stop = on_network close_all
