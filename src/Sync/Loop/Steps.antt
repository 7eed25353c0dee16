-- ===== src/Sync/Loop/Steps.antt =====
-- The life of an engine as a sequence of steps, each of which is over before the next.
use dhava.Common.{
  ℕ, ◌-◌, sym, String, ◌≡◌, ◌≢◌, refl, inl, inr, ap, Bool, false, Option, none, some, ltb, if_intro,
}
use dhava.Result.{Result, ok, raise}
use dhava.Exec.{Exec, ◌>>=◌, ◌>>◌, pure, modify}
use dhava.Exec.Keeps.{Keeps, IsPreorder, Keeps->>=, OnPart, OnPart-IsPreorder}
use dhava.Models.{Time, OperationType, SyncSession}
use dhava.Outbox.{pending_count, purge_synced, reset_in_flight}
use dhava.Transport.{Network, Transport, get_active_transport}
use dhava.Backend.{Db}
use dhava.Crypto.{CryptoLayer}
use dhava.Engine
use dhava.Engine.{Engine, Readings, LocalWrite, local_write}
use dhava.Node.{
  register_status_callback, stop, EngineStatus, EngineState, SyncEngine, disconnected, connected,
  syncing, error, on_network, on_engine, get_status, boot, booted,
}
use dhava.Protocol.{Libraries}
use dhava.Sync.{SyncReadings, sync_now}
use dhava.Sync.Outcome.{Agrees, sync_now-IsFinished}
use dhava.Sync.Loop.{
  Worker, TurnReadings, turn, turn_body, turn_over, noted, in_node, purge, purge_if_due,
  purge_interval, reconnected,
}

module _ {V W : Type 0} (lib : Libraries V) where
  -- A turn of the loop, an exchange that the application asks for, a local write, a look at the status,
  -- a new callback, or the end of the thread.
  pub data Step : Worker V W → Worker V W → Type 0 where
    turns : (r : TurnReadings) (w : Worker V W) → Step w (turn lib r w)
    syncs :
        (r : SyncReadings) (peer : String) (w : Worker V W)
        → Step w (in_node (sync_now lib r peer) w).1
    writes :
        (t : OperationType) (r : Readings) (l : LocalWrite V) (w : Worker V W)
        → Step w (in_node (on_engine (local_write t r l)) w).1
    looks : (probed now : Time) (w : Worker V W) → Step w (in_node (get_status probed now) w).1
    subscribes :
        (callback : EngineStatus → Exec W (Unit {0})) (w : Worker V W)
        → Step w (record w { node = register_status_callback callback w.node })
    stops : (w : Worker V W) → Step w (in_node stop w).1

  pub data Reach (v : Worker V W) : Worker V W → Type 0 where
    here : Reach v v
    next : {u w : Worker V W} → Reach v u → Step u w → Reach v w

-- No exchange is under way: the queue is not locked, and the engine does not say that it syncs.
pub record IsSettled {V W : Type 0} (s : SyncEngine V W) : Type 0 where
  pub unlocked : s.sync_locked ≡ false
  pub not_syncing : s.state ≢ syncing

reconnected-ne : (x : EngineState) → x ≢ syncing → reconnected x ≢ syncing
reconnected-ne disconnected h e = cc e
reconnected-ne connected h e = cc e
reconnected-ne syncing h e = h refl
reconnected-ne error h e = cc e

module _ {V W : Type 0} (lib : Libraries V) where
  Agrees-not_syncing :
      (session : SyncSession) (s : SyncEngine V W) → Agrees session s → s.state ≢ syncing
  Agrees-not_syncing session s (inl (_, h)) e = cc (h, e)
  Agrees-not_syncing session s (inr (inl (_, h, _))) e = cc (h, e)
  Agrees-not_syncing session s (inr (inr (inl (_, h, _)))) e = cc (h, e)
  Agrees-not_syncing session s (inr (inr (inr (_, h)))) e = cc (h, e)

  abbrev Settles : SyncEngine V W → SyncEngine V W → Type 0
  Settles s t = IsSettled s → IsSettled t

  Settles-IsPreorder : IsPreorder Settles
  Settles-IsPreorder = record { same = λ s h. h; trans = λ s t u f g h. g (f h) }

  sync_now-unreached :
      (r : SyncReadings) (peer : String) (s : SyncEngine V W) (e : String)
      → (get_active_transport r.probed s.network).0 ≡ raise e
      → IsSettled s
      → IsSettled (sync_now lib r peer s).1
  unfolding sync_now
  sync_now-unreached r peer s e found h =
      rw found (record { unlocked = h.unlocked; not_syncing = h.not_syncing })

  sync_now-Settles : (r : SyncReadings) (peer : String) → Keeps Settles (sync_now lib r peer)
  sync_now-Settles r peer s h = go (get_active_transport r.probed s.network).0 refl
    where
      go :
          (o : Result (Option (Transport W)))
          → (get_active_transport r.probed s.network).0 ≡ o
          → IsSettled (sync_now lib r peer s).1
      go (raise e) found = sync_now-unreached r peer s e found h
      go (ok o) found =
          let done = sync_now-IsFinished lib r peer s o h.unlocked found in
          record {
            unlocked = done.2.unlocked;
            not_syncing = Agrees-not_syncing done.0 (sync_now lib r peer s).1 done.2.agrees;
          }

  turn_over-Settles :
      (r : SyncReadings) (peer : String) (o : Option (Transport W))
      → Keeps Settles (turn_over lib r peer o)
  turn_over-Settles r peer none s h = record { unlocked = h.unlocked; not_syncing = λ e. cc e }
  turn_over-Settles r peer (some t) s h =
      let u = record s { state = reconnected s.state } in
      let settled : IsSettled u = record {
        unlocked = h.unlocked;
        not_syncing = reconnected-ne s.state h.not_syncing;
      } in
      if_intro (λ (run : Result (Unit {0}) × SyncEngine V W). IsSettled run.1)
        (ltb 0 (pending_count none u.engine.db)) ((sync_now lib r peer >> pure tt) u) (ok tt, u)
        (λ _.
          Keeps->>= Settles Settles-IsPreorder (sync_now lib r peer) (λ _. pure tt)
            (sync_now-Settles r peer) (λ _ v k. k) u settled)
        (λ _. settled)

  abbrev WorkerSettles : Worker V W → Worker V W → Type 0
  WorkerSettles = OnPart (λ w. w.node) Settles

  WorkerSettles-IsPreorder : IsPreorder WorkerSettles
  WorkerSettles-IsPreorder = OnPart-IsPreorder Settles Settles-IsPreorder (λ w. w.node)

  -- A statement on the database leaves the lock and the state alone.
  purge_Settles : (r : TurnReadings) → Keeps WorkerSettles (purge_if_due {V = V} {W = W} r)
  purge_Settles r w h =
      let statement = purge_synced w.node.engine.config.purge_synced_after r.purged in
      if_intro (λ (run : Result (Unit {0}) × Worker V W). IsSettled run.1.node)
        (ltb purge_interval (r.checked - w.last_purge)) (purge r w) (ok tt, w)
        (λ _.
          Keeps->>= WorkerSettles WorkerSettles-IsPreorder
            (in_node (on_engine (Engine.on_db statement)))
            (λ _. modify (λ (v : Worker V W). record v { last_purge = r.purge_noted }))
            (λ v k. record { unlocked = k.unlocked; not_syncing = k.not_syncing }) (λ _ v k. k) w h)
        (λ _. h)

  turn_body_Settles : (r : TurnReadings) → Keeps WorkerSettles (turn_body {W = W} lib r)
  unfolding turn_body
  turn_body_Settles r =
      let search = on_network (get_active_transport r.probed) in
      Keeps->>= WorkerSettles WorkerSettles-IsPreorder
        (in_node (search >>= turn_over lib r.sync "server")) (λ _. purge_if_due r)
        (λ w.
          Keeps->>= Settles Settles-IsPreorder search (turn_over lib r.sync "server")
            (λ s h. record { unlocked = h.unlocked; not_syncing = h.not_syncing })
            (turn_over-Settles r.sync "server") w.node)
        (λ _. purge_Settles r)

  noted_Settles :
      (run : Result (Unit {0}) × Worker V W) → IsSettled run.1.node → IsSettled (noted run).node
  noted_Settles (ok a, w) h = h
  noted_Settles (raise e, w) h = record { unlocked = h.unlocked; not_syncing = h.not_syncing }

  turn_Settles : (r : TurnReadings) (w : Worker V W) → WorkerSettles w (turn lib r w)
  unfolding turn
  turn_Settles r w h = noted_Settles (turn_body lib r w) (turn_body_Settles r w h)

  Step-IsSettled : {v w : Worker V W} → Step lib v w → IsSettled v.node → IsSettled w.node
  unfolding get_status register_status_callback stop
  Step-IsSettled (turns r w) h = turn_Settles r w h
  Step-IsSettled (syncs r peer w) h = sync_now-Settles r peer w.node h
  Step-IsSettled (writes t r l w) h = record { unlocked = h.unlocked; not_syncing = h.not_syncing }
  Step-IsSettled (looks probed now w) h =
      Keeps->>= Settles Settles-IsPreorder (on_network (get_active_transport probed)) _
        (λ s k. record { unlocked = k.unlocked; not_syncing = k.not_syncing }) (λ _ s k. k) w.node h
  Step-IsSettled (subscribes callback w) h = record {
    unlocked = h.unlocked;
    not_syncing = h.not_syncing;
  }
  Step-IsSettled (stops w) h = record { unlocked = h.unlocked; not_syncing = h.not_syncing }

  Reach-keeps_IsSettled : {v w : Worker V W} → IsSettled v.node → Reach lib v w → IsSettled w.node
  Reach-keeps_IsSettled h here = h
  Reach-keeps_IsSettled h (next r step) = Step-IsSettled step (Reach-keeps_IsSettled h r)

booted-IsSettled :
    {V W : Type 0} (e : Engine V) (c : CryptoLayer) (n : Network W) (now : Time)
    (run : Result ℕ × Db V) (s : SyncEngine V W)
    → booted e c n now run ≡ ok s
    → IsSettled s
booted-IsSettled e c n now (raise problem, d) s h = cc h
booted-IsSettled {V} {W} e c n now (ok k, d) s h =
    let unlocked : false ≡ s.sync_locked = ap locked h in
    let fresh : disconnected ≡ s.state = ap state_of h in
    record { unlocked = sym unlocked; not_syncing = λ e. cc (fresh, e) }
  where
    locked : Result (SyncEngine V W) → Bool
    locked (ok t) = t.sync_locked
    locked (raise e) = false

    state_of : Result (SyncEngine V W) → EngineState
    state_of (ok t) = t.state
    state_of (raise e) = disconnected

-- From an engine as its constructor leaves it, through any sequence of turns of the loop, exchanges,
-- local writes, looks at the status, new callbacks and stops, whatever links, peers and callbacks do:
-- after every step the queue is unlocked and the engine is not in the state of syncing.
pub Reach-IsSettled :
    {V W : Type 0} (lib : Libraries V) (e : Engine V) (c : CryptoLayer) (n : Network W)
    (now purged : Time) (s : SyncEngine V W) (w : Worker V W)
    → boot e c n now ≡ ok s
    → Reach lib (record { node = s; last_purge = purged }) w
    → IsSettled w.node
unfolding boot
Reach-IsSettled lib e c n now purged s w started r =
    Reach-keeps_IsSettled lib (booted-IsSettled e c n now (reset_in_flight e.db) s started) r
