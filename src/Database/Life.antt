-- ===== src/Database/Life.antt =====
-- The database of an engine through its life: exchanges and writes evolve it, and a turn of the loop may
-- remove old operations from its queue.
use dhava.Common.{ℕ, ◌-◌, String, ◌≡◌, true, ◌⊎◌, refl, inl, inr, Option, none, some, ltb, if_intro}
use dhava.Result.{Result, ok, raise}
use dhava.Exec.{Exec, continue, ◌>>=◌, ◌>>◌, pure, modify}
use dhava.Exec.Keeps.{Keeps, IsPreorder, Keeps->>=, OnPart, OnPart-IsPreorder}
use dhava.Models.{Time, Operation}
use dhava.Backend.{Db}
use dhava.Outbox.{purge_synced, pending_count}
use dhava.Outbox.States.{lookup}
use dhava.Outbox.Retention.{IsOld}
use dhava.Transport.{Transport, get_active_transport}
use dhava.Protocol.{Libraries}
use dhava.Node.{register_status_callback, stop, SyncEngine, on_network, get_status}
use dhava.Sync.{SyncReadings, sync_now}
use dhava.Sync.Loop.{
  Worker, TurnReadings, turn, turn_body, turn_over, noted, in_node, purge, purge_if_due,
  purge_interval, reconnected,
}
use dhava.Sync.Loop.Steps.{subscribes, stops, Step, Reach, turns, syncs, writes, looks, here, next}
use dhava.Database.{Evolves, Evolves-IsPreorder, Ages, Ages-IsPreorder, essence}
use dhava.Database.Removal.{
  Removes, Removes-refl, Removes-map, Queued, evolved, removed, purge_synced-Drops,
}
use dhava.Database.Statements.{purge_synced-Ages}
use dhava.Engine.{local_write}
use dhava.Database.Exchanges.{local_write-Evolves}
use dhava.Database.Syncing.{sync_now-Evolves}

module _ {V W : Type 0} (lib : Libraries V) where
  abbrev NodeEvolves : SyncEngine V W → SyncEngine V W → Type 0
  NodeEvolves = OnPart (λ s. s.engine.db) Evolves

  NodeEvolves-IsPreorder : IsPreorder NodeEvolves
  NodeEvolves-IsPreorder =
      OnPart-IsPreorder Evolves Evolves-IsPreorder (λ (s : SyncEngine V W). s.engine.db)

  abbrev unmoved : (s : SyncEngine V W) → NodeEvolves s s
  unmoved = NodeEvolves-IsPreorder.same

  turn_over-Evolves :
      (r : SyncReadings) (peer : String) (o : Option (Transport W))
      → Keeps NodeEvolves (turn_over lib r peer o)
  turn_over-Evolves r peer none s = unmoved s
  turn_over-Evolves r peer (some t) s =
      let u = record s { state = reconnected s.state } in
      if_intro (λ (run : Result (Unit {0}) × SyncEngine V W). NodeEvolves s run.1)
        (ltb 0 (pending_count none u.engine.db)) ((sync_now lib r peer >> pure tt) u) (ok tt, u)
        (λ _.
          Keeps->>= NodeEvolves NodeEvolves-IsPreorder (sync_now lib r peer) (λ _. pure tt)
            (sync_now-Evolves lib r peer) (λ _. unmoved) u)
        (λ _. unmoved s)

  -- A turn of the loop up to its purge.
  abbrev pub exchange_part : TurnReadings → Exec (Worker V W) (Unit {0})
  exchange_part r =
      in_node (on_network (get_active_transport r.probed) >>= turn_over lib r.sync "server")

  exchange_part-Evolves :
      (r : TurnReadings) (w : Worker V W) → NodeEvolves w.node (exchange_part r w).1.node
  exchange_part-Evolves r w =
      let search = on_network (get_active_transport r.probed) in
      Keeps->>= NodeEvolves NodeEvolves-IsPreorder search (turn_over lib r.sync "server") unmoved
        (turn_over-Evolves r.sync "server") w.node

  -- The database of the worker.
  abbrev pub db_of : Worker V W → Db V
  db_of w = w.node.engine.db

  noted-Removes :
      (P : Operation V → Type 0) (db : Db V) (run : Result (Unit {0}) × Worker V W)
      → Removes P db (db_of run.1)
      → Removes P db (db_of (noted run))
  noted-Removes P db (ok a, w) h = h
  noted-Removes P db (raise e, w) h = h

  -- the time before which a purge takes an operation for old
  abbrev pub cutoff : TurnReadings → Worker V W → Time
  cutoff r w = r.purged - w.node.engine.config.purge_synced_after

  purge-Removes :
      (r : TurnReadings) (w : Worker V W)
      → Removes (IsOld (cutoff r w)) (db_of w) (db_of (purge r w).1)
  purge-Removes r w =
      let age = w.node.engine.config.purge_synced_after in
      after (purge_synced age r.purged (db_of w))
        (purge_synced-Drops age r.purged (db_of w), purge_synced-Ages age r.purged (db_of w))
    where
      after :
          (run : Result ℕ × Db V)
          → Removes (IsOld (cutoff r w)) (db_of w) run.1
          → let v = record w {
            node = record w.node { engine = record w.node.engine { db = run.1 } };
          } in
            Removes (IsOld (cutoff r w)) (db_of w) (
              db_of
                (continue run.0 (λ _. modify (λ u. record u { last_purge = r.purge_noted })) v).1)
      after (ok n, d) h = h
      after (raise e, d) h = h

  -- The turn came to its purge: nothing raised before it, and the last one is long enough ago.
  abbrev pub IsDue : TurnReadings → Result (Unit {0}) × Worker V W → Type 0
  IsDue r run = (run.0 ≡ ok tt) × (ltb purge_interval (r.checked - run.1.last_purge) ≡ true)

  -- What a turn may remove.
  abbrev pub IsPurged : TurnReadings → Result (Unit {0}) × Worker V W → Operation V → Type 0
  IsPurged r run op = IsDue r run × IsOld (cutoff r run.1) op

  purge_if_due-Removes :
      (r : TurnReadings) (run : Result (Unit {0}) × Worker V W)
      → Removes
          (IsPurged r run)
          (db_of run.1)
          (db_of (noted (continue run.0 (λ _. purge_if_due r) run.1)))
  purge_if_due-Removes r (ok a, w) =
      let P = IsPurged r (ok a, w) in
      noted-Removes P (db_of w) (purge_if_due r w) (
        if_intro (λ (run : Result (Unit {0}) × Worker V W). Removes P (db_of w) (db_of run.1))
          (ltb purge_interval (r.checked - w.last_purge)) (purge r w) (ok tt, w)
          (λ due.
            Removes-map (IsOld (cutoff r w)) P (db_of w) (db_of (purge r w).1)
              (λ op old. ((refl, due), old)) (purge-Removes r w))
          (λ _. Removes-refl P (db_of w)))
  purge_if_due-Removes r (raise e, w) = Removes-refl (IsPurged r (raise e, w)) (db_of w)

  turn-Removes :
      (r : TurnReadings) (w : Worker V W)
      → Removes
          (IsPurged r (exchange_part r w))
          (db_of (exchange_part r w).1)
          (db_of (turn lib r w))
  unfolding turn turn_body
  turn-Removes r w = purge_if_due-Removes r (exchange_part r w)

  looks-Evolves :
      (probed now : Time) (s : SyncEngine V W) → NodeEvolves s (get_status probed now s).1
  unfolding get_status
  looks-Evolves probed now =
      Keeps->>= NodeEvolves NodeEvolves-IsPreorder (on_network (get_active_transport probed)) _
        unmoved (λ _. unmoved)

  Step-Ages : {v w : Worker V W} → Step lib v w → Ages (db_of v) (db_of w)
  unfolding register_status_callback stop
  Step-Ages (turns r w) =
      Ages-IsPreorder.trans (db_of w) (db_of (exchange_part r w).1) (db_of (turn lib r w))
        (let e = exchange_part-Evolves r w in (e.1, e.2)) (turn-Removes r w).1
  Step-Ages (syncs r peer w) = let e = sync_now-Evolves lib r peer w.node in (e.1, e.2)
  Step-Ages (writes t r l w) = let e = local_write-Evolves t r l w.node.engine in (e.1, e.2)
  Step-Ages (looks probed now w) = let e = looks-Evolves probed now w.node in (e.1, e.2)
  Step-Ages (subscribes callback w) = Ages-IsPreorder.same (db_of w)
  Step-Ages (stops w) = Ages-IsPreorder.same (db_of w)

  -- Along any sequence of turns of the loop, exchanges, local writes, looks at the status, new
  -- callbacks and stops, whatever links, peers and callbacks do: entries are only added at the end of
  -- the trail, none is changed or removed; and if at the start no two rows of a table have the same
  -- key, none do at the end.
  pub Reach-Ages : (v w : Worker V W) → Reach lib v w → Ages (db_of v) (db_of w)
  Reach-Ages v w here = Ages-IsPreorder.same (db_of v)
  Reach-Ages v w (next {u} h step) =
      Ages-IsPreorder.trans (db_of v) (db_of u) (db_of w) (Reach-Ages v u h) (Step-Ages step)

  -- On the way from one worker to another, a turn of the loop came to its purge, with the operation
  -- in the queue and synchronised longer ago than the engine keeps it.
  abbrev pub MetPurge : String → Operation V → Worker V W → Worker V W → Type 0
  MetPurge id op v w =
      (u : Worker V W) × (r : TurnReadings) × Reach lib v u
      × Reach lib (turn lib r u) w
      × (op' : Operation V) × (lookup id (db_of (exchange_part r u).1) ≡ some op')
      × (essence op' ≡ essence op)
      × IsPurged r (exchange_part r u) op'

  MetPurge-next :
      {u w : Worker V W} (id : String) (op : Operation V) (v : Worker V W)
      → Step lib u w
      → MetPurge id op v u
      → MetPurge id op v w
  MetPurge-next id op v step (x, r, before, after, op', at, like, due) =
      (x, r, before, next after step, op', at, like, due)

  Step-Queued :
      {u w : Worker V W} (id : String) (op : Operation V) (v : Worker V W)
      → Reach lib v u
      → Step lib u w
      → Queued id op (db_of u)
      → Queued id op (db_of w) ⊎ MetPurge id op v w
  unfolding register_status_callback stop
  Step-Queued id op v h (turns r u) q = go (
      removed (IsPurged r (exchange_part r u)) id op (db_of (exchange_part r u).1)
        (db_of (turn lib r u)) (turn-Removes r u)
        (evolved id op (db_of u) (db_of (exchange_part r u).1) (exchange_part-Evolves r u) q))
    where
      go :
          Queued id op (db_of (turn lib r u))
            ⊎ ((op' : Operation V) × (lookup id (db_of (exchange_part r u).1) ≡ some op')
                × (essence op' ≡ essence op)
                × IsPurged r (exchange_part r u) op')
          → Queued id op (db_of (turn lib r u)) ⊎ MetPurge id op v (turn lib r u)
      go (inl k) = inl k
      go (inr (x, at, like, due)) = inr (u, r, h, here, x, at, like, due)
  Step-Queued id op v h (syncs r peer u) q = inl (
      evolved id op (db_of u) ((sync_now lib r peer u.node).1.engine.db)
        (sync_now-Evolves lib r peer u.node) q)
  Step-Queued id op v h (writes t r l u) q = inl (
      evolved id op (db_of u) ((local_write t r l u.node.engine).1.db)
        (local_write-Evolves t r l u.node.engine) q)
  Step-Queued id op v h (looks probed now u) q = inl (
      evolved id op (db_of u) ((get_status probed now u.node).1.engine.db)
        (looks-Evolves probed now u.node) q)
  Step-Queued id op v h (subscribes callback u) q = inl q
  Step-Queued id op v h (stops u) q = inl q

  -- An operation of the queue stays in it through any sequence of turns of the loop, exchanges, local
  -- writes, looks at the status, new callbacks and stops, changed at most in the marks of its
  -- synchronisation, unless a turn of this sequence came to its purge when the operation was marked
  -- as synchronised, and that longer ago than the engine keeps synchronised operations.
  pub Reach-Queued :
      (v w : Worker V W) (id : String) (op : Operation V)
      → lookup id (db_of v) ≡ some op
      → Reach lib v w
      → Queued id op (db_of w) ⊎ MetPurge id op v w
  Reach-Queued v w id op found here = inl (op, found, refl)
  Reach-Queued v w id op found (next {u} h step) = go (Reach-Queued v u id op found h)
    where
      go : Queued id op (db_of u) ⊎ MetPurge id op v u → Queued id op (db_of w) ⊎ MetPurge id op v w
      go (inl q) = Step-Queued id op v h step q
      go (inr done) = inr (MetPurge-next id op v step done)
