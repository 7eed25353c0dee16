-- ===== src/Transport.antt =====
-- transports/base.py and transport.py: a link as an interface over the state of a world, and the
-- manager that chooses among links. What a link does to its world is left open; it may raise.
pub mod Relay
pub mod Base
pub mod Failover
pub mod Reports
pub use dhava.Transport.Base.{TransportStatus, TransportResult, Transport}
unfoldable pub use dhava.Transport.Base.{default_send_receive}
use dhava.Common.{
  ℕ, ◌+◌, max, String, Bool, true, false, not, Option, none, some, List, [], ◌∷◌, ◌++◌, str_eq,
  if◌then◌else◌, length, take, drop,
}
use dhava.Dict
use dhava.Dict.{Dict}
use dhava.Result.{Result, ok, raise}
use dhava.Exec.{Exec, ◌>>=◌, ◌>>◌, pure, modify, for_each}
use dhava.Models.{Time}
use dhava.Backend.{Bytes}

-- The callbacks see the status, and may do what they like to the world.
pub record TransportManager (W : Type 0) : Type 0 where
  pub transports : Dict (Transport W)
  pub preference_order : List String
  pub callbacks : List (TransportStatus → Exec W (Unit {0}))
  pub last_active_name : Option String

-- a manager, and the world that its links reach
pub record Network (W : Type 0) : Type 0 where
  pub manager : TransportManager W
  pub world : W

-- `self.error if not success`: what the manager reports of a link that did not serve
abbrev pub failure : String → ℕ → Time → String → TransportResult
failure used sent duration error = record {
  success = false;
  bytes_sent = sent;
  duration = duration;
  transport_used = used;
  error = some error;
}

abbrev pub served : String → ℕ → Time → TransportResult
served used sent duration = record {
  success = true;
  bytes_sent = sent;
  duration = duration;
  transport_used = used;
  error = none;
}

-- `max(0.001, ...)`, in microseconds
abbrev pub at_least_1ms : Time → Time
at_least_1ms elapsed = max 1_000 elapsed

-- `list.insert` with an index that is not negative, or `append`
abbrev insert_at : Option ℕ → String → List String → List String
insert_at none name order = order ++ name ∷ []
insert_at (some i) name order = take i order ++ (name ∷ drop i order)

abbrev pub is_active : Option String → String → Bool
is_active none name = false
is_active (some active) name = str_eq active name

abbrev pub or_nothing : Result (Option Bytes) → Option Bytes
or_nothing (ok answer) = answer
or_nothing (raise e) = none

module _ {W : Type 0} where
  abbrev pub on_world : {A : Type 0} → Exec W A → Exec (Network W) A
  on_world m n = let (r, w) = m n.world in (r, record n { world = w })

  -- `{t.name(): t for t in transports}`
  pub by_name : List (Transport W) → Dict (Transport W) → Dict (Transport W)
  unfolding Dict.set
  by_name [] d = d
  by_name (t ∷ ts) d = by_name ts (Dict.set t.name t d)

  -- `preference_order or list(self.transports.keys())`
  abbrev order_or_keys : List String → Dict (Transport W) → List String
  order_or_keys [] d = Dict.keys d
  order_or_keys (n ∷ ns) d = n ∷ ns

  -- The constructor; `None` and the empty list are the same order.
  unfoldable pub new_manager : List (Transport W) → List String → TransportManager W
  unfolding by_name Dict.keys
  new_manager transports preference_order =
      let named = by_name transports [] in
      record {
        transports = named;
        preference_order = order_or_keys preference_order named;
        callbacks = [];
        last_active_name = none;
      }

  unfoldable pub add_transport : Transport W → Option ℕ → TransportManager W → TransportManager W
  unfolding Dict.set Dict.elem
  add_transport t preference_index m = record m {
    transports = Dict.set t.name t m.transports;
    preference_order =
        if Dict.elem t.name m.preference_order
        then m.preference_order
        else insert_at preference_index t.name m.preference_order;
  }

  -- `try: m() except Exception: pass`
  abbrev pub quietly : Exec W (Unit {0}) → Exec W (Unit {0})
  quietly m w = (ok tt, (m w).1)

  -- `_notify_status`
  abbrev pub notify_status : TransportStatus → Exec (Network W) (Unit {0})
  notify_status status n =
      on_world (for_each n.manager.callbacks (λ callback. quietly (callback status))) n

  abbrev pub set_active : Option String → Network W → Network W
  set_active name n = record n { manager = record n.manager { last_active_name = name } }

  -- a link that was not the active one is announced
  unfoldable pub announce : Time → String → Transport W → Exec (Network W) (Unit {0})
  announce now name t =
      modify (set_active (some name))
      >> (on_world t.estimate_bandwidth >>= λ bandwidth. on_world t.estimate_latency >>= λ latency.
          notify_status (record {
            name = name;
            available = true;
            estimated_bandwidth = bandwidth;
            latency = latency;
            last_checked = now;
            error = none;
          }))

  abbrev pub announce_new : Time → String → Transport W → Exec (Network W) (Unit {0})
  announce_new now name t n =
      if is_active n.manager.last_active_name name then (ok tt, n) else announce now name t n

  -- a link that answered its probe is taken
  abbrev pub choose : Time → String → Transport W → Exec (Network W) (Option (Transport W))
  choose now name t = announce_new now name t >> pure (some t)

  abbrev pub no_link : Exec (Network W) (Option (Transport W))
  no_link = modify (set_active none) >> pure none

  -- `transport and transport.is_available()`
  abbrev pub probe : Option (Transport W) → Exec (Network W) (Option (Transport W))
  probe none = pure none
  probe (some t) = on_world t.is_available >>= λ up. pure (if up then some t else none)

  abbrev pub choose_or :
      Time
      → String
      → Exec (Network W) (Option (Transport W))
      → Option (Transport W)
      → Exec (Network W) (Option (Transport W))
  choose_or now name next none = next
  choose_or now name next (some t) = choose now name t

  -- The loop of `get_active_transport`. The links are looked up as they were at its start.
  unfoldable pub first_available :
      Time → Dict (Transport W) → List String → Exec (Network W) (Option (Transport W))
  unfolding announce Dict.get
  first_available now links [] = no_link
  first_available now links (name ∷ order) =
      probe (Dict.get name links) >>= choose_or now name (first_available now links order)

  unfoldable pub get_active_transport : Time → Exec (Network W) (Option (Transport W))
  unfolding first_available
  get_active_transport now n = first_available now n.manager.transports n.manager.preference_order n

  -- one entry of `list_available`; a link that is down is not asked for estimates
  abbrev estimates : Transport W → Bool → Exec (Network W) (ℕ × Time)
  estimates t false = pure (0, 0)
  estimates t true =
      on_world t.estimate_bandwidth >>= λ bw. on_world t.estimate_latency >>= λ lat. pure (bw, lat)

  abbrev status_of : Time → Transport W → String → Exec (Network W) TransportStatus
  status_of now t name = on_world t.is_available >>= λ avail. estimates t avail >>= λ e.
      pure (record {
        name = name;
        available = avail;
        estimated_bandwidth = e.0;
        latency = e.1;
        last_checked = now;
        error = none;
      })

  abbrev status_if : Time → Option (Transport W) → String → Exec (Network W) (List TransportStatus)
  status_if now none name = pure []
  status_if now (some t) name = status_of now t name >>= λ s. pure (s ∷ [])

  pub statuses : Time → Dict (Transport W) → List String → Exec (Network W) (List TransportStatus)
  unfolding Dict.get
  statuses now links [] = pure []
  statuses now links (name ∷ order) = status_if now (Dict.get name links) name >>= λ s.
      statuses now links order >>= λ rest. pure (s ++ rest)

  unfoldable pub list_available : Time → Exec (Network W) (List TransportStatus)
  unfolding statuses
  list_available now n = statuses now n.manager.transports n.manager.preference_order n

  unfoldable pub register_status_callback :
      (TransportStatus → Exec W (Unit {0})) → TransportManager W → TransportManager W
  register_status_callback callback m = record m { callbacks = m.callbacks ++ callback ∷ [] }

  pub close_links : Dict (Transport W) → Exec (Network W) (Unit {0})
  close_links [] = pure tt
  close_links ((_, t) ∷ links) = on_world (quietly t.close) >> close_links links

  unfoldable pub close_all : Exec (Network W) (Unit {0})
  unfolding close_links
  close_all n = close_links n.manager.transports n
