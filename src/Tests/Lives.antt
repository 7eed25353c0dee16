-- ===== src/Tests/Lives.antt =====
-- Engines with their links: the choice of a link, an exchange, and a life of several steps.
use dhava.Common.{
  ℕ, ◌<◌, ◌≡◌, ◌≢◌, ◌⊎◌, refl, true, false, Option, none, some, List, [], ◌∷◌, ◌++◌, length, map,
  arith, find, String,
}
use dhava.Result.{ok, raise}
use dhava.Exec.{Exec, pure, throw}
use dhava.Models.{Operation}
use dhava.Models.Wire.{operation_to_dict}
use dhava.VectorClock.{from_clocks}
use dhava.Backend.{Bytes, Db}
use dhava.Outbox.{reset_in_flight}
use dhava.Outbox.States.{lookup}
use dhava.Protocol.{Libraries, SyncPullResponse, serialize_request, serialize_response}
use dhava.Server.{Server}
use dhava.Server.Acks.{Acks}
use dhava.Transport.{Transport, Network, get_active_transport}
use dhava.Transport.Failover.{Means, get_active_transport-Means}
use dhava.Node.{SyncEngine, disconnected, boot}
use dhava.Sync.{SyncReadings, Running, new_session, request_of, sync_now}
use dhava.Sync.Loop.{Worker}
use dhava.Sync.Loop.Steps.{Reach, syncs, here, next, IsSettled, Reach-IsSettled}
use dhava.Database.{Evolves, Ages}
use dhava.Database.Syncing.{sync_now-Evolves}
use dhava.Database.Removal.{Queued}
use dhava.Database.Life.{db_of, MetPurge, Reach-Ages, Reach-Queued}
use dhava.Links.Loopback
use dhava.Links.Loopback.{Loopback}
use dhava.Links.Loopback.Exchange.{send_receive-Acks}
use dhava.Tests.{sample, op_a, op_b, number_Eq}
use dhava.Tests.Packets.{cipher, gzip_like, zstd_like, layer, nonce, cipher-IsCipher, compressors}
use dhava.Tests.Engines.{engine_a}
use dhava.Tests.Servers.{libraries, headquarters, fresh, codec_of, refused}

-- a link that is up or not, and breaks off in an exchange
abbrev link : String → Exec (Unit {0}) (Option Bytes) → Transport (Unit {0})
link name answer = record {
  name = name;
  is_available = pure true;
  estimate_bandwidth = pure 9_600;
  estimate_latency = pure 20_000;
  send = λ b. pure true;
  receive = pure none;
  send_receive = λ b. answer;
  close = pure tt;
}

abbrev down : Transport (Unit {0})
down = record (link "wifi" (pure none)) { is_available = pure false }

abbrev satcom : Transport (Unit {0})
satcom = link "satcom" (throw "line dropped")

abbrev network : Network (Unit {0})
network = record {
  manager = record {
    transports = ("wifi", down) ∷ ("satcom", satcom) ∷ [];
    preference_order = "wifi" ∷ "satcom" ∷ [];
    callbacks = [];
    last_active_name = some "satcom";
  };
  world = tt;
}

satcom_chosen : (get_active_transport 5 network).0 ≡ ok (some satcom)
unfolding get_active_transport
satcom_chosen = refl

get_active_transport-Means_example :
    Means network.manager.transports ("wifi" ∷ "satcom" ∷ []) tt (some satcom)
get_active_transport-Means_example =
    get_active_transport-Means 5 network (some satcom) satcom_chosen

abbrev alpha : SyncEngine ℕ (Unit {0})
alpha = record {
  engine = record engine_a {
    lamport_counter = 0;
    global_vector_clock = from_clocks (("alpha", 0) ∷ []);
    db = (reset_in_flight sample).1;
  };
  crypto = layer;
  network = network;
  sync_locked = false;
  state = disconnected;
  last_sync = none;
  last_error = none;
  start_time = 3;
  status_callbacks = [];
}

abbrev pub session_readings : SyncReadings
session_readings = record {
  session_id = "s1";
  started = 10;
  probed = 5;
  nonce = nonce;
  requested = 12;
  exchange_probed = 13;
  exchange_elapsed = 2_000;
  push_elapsed = 2_000;
  received = 14;
  synced = 15;
  stamps = λ n. ("x5", 15);
  pull_elapsed = 1;
  ended = 20;
  push_audit = ("x6", 16);
  pull_audit = ("x7", 17);
  status_probed = 18;
  status_read = 19;
}

sync_now-Evolves_example :
    Evolves alpha.engine.db (sync_now libraries session_readings "server" alpha).1.engine.db
sync_now-Evolves_example = sync_now-Evolves libraries session_readings "server" alpha

abbrev worker : Worker ℕ (Unit {0})
worker = record { node = alpha; last_purge = 4 }

-- after the application has synced
abbrev later : Worker ℕ (Unit {0})
later = record worker { node = (sync_now libraries session_readings "server" alpha).1 }

synced_once : Reach libraries worker later
synced_once = next here (syncs session_readings "server" worker)

booted_alpha : boot engine_a layer network 3 ≡ ok alpha
unfolding boot reset_in_flight dhava.Backend.transaction
booted_alpha = refl

Reach-IsSettled_example : IsSettled later.node
Reach-IsSettled_example =
    Reach-IsSettled libraries engine_a layer network 3 4 alpha later booted_alpha synced_once

Reach-Ages_example : Ages (db_of libraries worker) (db_of libraries later)
Reach-Ages_example = Reach-Ages libraries worker later synced_once

a1_queued : lookup "a1" alpha.engine.db ≡ some op_a
unfolding find reset_in_flight dhava.Backend.transaction
a1_queued = refl

Reach-Queued_example :
    Queued "a1" op_a (db_of libraries later) ⊎ MetPurge libraries "a1" op_a worker later
Reach-Queued_example = Reach-Queued libraries worker later "a1" op_a a1_queued synced_once

abbrev batch : List (Operation ℕ)
batch = op_a ∷ op_b ∷ []

abbrev running : Running ℕ (Unit {0})
running = record { node = alpha; session = new_session session_readings "server" }

-- the libraries of the two peers, with a codec for the request of the batch
abbrev shared : Libraries ℕ
shared = record libraries {
  unpack_msgpack = λ b. ok (map operation_to_dict batch);
  codec = codec_of (request_of libraries session_readings batch running) refused;
}

abbrev hq : Server ℕ
hq = record headquarters { node_registration_required = false }

abbrev loop : Loopback ℕ
loop = record {
  server = some hq;
  connected = true;
  bandwidth_bps = 10_000_000;
  latency = 1_000;
  calls = 0;
  arrived = λ n. 11;
  fresh = λ n. fresh;
}

answered :
    (Loopback.send_receive shared
      (serialize_request shared.codec (request_of shared session_readings batch running))
      loop).0
    ≡ ok (some (2 ∷ []))
unfolding Loopback.send_receive dhava.Protocol.request_to_dict request_of dhava.Crypto.pack
    dhava.Crypto.unpack operation_to_dict dhava.Conflict.resolve dhava.Store.get
    dhava.VectorClock.compare dhava.Dict.union dhava.Dict.keys from_clocks dhava.Dict.filter_values
    dhava.Audit.log dhava.Common.str_lt dhava.Store.apply_operation dhava.Server.upsert_node
    dhava.Server.count_synced dhava.Audit.insert_entry dhava.Backend.transaction dhava.Common.select
    dhava.Common.Sort.sort find dhava.Common.update_where dhava.Common.upsert dhava.Conflict.accept
    dhava.Conflict.choose dhava.Conflict.choose_absent dhava.Conflict.choose_lww
    dhava.Crypto.compress dhava.Crypto.decompress dhava.Dict.elem dhava.Dict.erase dhava.Dict.get
    Loopback.serve dhava.Models.op_type_of dhava.Models.priority_of dhava.Models.sync_state_of
    dhava.Models.Wire.operation_from_dict dhava.Models.create_entry dhava.Protocol.create_request
    dhava.Protocol.create_response dhava.Protocol.deserialize_request
    dhava.Protocol.request_from_dict dhava.Protocol.response_to_dict serialize_response
    serialize_request dhava.Result.item dhava.Server.delta_of_collections
    dhava.Server.delta_of_records dhava.Server.delta_operation dhava.Server.get_operations_for_peer
    dhava.Server.get_node_status dhava.Server.register_node dhava.Server.update_node_sync_telemetry
    dhava.Server.accept dhava.Server.accept_operations dhava.Server.handle_sync_request
    dhava.Server.settle dhava.Store.get_all_collections dhava.Store.has_key
    dhava.Store.matches_filters dhava.Store.query dhava.VectorClock.merge
answered = refl

send_receive-Acks_example :
    (resp : SyncPullResponse) × (2 ∷ [] ≡ serialize_response shared.codec resp) × Acks batch resp
unfolding request_of
send_receive-Acks_example =
    send_receive-Acks cipher gzip_like zstd_like cipher-IsCipher compressors false shared refl
      session_readings batch running hq loop (2 ∷ []) refl refl refl refl refl answered
