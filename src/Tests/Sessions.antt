-- ===== src/Tests/Sessions.antt =====
-- An exchange between an engine and a server over a loopback link, from one end to the other.
use Prim.Native.String.{[] as no_text, ◌∷◌ as ◌then◌}
use dhava.Common.{
  ℕ, zero, suc, ◌+◌, String, ◌≡◌, ◌≢◌, ◌⊎◌, inl, inr, refl, sym, ap, ◌∙◌, true, false, Option, none,
  some, List, [], ◌∷◌, map, length, arith, str_eq, ◌==◌, if◌then◌else◌,
}
use dhava.Result.{Result, ok, raise}
use dhava.Models.{Time, Operation, Record, SyncSession}
use dhava.Models.Wire.{OperationDict, operation_to_dict}
use dhava.Backend.{Bytes}
use dhava.VectorClock.{from_clocks}
use dhava.Protocol.{Libraries, SyncPushRequest, SyncPullResponse}
use dhava.Server.{Server}
use dhava.Node.{SyncEngine, disconnected}
use dhava.Sync.{SyncReadings, sync_now}
use dhava.Links.Loopback.{Loopback}
use dhava.Links.Loopback.Network.{network_of}
use dhava.Links.Loopback.Parties.{Drawn, Understood, IsExchanged, asked, answer}
use dhava.Links.Loopback.Completes.{sync_now-IsExchanged}
use dhava.Server.{delta_operation}
use dhava.Server.Serves.{Serves}
use dhava.Tests.{op_a, sample, record_b, number_Eq}
use dhava.Tests.Packets.{cipher, gzip_like, zstd_like, layer, nonce, cipher-IsCipher, compressors}
use dhava.Tests.Engines.{engine_a}
use dhava.Tests.Servers.{libraries, headquarters, fresh, codec_of}
use dhava.Tests.Lives.{session_readings}

-- as many letters as the number
tally : ℕ → String
tally zero = ""
tally (suc n) = "i" then tally n

letters : String → ℕ
letters no_text = 0
letters (c then s) = letters s + 1

letters-tally : (n : ℕ) → letters (tally n) ≡ n
unfolding letters tally
letters-tally zero = refl
letters-tally (suc n) = omega (arith, letters-tally n)

tally_differs : (m n : ℕ) → m ≢ n → tally m ≢ tally n
tally_differs m n ne same = ne (sym (letters-tally m) ∙ ap letters same ∙ letters-tally n)

abbrev readings : SyncReadings
readings = record session_readings {
  stamps = λ n. (tally (n + 2), 15);
  push_audit = (tally 0, 16);
  pull_audit = (tally 1, 17);
}

-- a record that another node has written
abbrev other_record : Record ℕ
other_record = record record_b { record_id = "t2" }

abbrev hq : Server ℕ
hq = record headquarters {
  node_registration_required = false;
  db = record sample { records = other_record ∷ [] };
}

abbrev loop : Loopback ℕ
loop = record {
  server = some hq;
  connected = true;
  bandwidth_bps = 10_000_000;
  latency = 1_000;
  calls = 0;
  arrived = λ n. 11;
  fresh = λ n. record fresh { nonce = nonce; stamps = λ k. (tally k, 900) };
}

-- a second operation of the engine, on a record of its own
abbrev op_n : Operation ℕ
op_n = record op_a { op_id = "a3"; record_id = "t3" }

-- an engine with this link
abbrev engine_over : Libraries ℕ → SyncEngine ℕ (Loopback ℕ)
engine_over lib = record {
  engine = record engine_a { db = record sample { outbox = op_a ∷ op_n ∷ [] } };
  crypto = layer;
  network = network_of lib "loopback" none loop;
  sync_locked = false;
  state = disconnected;
  last_sync = none;
  last_error = none;
  start_time = 3;
  status_callbacks = [];
}

abbrev back : Operation ℕ
back = delta_operation libraries 900 other_record

-- msgpack on the two lists of this exchange
abbrev lists_of : Bytes → Result (List (OperationDict ℕ))
lists_of [] = raise "no message"
lists_of (n ∷ _) =
    if n == 2
    then ok (map operation_to_dict (op_a ∷ op_n ∷ []))
    else ok (map operation_to_dict (back ∷ []))

abbrev payloads : Libraries ℕ
payloads = record libraries { pack_msgpack = λ ds. length ds ∷ []; unpack_msgpack = lists_of }

abbrev both : Libraries ℕ
both =
    let s = engine_over payloads in
    record payloads {
      codec =
          codec_of (asked payloads readings "hq" s loop hq)
            (answer payloads readings "hq" s loop hq);
    }

drawn : Drawn both readings "hq" (engine_over both) loop hq
unfolding dhava.Common.find
drawn = record {
  for_engine = record {
    once = λ m n ne. tally_differs (m + 2) (n + 2) (λ same. ne (omega (arith, same)));
    apart = λ id n closing. elim closing [
      | inl push ↦ rw push (tally_differs 0 (n + 2) (λ same. omega (arith, same)))
      | inr pull ↦ rw pull (tally_differs 1 (n + 2) (λ same. omega (arith, same)))
    ];
  };
  apart = tally_differs 0 1 (λ same. omega (arith, same));
  engine_ready = record { idle = refl; unused = λ id u. refl };
  for_server = record { once = tally_differs; apart = λ id n no. elim no [ ] };
  server_ready = record { idle = refl; unused = λ id u. refl };
}

understood : Understood both readings "hq" (engine_over both) loop hq
unfolding dhava.Protocol.request_to_dict dhava.Sync.request_of dhava.Crypto.pack dhava.Crypto.unpack
    operation_to_dict dhava.Conflict.resolve dhava.Store.get dhava.VectorClock.compare
    dhava.Dict.union dhava.Dict.keys from_clocks dhava.Dict.filter_values dhava.Audit.log
    dhava.Common.str_lt dhava.Store.apply_operation dhava.Server.upsert_node
    dhava.Server.count_synced dhava.Audit.insert_entry dhava.Backend.transaction dhava.Common.select
    dhava.Common.Sort.sort dhava.Common.find dhava.Common.update_where dhava.Common.upsert
    dhava.Conflict.accept dhava.Conflict.choose dhava.Conflict.choose_absent
    dhava.Conflict.choose_lww dhava.Crypto.compress dhava.Crypto.decompress dhava.Dict.elem
    dhava.Dict.erase dhava.Dict.get dhava.Models.op_type_of dhava.Models.priority_of
    dhava.Models.sync_state_of dhava.Models.Wire.operation_from_dict dhava.Models.create_entry
    dhava.Protocol.create_request dhava.Protocol.create_response dhava.Protocol.response_to_dict
    dhava.Protocol.serialize_response dhava.Protocol.serialize_request dhava.Result.item
    dhava.Server.delta_of_collections dhava.Server.delta_of_records dhava.Server.delta_operation
    dhava.Server.get_operations_for_peer dhava.Server.get_node_status dhava.Server.register_node
    dhava.Server.update_node_sync_telemetry dhava.Server.accept dhava.Server.accept_operations
    dhava.Server.settle dhava.Store.get_all_collections dhava.Store.has_key
    dhava.Store.matches_filters dhava.Store.query dhava.VectorClock.merge dhava.Sync.pending_batch
    dhava.Outbox.get_pending dhava.Engine.calculate_batch_size
    dhava.Engine.calculate_priority_cutoff
understood = record {
  key = refl;
  nonce = refl;
  nonce_back = refl;
  batch_unpacks = refl;
  delta_unpacks = refl;
  request_unpacks = refl;
  response_unpacks = refl;
}

sync_now-IsExchanged_example :
    let s = engine_over both in
    (session : SyncSession) × ((sync_now both readings "hq" s).0 ≡ ok session)
    × IsExchanged both readings "hq" s loop hq session (sync_now both readings "hq" s).1
unfolding dhava.Server.get_node_status
sync_now-IsExchanged_example =
    sync_now-IsExchanged cipher gzip_like zstd_like cipher-IsCipher compressors false both refl
      readings "loopback" "hq" (engine_over both) loop hq none refl refl refl refl drawn understood
