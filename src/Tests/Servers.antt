-- ===== src/Tests/Servers.antt =====
-- The server on concrete requests, with simple stand-ins for the libraries.
use dhava.Common.{ℕ, ◌≡◌, refl, true, none, [], ◌∷◌, All}
use dhava.Result.{ok, raise}
use dhava.Protocol.{
  SyncPushRequest, SyncPullResponse, Libraries, Codec, request_to_dict, response_to_dict,
}
use dhava.Database.{Evolves}
use dhava.Database.Serving.{handle_sync_request-Evolves}
use dhava.Server.{Server, Fresh, get_operations_for_peer, handle_sync_request, refusal}
use dhava.Server.Answers.{IsNews, get_operations_for_peer-IsNews}
use dhava.Tests.{sample, clock_b, vc, resolver, number_Eq}
use dhava.Tests.Packets.{cipher, gzip_like, layer}

abbrev no_codec : Codec
no_codec = record {
  pack_request = λ d. [];
  unpack_request = λ b. raise "no message";
  pack_response = λ d. [];
  unpack_response = λ b. raise "no message";
}

-- a codec that knows one message of each kind
abbrev pub codec_of : SyncPushRequest → SyncPullResponse → Codec
codec_of q r = record {
  pack_request = λ d. 1 ∷ [];
  unpack_request = λ b. ok (request_to_dict q);
  pack_response = λ d. 2 ∷ [];
  unpack_response = λ b. ok (response_to_dict r);
}

abbrev pub libraries : Libraries ℕ
libraries = record {
  platform = record { aesgcm = cipher; gzip = gzip_like; zstd = none };
  hexdigest = λ b. "00";
  pack_msgpack = λ ds. [];
  unpack_msgpack = λ b. ok [];
  str = λ n. "1";
  codec = no_codec;
}

abbrev pub headquarters : Server ℕ
headquarters = record {
  server_node_id = "hq";
  conflict_resolver = resolver;
  crypto = layer;
  audit = record { node_id = "hq" };
  audit_enabled = true;
  node_registration_required = true;
  lamport_counter = 0;
  global_vector_clock = vc [];
  db = sample;
}

abbrev pub fresh : Fresh
fresh = record { nonce = []; now = 900; stamps = λ n. ("x1", 900) }

-- a push of a node that is not registered
abbrev pub request : SyncPushRequest
request = record {
  node_id = "delta";
  session_id = "s1";
  operation_count = 0;
  payload_size_bytes = 0;
  payload_hash = "";
  compression = "zstd";
  encryption = "aes-256-gcm";
  sender_vector_clock = [];
  encrypted_payload = [];
  version = "1.0";
  timestamp = 800;
}

abbrev pub refused : SyncPullResponse
refused =
    refusal libraries fresh request headquarters "Node 'delta' is not registered on this server"

refused-request : (handle_sync_request libraries fresh request headquarters).0 ≡ ok refused
unfolding handle_sync_request
refused-request = refl

get_operations_for_peer-IsNews_example :
    All
      (IsNews (vc clock_b) "bravo")
      (get_operations_for_peer libraries 900 (vc clock_b) "bravo" sample)
get_operations_for_peer-IsNews_example =
    get_operations_for_peer-IsNews libraries 900 (vc clock_b) "bravo" sample

handle_sync_request-Evolves_example :
    Evolves sample (handle_sync_request libraries fresh request headquarters).1.db
handle_sync_request-Evolves_example =
    handle_sync_request-Evolves libraries fresh request headquarters
