-- ===== src/Protocol.antt =====
-- protocol.py: the two messages of an exchange, and their way over the wire as dicts that msgpack
-- packs. The codec is a library of others.
pub mod RoundTrip
use dhava.Common.{ℕ, String, Option, some, List, [], ◌∷◌, length}
use dhava.Dict.{Dict}
use dhava.Result.{Result, ok, item, or_default, ◌>>=◌}
use dhava.Models.Wire.{OperationDict}
use dhava.Crypto.{Platform}
use dhava.Models.{Time}
use dhava.Backend.{Bytes}

abbrev pub protocol_version : String
protocol_version = "1.0"

pub record SyncPushRequest : Type 0 where
  pub node_id : String
  pub session_id : String
  pub operation_count : ℕ
  pub payload_size_bytes : ℕ
  pub payload_hash : String
  pub compression : String
  pub encryption : String
  pub sender_vector_clock : Dict ℕ
  pub encrypted_payload : Bytes
  pub version : String
  pub timestamp : Time

pub record SyncPullResponse : Type 0 where
  pub node_id : String
  pub session_id : String
  pub status : String
  pub operation_count : ℕ
  pub payload_size_bytes : ℕ
  pub payload_hash : String
  pub compression : String
  pub encryption : String
  pub acked_op_ids : List String
  pub rejected_op_ids : Dict String
  pub encrypted_payload : Bytes
  pub error : Option String
  pub version : String
  pub timestamp : Time

-- `hashlib.sha256(raw_payload).hexdigest() if raw_payload else ""`
abbrev pub hash_unless_empty : (Bytes → String) → Bytes → String
hash_unless_empty hexdigest [] = ""
hash_unless_empty hexdigest (b ∷ bs) = hexdigest (b ∷ bs)

-- What the caller of `SyncPullResponse.create` passes. The compression and the encryption keep their
-- defaults.
pub record NewResponse : Type 0 where
  pub node_id : String
  pub session_id : String
  pub status : String
  pub acked_op_ids : List String
  pub rejected_op_ids : Dict String
  pub encrypted_payload : Bytes
  pub raw_payload : Bytes
  pub operation_count : ℕ
  pub error : Option String

unfoldable pub create_response : (Bytes → String) → Time → NewResponse → SyncPullResponse
create_response hexdigest now n = record {
  node_id = n.node_id;
  session_id = n.session_id;
  status = n.status;
  operation_count = n.operation_count;
  payload_size_bytes = length n.encrypted_payload;
  payload_hash = hash_unless_empty hexdigest n.raw_payload;
  compression = "zstd";
  encryption = "aes-256-gcm";
  acked_op_ids = n.acked_op_ids;
  rejected_op_ids = n.rejected_op_ids;
  encrypted_payload = n.encrypted_payload;
  error = n.error;
  version = protocol_version;
  timestamp = now;
}

-- The compression is that of the configuration; the encryption keeps its default.
pub record NewRequest : Type 0 where
  pub node_id : String
  pub sender_vector_clock : Dict ℕ
  pub encrypted_payload : Bytes
  pub raw_payload : Bytes
  pub operation_count : ℕ
  pub compression : String
  pub session_id : String

-- `SyncPushRequest.create` with a session identifier, as the engine calls it
unfoldable pub create_request : (Bytes → String) → Time → NewRequest → SyncPushRequest
create_request hexdigest now n = record {
  node_id = n.node_id;
  session_id = n.session_id;
  operation_count = n.operation_count;
  payload_size_bytes = length n.encrypted_payload;
  payload_hash = hexdigest n.raw_payload;
  compression = n.compression;
  encryption = "aes-256-gcm";
  sender_vector_clock = n.sender_vector_clock;
  encrypted_payload = n.encrypted_payload;
  version = protocol_version;
  timestamp = now;
}

-- A message as a dict: `none` if the key is absent.
pub record RequestDict : Type 0 where
  pub protocol_version : Option String
  pub node_id : Option String
  pub session_id : Option String
  pub timestamp : Option Time
  pub operation_count : Option ℕ
  pub payload_size_bytes : Option ℕ
  pub payload_hash : Option String
  pub compression : Option String
  pub encryption : Option String
  pub sender_vector_clock : Option (Dict ℕ)
  pub encrypted_payload : Option Bytes

unfoldable pub request_to_dict : SyncPushRequest → RequestDict
request_to_dict x = record {
  protocol_version = some x.version;
  node_id = some x.node_id;
  session_id = some x.session_id;
  timestamp = some x.timestamp;
  operation_count = some x.operation_count;
  payload_size_bytes = some x.payload_size_bytes;
  payload_hash = some x.payload_hash;
  compression = some x.compression;
  encryption = some x.encryption;
  sender_vector_clock = some x.sender_vector_clock;
  encrypted_payload = some x.encrypted_payload;
}

unfoldable pub request_from_dict : Time → RequestDict → Result SyncPushRequest
unfolding item
request_from_dict now d = do
  node_id ← item "node_id" d.node_id
  session_id ← item "session_id" d.session_id
  operation_count ← item "operation_count" d.operation_count
  payload_size_bytes ← item "payload_size_bytes" d.payload_size_bytes
  payload_hash ← item "payload_hash" d.payload_hash
  encrypted_payload ← item "encrypted_payload" d.encrypted_payload
  ok (record {
    node_id = node_id;
    session_id = session_id;
    operation_count = operation_count;
    payload_size_bytes = payload_size_bytes;
    payload_hash = payload_hash;
    compression = or_default d.compression "zstd";
    encryption = or_default d.encryption "aes-256-gcm";
    sender_vector_clock = or_default d.sender_vector_clock [];
    encrypted_payload = encrypted_payload;
    version = or_default d.protocol_version protocol_version;
    timestamp = or_default d.timestamp now;
  })

pub record ResponseDict : Type 0 where
  pub protocol_version : Option String
  pub node_id : Option String
  pub session_id : Option String
  pub timestamp : Option Time
  pub status : Option String
  pub error : Option String
  pub operation_count : Option ℕ
  pub payload_size_bytes : Option ℕ
  pub payload_hash : Option String
  pub compression : Option String
  pub encryption : Option String
  pub acked_op_ids : Option (List String)
  pub rejected_op_ids : Option (Dict String)
  pub encrypted_payload : Option Bytes

unfoldable pub response_to_dict : SyncPullResponse → ResponseDict
response_to_dict x = record {
  protocol_version = some x.version;
  node_id = some x.node_id;
  session_id = some x.session_id;
  timestamp = some x.timestamp;
  status = some x.status;
  error = x.error;
  operation_count = some x.operation_count;
  payload_size_bytes = some x.payload_size_bytes;
  payload_hash = some x.payload_hash;
  compression = some x.compression;
  encryption = some x.encryption;
  acked_op_ids = some x.acked_op_ids;
  rejected_op_ids = some x.rejected_op_ids;
  encrypted_payload = some x.encrypted_payload;
}

unfoldable pub response_from_dict : Time → ResponseDict → Result SyncPullResponse
unfolding item
response_from_dict now d = do
  node_id ← item "node_id" d.node_id
  session_id ← item "session_id" d.session_id
  status ← item "status" d.status
  ok (record {
    node_id = node_id;
    session_id = session_id;
    status = status;
    operation_count = or_default d.operation_count 0;
    payload_size_bytes = or_default d.payload_size_bytes 0;
    payload_hash = or_default d.payload_hash "";
    compression = or_default d.compression "zstd";
    encryption = or_default d.encryption "aes-256-gcm";
    acked_op_ids = or_default d.acked_op_ids [];
    rejected_op_ids = or_default d.rejected_op_ids [];
    encrypted_payload = or_default d.encrypted_payload [];
    error = d.error;
    version = or_default d.protocol_version protocol_version;
    timestamp = or_default d.timestamp now;
  })

-- msgpack on the dicts of the two messages
pub record Codec : Type 0 where
  pub pack_request : RequestDict → Bytes
  pub unpack_request : Bytes → Result RequestDict
  pub pack_response : ResponseDict → Bytes
  pub unpack_response : Bytes → Result ResponseDict

-- What the two peers call of other packages: the ciphers and compressors, the hash, msgpack, and the
-- formatting of an integer.
pub record Libraries (V : Type 0) : Type 0 where
  pub platform : Platform
  pub hexdigest : Bytes → String
  pub pack_msgpack : List (OperationDict V) → Bytes
  pub unpack_msgpack : Bytes → Result (List (OperationDict V))
  pub str : ℕ → String
  pub codec : Codec

-- `serialize` and `deserialize` of the two messages
unfoldable pub serialize_request : Codec → SyncPushRequest → Bytes
unfolding request_to_dict
serialize_request c r = c.pack_request (request_to_dict r)

unfoldable pub deserialize_request : Codec → Time → Bytes → Result SyncPushRequest
unfolding request_from_dict
deserialize_request c now raw = c.unpack_request raw >>= request_from_dict now

unfoldable pub serialize_response : Codec → SyncPullResponse → Bytes
unfolding response_to_dict
serialize_response c r = c.pack_response (response_to_dict r)

unfoldable pub deserialize_response : Codec → Time → Bytes → Result SyncPullResponse
unfolding response_from_dict
deserialize_response c now raw = c.unpack_response raw >>= response_from_dict now
