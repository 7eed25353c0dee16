-- ===== src/Protocol/RoundTrip.antt =====
-- The two messages survive the wire.
use dhava.Common.{◌≡◌, refl}
use dhava.Result.{ok}
use dhava.Models.{Time}
use dhava.Protocol.{
  SyncPushRequest, SyncPullResponse, Codec, request_to_dict, response_to_dict, serialize_request,
  deserialize_request, serialize_response, deserialize_response,
}

-- Unpacking undoes packing, on the dict of this message.
abbrev pub UnpacksRequest : Codec → SyncPushRequest → Type 0
UnpacksRequest c q = c.unpack_request (c.pack_request (request_to_dict q)) ≡ ok (request_to_dict q)

abbrev pub UnpacksResponse : Codec → SyncPullResponse → Type 0
UnpacksResponse c r =
    c.unpack_response (c.pack_response (response_to_dict r)) ≡ ok (response_to_dict r)

module _ (c : Codec) (now : Time) where
  pub deserialize-serialize_request :
      (q : SyncPushRequest)
      → UnpacksRequest c q
      → deserialize_request c now (serialize_request c q) ≡ ok q
  unfolding deserialize_request serialize_request
  deserialize-serialize_request q law = rw law refl

  pub deserialize-serialize_response :
      (r : SyncPullResponse)
      → UnpacksResponse c r
      → deserialize_response c now (serialize_response c r) ≡ ok r
  unfolding deserialize_response serialize_response
  deserialize-serialize_response r law = rw law refl

  -- Where msgpack unpacks the dicts of the two messages as it packed them, each message is read back
  -- at the other end as it was sent, in every field and whatever the clock there shows.
  pub messages_round_trip :
      (q : SyncPushRequest) (r : SyncPullResponse)
      → UnpacksRequest c q
      → UnpacksResponse c r
      → (deserialize_request c now (serialize_request c q) ≡ ok q)
        × (deserialize_response c now (serialize_response c r) ≡ ok r)
  messages_round_trip q r law_q law_r =
      (deserialize-serialize_request q law_q, deserialize-serialize_response r law_r)
