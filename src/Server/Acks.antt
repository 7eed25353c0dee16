-- ===== src/Server/Acks.antt =====
-- Which operations the answer to a push acknowledges.
use dhava.Common.{
  ℕ, ◌+◌, ◌<◌, String, ◌≡◌, ◌⊎◌, inl, inr, refl, sym, ap, ◌∙◌, List, [], ◌∷◌, ◌++◌, map, length,
  arith, str_eq, str_eq_iff, if_intro, if_true, Eq, ◌<>◌,
}
use mathlib.Core.List.{append-nil, append_assoc}
use dhava.Result.{Result, ok, raise}
use dhava.Exec.{continue, result_of_continue}
use dhava.Models.{Time, Operation}
use dhava.Models.Wire.{operation_to_dict}
use dhava.Models.RoundTrip.{operation_from_dict-to_dict}
use dhava.Backend.{Bytes}
use dhava.Crypto.{unpack}
use dhava.Protocol.{Libraries, create_response, SyncPushRequest, SyncPullResponse}
use dhava.Server.{
  Server, Fresh, accept, accept_operations, with_cause, received, respond, refusal, registered,
  get_node_status, handle_sync_request,
}

module _ {V : Type 0} where
  abbrev pub ids_of : List (Operation V) → List String
  ids_of = map (λ op. op.op_id)

  accepted_ids :
      (stamps : ℕ → String × Time) (n : ℕ) (op : Operation V) (ops : List (Operation V))
      (acked ids : List String)
      → ((t : Server V)
          → (accept_operations stamps
              (n + 1)
              (map operation_to_dict ops)
              (acked ++ op.op_id ∷ [])
              t).0
            ≡ ok ids
          → ids ≡ (acked ++ op.op_id ∷ []) ++ ids_of ops)
      → (run : Result (Unit {0}) × Server V)
      → (continue run.0
          (λ _.
            accept_operations stamps (n + 1) (map operation_to_dict ops) (acked ++ op.op_id ∷ []))
          run.1).0
        ≡ ok ids
      → ids ≡ acked ++ ids_of (op ∷ ops)
  accepted_ids stamps n op ops acked ids ih (ok _, t) h =
      ih t h ∙ append_assoc acked (op.op_id ∷ []) (ids_of ops)
  accepted_ids stamps n op ops acked ids ih (raise e, t) h = cc h

  pub accept_first :
      (stamps : ℕ → String × Time) (n : ℕ) (op : Operation V) (ops : List (Operation V))
      (acked : List String) (s : Server V)
      → let run = accept (stamps n) op s in
        accept_operations stamps n (map operation_to_dict (op ∷ ops)) acked s
        ≡ continue run.0
            (λ _.
              accept_operations stamps (n + 1) (map operation_to_dict ops) (acked ++ op.op_id ∷ []))
            run.1
  unfolding accept_operations
  accept_first stamps n op ops acked s = rw (operation_from_dict-to_dict op) refl

  accept_operations_acks :
      (stamps : ℕ → String × Time) (n : ℕ) (ops : List (Operation V)) (acked ids : List String)
      (s : Server V)
      → (accept_operations stamps n (map operation_to_dict ops) acked s).0 ≡ ok ids
      → ids ≡ acked ++ ids_of ops
  unfolding accept_operations
  accept_operations_acks stamps n [] acked ids s h =
      let same : acked ≡ ids = cc h in sym same ∙ sym (append-nil acked)
  accept_operations_acks stamps n (op ∷ ops) acked ids s h =
      accepted_ids stamps n op ops acked ids
        (accept_operations_acks stamps (n + 1) ops (acked ++ op.op_id ∷ []) ids)
        (accept (stamps n) op s)
        (sym (
            ap (λ (run : Result (List String) × Server V). run.0)
              (accept_first stamps n op ops acked s))
          ∙ h)

  -- The server can open the payload of the request, and these operations are in it.
  pub record Carries (lib : Libraries V) (s : Server V) (req : SyncPushRequest)
      (ops : List (Operation V)) : Type 0 where
    pub raw : Bytes
    pub not_empty : 0 < length req.encrypted_payload
    pub opens : unpack lib.platform s.crypto req.encrypted_payload ≡ ok raw
    pub hashes : lib.hexdigest raw ≡ req.payload_hash
    pub unpacks : lib.unpack_msgpack raw ≡ ok (map operation_to_dict ops)

  -- With the status "ok" all of them are acknowledged, in order, and with an error none.
  abbrev pub Acks : List (Operation V) → SyncPullResponse → Type 0
  Acks ops resp =
      ((resp.status ≡ "ok") × (resp.acked_op_ids ≡ ids_of ops))
      ⊎ ((resp.status ≡ "error") × (resp.acked_op_ids ≡ []))

  with_cause_ok :
      (run : Result (List String) × Server V) (ids : List String)
      → (with_cause run).0 ≡ ok ids
      → run.0 ≡ ok ids
  with_cause_ok (ok x, s) ids h = h
  with_cause_ok (raise e, s) ids h = cc h

  pub received_opened :
      (lib : Libraries V) (fresh : Fresh) (req : SyncPushRequest) (ops : List (Operation V))
      (s : Server V) (c : Carries lib s req ops) (payload : Bytes)
      → 0 < length payload
      → unpack lib.platform s.crypto payload ≡ ok c.raw
      → received lib fresh req payload s
        ≡ with_cause (accept_operations fresh.stamps 0 (map operation_to_dict ops) [] s)
  received_opened lib fresh req ops s c [] h opens = ground (arith, h)
  received_opened lib fresh req ops s c (b ∷ bs) h opens =
      rw (opens, c.unpacks)
        (if_true (str_eq (lib.hexdigest c.raw) req.payload_hash) _ _
          ((str_eq_iff (lib.hexdigest c.raw) req.payload_hash).1 c.hashes))

  received_acks :
      (lib : Libraries V) (fresh : Fresh) (req : SyncPushRequest) (ops : List (Operation V))
      (s : Server V) (ids : List String)
      → Carries lib s req ops
      → (received lib fresh req req.encrypted_payload s).0 ≡ ok ids
      → ids ≡ ids_of ops
  received_acks lib fresh req ops s ids c h = accept_operations_acks fresh.stamps 0 ops [] ids s (
      with_cause_ok (accept_operations fresh.stamps 0 (map operation_to_dict ops) [] s) ids (
        sym (
          ap (λ (run : Result (List String) × Server V). run.0)
            (received_opened lib fresh req ops s c req.encrypted_payload c.not_empty c.opens))
        ∙ h))

  respond-Acks :
      ⦃e : Eq V⦄ (lib : Libraries V) (fresh : Fresh) (req : SyncPushRequest)
      (ops : List (Operation V)) (result : Result (List String)) (s : Server V)
      (resp : SyncPullResponse)
      → ((ids : List String) → result ≡ ok ids → ids ≡ ids_of ops)
      → (respond lib fresh req result s).0 ≡ ok resp
      → Acks ops resp
  respond-Acks lib fresh req ops (raise e) s resp k h =
      let same : refusal lib fresh req s e ≡ resp = cc h in
      rw (← same) (inr (unfold create_response in (refl, refl)))
  respond-Acks lib fresh req ops (ok acked) s resp k h =
      rw (← result_of_continue _ _ resp _ h) (inl (unfold create_response in (refl, k acked refl)))

  -- If the server can open the payload of a push, its answer acknowledges exactly the operations of
  -- that payload, in their order, or it is an error and acknowledges none.
  pub handle_sync_request-Acks :
      ⦃e : Eq V⦄ (lib : Libraries V) (fresh : Fresh) (req : SyncPushRequest)
      (ops : List (Operation V)) (s : Server V) (resp : SyncPullResponse)
      → Carries lib s req ops
      → (handle_sync_request lib fresh req s).0 ≡ ok resp
      → Acks ops resp
  unfolding handle_sync_request
  handle_sync_request-Acks lib fresh req ops s resp c =
      let run = received lib fresh req req.encrypted_payload s in
      let e = "Node '" <> req.node_id <> "' is not registered on this server" in
      if_intro (λ (o : Result SyncPullResponse × Server V). o.0 ≡ ok resp → Acks ops resp)
        (registered s (get_node_status req.node_id s.db)) _ _
        (λ _.
          respond-Acks lib fresh req ops run.0 run.1 resp
            (λ ids h. received_acks lib fresh req ops s ids c h))
        (λ _. respond-Acks lib fresh req ops (raise e) s resp (λ ids h. cc h))
