-- ===== src/Server/Answers.antt =====
-- What the answer to a push promises.
use dhava.Common.{
  String, ◌≡◌, refl, ◌⊎◌, inl, inr, true, false, List, [], ◌∷◌, arith, str_eq, if_intro, All,
  All-append, Eq, ◌<>◌,
}
use dhava.Result.{Result, ok, raise}
use dhava.Models.{Time, Operation, Record}
use dhava.VectorClock.{VectorClock, from_clocks, dominates}
use dhava.Backend.{Db}
use dhava.Store
use dhava.Exec.{result_of_continue}
use dhava.Protocol.{Libraries, create_response, SyncPushRequest, SyncPullResponse}
use dhava.Server.{
  Server, Fresh, wanted, delta_operation, delta_of_records, delta_of_collections,
  get_operations_for_peer, handle_sync_request, respond, refusal, registered, received,
  get_node_status,
}

-- An answer with the status "ok", or an error that acknowledges and carries nothing.
abbrev pub IsAnswerOrRefusal : SyncPullResponse → Type 0
IsAnswerOrRefusal r =
    (r.status ≡ "ok")
    ⊎ ((r.status ≡ "error")
        × (r.acked_op_ids ≡ [])
        × (r.encrypted_payload ≡ [])
        × (r.operation_count ≡ 0))

module _ {V : Type 0} where
  -- An operation of a delta: another node wrote it, and the peer's clock does not dominate its clock.
  pub record IsNews (peer_vc : VectorClock) (peer : String) (op : Operation V) : Type 0 where
    pub foreign : str_eq op.node_id peer ≡ false
    pub unseen : dominates peer_vc (from_clocks op.vector_clock).clocks ≡ false

  wanted-IsNews :
      (lib : Libraries V) (now : Time) (peer_vc : VectorClock) (peer : String) (rec : Record V)
      → wanted peer_vc peer rec ≡ true
      → IsNews peer_vc peer (delta_operation lib now rec)
  unfolding delta_operation dominates
  wanted-IsNews lib now peer_vc peer rec h = record {
    foreign = ground arith;
    unseen = ground arith;
  }

  delta_of_records-IsNews :
      (lib : Libraries V) (now : Time) (peer_vc : VectorClock) (peer : String)
      (recs : List (Record V))
      → All (IsNews peer_vc peer) (delta_of_records lib now peer_vc peer recs)
  unfolding delta_of_records
  delta_of_records-IsNews lib now peer_vc peer [] = tt
  delta_of_records-IsNews lib now peer_vc peer (rec ∷ recs) =
      let rest = delta_of_records lib now peer_vc peer recs in
      let news = delta_of_records-IsNews lib now peer_vc peer recs in
      if_intro (All (IsNews peer_vc peer)) (wanted peer_vc peer rec)
        (delta_operation lib now rec ∷ rest) rest
        (λ h. (wanted-IsNews lib now peer_vc peer rec h, news)) (λ _. news)

  delta_of_collections-IsNews :
      ⦃e : Eq V⦄ (lib : Libraries V) (now : Time) (peer_vc : VectorClock) (peer : String)
      (db : Db V) (colls : List String)
      → All (IsNews peer_vc peer) (delta_of_collections lib now peer_vc peer db colls)
  unfolding delta_of_collections
  delta_of_collections-IsNews lib now peer_vc peer db [] = tt
  delta_of_collections-IsNews lib now peer_vc peer db (c ∷ cs) =
      All-append (IsNews peer_vc peer)
        (delta_of_records lib now peer_vc peer (Store.query c [] 500 0 true db)) _
        (delta_of_records-IsNews lib now peer_vc peer (Store.query c [] 500 0 true db))
        (delta_of_collections-IsNews lib now peer_vc peer db cs)

  -- Every operation in the delta for a peer was written by another node, and its clock is not one that
  -- the clock of the peer dominates: no operation that the peer is known to have is sent to it.
  pub get_operations_for_peer-IsNews :
      ⦃e : Eq V⦄ (lib : Libraries V) (now : Time) (peer_vc : VectorClock) (peer : String)
      (db : Db V)
      → All (IsNews peer_vc peer) (get_operations_for_peer lib now peer_vc peer db)
  unfolding get_operations_for_peer
  get_operations_for_peer-IsNews lib now peer_vc peer db =
      delta_of_collections-IsNews lib now peer_vc peer db _

  respond-IsAnswerOrRefusal :
      ⦃e : Eq V⦄ (lib : Libraries V) (fresh : Fresh) (req : SyncPushRequest)
      (result : Result (List String)) (s : Server V) (resp : SyncPullResponse)
      → (respond lib fresh req result s).0 ≡ ok resp
      → IsAnswerOrRefusal resp
  respond-IsAnswerOrRefusal lib fresh req (raise e) s resp h =
      let same : refusal lib fresh req s e ≡ resp = cc h in
      rw (← same) (inr (unfold create_response in (refl, refl, refl, refl)))
  respond-IsAnswerOrRefusal lib fresh req (ok acked) s resp h =
      rw (← result_of_continue _ _ resp _ h) (inl (unfold create_response in refl))

  -- An answer of the server either has the status "ok", or it has the status "error", and then it
  -- acknowledges no operation and carries none: whatever was applied before the error, the sender is
  -- told of nothing.
  pub handle_sync_request-IsAnswerOrRefusal :
      ⦃e : Eq V⦄ (lib : Libraries V) (fresh : Fresh) (req : SyncPushRequest) (s : Server V)
      (resp : SyncPullResponse)
      → (handle_sync_request lib fresh req s).0 ≡ ok resp
      → IsAnswerOrRefusal resp
  unfolding handle_sync_request
  handle_sync_request-IsAnswerOrRefusal lib fresh req s resp =
      let run = received lib fresh req req.encrypted_payload s in
      let e = "Node '" <> req.node_id <> "' is not registered on this server" in
      if_intro (λ (o : Result SyncPullResponse × Server V). o.0 ≡ ok resp → IsAnswerOrRefusal resp)
        (registered s (get_node_status req.node_id s.db)) _ _
        (λ _ h. respond-IsAnswerOrRefusal lib fresh req run.0 run.1 resp h)
        (λ _ h. respond-IsAnswerOrRefusal lib fresh req (raise e) s resp h)
