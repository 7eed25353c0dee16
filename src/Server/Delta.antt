-- ===== src/Server/Delta.antt =====
-- server.py: the operations that a server has for a peer.
use dhava.Common.{
  String, ◌<>◌, Bool, true, false, not, ◌&&◌, none, List, [], ◌∷◌, ◌++◌, str_eq, if◌then◌else◌, Eq,
}
use dhava.Models.{Time, Operation, Record, update, delete, p2, pending}
use dhava.VectorClock.{VectorClock, Comparison, from_clocks, compare}
use dhava.Backend.{Db}
use dhava.Store.{get_all_collections}
use dhava.Store
use dhava.Protocol.{Libraries}

abbrev pub newer : Comparison → Bool
newer Comparison.before = true
newer Comparison.concurrent = true
newer Comparison.after = false
newer Comparison.equal = false

module _ {V : Type 0} where
  -- the operation that carries a record to a peer
  unfoldable pub delta_operation : Libraries V → Time → Record V → Operation V
  delta_operation lib now rec = record {
    op_id = "srv-" <> rec.collection <> "-" <> rec.record_id <> "-" <> lib.str rec.version;
    node_id = rec.last_modified_by;
    op_type = if rec.deleted then delete else update;
    collection = rec.collection;
    record_id = rec.record_id;
    payload = rec.contents;
    timestamp = rec.last_modified;
    vector_clock = rec.vector_clock;
    lamport_timestamp = rec.version;
    priority = p2;
    user_id = none;
    authority = none;
    source_module = "app";
    sync_state = pending;
    synced_at = none;
    sync_attempts = 0;
    last_error = none;
    enqueued_at = now;
  }

  -- another node wrote it, and the peer's clock does not cover it
  abbrev pub wanted : VectorClock → String → Record V → Bool
  wanted peer_vc peer_node_id rec =
      not (str_eq rec.last_modified_by peer_node_id)
      && newer (compare peer_vc (from_clocks rec.vector_clock).clocks)

  unfoldable pub delta_of_records :
      Libraries V → Time → VectorClock → String → List (Record V) → List (Operation V)
  unfolding delta_operation
  delta_of_records lib now peer_vc peer [] = []
  delta_of_records lib now peer_vc peer (rec ∷ recs) =
      let rest = delta_of_records lib now peer_vc peer recs in
      if wanted peer_vc peer rec then delta_operation lib now rec ∷ rest else rest

  unfoldable pub delta_of_collections :
      ⦃e : Eq V⦄
      → Libraries V
      → Time
      → VectorClock
      → String
      → Db V
      → List String
      → List (Operation V)
  unfolding delta_of_records Store.query
  delta_of_collections lib now peer_vc peer db [] = []
  delta_of_collections lib now peer_vc peer db (coll ∷ colls) =
      delta_of_records lib now peer_vc peer (Store.query coll [] 500 0 true db)
      ++ delta_of_collections lib now peer_vc peer db colls

  unfoldable pub get_operations_for_peer :
      ⦃e : Eq V⦄ → Libraries V → Time → VectorClock → String → Db V → List (Operation V)
  unfolding delta_of_collections get_all_collections
  get_operations_for_peer lib now peer_vc peer db =
      delta_of_collections lib now peer_vc peer db (get_all_collections db)
