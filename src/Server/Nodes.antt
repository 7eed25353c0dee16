-- ===== src/Server/Nodes.antt =====
-- server.py: the registry of the nodes that sync with a server.
use dhava.Common.{
  ℕ, ◌+◌, String, Bool, Option, none, some, List, [], ◌∷◌, map, leb, str_eq, find, update_where,
  upsert,
}
use dhava.Common.Sort.{sort}
use dhava.Dict.{Dict}
use dhava.Exec.{Exec, ◌>>◌, modify}
use dhava.Models.{Time}
use dhava.Backend.{Bytes, Db, NodeRow, transaction}

-- `NodeInfo`
pub record NodeInfo (V : Type 0) : Type 0 where
  pub node_id : String
  pub last_sync : Option Time
  pub last_sync_status : String
  pub total_ops_synced : ℕ
  pub pending_ops_on_node : Option ℕ
  pub public_key : Option Bytes
  pub metadata : Dict V

-- `public_key if public_key else None`: no bytes are no key.
abbrev pub some_key : Option Bytes → Option Bytes
some_key none = none
some_key (some []) = none
some_key (some (b ∷ bs)) = some (b ∷ bs)

-- `COALESCE(excluded.public_key, sync_nodes.public_key)`
abbrev pub coalesce : Option Bytes → Option Bytes → Option Bytes
coalesce none old = old
coalesce (some k) old = some k

module _ {V : Type 0} where
  abbrev pub has_node_id : String → NodeRow V → Bool
  has_node_id id row = str_eq row.node_id id

  abbrev pub node_info : NodeRow V → NodeInfo V
  node_info row = record {
    node_id = row.node_id;
    last_sync = row.last_sync_at;
    last_sync_status = row.last_sync_status;
    total_ops_synced = row.total_ops_synced;
    pending_ops_on_node = none;
    public_key = row.public_key;
    metadata = row.metadata;
  }

  unfoldable pub get_node_status : String → Db V → Option (NodeInfo V)
  unfolding find
  get_node_status id db = elim (find (has_node_id id) db.sync_nodes) [
    | none ↦ none
    | some row ↦ some (node_info row)
  ]

  unfoldable pub list_nodes : Db V → List (NodeInfo V)
  unfolding sort
  list_nodes db = map node_info (sort (λ a b. leb a.registered_at b.registered_at) db.sync_nodes)

  -- On a conflict the key is kept if none is given, and the metadata is replaced.
  -- the row of a node that registers again
  abbrev pub registered_again : Option Bytes → Dict V → NodeRow V → NodeRow V
  registered_again key metadata old = record old {
    public_key = coalesce (some_key key) old.public_key;
    metadata = metadata;
  }

  abbrev pub new_node : Time → String → Option Bytes → Dict V → NodeRow V
  new_node now id key metadata = record {
    node_id = id;
    public_key = some_key key;
    registered_at = now;
    last_sync_at = none;
    last_sync_status = "never";
    total_ops_synced = 0;
    metadata = metadata;
  }

  unfoldable pub upsert_node : Time → String → Option Bytes → Dict V → Exec (Db V) (Unit {0})
  unfolding upsert
  upsert_node now id key metadata = modify (λ db. record db {
    sync_nodes =
        upsert (has_node_id id) (registered_again key metadata) (new_node now id key metadata)
          db.sync_nodes;
  })

  unfoldable pub register_node : Time → String → Option Bytes → Dict V → Exec (Db V) (Unit {0})
  unfolding transaction
  register_node now id key metadata = transaction (upsert_node now id key metadata)

  abbrev pub synced_again : Time → ℕ → String → NodeRow V → NodeRow V
  synced_again now ops_synced status old = record old {
    last_sync_at = some now;
    last_sync_status = status;
    total_ops_synced = old.total_ops_synced + ops_synced;
  }

  unfoldable pub count_synced : Time → String → ℕ → String → Exec (Db V) (Unit {0})
  unfolding update_where
  count_synced now id ops_synced status = modify (λ db. record db {
    sync_nodes = update_where (has_node_id id) (synced_again now ops_synced status) db.sync_nodes;
  })

  -- The node is registered first, without key and metadata.
  unfoldable pub update_node_sync_telemetry : Time → String → ℕ → String → Exec (Db V) (Unit {0})
  unfolding register_node
  update_node_sync_telemetry now id ops_synced status =
      register_node now id none [] >> count_synced now id ops_synced status
