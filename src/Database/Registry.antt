-- ===== src/Database/Registry.antt =====
-- server.py: each statement on the registry of nodes, as an evolution of the database.
use dhava.Common.{ℕ, String, refl, Option, none, [], str_eq_iff}
use dhava.Common.Distinct.{Tests, Keyed-upsert, keys-update_where}
use dhava.Dict.{Dict}
use dhava.Exec.Keeps.{Keeps, Keeps->>=}
use dhava.Models.{Time}
use dhava.Backend.{Bytes}
use dhava.Audit.{has_audit_id}
use dhava.Server.{
  register_node, update_node_sync_telemetry, has_node_id, upsert_node, count_synced,
  registered_again, new_node, synced_again,
}
use dhava.Database.{
  Evolves, Evolves-IsPreorder, transaction-Evolves, OpsKept-refl, TrailGrows-refl, audit_key,
  node_key,
}

-- audit.py
has_audit_id-Tests : (id : String) → Tests audit_key (has_audit_id id) id
has_audit_id-Tests id e = str_eq_iff e.audit_id id

module _ {V : Type 0} where
  has_node_id-Tests : (id : String) → Tests node_key (has_node_id {V = V} id) id
  has_node_id-Tests id row = str_eq_iff row.node_id id

  upsert_node-Evolves :
      (now : Time) (id : String) (key : Option Bytes) (metadata : Dict V)
      → Keeps Evolves (upsert_node now id key metadata)
  unfolding upsert_node
  upsert_node-Evolves now id key metadata db = (
    OpsKept-refl db,
    TrailGrows-refl db,
    λ s. (
      s.0,
      s.1,
      s.2,
      Keyed-upsert node_key (has_node_id id) (registered_again key metadata)
          (new_node now id key metadata) db.sync_nodes (has_node_id-Tests id) (λ x. refl) s.3,
    ),
  )

  pub register_node-Evolves :
      (now : Time) (id : String) (key : Option Bytes) (metadata : Dict V)
      → Keeps Evolves (register_node now id key metadata)
  unfolding register_node
  register_node-Evolves now id key metadata =
      transaction-Evolves (upsert_node now id key metadata)
        (upsert_node-Evolves now id key metadata)

  count_synced-Evolves :
      (now : Time) (id : String) (n : ℕ) (status : String)
      → Keeps Evolves (count_synced {V = V} now id n status)
  unfolding count_synced
  count_synced-Evolves now id n status db = (
    OpsKept-refl db,
    TrailGrows-refl db,
    λ s. (
      s.0,
      s.1,
      s.2,
      rw
          (keys-update_where node_key (has_node_id id) (synced_again now n status) db.sync_nodes
            (λ x. refl))
          s.3,
    ),
  )

  pub telemetry-Evolves :
      (now : Time) (id : String) (n : ℕ) (status : String)
      → Keeps Evolves (update_node_sync_telemetry {V = V} now id n status)
  unfolding update_node_sync_telemetry
  telemetry-Evolves now id n status =
      Keeps->>= Evolves Evolves-IsPreorder (register_node now id none [])
        (λ _. count_synced now id n status) (register_node-Evolves now id none [])
        (λ _. count_synced-Evolves now id n status)
