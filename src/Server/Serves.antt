-- ===== src/Server/Serves.antt =====
-- The server that can open a push and whose trail knows none of the fresh identifiers answers it.
use dhava.Common.{
  ℕ, ◌+◌, String, ◌≡◌, ◌≢◌, inl, inr, refl, sym, ◌∙◌, true, false, ◌&&◌, none, List, [], ◌∷◌, ◌++◌,
  map, length, arith, Eq,
}
use mathlib.Core.List.{append-nil, append_assoc}
use dhava.Result.{Result, ok, raise}
use dhava.Exec.Succeeds.{Returns, Returns-continue}
use dhava.Models.{Time, Operation}
use dhava.Models.Wire.{operation_to_dict}
use dhava.VectorClock.{from_clocks}
use dhava.Conflict.{Resolution, resolve}
use dhava.Backend.{Db, transaction_idle}
use dhava.Store
use dhava.Engine.Fresh.{
  From, AreFresh, From-next, Settles, Settles-trans, Ready-less, log_if-Settles, apply_if-Settles,
}
use dhava.Audit.Fresh.{Ready}
use dhava.Engine.{takes, is_conflict, log_conflict, log_if, apply_if}
use dhava.Protocol.{Libraries, SyncPushRequest, SyncPullResponse}
use dhava.Server.{
  Server, Fresh, settle, accept, accept_operations, received, respond, answer, registered,
  with_cause, get_node_status, register_node, upsert_node, count_synced, get_operations_for_peer,
  update_node_sync_telemetry, handle_sync_request,
}
use dhava.Server.Acks.{Carries, ids_of, accept_first, received_opened}

module _ {V : Type 0} where
  -- what the server keeps through the loop, and that its trail knows none of the rest
  pub record Serves (Unused : String → Type 0) (s t : Server V) : Type 0 where
    pub ready : Ready Unused t.db
    pub crypto : t.crypto ≡ s.crypto
    pub server_node_id : t.server_node_id ≡ s.server_node_id

  module _ (Unused Left : String → Type 0) (stamp : String × Time) (u : Unused stamp.0)
      (less : (id : String) → Left id → Unused id × (id ≢ stamp.0)) where
    settle-Settles :
        (s : Server V) (op : Operation V) (r : Resolution) (db : Db V)
        → Ready Unused db
        → Returns (settle s stamp op r db) (λ _ d. Settles Left db d)
    unfolding settle
    settle-Settles s op r db ready =
        let logs = s.audit_enabled && is_conflict r.comparison in
        let logging = log_if logs (log_conflict s.audit stamp r) in
        Returns-continue (λ _ d. Settles Left db d) (λ _ d. Settles Left db d)
          (λ _. apply_if (takes r.action) op) (logging db)
          (log_if-Settles Unused Left s.audit stamp u less logs r db ready)
          (λ _ done.
            let d = (logging db).1 in
            let (a, eq, more) = apply_if-Settles Left (takes r.action) op d done.ready in
            (a, eq, Settles-trans Left Left db d _ done more))

    accept-Serves :
        (op : Operation V) (s : Server V)
        → Ready Unused s.db
        → Returns (accept stamp op s) (λ _ t. Serves Left s t)
    unfolding accept
    accept-Serves op s ready =
        let r = resolve s.conflict_resolver (Store.get op.collection op.record_id true s.db) op in
        let (a, eq, done) = settle-Settles s op r s.db ready in
        (a, eq, record { ready = done.ready; crypto = refl; server_node_id = refl })

  module _ (stamps : ℕ → String × Time) (Others : String → Type 0)
      (f : AreFresh stamps Others) where
    pub accept_operations-Serves :
        (n : ℕ) (ops : List (Operation V)) (acked : List String) (s : Server V)
        → Ready (From stamps Others n) s.db
        → Returns
            (accept_operations stamps n (map operation_to_dict ops) acked s)
            (λ ids t. (ids ≡ acked ++ ids_of ops) × Serves Others s t)
    unfolding accept_operations
    accept_operations-Serves n [] acked s ready = (
      acked,
      refl,
      (
        sym (append-nil acked),
        record {
          ready = Ready-less (From stamps Others n) Others s.db ready (λ id o. inl o);
          crypto = refl;
          server_node_id = refl;
        },
      ),
    )
    accept_operations-Serves n (op ∷ ops) acked s ready =
        rw (accept_first stamps n op ops acked s) (
          Returns-continue (λ _ t. Serves (From stamps Others (n + 1)) s t)
            (λ ids t. (ids ≡ acked ++ ids_of (op ∷ ops)) × Serves Others s t)
            (λ _.
              accept_operations stamps (n + 1) (map operation_to_dict ops) (acked ++ op.op_id ∷ []))
            (accept (stamps n) op s)
            (accept-Serves (From stamps Others n) (From stamps Others (n + 1)) (stamps n)
              (inr (n, omega arith, refl)) (From-next stamps Others f n) op s ready)
            (λ _ done.
              let (ids, eq, (acks, more)) =
                accept_operations-Serves (n + 1) ops (acked ++ op.op_id ∷ [])
                  (accept (stamps n) op s).1 done.ready in
              (
                ids,
                eq,
                (
                  acks ∙ append_assoc acked (op.op_id ∷ []) (ids_of ops),
                  record {
                    ready = more.ready;
                    crypto = more.crypto ∙ done.crypto;
                    server_node_id = more.server_node_id ∙ done.server_node_id;
                  },
                ),
              )))

  with_cause-Returns :
      (Q : List String → Server V → Type 0) (run : Result (List String) × Server V)
      → Returns run Q
      → Returns (with_cause run) Q
  with_cause-Returns Q (ok ids, t) (a, e, q) = (a, e, q)
  with_cause-Returns Q (raise problem, t) (a, e, q) = cc e

  module _ (lib : Libraries V) (fresh : Fresh) (req : SyncPushRequest) where
    -- the server once it has taken in the operations of the push
    abbrev pub informed : Server V → Server V
    informed s = (received lib fresh req req.encrypted_payload s).1

    received-Serves :
        (Others : String → Type 0) (ops : List (Operation V)) (s : Server V)
        → AreFresh fresh.stamps Others
        → Carries lib s req ops
        → Ready (From fresh.stamps Others 0) s.db
        → Returns
            (received lib fresh req req.encrypted_payload s)
            (λ ids t. (ids ≡ ids_of ops) × Serves Others s t)
    received-Serves Others ops s f c ready =
        rw (received_opened lib fresh req ops s c req.encrypted_payload c.not_empty c.opens) (
          with_cause-Returns (λ ids t. (ids ≡ ids_of ops) × Serves Others s t)
            (accept_operations fresh.stamps 0 (map operation_to_dict ops) [] s)
            (accept_operations-Serves fresh.stamps Others f 0 ops [] s ready))

    telemetry_returns :
        (n : ℕ) (db : Db V)
        → db.in_transaction ≡ false
        → (update_node_sync_telemetry fresh.now req.node_id n "ok" db).0 ≡ ok tt
    unfolding update_node_sync_telemetry register_node upsert_node count_synced
    telemetry_returns n db idle =
        rw (transaction_idle (upsert_node fresh.now req.node_id none []) db idle) refl

    module _ ⦃e : Eq V⦄ where
      -- what the server has for the peer by then
      abbrev pub delta_of : Server V → List (Operation V)
      delta_of s =
          get_operations_for_peer lib fresh.now (from_clocks req.sender_vector_clock) req.node_id
            (informed s).db

      -- the answer in which all is acknowledged
      abbrev pub welcome : List (Operation V) → Server V → SyncPullResponse
      welcome ops s = answer lib fresh req (informed s) (ids_of ops) (delta_of s)

      respond-answer :
          (acked : List String) (t : Server V)
          → t.db.in_transaction ≡ false
          → (respond lib fresh req (ok acked) t).0
            ≡ ok (
                answer lib fresh req t acked (
                  get_operations_for_peer lib fresh.now
                    (from_clocks req.sender_vector_clock)
                    req.node_id
                    t.db))
      respond-answer acked t idle = rw (telemetry_returns (length acked) t.db idle) refl

      pub handle_sync_request-welcome :
          (Others : String → Type 0) (ops : List (Operation V)) (s : Server V)
          → registered s (get_node_status req.node_id s.db) ≡ true
          → AreFresh fresh.stamps Others
          → Carries lib s req ops
          → Ready (From fresh.stamps Others 0) s.db
          → ((handle_sync_request lib fresh req s).0 ≡ ok (welcome ops s))
            × Serves Others s (informed s)
      unfolding handle_sync_request
      handle_sync_request-welcome Others ops s known f c ready =
          let (ids, eq, (acks, served)) = received-Serves Others ops s f c ready in
          (
            rw (known, eq, acks) (respond-answer (ids_of ops) (informed s) served.ready.idle),
            served,
          )
