-- ===== src/Sync/Completes.antt =====
-- engine.py: from an answer that is no error to the end of the session. Where the trail holds none of
-- the fresh identifiers and what was pulled can be read, nothing raises.
use dhava.Common.{
  ℕ, ◌<◌, ◌≡◌, ◌≢◌, ◌⊎◌, inl, inr, refl, ap, ◌∙◌, false, List, [], ◌∷◌, map, length, arith, str_eq,
}
use dhava.Result.{ok}
use dhava.Exec.Succeeds.{Returns}
use dhava.Models.{Operation}
use dhava.Models.Wire.{operation_to_dict}
use dhava.Backend.{Bytes}
use dhava.Crypto.{unpack}
use dhava.Outbox.{mark_synced}
use dhava.Audit.Fresh.{Ready}
use dhava.Transport.{Transport}
use dhava.Protocol.{Libraries, SyncPullResponse, serialize_response}
use dhava.Protocol.RoundTrip.{UnpacksResponse, deserialize-serialize_response}
use dhava.Node.{SyncEngine}
use dhava.Engine.{Pull}
use dhava.Engine.Fresh.{From, AreFresh, Settles, Ready-less}
use dhava.Sync.{Running, SyncReadings, on_store, completed, pull, no_pull, complete, process}
use dhava.Sync.Intake.{pull_operations-Pulls}
use dhava.Sync.Conclude.{Closing, Found, mark_synced-Ready, conclude-Returns}

module _ {V W : Type 0} (r : SyncReadings) where
  module _ (lib : Libraries V) (f : AreFresh r.stamps (Closing r)) where
    -- The payload of an answer: nothing, or what these operations were packed to.
    abbrev pub Encloses : SyncEngine V W → Bytes → List (Operation V) → Type 0
    Encloses s payload ops =
        ((payload ≡ []) × (ops ≡ []))
        ⊎ ((raw : Bytes) × (0 < length payload)
            × (unpack lib.platform s.crypto payload ≡ ok raw)
            × (lib.unpack_msgpack raw ≡ ok (map operation_to_dict ops)))

    -- what a pull of operations leaves
    record Takes (n : ℕ) (before : Running V W) (p : Pull) (after : Running V W) : Type 0 where
      pub counts : p.pulled_ops_count ≡ n
      pub settles : Settles (Closing r) before.node.engine.db after.node.engine.db
      pub session : after.session ≡ before.session
      pub network : after.node.network ≡ before.node.network

    pull-Takes :
        (payload : Bytes) (ops : List (Operation V)) (run : Running V W)
        → Encloses run.node payload ops
        → Ready (From r.stamps (Closing r) 0) run.node.engine.db
        → Returns (pull lib r payload run) (Takes (length ops) run)
    unfolding pull
    pull-Takes [] ops run (inl (_, nothing)) ready = (
      no_pull,
      refl,
      record {
        counts = rw nothing refl;
        settles = record {
          ready =
              Ready-less (From r.stamps (Closing r) 0) (Closing r) run.node.engine.db ready
                (λ id o. inl o);
          outbox = refl;
        };
        session = refl;
        network = refl;
      },
    )
    pull-Takes [] ops run (inr (raw, long, _, _)) ready = ground (arith, long)
    pull-Takes (b ∷ bs) ops run (inl (empty, _)) ready = cc empty
    pull-Takes (b ∷ bs) ops run (inr (raw, long, opens, unpacks)) ready =
        let (p, eq, (counts, done)) =
          pull_operations-Pulls r.stamps (Closing r) f 0 ops no_pull run.node.engine ready in
        rw (opens, unpacks)
          (
            p,
            eq,
            record {
              counts = omega (arith, counts);
              settles = done.settles;
              session = refl;
              network = refl;
            },
          )

    -- A session that is complete: so many operations were pulled, and the queue is marked.
    abbrev pub Completes : ℕ → SyncPullResponse → Running V W → Running V W → Type 0
    Completes n resp before after =
        (p : Pull) × (p.pulled_ops_count ≡ n)
        × (after.session ≡ completed r p before.session)
        × (after.node.engine.db.outbox
            ≡ (mark_synced resp.acked_op_ids r.synced before.node.engine.db).1.outbox)

    complete-Completes :
        (t : Transport W) (resp : SyncPullResponse) (ops : List (Operation V)) (run : Running V W)
        → r.push_audit.0 ≢ r.pull_audit.0
        → Encloses run.node resp.encrypted_payload ops
        → Ready (From r.stamps (Closing r) 0) run.node.engine.db
        → Found r.status_probed run.node.network
        → Returns (complete lib r t resp run) (λ _ after. Completes (length ops) resp run after)
    unfolding complete
    complete-Completes t resp ops run apart encloses ready found =
        let marked = (on_store (mark_synced resp.acked_op_ids r.synced) run).1 in
        let (a, eq, still) =
          mark_synced-Ready (From r.stamps (Closing r) 0) resp.acked_op_ids r.synced
            run.node.engine.db ready in
        let (p, pulled, took) = pull-Takes resp.encrypted_payload ops marked encloses still in
        let after = (pull lib r resp.encrypted_payload marked).1 in
        let (b, closed, (session, outbox)) =
          conclude-Returns r resp.node_id t.name p after apart took.settles.ready
            (rw took.network found) in
        rw (eq, pulled)
          (
            b,
            closed,
            (
              p,
              took.counts,
              session ∙ ap (completed r p) took.session,
              outbox ∙ took.settles.outbox,
            ),
          )

    -- the run once the length of an answer is with_length
    abbrev pub with_length : Bytes → Running V W → Running V W
    with_length raw run = record run { session = record run.session { bytes_pulled = length raw } }

    pub process-Completes :
        (t : Transport W) (pending : List (Operation V)) (resp : SyncPullResponse)
        (ops : List (Operation V)) (run : Running V W)
        → UnpacksResponse lib.codec resp
        → str_eq resp.status "error" ≡ false
        → r.push_audit.0 ≢ r.pull_audit.0
        → Encloses run.node resp.encrypted_payload ops
        → Ready (From r.stamps (Closing r) 0) run.node.engine.db
        → Found r.status_probed run.node.network
        → let raw = serialize_response lib.codec resp in
          Returns
            (process lib r t pending raw run)
            (λ _ after. Completes (length ops) resp (with_length raw run) after)
    unfolding process
    process-Completes t pending resp ops run law status apart encloses ready found =
        let raw = serialize_response lib.codec resp in
        rw (deserialize-serialize_response lib.codec r.received resp law, status)
          (complete-Completes t resp ops (with_length raw run) apart encloses ready found)
