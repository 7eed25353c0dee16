-- ===== src/Engine/Crossing.antt =====
-- engine.py: a deletion and an update that cross, at the two engines that exchange them.
use dhava.Common.{◌+◌, ◌<◌, String, ◌≡◌, ◌≢◌, ap, ◌∙◌, sym, true, false, none, some, find}
use dhava.Models.{Time, Operation, OperationType, Record, create, update, delete, merge}
use dhava.VectorClock.{concurrent}
use dhava.Conflict.{resolve, causal}
use dhava.Conflict.Divergence.{tombstone-remote, delete_update_cross}
use dhava.Store.Apply.{current, record_of}
use dhava.Audit.{has_audit_id}
use dhava.Engine.{Engine, Pull, takes, absorb}
use dhava.Engine.Pulls.{settled_record, absorb_lem}
use dhava.Engine.Convergence.{Seen, seen, ReplacedBy, is_plain, takes-winner, seen-record_of}

plain_keeps : (t : OperationType) → is_plain t ≡ true → t ≢ delete
plain_keeps create h = λ e. cc e
plain_keeps update h = λ e. cc e
plain_keeps merge h = λ e. cc e
plain_keeps delete h = cc h

module _ {V : Type 0} where
  -- The record is the tombstone that the deletion left at its own node.
  pub record DeletedBy (rec : Record V) (op : Operation V) : Type 0 where
    pub deletes : op.op_type ≡ delete
    pub dead : rec.deleted ≡ true
    pub clock : rec.vector_clock ≡ op.vector_clock
    pub time : rec.last_modified ≡ op.timestamp
    pub author : rec.last_modified_by ≡ op.node_id

  -- a record with the data of one and the marks of the other
  abbrev pub buried : Record V → Record V → Seen V
  buried rec tombstone = record (seen tombstone) { contents = rec.contents }

  seen-buried :
      (a b : Record V) (op : Operation V)
      → DeletedBy a op
      → seen (record_of op.op_type (some b) op) ≡ buried b a
  seen-buried a b op d = ap (λ t. seen (record_of t (some b) op)) d.deletes ∙ (λ i. record {
    contents = b.contents;
    vector_clock = sym d.clock i;
    last_modified = sym d.time i;
    last_modified_by = sym d.author i;
    deleted = sym d.dead i;
  })

  -- One node deletes a record and another one replaces it, concurrently, and the deletion is younger
  -- by more than the tolerance of the node that replaced it. Each engine takes in the operation behind
  -- the other's record, outside a transaction and with a fresh identifier for the audit entry. Then
  -- they have crossed: the node that deleted holds what the other one wrote, live and with its clock,
  -- time and author, and the other one holds a tombstone with those of the deletion over its own data.
  pub exchange_crosses :
      (e f : Engine V) (a b : Record V) (op_a op_b : Operation V) (s t : String × Time) (p q : Pull)
      → e.db.in_transaction ≡ false
      → f.db.in_transaction ≡ false
      → find (has_audit_id s.0) e.db.audit_log ≡ none
      → find (has_audit_id t.0) f.db.audit_log ≡ none
      → current op_b e.db ≡ some a
      → current op_a f.db ≡ some b
      → DeletedBy a op_a
      → ReplacedBy b op_b
      → causal b op_a ≡ concurrent
      → b.last_modified + f.conflict_resolver.clock_skew_tolerance < op_a.timestamp
      → (x : Record V) × (y : Record V) × (current op_b (absorb s op_b p e).1.db ≡ some x)
        × (current op_a (absorb t op_a q f).1.db ≡ some y)
        × (seen x ≡ seen b)
        × (seen y ≡ buried b a)
  exchange_crosses e f a b op_a op_b s t p q idle idle' free free' at bt da wb c late =
      let keeps = plain_keeps op_b.op_type wb.plain in
      let there =
        delete_update_cross f.conflict_resolver a b op_a op_b da.dead da.deletes wb.written keeps c
          late in
      (
        settled_record (takes (resolve e.conflict_resolver (some a) op_b).action) a op_b,
        settled_record (takes (resolve f.conflict_resolver (some b) op_a).action) b op_a,
        (absorb_lem s op_b p e a idle free at).1,
        (absorb_lem t op_a q f b idle' free' bt).1,
        rw
            (
              takes-winner e.conflict_resolver a op_b,
              tombstone-remote e.conflict_resolver a op_b da.dead keeps,
            )
            (seen-record_of op_b.op_type b a op_b wb.plain wb),
        rw (takes-winner f.conflict_resolver b op_a, there.1) (seen-buried a b op_a da),
      )
