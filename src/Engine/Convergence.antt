-- ===== src/Engine/Convergence.antt =====
-- Two replicas that exchange their writes hold the same record afterwards.
use dhava.Common.{ℕ, String, ◌≡◌, ◌≢◌, refl, ap, ◌∙◌, sym, Bool, true, false, none, some, find}
use dhava.Dict.{Dict}
use dhava.Models.{Time, Operation, OperationType, Record, create, update, merge, delete}
use dhava.VectorClock.{equal}
use dhava.Conflict.{accept, Winner, ConflictResolver, local, remote, resolve, causal}
use dhava.Conflict.Agreement.{WrittenBy, opposite, replicas_agree}
use dhava.Conflict.Decision.{action_for, resolve-IsCoherent}
use dhava.Store.Apply.{current, record_of}
use dhava.Audit.{has_audit_id}
use dhava.Engine.{Engine, Pull, takes, absorb}
use dhava.Engine.Pulls.{settled_record, absorb_lem}

-- What two replicas have to agree on. The version is left out: it counts the writes of one store.
pub record Seen (V : Type 0) : Type 0 where
  pub contents : Dict V
  pub vector_clock : Dict ℕ
  pub last_modified : Time
  pub last_modified_by : String
  pub deleted : Bool

-- a replacement of the whole record
abbrev pub is_plain : OperationType → Bool
is_plain create = true
is_plain update = true
is_plain merge = false
is_plain delete = false

abbrev takes_remote : Winner → Bool
takes_remote local = false
takes_remote remote = true

takes-action_for : (w : Winner) (t : OperationType) → takes (action_for w t) ≡ takes_remote w
unfolding accept
takes-action_for local t = refl
takes-action_for remote create = refl
takes-action_for remote update = refl
takes-action_for remote merge = refl
takes-action_for remote delete = refl

module _ {V : Type 0} where
  abbrev pub seen : Record V → Seen V
  seen rec = record {
    contents = rec.contents;
    vector_clock = rec.vector_clock;
    last_modified = rec.last_modified;
    last_modified_by = rec.last_modified_by;
    deleted = rec.deleted;
  }

  -- The record is what the operation, a replacement of the whole record, left at its own node.
  pub record ReplacedBy (rec : Record V) (op : Operation V) : Type 0 where
    pub plain : is_plain op.op_type ≡ true
    pub written : WrittenBy rec op
    pub payload : rec.contents ≡ op.payload

  seen-replaced :
      (rec : Record V) (op : Operation V)
      → ReplacedBy rec op
      → record {
        contents = op.payload;
        vector_clock = op.vector_clock;
        last_modified = op.timestamp;
        last_modified_by = op.node_id;
        deleted = false;
      }
        ≡ seen rec
  seen-replaced rec op w = λ i. record {
    contents = sym w.payload i;
    vector_clock = sym w.written.clock i;
    last_modified = (sym w.written.stamp i).time;
    last_modified_by = (sym w.written.stamp i).node;
    deleted = sym w.written.live i;
  }

  pub seen-record_of :
      (t : OperationType) (rec old : Record V) (op : Operation V)
      → is_plain t ≡ true
      → ReplacedBy rec op
      → seen (record_of t (some old) op) ≡ seen rec
  seen-record_of create rec old op h w = seen-replaced rec op w
  seen-record_of update rec old op h w = seen-replaced rec op w
  seen-record_of merge rec old op h w = cc
  seen-record_of delete rec old op h w = cc

  pub takes-winner :
      (cr : ConflictResolver) (rec : Record V) (op : Operation V)
      → takes (resolve cr (some rec) op).action ≡ takes_remote (resolve cr (some rec) op).winner
  takes-winner cr rec op =
      ap takes (resolve-IsCoherent cr (some rec) op).acts
      ∙ takes-action_for (resolve cr (some rec) op).winner op.op_type

  seen-settled :
      (w : Winner) (a b : Record V) (op_a op_b : Operation V)
      → ReplacedBy a op_a
      → ReplacedBy b op_b
      → seen (settled_record (takes_remote w) a op_b)
        ≡ seen (settled_record (takes_remote (opposite w)) b op_a)
  seen-settled local a b op_a op_b wa wb = sym (seen-record_of op_a.op_type a b op_a wa.plain wa)
  seen-settled remote a b op_a op_b wa wb = seen-record_of op_b.op_type b a op_b wb.plain wb

  -- Two engines with the same tolerance hold the records that two nodes wrote as replacements, with
  -- clocks that are not equal, under one key; each takes in the operation behind the other's record,
  -- outside a transaction and with a fresh identifier for the audit entry. Then both hold a record
  -- under the key, and the two are the same in data, clock, time, author and deletion.
  pub exchange_converges :
      (e f : Engine V) (a b : Record V) (op_a op_b : Operation V) (s t : String × Time) (p q : Pull)
      → e.conflict_resolver.clock_skew_tolerance ≡ f.conflict_resolver.clock_skew_tolerance
      → e.db.in_transaction ≡ false
      → f.db.in_transaction ≡ false
      → find (has_audit_id s.0) e.db.audit_log ≡ none
      → find (has_audit_id t.0) f.db.audit_log ≡ none
      → current op_b e.db ≡ some a
      → current op_a f.db ≡ some b
      → ReplacedBy a op_a
      → ReplacedBy b op_b
      → a.last_modified_by ≢ b.last_modified_by
      → causal a op_b ≢ equal
      → (x : Record V) × (y : Record V) × (current op_b (absorb s op_b p e).1.db ≡ some x)
        × (current op_a (absorb t op_a q f).1.db ≡ some y)
        × (seen x ≡ seen y)
  exchange_converges e f a b op_a op_b s t p q same idle idle' free free' at bt wa wb nodes ne =
      let w = (resolve e.conflict_resolver (some a) op_b).winner in
      (
        settled_record (takes (resolve e.conflict_resolver (some a) op_b).action) a op_b,
        settled_record (takes (resolve f.conflict_resolver (some b) op_a).action) b op_a,
        (absorb_lem s op_b p e a idle free at).1,
        (absorb_lem t op_a q f b idle' free' bt).1,
        rw
            (
              takes-winner e.conflict_resolver a op_b,
              takes-winner f.conflict_resolver b op_a,
              replicas_agree e.conflict_resolver f.conflict_resolver a b op_a op_b same wa.written
                  wb.written nodes ne,
            )
            (seen-settled w a b op_a op_b wa wb),
      )
