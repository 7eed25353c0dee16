-- ===== src/Conflict/Decision.antt =====
-- How the parts of a resolution fit together, on every branch.
use dhava.Common.{◌≡◌, refl, Bool, true, false, Option, none, some, arith, if◌then◌else◌}
use dhava.Dict
use dhava.Models.{Time, Operation, OperationType, Record, create, update, delete, merge, text}
use dhava.VectorClock.{Comparison, concurrent}
use dhava.Conflict.{
  Winner, local, remote, ResolutionAction, discard_remote, ConflictResolver, Resolution, accept,
  action_value, choose_absent, choose_lww, choose, causal, resolve, resolve_absent, resolve_present,
}

abbrev pub action_for : Winner → OperationType → ResolutionAction
action_for local t = discard_remote
action_for remote t = accept t

choose_absent-action :
    (t : OperationType) → (choose_absent t).action ≡ action_for (choose_absent t).winner t
unfolding choose_absent
choose_absent-action create = refl
choose_absent-action update = refl
choose_absent-action delete = refl
choose_absent-action merge = refl

module _ {V : Type 0} where
  choose_lww-action :
      (tolerance : Time) (rec : Record V) (op : Operation V)
      → (choose_lww tolerance rec op).action
        ≡ action_for (choose_lww tolerance rec op).winner op.op_type
  unfolding choose_lww
  choose_lww-action tolerance rec op = ground arith

  choose-action :
      (tolerance : Time) (c : Comparison) (rec : Record V) (op : Operation V)
      → (choose tolerance c rec op).action
        ≡ action_for (choose tolerance c rec op).winner op.op_type
  unfolding choose
  choose-action tolerance concurrent rec op = choose_lww-action tolerance rec op
  choose-action tolerance _ rec op = refl

  -- What the caller and the audit trail rely on of a resolution.
  pub record IsCoherent (op : Operation V) (r : Resolution) : Type 0 where
    pub acts : r.action ≡ action_for r.winner op.op_type
    pub audits_action : Dict.get "resolution" r.audit_detail ≡ some (text (action_value r.action))
    pub audits_reason : Dict.get "reason" r.audit_detail ≡ some (text r.reason)
    pub audits_operation : Dict.get "remote_op_id" r.audit_detail ≡ some (text op.op_id)
    pub audits_record : Dict.get "record_id" r.audit_detail ≡ some (text op.record_id)

  absent-IsCoherent :
      (rec : Option (Record V)) (op : Operation V) → IsCoherent op (resolve_absent rec op)
  unfolding resolve_absent Dict.get
  absent-IsCoherent rec op = record {
    acts = choose_absent-action op.op_type;
    audits_action = refl;
    audits_reason = refl;
    audits_operation = refl;
    audits_record = refl;
  }

  present-IsCoherent :
      (tolerance : Time) (rec : Record V) (op : Operation V)
      → IsCoherent op (resolve_present tolerance rec op)
  unfolding resolve_present Dict.get
  present-IsCoherent tolerance rec op = record {
    acts = choose-action tolerance (causal rec op) rec op;
    audits_action = refl;
    audits_reason = refl;
    audits_operation = refl;
    audits_record = refl;
  }

  pub resolve-IsCoherent :
      (cr : ConflictResolver) (rec : Option (Record V)) (op : Operation V)
      → IsCoherent op (resolve cr rec op)
  unfolding resolve
  resolve-IsCoherent cr none op = absent-IsCoherent none op
  resolve-IsCoherent cr (some rec) op = go rec.deleted
    where
      go :
          (b : Bool)
          → IsCoherent op (
              if b
              then resolve_absent (some rec) op
              else resolve_present cr.clock_skew_tolerance rec op)
      go true = absent-IsCoherent (some rec) op
      go false = present-IsCoherent cr.clock_skew_tolerance rec op
