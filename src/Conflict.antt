-- ===== src/Conflict.antt =====
-- conflict.py: the decision between a local record and a remote operation.
pub mod Agreement
pub mod Divergence
pub mod Decision
use dhava.Common.{
  ℕ, ◌+◌, String, ◌<>◌, Bool, true, false, Option, none, some, [], ◌∷◌, ltb, str_lt, if◌then◌else◌,
}
use dhava.Dict.{Dict}
use dhava.Models.{
  Time, Operation, OperationType, Record, Detail, create, update, delete, merge, text, number, null,
}
use dhava.VectorClock.{Comparison, before, after, equal, concurrent, from_clocks, compare}
use dhava.VectorClock

pub data ResolutionAction : Type 0 where
  apply_remote discard_remote merge_fields conflict_notified : ResolutionAction

abbrev pub action_value : ResolutionAction → String
action_value apply_remote = "apply_remote"
action_value discard_remote = "discard_remote"
action_value merge_fields = "merge_fields"
action_value conflict_notified = "conflict_notified"

pub data Winner : Type 0 where
  local remote : Winner

abbrev pub winner_value : Winner → String
winner_value local = "local"
winner_value remote = "remote"

-- the field `comparison`: the verdict of the clocks, or "non_existent"
pub data Relation : Type 0 where
  non_existent : Relation
  compared : Comparison → Relation

abbrev pub relation_value : Relation → String
relation_value non_existent = "non_existent"
relation_value (compared before) = "before"
relation_value (compared after) = "after"
relation_value (compared equal) = "equal"
relation_value (compared concurrent) = "concurrent"

pub record Resolution : Type 0 where
  pub action : ResolutionAction
  pub reason : String
  pub winner : Winner
  pub local_vector_clock : Option (Dict ℕ)
  pub remote_vector_clock : Dict ℕ
  pub comparison : Relation
  pub local_timestamp : Option Time
  pub remote_timestamp : Time
  pub tiebreaker : Option String
  pub audit_detail : Dict Detail

pub record ConflictResolver : Type 0 where
  pub node_id : String
  pub clock_skew_tolerance : Time

-- What one branch of `resolve` sets.
pub record Choice : Type 0 where
  pub action : ResolutionAction
  pub winner : Winner
  pub reason : String
  pub tiebreaker : Option String

-- `MERGE_FIELDS if op_type == MERGE else APPLY_REMOTE`
unfoldable pub accept : OperationType → ResolutionAction
accept merge = merge_fields
accept create = apply_remote
accept update = apply_remote
accept delete = apply_remote

abbrev discard : String → Option String → Choice
discard reason tie = record {
  action = discard_remote;
  winner = local;
  reason = reason;
  tiebreaker = tie;
}

abbrev take_remote : OperationType → String → Option String → Choice
take_remote op_type reason tie = record {
  action = accept op_type;
  winner = remote;
  reason = reason;
  tiebreaker = tie;
}

-- case 1: no local record, or a tombstone
unfoldable pub choose_absent : OperationType → Choice
unfolding accept
choose_absent delete = discard "Remote delete for non-existent or already deleted local record" none
choose_absent create =
    take_remote create "No active local record exists, applying remote operation" none
choose_absent update =
    take_remote update "No active local record exists, applying remote operation" none
choose_absent merge =
    take_remote merge "No active local record exists, applying remote operation" none

abbrev lww_reason : String → String
lww_reason tie = "Concurrent modification resolved by LWW (" <> tie <> ")"

abbrev text_or_null : Option String → Detail
text_or_null none = null
text_or_null (some s) = text s

module _ {V : Type 0} where
  -- the last branch: timestamps with a tolerance, then node identifiers
  unfoldable pub choose_lww : Time → Record V → Operation V → Choice
  unfolding accept
  choose_lww tolerance rec op =
      let remote_tie = "node_id_tiebreaker: " <> op.node_id <> " > " <> rec.last_modified_by in
      let local_tie = "node_id_tiebreaker: " <> rec.last_modified_by <> " >= " <> op.node_id in
      if ltb (rec.last_modified + tolerance) op.timestamp
      then take_remote op.op_type (lww_reason "remote_timestamp_newer")
          (some "remote_timestamp_newer")
      else if ltb (op.timestamp + tolerance) rec.last_modified
      then discard (lww_reason "local_timestamp_newer") (some "local_timestamp_newer")
      else if str_lt rec.last_modified_by op.node_id
      then take_remote op.op_type (lww_reason remote_tie) (some remote_tie)
      else discard (lww_reason local_tie) (some local_tie)

  unfoldable pub choose : Time → Comparison → Record V → Operation V → Choice
  unfolding choose_lww
  choose tolerance after rec op =
      discard "Local record is causally after remote operation (remote is stale)" none
  choose tolerance before rec op =
      take_remote op.op_type "Remote operation is causally after local record" none
  choose tolerance equal rec op = discard "Records have identical causal history" none
  choose tolerance concurrent rec op = choose_lww tolerance rec op

  -- `local_vc.compare(remote_vc)` on the clocks that the two dicts give
  abbrev pub causal : Record V → Operation V → Comparison
  causal rec op = compare (from_clocks rec.vector_clock) (from_clocks op.vector_clock).clocks

  resolve_absent : Option (Record V) → Operation V → Resolution
  resolve_absent rec op =
      let c = choose_absent op.op_type in
      record {
        action = c.action;
        reason = c.reason;
        winner = c.winner;
        local_vector_clock = elim rec [ none ↦ none | some r ↦ some r.vector_clock ];
        remote_vector_clock = op.vector_clock;
        comparison = non_existent;
        local_timestamp = elim rec [ none ↦ none | some r ↦ some r.last_modified ];
        remote_timestamp = op.timestamp;
        tiebreaker = none;
        audit_detail =
            ("collection", text op.collection)
            ∷ ("record_id", text op.record_id)
            ∷ ("remote_op_id", text op.op_id)
            ∷ ("resolution", text (action_value c.action))
            ∷ ("reason", text c.reason)
            ∷ ("comparison", text "non_existent")
            ∷ ("remote_timestamp", number op.timestamp)
            ∷ [];
      }

  resolve_present : Time → Record V → Operation V → Resolution
  resolve_present tolerance rec op =
      let comparison = causal rec op in
      let c = choose tolerance comparison rec op in
      record {
        action = c.action;
        reason = c.reason;
        winner = c.winner;
        local_vector_clock = some rec.vector_clock;
        remote_vector_clock = op.vector_clock;
        comparison = compared comparison;
        local_timestamp = some rec.last_modified;
        remote_timestamp = op.timestamp;
        tiebreaker = c.tiebreaker;
        audit_detail =
            ("collection", text op.collection)
            ∷ ("record_id", text op.record_id)
            ∷ ("remote_op_id", text op.op_id)
            ∷ ("local_node", text rec.last_modified_by)
            ∷ ("remote_node", text op.node_id)
            ∷ ("resolution", text (action_value c.action))
            ∷ ("winner", text (winner_value c.winner))
            ∷ ("reason", text c.reason)
            ∷ ("comparison", text (relation_value (compared comparison)))
            ∷ ("local_timestamp", number rec.last_modified)
            ∷ ("remote_timestamp", number op.timestamp)
            ∷ ("tiebreaker", text_or_null c.tiebreaker)
            ∷ [];
      }

  unfoldable pub resolve : ConflictResolver → Option (Record V) → Operation V → Resolution
  unfolding choose choose_absent resolve_absent resolve_present
  resolve cr none op = resolve_absent none op
  resolve cr (some rec) op =
      if rec.deleted
      then resolve_absent (some rec) op
      else resolve_present cr.clock_skew_tolerance rec op
