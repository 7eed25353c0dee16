-- ===== src/Models/RoundTrip.antt =====
-- What `to_dict` writes, `from_dict` reads back.
use dhava.Common.{◌≡◌, refl}
use dhava.Result.{ok}
use dhava.Models.{
  Operation, Record, AuditEntry, SyncSession, Priority, OperationType, SyncState, p0, create,
  pending, priority_of, priority_value, op_type_of, op_type_value, sync_state_of, sync_state_value,
}
use dhava.Models.Wire.{
  operation_to_dict, operation_from_dict, record_to_dict, record_from_dict, entry_to_dict,
  entry_from_dict, session_to_dict, session_from_dict,
}

priority_of-value : (p : Priority) → priority_of (priority_value p) ≡ ok p
unfolding priority_of
priority_of-value p0 = refl
priority_of-value _ = refl

op_type_of-value : (t : OperationType) → op_type_of (op_type_value t) ≡ ok t
unfolding op_type_of
op_type_of-value create = refl
op_type_of-value _ = refl

sync_state_of-value : (s : SyncState) → sync_state_of (sync_state_value s) ≡ ok s
unfolding sync_state_of
sync_state_of-value pending = refl
sync_state_of-value _ = refl

-- Reading back an operation that was written gives the same operation, in every field.
pub operation_from_dict-to_dict :
    {V : Type 0} (op : Operation V) → operation_from_dict (operation_to_dict op) ≡ ok op
unfolding operation_from_dict operation_to_dict
operation_from_dict-to_dict op =
    rw (
      op_type_of-value op.op_type,
      priority_of-value op.priority,
      sync_state_of-value op.sync_state,
    )

-- So for a record of the store.
pub record_from_dict-to_dict :
    {V : Type 0} (r : Record V) → record_from_dict (record_to_dict r) ≡ ok r
unfolding record_from_dict record_to_dict
record_from_dict-to_dict r = refl

-- So for an audit entry.
pub entry_from_dict-to_dict : (e : AuditEntry) → entry_from_dict (entry_to_dict e) ≡ ok e
unfolding entry_from_dict entry_to_dict
entry_from_dict-to_dict e = refl

-- So for a sync session.
pub session_from_dict-to_dict : (s : SyncSession) → session_from_dict (session_to_dict s) ≡ ok s
unfolding session_from_dict session_to_dict
session_from_dict-to_dict s = refl
