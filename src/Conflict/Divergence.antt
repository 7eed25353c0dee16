-- ===== src/Conflict/Divergence.antt =====
-- Where replicas that exchange their writes do not settle on one of them.
use dhava.Common.{◌+◌, ◌<◌, ◌≡◌, ◌≢◌, refl, ap, ◌∙◌, Bool, true, false, some, arith, if◌then◌else◌}
use dhava.Models.{Time, Operation, OperationType, Record, create, update, delete, merge}
use dhava.VectorClock.{concurrent}
use dhava.Conflict.{
  Winner, remote, ConflictResolver, choose_absent, causal, resolve, resolve_absent, resolve_present,
}
use dhava.Conflict.Agreement.{
  Stamp, lww_winner, winner_by, record_stamp, operation_stamp, WrittenBy, resolve-winner,
}

lww_later :
    (tolerance : Time) (l r : Stamp)
    → l.time + tolerance < r.time
    → lww_winner tolerance l r ≡ remote
unfolding lww_winner
lww_later tolerance l r h = ground arith

choose_absent-remote : (t : OperationType) → t ≢ delete → (choose_absent t).winner ≡ remote
unfolding choose_absent
choose_absent-remote create h = refl
choose_absent-remote update h = refl
choose_absent-remote delete h = absurd (h refl)
choose_absent-remote merge h = refl

module _ {V : Type 0} (cr : ConflictResolver) where
  resolve_concurrent :
      (rec : Record V) (op : Operation V)
      → rec.deleted ≡ false
      → causal rec op ≡ concurrent
      → lww_winner cr.clock_skew_tolerance (record_stamp rec) (operation_stamp op) ≡ remote
      → (resolve cr (some rec) op).winner ≡ remote
  resolve_concurrent rec op live c w =
      resolve-winner cr rec op live
      ∙ ap (λ k. winner_by k cr.clock_skew_tolerance (record_stamp rec) (operation_stamp op)) c
      ∙ w

  -- A tombstone gives way to every remote operation that is not a deletion, whatever the clocks and
  -- the timestamps are: also to one that the deletion causally follows.
  pub tombstone-remote :
      (rec : Record V) (op : Operation V)
      → rec.deleted ≡ true
      → op.op_type ≢ delete
      → (resolve cr (some rec) op).winner ≡ remote
  unfolding resolve
  tombstone-remote rec op dead h = ap winner_of dead ∙ choose_absent-remote op.op_type h
    where
      winner_of : Bool → Winner
      winner_of b =
          (if b
            then resolve_absent (some rec) op
            else resolve_present cr.clock_skew_tolerance rec op).winner

  -- One node deletes a record and another one updates it, concurrently, and the deletion is younger
  -- by more than the tolerance. Then the resolver of each takes the operation of the other.
  pub delete_update_cross :
      (a b : Record V) (op_a op_b : Operation V)
      → a.deleted ≡ true
      → op_a.op_type ≡ delete
      → WrittenBy b op_b
      → op_b.op_type ≢ delete
      → causal b op_a ≡ concurrent
      → b.last_modified + cr.clock_skew_tolerance < op_a.timestamp
      → ((resolve cr (some a) op_b).winner ≡ remote) × ((resolve cr (some b) op_a).winner ≡ remote)
  delete_update_cross a b op_a op_b dead del wb keep c late = (
    tombstone-remote a op_b dead keep,
    resolve_concurrent b op_a wb.live c
        (lww_later cr.clock_skew_tolerance (record_stamp b) (operation_stamp op_a) late),
  )
