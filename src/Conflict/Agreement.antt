-- ===== src/Conflict/Agreement.antt =====
-- Two replicas that hold different writes and exchange them settle on the same write.
use dhava.Common.{
  ◌+◌, String, ◌≡◌, refl, sym, ap, ◌∙◌, ◌≢◌, Bool, false, some, arith, ltb, str_lt, str_lt-flip,
  if◌then◌else◌,
}
use dhava.Models.{Time, Operation, Record}
use dhava.VectorClock.{Comparison, before, after, equal, concurrent, from_clocks}
use dhava.VectorClock.Lattice.{flip, compare-flip}
use dhava.Conflict.{
  Winner, local, remote, ConflictResolver, choose, choose_lww, causal, resolve, resolve_absent,
  resolve_present,
}

pub record Stamp : Type 0 where
  pub time : Time
  pub node : String

abbrev pub opposite : Winner → Winner
opposite local = remote
opposite remote = local

-- the winner of the last branch, from the stamps of the two writes
unfoldable pub lww_winner : Time → Stamp → Stamp → Winner
lww_winner tolerance l r =
    if ltb (l.time + tolerance) r.time
    then remote
    else if ltb (r.time + tolerance) l.time
    then local
    else if str_lt l.node r.node
    then remote
    else local

lww_winner-opposite :
    (tolerance : Time) (a b : Stamp)
    → a.node ≢ b.node
    → lww_winner tolerance b a ≡ opposite (lww_winner tolerance a b)
unfolding lww_winner
lww_winner-opposite tolerance a b ne = ground (arith, str_lt-flip a.node b.node ne)

-- The winner of a live local record against an operation, from their clocks and stamps.
abbrev pub winner_by : Comparison → Time → Stamp → Stamp → Winner
winner_by after tolerance l r = local
winner_by before tolerance l r = remote
winner_by equal tolerance l r = local
winner_by concurrent tolerance l r = lww_winner tolerance l r

winner_by-flip :
    (c : Comparison) (tolerance : Time) (a b : Stamp)
    → c ≢ equal
    → a.node ≢ b.node
    → winner_by (flip c) tolerance b a ≡ opposite (winner_by c tolerance a b)
winner_by-flip before tolerance a b ne nodes = refl
winner_by-flip after tolerance a b ne nodes = refl
winner_by-flip equal tolerance a b ne nodes = absurd (ne refl)
winner_by-flip concurrent tolerance a b ne nodes = lww_winner-opposite tolerance a b nodes

module _ {V : Type 0} where
  abbrev pub record_stamp : Record V → Stamp
  record_stamp rec = record { time = rec.last_modified; node = rec.last_modified_by }

  abbrev pub operation_stamp : Operation V → Stamp
  operation_stamp op = record { time = op.timestamp; node = op.node_id }

  -- The record is what the operation left behind when it was applied at its own node.
  pub record WrittenBy (rec : Record V) (op : Operation V) : Type 0 where
    pub live : rec.deleted ≡ false
    pub clock : rec.vector_clock ≡ op.vector_clock
    pub stamp : record_stamp rec ≡ operation_stamp op

  choose_lww-winner :
      (tolerance : Time) (rec : Record V) (op : Operation V)
      → (choose_lww tolerance rec op).winner
        ≡ lww_winner tolerance (record_stamp rec) (operation_stamp op)
  unfolding choose_lww lww_winner
  choose_lww-winner tolerance rec op = ground arith

  choose-winner :
      (tolerance : Time) (c : Comparison) (rec : Record V) (op : Operation V)
      → (choose tolerance c rec op).winner
        ≡ winner_by c tolerance (record_stamp rec) (operation_stamp op)
  unfolding choose
  choose-winner tolerance concurrent rec op = choose_lww-winner tolerance rec op
  choose-winner tolerance _ rec op = refl

  pub resolve-winner :
      (cr : ConflictResolver) (rec : Record V) (op : Operation V)
      → rec.deleted ≡ false
      → (resolve cr (some rec) op).winner
        ≡ winner_by (causal rec op) cr.clock_skew_tolerance (record_stamp rec) (operation_stamp op)
  unfolding resolve
  resolve-winner cr rec op live =
      ap winner_of live ∙ choose-winner cr.clock_skew_tolerance (causal rec op) rec op
    where
      winner_of : Bool → Winner
      winner_of b =
          (if b
            then resolve_absent (some rec) op
            else resolve_present cr.clock_skew_tolerance rec op).winner

  causal-flip :
      (a b : Record V) {op_a op_b : Operation V}
      → WrittenBy a op_a
      → WrittenBy b op_b
      → causal b op_a ≡ flip (causal a op_b)
  causal-flip a b wa wb =
      rw (← wa.clock, ← wb.clock)
        (compare-flip (from_clocks a.vector_clock) (from_clocks b.vector_clock))

  pub replicas_agree :
      (cr cr' : ConflictResolver) (a b : Record V) (op_a op_b : Operation V)
      → cr.clock_skew_tolerance ≡ cr'.clock_skew_tolerance
      → WrittenBy a op_a
      → WrittenBy b op_b
      → a.last_modified_by ≢ b.last_modified_by
      → causal a op_b ≢ equal
      → (resolve cr' (some b) op_a).winner ≡ opposite (resolve cr (some a) op_b).winner
  replicas_agree cr cr' a b op_a op_b same wa wb nodes ne =
      resolve-winner cr' b op_a wb.live
      ∙ swapped
      ∙ ap opposite (sym (resolve-winner cr a op_b wa.live))
    where
      swapped :
          winner_by (causal b op_a) cr'.clock_skew_tolerance (record_stamp b) (operation_stamp op_a)
          ≡ opposite (
              winner_by
                (causal a op_b)
                cr.clock_skew_tolerance
                (record_stamp a)
                (operation_stamp op_b))
      swapped =
          rw (causal-flip a b wa wb, ← same, ← wa.stamp, ← wb.stamp)
            (winner_by-flip (causal a op_b) cr.clock_skew_tolerance (record_stamp a)
              (record_stamp b) ne nodes)
