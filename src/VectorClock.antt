-- ===== src/VectorClock.antt =====
-- vector_clock.py: vector clocks and their comparison. Counters are natural numbers.
pub mod Order
pub mod Lattice
use dhava.Common.{
  ℕ, ◌+◌, max, String, Bool, true, false, Option, none, some, List, [], ◌∷◌, ltb, if◌then◌else◌,
}
use dhava.Dict
use dhava.Dict.{Dict}

-- `ComparisonResult`
pub data Comparison : Type 0 where
  before after equal concurrent : Comparison

pub record VectorClock : Type 0 where
  pub clocks : Dict ℕ

-- `d.get(node, 0)`
abbrev pub count : String → Dict ℕ → ℕ
count node d = elim (Dict.get node d) [ none ↦ 0 | some c ↦ c ]

-- The constructor: `__post_init__` drops the counters that are not positive.
unfoldable pub from_clocks : Dict ℕ → VectorClock
from_clocks d = record { clocks = Dict.filter_values (λ c. ltb 0 c) d }

unfoldable pub increment : VectorClock → String → VectorClock
unfolding from_clocks
increment vc node_id = from_clocks (Dict.set node_id (count node_id vc.clocks + 1) vc.clocks)

abbrev pub all_nodes : Dict ℕ → Dict ℕ → List String
all_nodes a b = Dict.union (Dict.keys a) (Dict.keys b)

-- the dict comprehension of `merge`
pub larger : Dict ℕ → Dict ℕ → List String → Dict ℕ
larger a b [] = []
larger a b (node ∷ rest) = (node, max (count node a) (count node b)) ∷ larger a b rest

unfoldable pub merge : VectorClock → Dict ℕ → VectorClock
unfolding from_clocks larger
merge vc other = from_clocks (larger vc.clocks other (all_nodes vc.clocks other))

-- The loop of `compare`, over its two flags.
pub scan : Dict ℕ → Dict ℕ → List String → Bool → Bool → Bool × Bool
scan a b [] self_leq other_leq = (self_leq, other_leq)
scan a b (node ∷ rest) self_leq other_leq =
    let c1 = count node a in
    let c2 = count node b in
    scan a b rest (if ltb c2 c1 then false else self_leq) (if ltb c1 c2 then false else other_leq)

abbrev pub verdict : Bool × Bool → Comparison
verdict (true, true) = equal
verdict (true, false) = before
verdict (false, true) = after
verdict (false, false) = concurrent

-- `if not all_nodes: return "equal"`, and the loop otherwise
abbrev pub judge : Dict ℕ → Dict ℕ → List String → Comparison
judge a b [] = equal
judge a b (node ∷ rest) = verdict (scan a b (node ∷ rest) true true)

unfoldable pub compare : VectorClock → Dict ℕ → Comparison
unfolding scan
compare vc other = judge vc.clocks other (all_nodes vc.clocks other)

unfoldable pub dominates : VectorClock → Dict ℕ → Bool
dominates vc other = elim (compare vc other) [ after ↦ true | equal ↦ true | _ ↦ false ]

-- `VectorClock.get` with its default of 0
unfoldable pub counter : VectorClock → String → ℕ
counter vc node = count node vc.clocks

unfoldable pub to_dict : VectorClock → Dict ℕ
to_dict vc = vc.clocks

-- `None` and the empty dict both give the empty clock.
unfoldable pub from_dict : Option (Dict ℕ) → VectorClock
unfolding from_clocks
from_dict none = from_clocks []
from_dict (some d) = from_clocks d
