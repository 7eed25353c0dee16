-- ===== src/VectorClock/Lattice.antt =====
-- `increment` and `merge` as operations on the order of the counters.
use dhava.Common.{
  ℕ, ◌+◌, max, String, ◌≡◌, refl, List, [], ◌∷◌, arith, str_eq, str_eq_iff, ltb, if◌then◌else◌,
}
use dhava.Dict
use dhava.Dict.{Dict}
use dhava.VectorClock.{
  VectorClock, before, after, equal, concurrent, Comparison, count, from_clocks, increment, larger,
  all_nodes, merge, compare,
}
use dhava.VectorClock.Order.{Below, compare_iff, absent}

-- The constructor drops items, and no counter changes.
pub count-from_clocks :
    (node : String) (d : Dict ℕ) → count node (from_clocks d).clocks ≡ count node d
unfolding from_clocks
count-from_clocks node d = ground (arith, Dict.get-filter_values (λ c. ltb 0 c) node d)

-- `increment` adds one to the counter of its node and leaves every other counter alone.
pub count-increment :
    (vc : VectorClock) (n node : String)
    → count node (increment vc n).clocks
      ≡ (if str_eq n node then count node vc.clocks + 1 else count node vc.clocks)
unfolding increment
count-increment vc n node =
    let d = Dict.set n (count n vc.clocks + 1) vc.clocks in
    ground (
      arith,
      count-from_clocks node d,
      Dict.get-set node n (count n vc.clocks + 1) vc.clocks,
      str_eq_iff n node,
    )

get-larger :
    (a b : Dict ℕ) (ns : List String) (node : String)
    → count node (larger a b ns)
      ≡ (if Dict.elem node ns then max (count node a) (count node b) else 0)
unfolding Dict.get Dict.elem larger
get-larger a b [] node = refl
get-larger a b (n ∷ ns) node = ground (arith, str_eq_iff n node, get-larger a b ns node)

-- `merge` takes the larger of the two counters, for every node.
pub count-merge :
    (vc : VectorClock) (other : Dict ℕ) (node : String)
    → count node (merge vc other).clocks ≡ max (count node vc.clocks) (count node other)
unfolding merge
count-merge vc other node =
    let nodes = all_nodes vc.clocks other in
    ground (
      arith,
      count-from_clocks node (larger vc.clocks other nodes),
      get-larger vc.clocks other nodes node,
      absent vc.clocks other node,
    )

-- After an increment the clock is causally after what it was.
pub compare-increment : (vc : VectorClock) (n : String) → compare (increment vc n) vc.clocks ≡ after
compare-increment vc n = (compare_iff (increment vc n) vc.clocks after).1 (
  λ node. grind (arith, count-increment vc n node),
  (n, grind (arith, count-increment vc n n, str_eq_iff n n)),
)

-- `merge` is the least clock that has the history of both.
pub merge_least :
    (vc : VectorClock) (other : Dict ℕ)
    → Below vc.clocks (merge vc other).clocks
      × Below other (merge vc other).clocks
      × ((bound : Dict ℕ)
          → Below vc.clocks bound
          → Below other bound
          → Below (merge vc other).clocks bound)
merge_least vc other = (
  λ node. omega (arith, count-merge vc other node),
  λ node. omega (arith, count-merge vc other node),
  λ bound h k node. omega (arith, count-merge vc other node, h node, k node),
)

abbrev pub flip : Comparison → Comparison
flip before = after
flip after = before
flip equal = equal
flip concurrent = concurrent

-- Two replicas that compare the same two clocks from opposite sides reach mirrored verdicts.
pub compare-flip : (a b : VectorClock) → compare b a.clocks ≡ flip (compare a b.clocks)
compare-flip a b = go (compare a b.clocks) refl
  where
    go : (c : Comparison) → compare a b.clocks ≡ c → compare b a.clocks ≡ flip c
    go before e = let h = (compare_iff a b.clocks before).0 e in (compare_iff b a.clocks after).1 h
    go after e = let h = (compare_iff a b.clocks after).0 e in (compare_iff b a.clocks before).1 h
    go equal e =
        let h = (compare_iff a b.clocks equal).0 e in (compare_iff b a.clocks equal).1 (h.1, h.0)
    go concurrent e =
        let h = (compare_iff a b.clocks concurrent).0 e in
        (compare_iff b a.clocks concurrent).1 (h.1, h.0)

-- Happened-before is transitive.
pub compare_trans :
    (a b c : VectorClock)
    → compare a b.clocks ≡ before
    → compare b c.clocks ≡ before
    → compare a c.clocks ≡ before
compare_trans a b c p q =
    let h = (compare_iff a b.clocks before).0 p in
    let k = (compare_iff b c.clocks before).0 q in
    (compare_iff a c.clocks before).1
      (λ node. omega (arith, h.0 node, k.0 node), (h.1.0, omega (arith, h.1.1, k.0 (h.1.0))))
