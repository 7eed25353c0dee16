-- ===== src/Tests/Resolutions.antt =====
-- The resolution of conflicts on concrete writes.
use dhava.Common.{ℕ, ◌≡◌, ◌≢◌, refl, true, none, [], ◌∷◌, ◌↔◌, str_eq_iff, str_eq}
use dhava.Models.{Operation, update, p2, pending}
use dhava.VectorClock.{concurrent, equal, compare}
use dhava.Conflict.{causal}
use dhava.Tests.{operation, op_b, delete_a, record_a, record_b}

a_b : causal record_a op_b ≡ concurrent
unfolding compare dhava.Dict.union dhava.Dict.keys dhava.VectorClock.from_clocks
    dhava.Dict.filter_values dhava.Common.select dhava.Dict.elem dhava.Dict.get
a_b = refl

pub b_delete : causal record_b delete_a ≡ concurrent
unfolding compare dhava.Dict.union dhava.Dict.keys dhava.VectorClock.from_clocks
    dhava.Dict.filter_values dhava.Common.select dhava.Dict.elem dhava.Dict.get
b_delete = refl

pub a_b_ne : causal record_a op_b ≢ equal
a_b_ne e = cc (a_b, e)

-- three nodes whose clocks run 600 apart, with a tolerance of 1 000
abbrev first : Operation ℕ
first = operation "c1" "charlie" update (("lat", 1) ∷ []) 100 (("charlie", 1) ∷ []) p2 pending none

abbrev second : Operation ℕ
second = operation "b1" "bravo" update (("lat", 2) ∷ []) 700 (("bravo", 1) ∷ []) p2 pending none

abbrev third : Operation ℕ
third = operation "a1" "alpha" update (("lat", 3) ∷ []) 1_300 (("alpha", 1) ∷ []) p2 pending none
