-- ===== src/Tests/Clocks.antt =====
-- Vector clocks and priorities on concrete values.
use dhava.Common.{◌≡◌, ◌↔◌}
use dhava.VectorClock.{concurrent, compare, merge}
use dhava.VectorClock.Order.{Means, Below, compare_iff}
use dhava.VectorClock.Lattice.{merge_least}
use dhava.Tests.{clock_a, clock_b, vc}

compare_iff_example :
    (compare (vc clock_a) clock_b ≡ concurrent) ↔ Means (vc clock_a) clock_b concurrent
compare_iff_example = compare_iff (vc clock_a) clock_b concurrent

merge_least_example :
    Below clock_a (merge (vc clock_a) clock_b).clocks
    × Below clock_b (merge (vc clock_a) clock_b).clocks
    × ((bound : _)
        → Below clock_a bound
        → Below clock_b bound
        → Below (merge (vc clock_a) clock_b).clocks bound)
merge_least_example = merge_least (vc clock_a) clock_b
