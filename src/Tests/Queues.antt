-- ===== src/Tests/Queues.antt =====
-- The queue on concrete operations.
use dhava.Common.{
  ℕ, String, ◌≡◌, ◌+◌, ◌-◌, refl, true, false, none, some, List, [], ◌∷◌, length, All,
  if◌then◌else◌, str_eq,
}
use dhava.Dict
use dhava.Result.{ok}
use dhava.Models.{Operation, p1}
use dhava.Outbox.{Selection, get_pending, mark_failed, reset_in_flight, purge_synced}
use dhava.Outbox.Order.{IsBatch, get_pending-IsBatch}
use dhava.Outbox.States.{lookup, as_failed}
use dhava.Outbox.Waiting.{as_waiting, mark_failed-reset_in_flight}
use dhava.Outbox.Retention.{IsRetained, purge_synced_lem}
use dhava.Tests.{sample, op_b}

abbrev urgent_only : Selection
urgent_only = record { priority = none; max_priority = some p1; collection = none }

get_pending-IsBatch_example :
    (rest : List (Operation ℕ)) × IsBatch 1 urgent_only sample
      (get_pending 1 urgent_only sample)
      rest
get_pending-IsBatch_example = get_pending-IsBatch 1 urgent_only sample

b1_there : lookup "b1" sample ≡ some op_b
unfolding dhava.Common.find
b1_there = refl

mark_failed-reset_in_flight_example :
    let after = (mark_failed ("b1" ∷ []) "no response" sample).1 in
    (lookup "b1" after ≡ some (as_failed "no response" op_b))
    × ((limit : ℕ) (s : Selection)
        → All
            (λ (o : Operation ℕ). Dict.elem o.op_id ("b1" ∷ []) ≡ false)
            (get_pending limit s after))
    × (lookup "b1" (reset_in_flight after).1 ≡ some (as_waiting "no response" op_b))
unfolding Dict.elem
mark_failed-reset_in_flight_example =
    mark_failed-reset_in_flight ("b1" ∷ []) "no response" sample "b1" op_b refl b1_there refl

purge_synced_lem_example :
    (removed : ℕ) × ((purge_synced 300 1_000 sample).0 ≡ ok removed)
    × (removed + length (purge_synced 300 1_000 sample).1.outbox ≡ length sample.outbox)
    × IsRetained (1_000 - 300) sample.outbox (purge_synced 300 1_000 sample).1.outbox
purge_synced_lem_example = purge_synced_lem 300 1_000 sample refl

b2_absent : lookup "b2" sample ≡ none
unfolding dhava.Common.find
b2_absent = refl
