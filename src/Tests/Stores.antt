-- ===== src/Tests/Stores.antt =====
-- The records of a node on concrete operations.
use dhava.Common.{ℕ, List, ◌≡◌, refl, true, false, [], ◌∷◌, String, select}
use dhava.Result.{ok, raise}
use dhava.Exec.{Exec}
use dhava.Models.{Record}
use dhava.Backend.{Db, transaction}
use dhava.Store.{get, query}
use dhava.Store.Apply.{stored}
use dhava.Store.Replay.{apply_operations, targets, replay, apply_operations-replay}
use dhava.Store.Reads.{IsAnswer, query-IsAnswer}
use dhava.Tests.{sample, op_b, delete_a, number_Eq}

query-IsAnswer_example :
    (all : List (Record ℕ)) × IsAnswer "track"
      (("lat", 10) ∷ [])
      5
      0
      false
      sample
      (query "track" (("lat", 10) ∷ []) 5 0 false sample)
      all
query-IsAnswer_example = query-IsAnswer "track" (("lat", 10) ∷ []) 5 0 false sample

-- a write that raises afterwards
abbrev write_and_raise : Exec (Db ℕ) ℕ
write_and_raise db = (raise "disk full", stored op_b db)

write_and_raise_raises : (transaction write_and_raise sample).0 ≡ raise "disk full"
unfolding transaction
write_and_raise_raises = refl

apply_operations-replay_example :
    let ops = op_b ∷ delete_a ∷ [] in
    ((apply_operations ops sample).0 ≡ ok tt)
    × ((c i : String)
        → get c i true (apply_operations ops sample).1
          ≡ replay (select (targets c i) ops) (get c i true sample))
apply_operations-replay_example = apply_operations-replay (op_b ∷ delete_a ∷ []) sample refl
