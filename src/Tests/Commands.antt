-- ===== src/Tests/Commands.antt =====
-- A write on the command line, with simple stand-ins for the libraries.
use dhava.Common.{ℕ, String, ◌≡◌, refl, Option, none, some, List, [], ◌∷◌}
use dhava.Dict.{Dict}
use dhava.Result.{ok}
use dhava.Exec.{gets}
use dhava.Models.{Record, p1}
use dhava.Node.{on_engine}
use dhava.Engine.{Readings}
use dhava.Engine.Queries
use dhava.Cli.Machine.{Machine, Options, with_engine}
use dhava.Cli.Commands.{Texts, WriteArguments, write}
use dhava.Cli.Writes.{IsInitialized}
use dhava.Cli.Survival.{write_survives}
use dhava.Tests.{sample}
use dhava.Tests.Keys.{draw}

-- thirty-one bytes after the first
abbrev rest : List ℕ
rest =
    2 ∷ 3 ∷ 4 ∷ 5 ∷ 6 ∷ 7 ∷ 8 ∷ 9 ∷ 10 ∷ 11 ∷ 12 ∷ 13 ∷ 14 ∷ 15 ∷ 16 ∷ 17 ∷ 18 ∷ 19 ∷ 20 ∷ 21 ∷ 22
    ∷ 23 ∷ 24 ∷ 25 ∷ 26 ∷ 27 ∷ 28 ∷ 29 ∷ 30 ∷ 31 ∷ 32 ∷ []

abbrev options : Options
options = record { node_id = "alpha"; db_path = "/home/a/store.db"; key_path = "/home/a/key.bin" }

abbrev machine : Machine ℕ (Unit {0})
machine = record {
  home = "/home/a";
  key_files = ("/home/a/key.bin", 1 ∷ rest) ∷ [];
  databases = ("/home/a/store.db", some sample) ∷ [];
  screen = [];
  world = tt;
}

abbrev texts : Texts ℕ
texts = record { json_loads = λ s. ok (("lat", 40) ∷ []); upper = λ s. "P1" }

abbrev readings : Readings
readings = record { op_uuid = "n1"; audit_uuid = "x1"; now = 600; enqueued = 601; logged = 602 }

abbrev arguments : WriteArguments
arguments = record {
  collection = "track";
  record_id = "t9";
  data_json = "{\"lat\": 40}";
  priority = "p1";
}

initialised : IsInitialized draw 590 options machine 1 rest
unfolding dhava.Dict.get
initialised = record { key = refl; full = refl; disk = refl; idle = refl }

write_survives_example :
    ((write texts draw 590 readings options arguments machine).0 ≡ ok tt)
    × ((row : Record ℕ) × (row.contents ≡ ("lat", 40) ∷ [])
        × ((with_engine draw 700 options [] none []
              (on_engine (gets (Queries.get "track" "t9")))
              (write texts draw 590 readings options arguments machine).1).0
            ≡ ok (some row)))
unfolding dhava.Dict.get dhava.Models.priority_of dhava.Common.find
write_survives_example =
    write_survives draw 590 options machine texts readings arguments 1 rest (("lat", 40) ∷ []) p1
      draw 700 [] none [] initialised refl refl refl refl
