-- ===== src/Engine/Queries.antt =====
-- engine.py: the reads of an application go to the local store, with its defaults.
use dhava.Common.{ℕ, String, false, Option, List, Eq}
use dhava.Dict.{Dict}
use dhava.Models.{Record}
use dhava.Store
use dhava.Engine.{Engine}

module _ {V : Type 0} where
  unfoldable pub get : String → String → Engine V → Option (Record V)
  unfolding Store.get
  get collection record_id e = Store.get collection record_id false e.db

  module _ ⦃eq : Eq V⦄ where
    unfoldable pub query : String → Dict V → ℕ → ℕ → Engine V → List (Record V)
    unfolding Store.query
    query collection filters limit offset e = Store.query collection filters limit offset false e.db

    unfoldable pub count : String → Dict V → Engine V → ℕ
    unfolding Store.count
    count collection filters e = Store.count collection filters false e.db
