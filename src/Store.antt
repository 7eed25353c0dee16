-- ===== src/Store.antt =====
-- store.py: the records of a node. Every method takes the database that the backend holds.
pub mod Apply
pub mod Reads
pub mod Replay
use dhava.Common.{
  ℕ, ◌+◌, max, String, Bool, true, false, not, ◌&&◌, ◌||◌, Option, none, some, List, [], ◌∷◌, ◌++◌,
  map, leb, ltb, str_eq, str_lt, if◌then◌else◌, length, take, drop, select, find, upsert, Eq,
}
use dhava.Common.Sort.{sort}
use dhava.Dict
use dhava.Dict.{Dict}
use dhava.Result.{Result, ok}
use dhava.Exec.{Exec}
use dhava.Models.{Time, Operation, OperationType, Record, create, update, merge, delete}
use dhava.VectorClock.{VectorClock, from_clocks}
use dhava.Backend.{Db, transaction}

-- `SELECT DISTINCT`
pub distinct : List String → List String
distinct [] = []
distinct (x ∷ xs) = let rest = distinct xs in if Dict.elem x rest then rest else x ∷ rest

module _ {V : Type 0} where
  -- `WHERE collection = ? AND record_id = ?`
  unfoldable pub has_key : String → String → Record V → Bool
  has_key collection record_id r = str_eq r.collection collection && str_eq r.record_id record_id

  abbrev pub hide_deleted : Bool → Option (Record V) → Option (Record V)
  hide_deleted include_deleted none = none
  hide_deleted include_deleted (some r) = if r.deleted && not include_deleted then none else some r

  unfoldable pub get : String → String → Bool → Db V → Option (Record V)
  unfolding has_key
  get collection record_id include_deleted db =
      hide_deleted include_deleted (find (has_key collection record_id) db.records)

  -- the columns that every write but a deletion sets
  abbrev pub excluded : Record V → Record V → Record V
  excluded row old = record old {
    contents = row.contents;
    version = row.version;
    vector_clock = row.vector_clock;
    last_modified = row.last_modified;
    last_modified_by = row.last_modified_by;
    deleted = false;
    deleted_at = none;
  }

  -- the columns that a deletion sets: the data stays
  abbrev pub excluded_tombstone : Record V → Record V → Record V
  excluded_tombstone row old = record old {
    version = row.version;
    vector_clock = row.vector_clock;
    last_modified = row.last_modified;
    last_modified_by = row.last_modified_by;
    deleted = true;
    deleted_at = row.deleted_at;
  }

  -- `(existing.version + 1) if existing else max(1, op.lamport_timestamp)`
  abbrev pub next_version : Option (Record V) → Operation V → ℕ
  next_version none op = max 1 op.lamport_timestamp
  next_version (some r) op = r.version + 1

  abbrev pub live_record : Operation V → Dict V → ℕ → Record V
  live_record op contents version = record {
    record_id = op.record_id;
    collection = op.collection;
    contents = contents;
    version = version;
    vector_clock = op.vector_clock;
    last_modified = op.timestamp;
    last_modified_by = op.node_id;
    deleted = false;
    deleted_at = none;
  }

  -- `INSERT ... ON CONFLICT(collection, record_id) DO UPDATE SET`
  unfoldable pub write_row : (Record V → Record V) → Record V → Db V → Db V
  unfolding has_key
  write_row columns row db = record db {
    records = upsert (has_key row.collection row.record_id) columns row db.records;
  }

  unfoldable pub apply_create : Operation V → Exec (Db V) (Record V)
  unfolding get write_row
  apply_create op db =
      let existing = get op.collection op.record_id true db in
      let row = live_record op op.payload (next_version existing op) in
      (ok row, write_row (excluded row) row db)

  unfoldable pub apply_update : Operation V → Exec (Db V) (Record V)
  unfolding get write_row
  apply_update op db =
      let existing = get op.collection op.record_id true db in
      let row = live_record op op.payload (next_version existing op) in
      (ok row, write_row (excluded row) row db)

  abbrev pub base_data : Option (Record V) → Dict V
  base_data none = []
  base_data (some r) = r.contents

  unfoldable pub apply_merge : Operation V → Exec (Db V) (Record V)
  unfolding get write_row Dict.update
  apply_merge op db =
      let existing = get op.collection op.record_id true db in
      let merged = Dict.update (base_data existing) op.payload in
      let row = live_record op merged (next_version existing op) in
      (ok row, write_row (excluded row) row db)

  unfoldable pub apply_delete : Operation V → Exec (Db V) (Record V)
  unfolding get write_row
  apply_delete op db =
      let existing = get op.collection op.record_id true db in
      let live = live_record op (base_data existing) (next_version existing op) in
      let row = record live { deleted = true; deleted_at = some op.timestamp } in
      (ok row, write_row (excluded_tombstone row) row db)

  pub dispatch : OperationType → Operation V → Exec (Db V) (Record V)
  dispatch create = apply_create
  dispatch update = apply_update
  dispatch merge = apply_merge
  dispatch delete = apply_delete

  unfoldable pub apply_operation : Operation V → Exec (Db V) (Record V)
  unfolding apply_create apply_update apply_merge apply_delete dispatch transaction
  apply_operation op = transaction (dispatch op.op_type op)

  unfoldable pub get_vector_clock : String → String → Db V → VectorClock
  unfolding get from_clocks
  get_vector_clock collection record_id db = elim (get collection record_id true db) [
    | none ↦ from_clocks []
    | some r ↦ from_clocks r.vector_clock
  ]

  -- `_matches_filters`
  unfoldable pub matches_filters : ⦃e : Eq V⦄ → Dict V → Dict V → Bool
  unfolding Dict.get
  matches_filters contents [] = true
  matches_filters ⦃e⦄ contents ((key, expected) ∷ filters) = elim (Dict.get key contents) [
    | none ↦ false
    | some v ↦ e.beq v expected && matches_filters contents filters
  ]

  -- `ORDER BY last_modified DESC`
  abbrev pub newest_first : Record V → Record V → Bool
  newest_first r s = leb s.last_modified r.last_modified

  abbrev pub in_scope : String → Bool → Record V → Bool
  in_scope collection include_deleted r =
      str_eq r.collection collection && (include_deleted || not r.deleted)

  -- The filters are applied in memory, and an empty dict of filters is no filter.
  unfoldable pub query : ⦃e : Eq V⦄ → String → Dict V → ℕ → ℕ → Bool → Db V → List (Record V)
  unfolding sort select matches_filters
  query collection filters limit offset include_deleted db =
      let rows = sort newest_first (select (in_scope collection include_deleted) db.records) in
      take limit (drop offset (select (λ r. matches_filters r.contents filters) rows))

  unfoldable pub count : ⦃e : Eq V⦄ → String → Dict V → Bool → Db V → ℕ
  unfolding query select
  count collection [] include_deleted db =
      length (select (in_scope collection include_deleted) db.records)
  count collection (filter ∷ filters) include_deleted db =
      length (query collection (filter ∷ filters) 1_000_000 0 include_deleted db)

  pub collections_of : List (Record V) → List String
  collections_of [] = []
  collections_of (r ∷ rs) = r.collection ∷ collections_of rs

  unfoldable pub get_all_collections : Db V → List String
  unfolding sort select distinct collections_of Dict.elem
  get_all_collections db =
      sort (λ s t. not (str_lt t s))
        (distinct (collections_of (select (λ r. not r.deleted) db.records)))
