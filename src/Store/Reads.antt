-- ===== src/Store/Reads.antt =====
-- What the reading methods of the store show, and how they agree with one another.
use mathlib.Core.List.{Perm}
use mathlib.Core.Path.{subst}
use dhava.Common.{
  ℕ, ◌+◌, ◌-◌, ◌≤◌, min, String, ◌≡◌, ◌≢◌, ◌⊎◌, refl, sym, ap, ◌∙◌, Bool, true, false, ◌&&◌, Option,
  none, some, List, [], ◌++◌, arith, if◌then◌else◌, length, take, drop, select, All-intro, find, Eq,
  length-select-le, length-take, length-drop, select-All, select-and, take_of_length-le,
  take-append-drop,
}
use dhava.Common.Sort.{
  IsSorted, IsOrder, sort, sort-IsSorted, length-sort, select-IsSorted, select-sort-perm,
}
use dhava.Dict
use dhava.Dict.{Dict}
use dhava.Models.{Operation, Record, merge}
use dhava.Backend.{Db}
use dhava.Store.{
  has_key, get, hide_deleted, matches_filters, in_scope, apply_operation, newest_first, query,
  count, next_version,
}
use dhava.Store.Apply.{
  apply_operation-stored, get-stored_ne, record_after, current, stored, current-stored, is_delete,
  data_after,
}

module _ {V : Type 0} where
  pub get-visible :
      (c i : String) (db : Db V) → get c i false db ≡ hide_deleted false (get c i true db)
  unfolding get
  get-visible c i db = go (find (has_key c i) db.records)
    where
      go : (o : Option (Record V)) → hide_deleted false o ≡ hide_deleted false (hide_deleted true o)
      go none = refl
      go (some r) = ground arith

  read_stored :
      (op : Operation V) (db : Db V)
      → (get op.collection op.record_id false (stored op db)
          ≡ (if is_delete op.op_type then none else some (record_after (current op db) op)))
        × (get op.collection op.record_id true (stored op db)
            ≡ some (record_after (current op db) op))
  read_stored op db = (
    get-visible op.collection op.record_id (stored op db)
        ∙ ap (hide_deleted false) (current-stored op db)
        ∙ go (is_delete op.op_type) (record_after (current op db) op) refl,
    current-stored op db,
  )
    where
      go :
          (b : Bool) (r : Record V)
          → r.deleted ≡ b
          → hide_deleted false (some r) ≡ (if b then none else some r)
      go b r h = ground arith

  -- After an operation, applied outside a transaction, an ordinary read of its key shows nothing if
  -- the operation was a deletion, else the record with the operation's data, clock, time and author.
  -- A read that includes tombstones shows the record in both cases, and a deletion keeps the data in
  -- it.
  pub read_after :
      (op : Operation V) (db : Db V)
      → db.in_transaction ≡ false
      → (get op.collection op.record_id false (apply_operation op db).1
          ≡ (if is_delete op.op_type then none else some (record_after (current op db) op)))
        × (get op.collection op.record_id true (apply_operation op db).1
            ≡ some (record_after (current op db) op))
  read_after op db idle = rw (apply_operation-stored op db idle) (read_stored op db)

  -- An operation applied outside a transaction changes nothing that is read under another key.
  pub get-apply_operation_ne :
      (op : Operation V) (db : Db V) (c i : String) (include_deleted : Bool)
      → db.in_transaction ≡ false
      → (c ≢ op.collection) ⊎ (i ≢ op.record_id)
      → get c i include_deleted (apply_operation op db).1 ≡ get c i include_deleted db
  get-apply_operation_ne op db c i include_deleted idle ne =
      rw (apply_operation-stored op db idle) (get-stored_ne op db c i include_deleted ne)

  -- A merge into an existing record replaces the fields that it names, keeps every other field of
  -- the record and counts the version up.
  pub get_after_merge :
      (op : Operation V) (db : Db V) (old : Record V) (field : String)
      → db.in_transaction ≡ false
      → op.op_type ≡ merge
      → current op db ≡ some old
      → (new : Record V) × (current op (apply_operation op db).1 ≡ some new)
        × (Dict.get field new.contents
            ≡ Dict.or_else (Dict.get field op.payload) (Dict.get field old.contents))
        × (new.version ≡ old.version + 1)
  get_after_merge op db old field idle is_merge found = (
    record_after (current op db) op,
    rw (apply_operation-stored op db idle) (current-stored op db),
    ap (λ t. Dict.get field (data_after t (current op db) op)) is_merge
        ∙ ap (λ o. Dict.get field (data_after merge o op)) found
        ∙ Dict.get-update field old.contents op.payload,
    ap (λ o. next_version o op) found,
  )

  newest_first-IsOrder : IsOrder (newest_first {V = V})
  newest_first-IsOrder = record { total = λ x y h. ground arith; trans = λ x y z h k. ground arith }

  -- A row of the collection that satisfies the filters, and is no tombstone unless those are asked for.
  abbrev pub is_wanted : ⦃e : Eq V⦄ → String → Dict V → Bool → Record V → Bool
  is_wanted collection filters include_deleted r =
      in_scope collection include_deleted r && matches_filters r.contents filters

  -- What a query promises of its answer, where `all` are the rows that it could have given.
  pub record IsAnswer ⦃e : Eq V⦄ (collection : String) (filters : Dict V) (limit offset : ℕ)
      (include_deleted : Bool) (db : Db V) (rows all : List (Record V)) : Type 0 where
    pub complete : Perm all (select (is_wanted collection filters include_deleted) db.records)
    pub ordered : IsSorted newest_first all
    pub page :
        (before : List (Record V)) × (after : List (Record V)) × (all ≡ before ++ (rows ++ after))
        × (length before ≡ min offset (length all))
        × (length rows ≡ min limit (length all - offset))

  -- Of the rows of the table that belong to the collection, satisfy the filters and are no tombstones
  -- unless those are asked for, an answer is one page when they stand the youngest first: it leaves
  -- out as many of them in front as the offset says, or all if there are no more, and has as many of
  -- those that follow as the limit allows.
  pub query-IsAnswer :
      ⦃e : Eq V⦄ (collection : String) (filters : Dict V) (limit offset : ℕ)
      (include_deleted : Bool) (db : Db V)
      → (all : List (Record V)) × IsAnswer collection filters limit offset include_deleted db
          (query collection filters limit offset include_deleted db)
          all
  unfolding query
  query-IsAnswer collection filters limit offset include_deleted db = (
    all,
    record {
      complete =
          subst (Perm all) (select-and scoped matches db.records)
            (select-sort-perm newest_first matches rows);
      ordered =
          select-IsSorted newest_first matches _
            (sort-IsSorted newest_first newest_first-IsOrder rows);
      page = (
        take offset all,
        drop limit (drop offset all),
        sym (
            ap (λ l. take offset all ++ l) (take-append-drop limit (drop offset all))
            ∙ take-append-drop offset all),
        ground (arith, length-take {0} offset all),
        ground (arith, length-take {0} limit (drop offset all), length-drop {0} offset all),
      );
    },
  )
    where
      scoped : Record V → Bool
      scoped = in_scope collection include_deleted

      matches : Record V → Bool
      matches r = matches_filters r.contents filters

      rows : List (Record V)
      rows = select scoped db.records

      all : List (Record V)
      all = select matches (sort newest_first rows)

  -- Without filters `count` is the length of a query whose limit is large enough.
  pub count-length-query :
      ⦃e : Eq V⦄ (collection : String) (include_deleted : Bool) (limit : ℕ) (db : Db V)
      → length db.records ≤ limit
      → count collection [] include_deleted db
        ≡ length (query collection [] limit 0 include_deleted db)
  unfolding count query
  count-length-query collection include_deleted limit db h = sym (
      ap length (ap (take limit) unfiltered ∙ take_of_length-le limit sorted short)
      ∙ length-sort newest_first rows)
    where
      rows : List (Record V)
      rows = select (in_scope collection include_deleted) db.records

      sorted : List (Record V)
      sorted = sort newest_first rows

      unfiltered : select (λ r. matches_filters r.contents []) sorted ≡ sorted
      unfiltered = select-All _ sorted (All-intro _ (λ r. refl) sorted)

      short : length sorted ≤ limit
      short = omega (
        arith,
        length-sort newest_first rows,
        length-select-le {0} (in_scope collection include_deleted) db.records,
      )
