-- ===== src/Store/Apply.antt =====
-- `apply_operation`: what it leaves under the key of the operation, and that it touches nothing else.
use dhava.Common.{
  String, ◌≡◌, ◌≢◌, ◌⊎◌, refl, sym, ap, ◌∙◌, Bool, true, false, Option, none, some, arith,
  str_eq_iff, if◌then◌else◌, find, upsert, upserted, find-upsert_self, find-upsert_ne, find-accepts,
}
use dhava.Dict
use dhava.Dict.{Dict}
use dhava.Result.{ok}
use dhava.Models.{Operation, OperationType, Record, create, update, merge, delete}
use dhava.Backend.{Db, finish, transaction_idle}
use dhava.Store.{
  has_key, get, hide_deleted, excluded, excluded_tombstone, next_version, base_data, write_row,
  dispatch, apply_operation, apply_create, apply_update, apply_merge, apply_delete,
}

abbrev pub is_delete : OperationType → Bool
is_delete delete = true
is_delete create = false
is_delete update = false
is_delete merge = false

module _ {V : Type 0} where
  -- The data of a record after an operation of the type.
  abbrev pub data_after : OperationType → Option (Record V) → Operation V → Dict V
  data_after create existing op = op.payload
  data_after update existing op = op.payload
  data_after merge existing op = Dict.update (base_data existing) op.payload
  data_after delete existing op = base_data existing

  -- The record that an operation of the type makes of what is under its key.
  abbrev pub record_of : OperationType → Option (Record V) → Operation V → Record V
  record_of t existing op = record {
    record_id = op.record_id;
    collection = op.collection;
    contents = data_after t existing op;
    version = next_version existing op;
    vector_clock = op.vector_clock;
    last_modified = op.timestamp;
    last_modified_by = op.node_id;
    deleted = is_delete t;
    deleted_at = if is_delete t then some op.timestamp else none;
  }

  abbrev pub record_after : Option (Record V) → Operation V → Record V
  record_after existing op = record_of op.op_type existing op

  -- the record under the key of the operation, tombstones included
  abbrev pub current : Operation V → Db V → Option (Record V)
  current op db = get op.collection op.record_id true db

  pub has_key-eq :
      (c i : String) (r : Record V) → has_key c i r ≡ true → (r.collection ≡ c) × (r.record_id ≡ i)
  unfolding has_key
  has_key-eq c i r h = ground (arith, str_eq_iff r.collection c, str_eq_iff r.record_id i)

  pub has_key_self :
      (c i : String) (r : Record V) → r.collection ≡ c → r.record_id ≡ i → has_key c i r ≡ true
  unfolding has_key
  has_key_self c i r p q = ground (arith, str_eq_iff r.collection c, str_eq_iff r.record_id i)

  pub get-find : (c i : String) (db : Db V) → get c i true db ≡ find (has_key c i) db.records
  unfolding get
  get-find c i db = go (find (has_key c i) db.records)
    where
      go : (o : Option (Record V)) → hide_deleted true o ≡ o
      go none = refl
      go (some r) = ground arith

  abbrev pub columns_of : OperationType → Record V → Record V → Record V
  columns_of create = excluded
  columns_of update = excluded
  columns_of merge = excluded
  columns_of delete = excluded_tombstone

  pub dispatch-record_of :
      (t : OperationType) (op : Operation V) (db : Db V)
      → let row = record_of t (current op db) op in
        dispatch t op db ≡ (ok row, write_row (columns_of t row) row db)
  unfolding dispatch apply_create apply_update apply_merge apply_delete
  dispatch-record_of create op db = refl
  dispatch-record_of update op db = refl
  dispatch-record_of merge op db = refl
  dispatch-record_of delete op db = refl

  columns-row :
      (t : OperationType) (op : Operation V) (old : Record V)
      → (old.collection ≡ op.collection) × (old.record_id ≡ op.record_id)
      → columns_of t (record_of t (some old) op) old ≡ record_of t (some old) op
  columns-row create op old (p, q) = ground arith
  columns-row update op old (p, q) = ground arith
  columns-row merge op old (p, q) = ground arith
  columns-row delete op old (p, q) = ground arith

  pub columns_key :
      (t : OperationType) (row old : Record V) (c i : String)
      → has_key c i old ≡ true
      → has_key c i (columns_of t row old) ≡ true
  unfolding has_key
  columns_key create row old c i h = h
  columns_key update row old c i h = h
  columns_key merge row old c i h = h
  columns_key delete row old c i h = h

  -- the database after the operation, outside a transaction
  unfoldable pub stored : Operation V → Db V → Db V
  stored op db =
      let row = record_after (current op db) op in
      record db {
        records =
            upsert (has_key op.collection op.record_id) (columns_of op.op_type row) row db.records;
        in_transaction = false;
      }

  -- Outside a transaction, applying an operation succeeds and returns the record that the type of
  -- the operation prescribes, whatever is under its key.
  pub apply_operation-stored :
      (op : Operation V) (db : Db V)
      → db.in_transaction ≡ false
      → apply_operation op db ≡ (ok (record_after (current op db) op), stored op db)
  unfolding apply_operation stored write_row get
  apply_operation-stored op db idle =
      transaction_idle (dispatch op.op_type op) db idle
      ∙ ap (finish db) (dispatch-record_of op.op_type op (record db { in_transaction = true }))

  upserted-row :
      (op : Operation V) (o : Option (Record V))
      → ((old : Record V) → o ≡ some old → has_key op.collection op.record_id old ≡ true)
      → upserted (columns_of op.op_type (record_after o op)) (record_after o op) o
        ≡ record_after o op
  upserted-row op none h = refl
  upserted-row op (some old) h =
      columns-row op.op_type op old (has_key-eq op.collection op.record_id old (h old refl))

  -- What is read back under the key is that record, in every field.
  pub current-stored :
      (op : Operation V) (db : Db V)
      → current op (stored op db) ≡ some (record_after (current op db) op)
  unfolding stored
  current-stored op db =
      get-find op.collection op.record_id (stored op db)
      ∙ find-upsert_self (has_key op.collection op.record_id) (columns_of op.op_type row) row
          db.records (has_key_self op.collection op.record_id row refl refl)
          (λ old. columns_key op.op_type row old op.collection op.record_id)
      ∙ ap some written
    where
      row : Record V
      row = record_after (current op db) op

      found : current op db ≡ find (has_key op.collection op.record_id) db.records
      found = get-find op.collection op.record_id db

      written :
          upserted
            (columns_of op.op_type row)
            row
            (find (has_key op.collection op.record_id) db.records)
          ≡ row
      written = rw (← found) (
          upserted-row op (current op db) (λ old e.
            find-accepts (has_key op.collection op.record_id) db.records old (sym found ∙ e)))

  pub has_key_ne :
      (c i c' i' : String) (r : Record V)
      → (c ≢ c') ⊎ (i ≢ i')
      → has_key c' i' r ≡ true
      → has_key c i r ≡ false
  unfolding has_key
  has_key_ne c i c' i' r ne h = ground (
    arith,
    str_eq_iff r.collection c,
    str_eq_iff r.record_id i,
    str_eq_iff r.collection c',
    str_eq_iff r.record_id i',
  )

  -- Under every other key the store reads as before.
  pub get-stored_ne :
      (op : Operation V) (db : Db V) (c i : String) (include_deleted : Bool)
      → (c ≢ op.collection) ⊎ (i ≢ op.record_id)
      → get c i include_deleted (stored op db) ≡ get c i include_deleted db
  unfolding stored get
  get-stored_ne op db c i include_deleted ne = ap (hide_deleted include_deleted) (
      find-upsert_ne (has_key op.collection op.record_id) (has_key c i) (columns_of op.op_type row)
        row db.records (other row (has_key_self op.collection op.record_id row refl refl)) other
        (λ r h.
          other (columns_of op.op_type row r)
            (columns_key op.op_type row r op.collection op.record_id h)))
    where
      row : Record V
      row = record_after (current op db) op

      other : (r : Record V) → has_key op.collection op.record_id r ≡ true → has_key c i r ≡ false
      other r h = has_key_ne c i op.collection op.record_id r ne h
