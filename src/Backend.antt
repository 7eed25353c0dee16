-- ===== src/Backend.antt =====
-- backends/sqlite.py: the tables, and transactions. A table is the list of its rows, and a column of
-- JSON text holds the value that the text encodes. Locks are not modelled: one call runs at a time.
pub mod Connection
use dhava.Common.{
  ℕ, String, ◌≡◌, refl, Bool, true, false, Option, List, [], if_intro, if◌then◌else◌,
}
use dhava.Dict.{Dict}
use dhava.Result.{Result, ok, raise}
use dhava.Exec.{Exec}
use dhava.Models.{Time, Operation, Record, AuditEntry}

-- `bytes`
abbrev pub Bytes : Type 0
Bytes = List ℕ

-- a row of `sync_nodes`
pub record NodeRow (V : Type 0) : Type 0 where
  pub node_id : String
  pub public_key : Option Bytes
  pub registered_at : Time
  pub last_sync_at : Option Time
  pub last_sync_status : String
  pub total_ops_synced : ℕ
  pub metadata : Dict V

pub record Db (V : Type 0) : Type 0 where
  pub records : List (Record V)
  pub outbox : List (Operation V)
  pub audit_log : List AuditEntry
  pub sync_nodes : List (NodeRow V)
  pub in_transaction : Bool

-- `initialize` on a new database
abbrev pub empty : (V : Type 0) → Db V
empty V = record {
  records = [];
  outbox = [];
  audit_log = [];
  sync_nodes = [];
  in_transaction = false;
}

module _ {V A : Type 0} where
  -- `COMMIT`, or `ROLLBACK` and raise again
  abbrev pub finish : Db V → Result A × Db V → Result A × Db V
  finish before (ok a, after) = (ok a, record after { in_transaction = false })
  finish before (raise e, after) = (raise e, before)

  -- `with backend.transaction():`. SQLite has no transaction within a transaction.
  unfoldable pub transaction : Exec (Db V) A → Exec (Db V) A
  transaction body db =
      let run = finish db (body (record db { in_transaction = true })) in
      if db.in_transaction
      then (raise "cannot start a transaction within a transaction", db)
      else run

  -- Outside a transaction the body runs, and its result decides between commit and rollback.
  pub transaction_idle :
      (body : Exec (Db V) A) (db : Db V)
      → db.in_transaction ≡ false
      → transaction body db ≡ finish db (body (record db { in_transaction = true }))
  unfolding transaction
  transaction_idle body db idle = go db.in_transaction idle
    where
      go :
          (b : Bool)
          → b ≡ false
          → (if b
              then (raise "cannot start a transaction within a transaction", db)
              else finish db (body (record db { in_transaction = true })))
            ≡ finish db (body (record db { in_transaction = true }))
      go false e = refl
      go true e = cc

  finish-raise :
      (db : Db V) (run : Result A × Db V) (e : String)
      → (finish db run).0 ≡ raise e
      → (finish db run).1 ≡ db
  finish-raise db (ok a, after) e h = cc
  finish-raise db (raise d, after) e h = refl

  -- A transaction that raises has changed nothing, whatever its body wrote before it raised.
  pub transaction_atomic :
      (body : Exec (Db V) A) (db : Db V) (e : String)
      → (transaction body db).0 ≡ raise e
      → (transaction body db).1 ≡ db
  unfolding transaction
  transaction_atomic body db e =
      let run = body (record db { in_transaction = true }) in
      if_intro (λ (o : Result A × Db V). o.0 ≡ raise e → o.1 ≡ db) db.in_transaction
        (raise "cannot start a transaction within a transaction", db) (finish db run) (λ _ _. refl)
        (λ _ h. finish-raise db run e h)
