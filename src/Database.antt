-- ===== src/Database.antt =====
-- What holds of the database of a node through its life: keys occur once, the trail only grows, and
-- the queue loses no operation.
pub mod Statements
pub mod Exchanges
pub mod Serving
pub mod Syncing
pub mod Registry
pub mod Removal
pub mod Life
use mathlib.Core.List.{append-nil, append_assoc}
use dhava.Common.{
  ℕ, String, ◌≡◌, refl, sym, ap, ◌∙◌, Bool, true, false, Option, none, some, List, [], ◌++◌,
  if◌then◌else◌, if_intro,
}
use dhava.Common.Distinct.{Keyed}
use dhava.Result.{Result, ok, raise}
use dhava.Exec.{Exec}
use dhava.Exec.Keeps.{Keeps, IsPreorder}
use dhava.Models.{Operation, Record, AuditEntry, pending}
use dhava.Backend.{Db, NodeRow, transaction, finish}
use dhava.Outbox.States.{lookup}

module _ {V : Type 0} where
  abbrev pub record_key : Record V → String × String
  record_key r = (r.collection, r.record_id)

  abbrev pub op_key : Operation V → String
  op_key op = op.op_id

  abbrev pub node_key : NodeRow V → String
  node_key row = row.node_id

abbrev pub audit_key : AuditEntry → String
audit_key e = e.audit_id

module _ {V : Type 0} where
  -- The primary key of each table.
  abbrev pub IsSound : Db V → Type 0
  IsSound db =
      Keyed record_key db.records
      × Keyed op_key db.outbox
      × Keyed audit_key db.audit_log
      × Keyed node_key db.sync_nodes

  -- an operation without the marks of its synchronisation
  abbrev pub essence : Operation V → Operation V
  essence op = record op {
    sync_state = pending;
    synced_at = none;
    sync_attempts = 0;
    last_error = none;
  }

  -- Every operation of the queue is still there, the same but for those marks.
  abbrev pub OpsKept : Db V → Db V → Type 0
  OpsKept db d =
      (id : String) (op : Operation V)
      → lookup id db ≡ some op
      → (op' : Operation V) × (lookup id d ≡ some op') × (essence op' ≡ essence op)

  -- Entries are added at the end of the trail, and none is changed.
  abbrev pub TrailGrows : Db V → Db V → Type 0
  TrailGrows db d = (more : List AuditEntry) × (d.audit_log ≡ db.audit_log ++ more)

  abbrev pub KeepsSound : Db V → Db V → Type 0
  KeepsSound db d = IsSound db → IsSound d

  abbrev pub Evolves : Db V → Db V → Type 0
  Evolves db d = OpsKept db d × TrailGrows db d × KeepsSound db d

  -- what the removal of synchronised operations leaves of it
  abbrev pub Ages : Db V → Db V → Type 0
  Ages db d = TrailGrows db d × KeepsSound db d

  TrailGrows-trans : (a b c : Db V) → TrailGrows a b → TrailGrows b c → TrailGrows a c
  TrailGrows-trans a b c (m, h) (n, k) =
      (m ++ n, k ∙ ap (λ l. l ++ n) h ∙ append_assoc a.audit_log m n)

  pub TrailGrows-refl : (db : Db V) → TrailGrows db db
  TrailGrows-refl db = ([], sym (append-nil db.audit_log))

  pub OpsKept-refl : (db : Db V) → OpsKept db db
  OpsKept-refl db id op found = (op, found, refl)

  pub Evolves-IsPreorder : IsPreorder Evolves
  Evolves-IsPreorder = record {
    same = λ a. (OpsKept-refl a, TrailGrows-refl a, λ s. s);
    trans = λ a b c f g. (
      λ id op found.
          let (x, at, same) = f.0 id op found in
          let (y, there, like) = g.0 id x at in (y, there, like ∙ same),
      TrailGrows-trans a b c f.1 g.1,
      λ s. g.2 (f.2 s),
    );
  }

  pub Ages-IsPreorder : IsPreorder Ages
  Ages-IsPreorder = record {
    same = λ a. (TrailGrows-refl a, λ s. s);
    trans = λ a b c f g. (TrailGrows-trans a b c f.0 g.0, λ s. g.1 (f.1 s));
  }

  module _ {A : Type 0} (body : Exec (Db V) A) where
    finish-Evolves :
        (before : Db V) (run : Result A × Db V)
        → Evolves before run.1
        → Evolves before (finish before run).1
    finish-Evolves before (ok a, after) h = h
    finish-Evolves before (raise e, after) h = Evolves-IsPreorder.same before

    -- A transaction keeps what its body keeps.
    pub transaction-Evolves : Keeps Evolves body → Keeps Evolves (transaction body)
    unfolding transaction
    transaction-Evolves k db =
        if_intro (λ (run : Result A × Db V). Evolves db run.1) db.in_transaction _ _
          (λ _. Evolves-IsPreorder.same db)
          (λ _.
            finish-Evolves db (body (record db { in_transaction = true }))
              (k (record db { in_transaction = true })))
