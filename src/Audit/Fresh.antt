-- ===== src/Audit/Fresh.antt =====
-- audit.py: identifiers that the trail does not hold yet. With one of them `log` returns.
use dhava.Common.{String, ◌≡◌, ◌≢◌, refl, false, none, List, [], ◌∷◌, ◌++◌, arith, find, str_eq_iff}
use dhava.Exec.{◌>>◌, pure}
use dhava.Exec.Succeeds.{Returns}
use dhava.Models.{Time, AuditEntry, create_entry}
use dhava.Backend.{Db}
use dhava.Audit.{AuditLogger, NewEntry, log, has_audit_id}
use dhava.Audit.Trail.{entry, log-eq}

find-append_ne :
    (id : String) (es : List AuditEntry) (e : AuditEntry)
    → id ≢ e.audit_id
    → find (has_audit_id id) es ≡ none
    → find (has_audit_id id) (es ++ e ∷ []) ≡ none
unfolding find
find-append_ne id [] e ne h = ground (arith, str_eq_iff e.audit_id id, ne)
find-append_ne id (x ∷ es) e ne h =
    ground (arith, str_eq_iff x.audit_id id, h, find-append_ne id es e ne)

module _ {V : Type 0} where
  -- No transaction is open, and the trail holds none of these identifiers.
  pub record Ready (Unused : String → Type 0) (db : Db V) : Type 0 where
    pub idle : db.in_transaction ≡ false
    pub unused : (id : String) → Unused id → find (has_audit_id id) db.audit_log ≡ none

  -- what an entry leaves
  pub record IsLogged (Left : String → Type 0) (db d : Db V) : Type 0 where
    pub ready : Ready Left d
    pub records : d.records ≡ db.records
    pub outbox : d.outbox ≡ db.outbox
    pub nodes : d.sync_nodes ≡ db.sync_nodes

  pub log-IsLogged :
      (Unused Left : String → Type 0) (l : AuditLogger) (uuid : String) (now : Time) (n : NewEntry)
      (db : Db V)
      → Ready Unused db
      → Unused uuid
      → ((id : String) → Left id → Unused id × (id ≢ uuid))
      → Returns ((log l uuid now n >> pure tt) db) (λ _ d. IsLogged Left db d)
  unfolding create_entry
  log-IsLogged Unused Left l uuid now n db r u less =
      rw (log-eq l uuid now n db r.idle, r.unused uuid u)
        (
          tt,
          refl,
          record {
            ready = record {
              idle = refl;
              unused = λ id left.
                  find-append_ne id db.audit_log (entry l uuid now n db) (less id left).1
                    (r.unused id (less id left).0);
            };
            records = refl;
            outbox = refl;
            nodes = refl;
          },
        )
