-- ===== src/Audit.antt =====
-- audit.py: the audit trail, over the `audit_log` table.
pub mod Trail
pub mod Fresh
pub mod Export
use dhava.Common.{
  ℕ, String, Bool, true, false, ◌&&◌, Option, none, some, List, [], ◌∷◌, ◌++◌, leb, str_eq, length,
  take, drop, select, find,
}
use dhava.Common.Sort.{sort}
use dhava.Dict.{Dict}
use dhava.Result.{Result, ok, raise}
use dhava.Exec.{Exec, ◌>>=◌, pure}
use dhava.Models.{Time, Detail, AuditEntry, create_entry}
use dhava.Backend.{Db, transaction}

-- `AuditLogger`, whose database is the state
pub record AuditLogger : Type 0 where
  pub node_id : String

-- What the caller of `log` passes.
pub record NewEntry : Type 0 where
  pub action_type : String
  pub details : Dict Detail
  pub user_id : Option String
  pub authority : Option String
  pub timestamp : Option Time

-- What the caller of `query` and `count` selects by; `count` takes no user.
pub record Criteria : Type 0 where
  pub action_type : Option String
  pub start_time : Option Time
  pub end_time : Option Time
  pub user_id : Option String

abbrev pub text_is : Option String → Option String → Bool
text_is none value = true
text_is (some t) value = elim value [ none ↦ false | some v ↦ str_eq v t ]

abbrev pub from_time : Option Time → Time → Bool
from_time none t = true
from_time (some start) t = leb start t

abbrev pub until_time : Option Time → Time → Bool
until_time none t = true
until_time (some end) t = leb t end

-- the conjunction of the conditions that were given
unfoldable pub meets : Criteria → AuditEntry → Bool
meets c e =
    text_is c.action_type (some e.action_type)
    && (text_is c.user_id e.user_id
        && (from_time c.start_time e.timestamp && until_time c.end_time e.timestamp))

-- `ORDER BY timestamp DESC`
abbrev pub latest_first : AuditEntry → AuditEntry → Bool
latest_first a b = leb b.timestamp a.timestamp

abbrev pub has_audit_id : String → AuditEntry → Bool
has_audit_id id e = str_eq e.audit_id id

module _ {V : Type 0} where
  abbrev pub append_entry : Option AuditEntry → AuditEntry → Exec (Db V) AuditEntry
  append_entry none e db = (ok e, record db { audit_log = db.audit_log ++ e ∷ [] })
  append_entry (some _) e db = (raise "UNIQUE constraint failed: audit_log.audit_id", db)

  -- `audit_id` is the primary key.
  unfoldable pub insert_entry : AuditEntry → Exec (Db V) AuditEntry
  insert_entry e db = append_entry (find (has_audit_id e.audit_id) db.audit_log) e db

  -- The fresh identifier and the reading of the clock are arguments.
  unfoldable pub log : AuditLogger → String → Time → NewEntry → Exec (Db V) AuditEntry
  unfolding create_entry insert_entry transaction find
  log logger uuid now n = transaction (
      insert_entry (
        create_entry uuid now n.action_type logger.node_id n.details n.user_id n.authority
          n.timestamp))

  unfoldable pub query : Criteria → ℕ → ℕ → Db V → List AuditEntry
  unfolding meets select sort
  query c limit offset db =
      take limit (drop offset (sort latest_first (select (meets c) db.audit_log)))

  unfoldable pub count : Criteria → Db V → ℕ
  unfolding meets select
  count c db = length (select (meets (record c { user_id = none })) db.audit_log)
