-- ===== src/Audit/Trail.antt =====
-- The audit trail only grows, and its readers show what was logged.
use dhava.Common.{
  ℕ, ◌≤◌, String, ◌≡◌, refl, ap, ◌∙◌, sym, true, false, none, some, List, [], ◌∷◌, ◌++◌, arith,
  length, drop, select, All, All-take, All-drop, select-accepts, find, length-select-le,
  take_of_length-le, length-take, ◌⊎◌, Option-cases, inl, inr,
}
use dhava.Common.Sort.{
  IsOrder, IsSorted, sort, sort-IsSorted, All-sort, length-sort, take-IsSorted, drop-IsSorted,
}
use dhava.Result.{ok, raise}
use dhava.Models.{Time, AuditEntry, create_entry}
use dhava.Backend.{Db, transaction_idle, finish}
use dhava.Audit.{
  AuditLogger, NewEntry, Criteria, meets, latest_first, log, insert_entry, append_entry, query,
  count, has_audit_id,
}

module _ {V : Type 0} (l : AuditLogger) (uuid : String) (now : Time) (n : NewEntry)
    (db : Db V) where
  -- the entry that `log` makes
  abbrev pub entry : AuditEntry
  unfolding create_entry
  entry = create_entry uuid now n.action_type l.node_id n.details n.user_id n.authority n.timestamp

  pub log-eq :
      db.in_transaction ≡ false
      → log l uuid now n db
        ≡ finish db (
            append_entry
              (find (has_audit_id uuid) db.audit_log)
              entry
              (record db { in_transaction = true }))
  unfolding log insert_entry
  log-eq idle = transaction_idle (insert_entry entry) db idle

  -- Outside a transaction: with an identifier that the table does not hold, `log` returns the entry
  -- and appends it; with one that the table holds, it raises and changes nothing. Either way the
  -- entries that were there stay at the front of the trail, in order and unchanged, and no other
  -- table changes.
  pub log_appends :
      db.in_transaction ≡ false
      → ((find (has_audit_id uuid) db.audit_log ≡ none)
          × (log l uuid now n db ≡ (
            ok entry,
            record db { audit_log = db.audit_log ++ entry ∷ []; in_transaction = false },
          )))
        ⊎ ((old : AuditEntry) × (find (has_audit_id uuid) db.audit_log ≡ some old)
            × (log l uuid now n db ≡ (raise "UNIQUE constraint failed: audit_log.audit_id", db)))
  log_appends idle = elim (Option-cases (find (has_audit_id uuid) db.audit_log)) [
    | inl fresh ↦ inl (fresh, rw (log-eq idle, fresh) refl)
    | inr (old, there) ↦ inr (old, there, rw (log-eq idle, there) refl)
  ]

latest_first-IsOrder : IsOrder latest_first
latest_first-IsOrder = record { total = λ x y h. ground arith; trans = λ x y z h k. ground arith }

-- What a query of the trail promises of its answer.
pub record IsReport (c : Criteria) (limit : ℕ) (entries : List AuditEntry) : Type 0 where
  pub meeting : All (λ e. meets c e ≡ true) entries
  pub ordered : IsSorted latest_first entries
  pub bounded : length entries ≤ limit

module _ {V : Type 0} where
  -- Every entry of an answer meets all the criteria that were given, the entries come latest first,
  -- and there are at most `limit`.
  pub query-IsReport :
      (c : Criteria) (limit offset : ℕ) (db : Db V) → IsReport c limit (query c limit offset db)
  unfolding query
  query-IsReport c limit offset db = record {
    meeting = All-take P limit _ (
        All-drop P offset sorted
          (All-sort latest_first P rows (select-accepts (meets c) db.audit_log)));
    ordered = take-IsSorted latest_first limit _ (
        drop-IsSorted latest_first offset _ (sort-IsSorted latest_first latest_first-IsOrder rows));
    bounded = omega (arith, length-take {0} limit (drop offset sorted));
  }
    where
      rows : List AuditEntry
      rows = select (meets c) db.audit_log

      sorted : List AuditEntry
      sorted = sort latest_first rows

      P : AuditEntry → Type 0
      P e = meets c e ≡ true

  -- `count` is the number of entries that a query without a user returns, if its limit is large enough.
  pub count_lem :
      (c : Criteria) (limit : ℕ) (db : Db V)
      → length db.audit_log ≤ limit
      → count c db ≡ length (query (record c { user_id = none }) limit 0 db)
  unfolding count query
  count_lem c limit db h =
      let anyone : Criteria = record c { user_id = none } in
      let rows : List AuditEntry = select (meets anyone) db.audit_log in
      let sized = length-sort latest_first rows in
      sym sized
      ∙ ap length (
          sym (
            take_of_length-le limit (sort latest_first rows)
              (omega (arith, sized, length-select-le {0} (meets anyone) db.audit_log))))
