-- ===== src/Audit/Export.antt =====
-- audit.py: the export of the trail. JSON, the writer of CSV rows and the encoding of text are
-- libraries, and enter as parameters.
use mathlib.Core.List.{Perm}
use dhava.Common.{
  ℕ, ◌≤◌, String, ◌<>◌, ◌≡◌, refl, true, Option, none, some, List, [], ◌∷◌, map, str_eq,
  if◌then◌else◌, length, select, take_of_length-le, length-select-le, arith,
}
use dhava.Common.Sort.{IsSorted, sort, sort-perm, length-sort}
use dhava.Result.{Result, ok, raise, ◌>>=◌}
use dhava.Models.{Time, Detail, AuditEntry, text, number}
use dhava.Models.Wire.{AuditEntryDict, entry_to_dict, entry_from_dict}
use dhava.Models.RoundTrip.{entry_from_dict-to_dict}
use dhava.Dict.{Dict}
use dhava.Backend.{Bytes, Db}
use dhava.Audit.{Criteria, query, meets, latest_first}
use dhava.Audit.Trail.{query-IsReport}

-- `str.lower`, `json_dumps` of a list of entries and of details, the text that `csv.writer` writes
-- for a row, and UTF-8
pub record ExportLibrary : Type 0 where
  pub lower : String → String
  pub dump_entries : List AuditEntryDict → String
  pub dump_details : Dict Detail → String
  pub csv_row : List Detail → String
  pub utf8 : String → Bytes

-- `value or ""`
abbrev pub or_empty : Option String → Detail
or_empty none = text ""
or_empty (some s) = text s

abbrev pub csv_header : List Detail
csv_header =
    text "audit_id"
    ∷ text "timestamp"
    ∷ text "action_type"
    ∷ text "node_id"
    ∷ text "user_id"
    ∷ text "authority"
    ∷ text "details"
    ∷ []

-- the entries of a time range
abbrev pub between : Option Time → Option Time → Criteria
between start_time end_time = record {
  action_type = none;
  start_time = start_time;
  end_time = end_time;
  user_id = none;
}

module _ (lib : ExportLibrary) where
  abbrev pub csv_cells : AuditEntry → List Detail
  csv_cells e =
      text e.audit_id
      ∷ number e.timestamp
      ∷ text e.action_type
      ∷ text e.node_id
      ∷ or_empty e.user_id
      ∷ or_empty e.authority
      ∷ text (lib.dump_details e.details)
      ∷ []

  -- what the writer has written for these rows
  unfoldable pub write_rows : List (List Detail) → String
  write_rows [] = ""
  write_rows (row ∷ rows) = lib.csv_row row <> write_rows rows

  unfoldable pub export : {V : Type 0} → Option Time → Option Time → String → Db V → Result Bytes
  unfolding query write_rows entry_to_dict
  export start_time end_time format db =
      let entries = query (between start_time end_time) 1_000_000 0 db in
      if str_eq (lib.lower format) "json"
      then ok (lib.utf8 (lib.dump_entries (map entry_to_dict entries)))
      else if str_eq (lib.lower format) "csv"
      then ok (lib.utf8 (write_rows (csv_header ∷ map csv_cells entries)))
      else raise ("Unsupported export format: " <> format)

-- `AuditEntry.from_dict` of each
unfoldable pub read_entries : List AuditEntryDict → Result (List AuditEntry)
unfolding entry_from_dict
read_entries [] = ok []
read_entries (d ∷ ds) = entry_from_dict d >>= λ e. read_entries ds >>= λ es. ok (e ∷ es)

read_entries-to_dict : (es : List AuditEntry) → read_entries (map entry_to_dict es) ≡ ok es
unfolding read_entries
read_entries-to_dict [] = refl
read_entries-to_dict (e ∷ es) = rw (entry_from_dict-to_dict e, read_entries-to_dict es) refl

query-all :
    {V : Type 0} (c : Criteria) (limit : ℕ) (db : Db V)
    → length db.audit_log ≤ limit
    → Perm (query c limit 0 db) (select (meets c) db.audit_log)
unfolding query
query-all c limit db h =
    let rows : List AuditEntry = select (meets c) db.audit_log in
    rw
      (take_of_length-le limit (sort latest_first rows)
        (omega (arith, length-sort latest_first rows, length-select-le {0} (meets c) db.audit_log)))
      (sort-perm latest_first rows)

-- What reading an export back gives.
pub record IsExport {V : Type 0} (c : Criteria) (db : Db V) (entries : List AuditEntry)
    : Type 0 where
  pub complete : Perm entries (select (meets c) db.audit_log)
  pub ordered : IsSorted latest_first entries

-- Where the reader of JSON undoes the writer on the entries of the range, and the trail has at most
-- a million entries, an export as JSON is read back to exactly the entries of the range, each once
-- and in every field, the latest first.
pub export-read_entries :
    {V : Type 0} (lib : ExportLibrary) (loads : Bytes → Result (List AuditEntryDict))
    (start_time end_time : Option Time) (format : String) (db : Db V)
    → str_eq (lib.lower format) "json" ≡ true
    → length db.audit_log ≤ 1_000_000
    → (let ds = map entry_to_dict (query (between start_time end_time) 1_000_000 0 db) in
        loads (lib.utf8 (lib.dump_entries ds)) ≡ ok ds)
    → (entries : List AuditEntry) × (((export lib start_time end_time format db >>= loads)
          >>= read_entries)
        ≡ ok entries)
      × IsExport (between start_time end_time) db entries
unfolding export
export-read_entries lib loads start_time end_time format db json small law =
    let c = between start_time end_time in
    let entries = query c 1_000_000 0 db in
    rw (json, law)
      (
        entries,
        read_entries-to_dict entries,
        record {
          complete = query-all c 1_000_000 db small;
          ordered = (query-IsReport c 1_000_000 0 db).ordered;
        },
      )
