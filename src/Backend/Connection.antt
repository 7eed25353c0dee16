-- ===== src/Backend/Connection.antt =====
-- backends/sqlite.py and backends/inmemory.py: the connection to a database. The files are those of
-- the file system; a database in memory lives as long as its connection. What a connection does with
-- an open transaction, and once it is closed, is what sqlite3 documents. Pragmas and the creation of
-- a missing directory are left out, and one call runs at a time.
pub mod Life
use dhava.Common.{
  String, Bool, true, false, Option, none, some, List, [], ◌∷◌, str_eq, if◌then◌else◌,
}
use dhava.Dict
use dhava.Dict.{Dict}
use dhava.Result.{Result, ok, raise}
use dhava.Exec.{Exec, ◌>>=◌, ◌>>◌, pure}
use dhava.Backend.{Db, empty}

-- What a file or a memory holds: `none` before the tables are created.
abbrev pub Content : Type 0 → Type 0
Content V = Option (Db V)

-- Where a connection leads: to tables of its own in memory, or to the file of the backend.
pub data Storage (V : Type 0) : Type 0 where
  in_memory : Content V → Storage V
  in_file : Storage V

-- `sqlite3.Connection`. While a transaction is open on it, `before` holds the tables as they were when
-- the transaction began; a connection that was closed takes no more statements.
pub record Connection (V : Type 0) : Type 0 where
  pub storage : Storage V
  pub before : Option (Db V)
  pub is_open : Bool

-- `SQLiteBackend`, with the files that its connection reaches
pub record SqliteBackend (V : Type 0) : Type 0 where
  pub db_path : String
  pub conn : Option (Connection V)
  pub files : Dict (Content V)

-- `self.db_path == ":memory:"`
abbrev pub is_memory : String → Bool
is_memory path = str_eq path ":memory:"

module _ {V : Type 0} where
  -- what a file that is not there holds
  abbrev pub or_blank : Option (Content V) → Content V
  or_blank none = none
  or_blank (some c) = c

  -- `sqlite3.connect`
  abbrev pub connect : String → Connection V
  connect path = record {
    storage = if is_memory path then in_memory none else in_file;
    before = none;
    is_open = true;
  }

  abbrev pub opened : Option (Connection V) → String → Connection V
  opened none path = connect path
  opened (some c) path = c

  -- `_conn` is kept until `close` resets it; then the next call connects again.
  unfoldable pub get_connection : Exec (SqliteBackend V) (Connection V)
  get_connection s = let c = opened s.conn s.db_path in (ok c, record s { conn = some c })

  -- what is read through a connection
  abbrev pub content : Storage V → SqliteBackend V → Content V
  content (in_memory held) s = held
  content in_file s = or_blank (Dict.get s.db_path s.files)

  abbrev store_in : Storage V → Content V → Storage V
  store_in (in_memory _) new = in_memory new
  store_in in_file new = in_file

  abbrev pub write_back : Connection V → Content V → SqliteBackend V → SqliteBackend V
  write_back c new s = record s {
    conn = some (record c { storage = store_in c.storage new });
    files = elim c.storage [ in_memory _ ↦ s.files | in_file ↦ Dict.set s.db_path new s.files ];
  }

  -- Any call on a closed connection is refused.
  abbrev pub if_open :
      {A : Type 0} → Connection V → Exec (SqliteBackend V) A → Exec (SqliteBackend V) A
  if_open c run s = if c.is_open then run s else (raise "Cannot operate on a closed database.", s)

  -- `CREATE TABLE IF NOT EXISTS`
  abbrev pub with_tables : Content V → Content V
  with_tables none = some (empty V)
  with_tables (some db) = some db

  -- `executescript` commits an open transaction first.
  unfoldable pub initialize : Exec (SqliteBackend V) (Unit {0})
  unfolding get_connection Dict.get Dict.set
  initialize = get_connection >>= λ c.
      if_open c (λ s.
        (ok tt, write_back (record c { before = none }) (with_tables (content c.storage s)) s))

  -- A transaction that is still open when its connection is closed is rolled back.
  abbrev pub roll_back : Connection V → Option (Db V) → SqliteBackend V → SqliteBackend V
  roll_back c none s = s
  roll_back c (some db) s = write_back c (some db) s

  -- `sqlite3.Connection.close`
  abbrev pub close_connection : Connection V → SqliteBackend V → SqliteBackend V
  close_connection c s = record (roll_back c c.before s) {
    conn = some (record c { before = none; is_open = false });
  }

  -- `if self._conn is not None`: the connection is closed, and then reset.
  abbrev pub close_if : Option (Connection V) → SqliteBackend V → SqliteBackend V
  close_if none s = s
  close_if (some c) s = record (close_connection c s) { conn = none }

  unfoldable pub close : Exec (SqliteBackend V) (Unit {0})
  unfolding Dict.set
  close s = (ok tt, close_if s.conn s)

  -- The tables as a statement finds them: whether a transaction is open is a matter of the connection.
  abbrev pub found_by : Option (Db V) → Db V → Db V
  found_by none db = record db { in_transaction = false }
  found_by (some _) db = record db { in_transaction = true }

  -- What a connection keeps for a rollback after a statement: a transaction that begins keeps the
  -- tables that were there, and one that ends keeps none.
  abbrev pub kept_after : Option (Db V) → Db V → Bool → Option (Db V)
  kept_after before db false = none
  kept_after none db true = some db
  kept_after (some b) db true = some b

  -- The flag is not stored with the tables.
  abbrev pub at_rest : Db V → Db V
  at_rest db = record db { in_transaction = false }

  abbrev pub statement_on :
      {A : Type 0} → Exec (Db V) A → Connection V → Content V → Exec (SqliteBackend V) A
  statement_on m c none s = (raise "no such table", s)
  statement_on m c (some db) s =
      let (r, d) = m (found_by c.before db) in
      (
        r,
        write_back (record c { before = kept_after c.before db d.in_transaction })
            (some (at_rest d)) s,
      )

  -- `execute`, `fetchone` and `fetchall`: one statement on the tables, or one `with
  -- backend.transaction():`, whatever it returns
  unfoldable pub run_statement : {A : Type 0} → Exec (Db V) A → Exec (SqliteBackend V) A
  unfolding get_connection Dict.get Dict.set
  run_statement m =
      get_connection >>= λ c. if_open c (λ s. statement_on m c (content c.storage s) s)

  -- `__init__`
  unfoldable pub new : String → Dict (Content V) → Result (Unit {0}) × SqliteBackend V
  unfolding get_connection initialize
  new path files =
      (get_connection >> initialize) (record { db_path = path; conn = none; files = files })

  -- `InMemoryBackend()`
  unfoldable pub new_in_memory : Dict (Content V) → Result (Unit {0}) × SqliteBackend V
  unfolding new
  new_in_memory = new ":memory:"

  -- The answer of the pragma is the library's.
  unfoldable pub integrity_check : (Content V → String) → Exec (SqliteBackend V) Bool
  unfolding get_connection Dict.get
  integrity_check pragma =
      get_connection >>= λ c. if_open c (λ s. (ok (str_eq (pragma (content c.storage s)) "ok"), s))
