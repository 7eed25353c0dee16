-- ===== src/Backend/Connection/Life.antt =====
-- backends/sqlite.py: what a database keeps over `close`. A file keeps what was committed; a memory
-- keeps nothing.
use mathlib.Core.Path.{subst}
use dhava.Common.{
  String, ◌≡◌, refl, sym, ap, ◌∙◌, true, false, Option, none, some, List, [], ◌∷◌, str_eq,
  str_eq_iff, if_true,
}
use dhava.Dict
use dhava.Dict.{Dict}
use dhava.Result.{Result, raise}
use dhava.Exec.{Exec}
use dhava.Backend.{Db, empty}
use dhava.Backend.Connection.{
  Content, Connection, in_file, SqliteBackend, is_memory, opened, close, run_statement,
  get_connection, initialize, found_by, kept_after, at_rest, close_if, roll_back, connect, or_blank,
  with_tables,
}

-- What the program calls on a backend.
pub data Call (V : Type 0) : Type 0 where
  initializes closes : Call V
  states : Exec (Db V) (Unit {0}) → Call V

-- The tables, and those that an open transaction began with.
pub record Session (V : Type 0) : Type 0 where
  pub tables : Db V
  pub before : Option (Db V)

module _ {V : Type 0} where
  abbrev pub call : Call V → SqliteBackend V → SqliteBackend V
  call initializes s = (initialize s).1
  call closes s = (close s).1
  call (states m) s = (run_statement m s).1

  unfoldable pub calls : List (Call V) → SqliteBackend V → SqliteBackend V
  unfolding initialize close run_statement
  calls [] s = s
  calls (c ∷ cs) s = calls cs (call c s)

  -- the session on tables in which no transaction is open
  abbrev pub idle_on : Db V → Session V
  idle_on db = record { tables = db; before = none }

  -- what a rollback leaves
  abbrev or_before : Option (Db V) → Db V → Db V
  or_before none db = db
  or_before (some b) db = b

  abbrev pub after : {A : Type 0} → Exec (Db V) A → Session V → Session V
  after m t =
      let d = (m (found_by t.before t.tables)).1 in
      record { tables = at_rest d; before = kept_after t.before t.tables d.in_transaction }

  -- what a call does to a session that is never interrupted
  abbrev pub effect : Call V → Session V → Session V
  effect initializes t = record t { before = none }
  effect closes t = idle_on (or_before t.before t.tables)
  effect (states m) t = after m t

  unfoldable pub effects : List (Call V) → Session V → Session V
  effects [] t = t
  effects (c ∷ cs) t = effects cs (effect c t)

  -- A backend on a file that holds the tables of a session, with its connection open or closed.
  pub record IsOnFile (path : String) (t : Session V) (s : SqliteBackend V) : Type 0 where
    pub path_is : s.db_path ≡ path
    pub linked :
        opened s.conn s.db_path ≡ record { storage = in_file; before = t.before; is_open = true }
    pub held : Dict.get path s.files ≡ some (some t.tables)

  pub get-set_self :
      (path : String) (c : Content V) (files : Dict (Content V))
      → Dict.get path (Dict.set path c files) ≡ some c
  get-set_self path c files =
      Dict.get-set path path c files
      ∙ if_true (str_eq path path) (some c) (Dict.get path files) ((str_eq_iff path path).1 refl)

  run_statement-file :
      {A : Type 0} (path : String) (m : Exec (Db V) A) (t : Session V) (s : SqliteBackend V)
      → IsOnFile path t s
      → let u = after m t in
        run_statement m s ≡ (
          (m (found_by t.before t.tables)).0,
          record {
            db_path = path;
            conn = some (record { storage = in_file; before = u.before; is_open = true });
            files = Dict.set path (some u.tables) s.files;
          },
        )
  unfolding run_statement get_connection
  run_statement-file path m t s f = rw (f.linked, f.path_is, f.held) refl

  run_statement-IsOnFile :
      {A : Type 0} (path : String) (m : Exec (Db V) A) (t : Session V) (s : SqliteBackend V)
      → IsOnFile path t s
      → IsOnFile path (after m t) (run_statement m s).1
  run_statement-IsOnFile path m t s f = rw (run_statement-file path m t s f) (record {
    path_is = refl;
    linked = refl;
    held = get-set_self path (some (after m t).tables) s.files;
  })

  -- an open connection to a file
  abbrev pub linked_to : Option (Db V) → Connection V
  linked_to b = record { storage = in_file; before = b; is_open = true }

  pub connect-file : (path : String) → is_memory path ≡ false → connect path ≡ linked_to none
  connect-file path disk = rw disk refl

  -- Tables are created where there are none, and an open transaction is committed.
  pub initialize-file :
      (path : String) (b : Option (Db V)) (held : Content V) (s : SqliteBackend V)
      → s.db_path ≡ path
      → opened s.conn s.db_path ≡ linked_to b
      → or_blank (Dict.get path s.files) ≡ held
      → (initialize s).1 ≡ record {
        db_path = path;
        conn = some (linked_to none);
        files = Dict.set path (with_tables held) s.files;
      }
  unfolding initialize get_connection
  initialize-file path b held s at link read = rw (link, link, at, read) refl

  initialize-IsOnFile :
      (path : String) (t : Session V) (s : SqliteBackend V)
      → IsOnFile path t s
      → IsOnFile path (idle_on t.tables) (initialize s).1
  initialize-IsOnFile path t s f =
      rw (initialize-file path t.before (some t.tables) s f.path_is f.linked (ap or_blank f.held))
        (record { path_is = refl; linked = refl; held = get-set_self path (some t.tables) s.files })

  close_if-IsOnFile :
      (path : String) (o : Option (Connection V)) (b : Option (Db V)) (db : Db V)
      (s : SqliteBackend V)
      → is_memory path ≡ false
      → s.db_path ≡ path
      → s.conn ≡ o
      → opened o s.db_path ≡ linked_to b
      → Dict.get path s.files ≡ some (some db)
      → IsOnFile path (idle_on (or_before b db)) (close_if o s)
  close_if-IsOnFile path none none db s disk at conn link held = record {
    path_is = at;
    linked = ap (λ x. opened x s.db_path) conn ∙ link;
    held = held;
  }
  close_if-IsOnFile path none (some b) db s disk at conn link held =
      let no : ◌≡◌ {A = Option (Db V)} none (some b) = ap (λ (c : Connection V). c.before) link in
      cc no
  close_if-IsOnFile path (some c) none db s disk at conn link held =
      rw link (record { path_is = at; linked = rw (at, disk) refl; held = held })
  close_if-IsOnFile path (some c) (some b) db s disk at conn link held = rw link (record {
    path_is = at;
    linked = rw (at, disk) refl;
    held = rw at (get-set_self path (some b) s.files);
  })

  call-IsOnFile :
      (path : String) (t : Session V) (c : Call V) (s : SqliteBackend V)
      → is_memory path ≡ false
      → IsOnFile path t s
      → IsOnFile path (effect c t) (call c s)
  unfolding close
  call-IsOnFile path t initializes s disk f = initialize-IsOnFile path t s f
  call-IsOnFile path t closes s disk f =
      close_if-IsOnFile path s.conn t.before t.tables s disk f.path_is refl f.linked f.held
  call-IsOnFile path t (states m) s disk f = run_statement-IsOnFile path m t s f

  calls-IsOnFile :
      (path : String) (cs : List (Call V)) (t : Session V) (s : SqliteBackend V)
      → is_memory path ≡ false
      → IsOnFile path t s
      → IsOnFile path (effects cs t) (calls cs s)
  unfolding calls effects
  calls-IsOnFile path [] t s disk f = f
  calls-IsOnFile path (c ∷ cs) t s disk f =
      calls-IsOnFile path cs (effect c t) (call c s) disk (call-IsOnFile path t c s disk f)

  -- A database in a file, with its connection open or closed: after any calls, a statement returns
  -- or raises what it would in a session that is never interrupted, on the tables that the
  -- statements before it have left. There, a call of `close` undoes what a transaction that is
  -- still open has written, and nothing else, and a call of `initialize` commits such a
  -- transaction.
  pub run_statement-calls :
      {A : Type 0} (path : String) (cs : List (Call V)) (m : Exec (Db V) A) (t : Session V)
      (s : SqliteBackend V)
      → is_memory path ≡ false
      → IsOnFile path t s
      → let u = effects cs t in
        (run_statement m (calls cs s)).0 ≡ (m (found_by u.before u.tables)).0
  run_statement-calls {A} path cs m t s disk f =
      ap (λ (o : Result A × SqliteBackend V). o.0)
        (run_statement-file path m (effects cs t) (calls cs s) (calls-IsOnFile path cs t s disk f))

  at_rest-eq : (db : Db V) → db.in_transaction ≡ false → at_rest db ≡ db
  at_rest-eq db idle = λ i. record db { in_transaction = sym idle i }

  after-idle :
      {A : Type 0} (m : Exec (Db V) A) (db : Db V)
      → db.in_transaction ≡ false
      → (m db).1.in_transaction ≡ false
      → after m (idle_on db) ≡ idle_on (m db).1
  after-idle m db idle ends = rw (at_rest-eq db idle, ends, at_rest-eq (m db).1 ends) refl

  -- A statement on tables in which no transaction is open, and that leaves none open.
  pub run_statement_at_rest :
      {A : Type 0} (path : String) (m : Exec (Db V) A) (db : Db V) (s : SqliteBackend V)
      → IsOnFile path (idle_on db) s
      → db.in_transaction ≡ false
      → (m db).1.in_transaction ≡ false
      → ((run_statement m s).0 ≡ (m db).0) × IsOnFile path (idle_on (m db).1) (run_statement m s).1
  run_statement_at_rest {A} path m db s f idle ends = (
    ap (λ (o : Result A × SqliteBackend V). o.0) (run_statement-file path m (idle_on db) s f)
        ∙ ap (λ d. (m d).0) (at_rest-eq db idle),
    subst (λ t. IsOnFile path t (run_statement m s).1) (after-idle m db idle ends)
        (run_statement-IsOnFile path m (idle_on db) s f),
  )

  close_if-resets :
      (o : Option (Connection V)) (s : SqliteBackend V)
      → s.conn ≡ o
      → ((close_if o s).conn ≡ none) × ((close_if o s).db_path ≡ s.db_path)
  close_if-resets none s h = (h, refl)
  close_if-resets (some c) s h = (refl, go c.before)
    where
      go : (b : Option (Db V)) → (roll_back c b s).db_path ≡ s.db_path
      go none = refl
      go (some db) = refl

  run_statement-blank :
      {A : Type 0} (m : Exec (Db V) A) (s : SqliteBackend V)
      → s.conn ≡ none
      → is_memory s.db_path ≡ true
      → ((run_statement m s).0 ≡ raise "no such table")
        × ((run_statement m (initialize s).1).0 ≡ (m (empty V)).0)
  unfolding run_statement initialize get_connection
  run_statement-blank m s reset memory = rw (reset, memory) (refl, refl)

  -- A database in memory: once it is closed, every statement fails for want of its table, and its
  -- rows are gone. Only `initialize` helps, and gives empty tables.
  pub run_statement-close :
      {A : Type 0} (m : Exec (Db V) A) (s : SqliteBackend V)
      → is_memory s.db_path ≡ true
      → ((run_statement m (close s).1).0 ≡ raise "no such table")
        × ((run_statement m (initialize (close s).1).1).0 ≡ (m (empty V)).0)
  unfolding close
  run_statement-close m s memory =
      let (reset, same) = close_if-resets s.conn s refl in
      run_statement-blank m (close s).1 reset (ap is_memory same ∙ memory)
