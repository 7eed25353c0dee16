-- ===== src/Cli/Keys.antt =====
-- cli.py: the key of a node is drawn once.
use dhava.Common.{String, ◌≡◌, refl, Option, none, some, str_eq, str_eq_iff, if_true}
use dhava.Dict
use dhava.Backend.{Bytes}
use dhava.Crypto.Keys.{Drawing, generate_key}
use dhava.Cli.Machine.{Machine, load_or_create_key, read_or_write}

module _ {V W : Type 0} where
  read_or_write_again :
      (path : String) (drawn other : Bytes) (held : Option Bytes) (m : Machine V W)
      → Dict.get path m.key_files ≡ held
      → let once = read_or_write path drawn held m in
        read_or_write path other (Dict.get path once.1.key_files) once.1 ≡ once
  read_or_write_again path drawn other (some key) m found = rw found refl
  read_or_write_again path drawn other none m found =
      rw
        (
          Dict.get-set path path drawn m.key_files,
          if_true (str_eq path path) (some drawn) (Dict.get path m.key_files)
              ((str_eq_iff path path).1 refl),
        )
        refl

  -- Whoever asks for the key of a file a second time is given the same key, whatever is drawn then,
  -- and nothing changes.
  pub load_or_create_key_again :
      (draw other : Drawing) (path : String) (m : Machine V W)
      → let once = load_or_create_key draw (some path) m in
        load_or_create_key other (some path) once.1 ≡ once
  unfolding load_or_create_key
  load_or_create_key_again draw other path m =
      read_or_write_again path (generate_key draw) (generate_key other) (Dict.get path m.key_files)
        m refl
