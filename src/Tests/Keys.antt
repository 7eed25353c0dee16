-- ===== src/Tests/Keys.antt =====
-- Keys, an export of the trail, and connections to databases, with simple stand-ins for the libraries.
use dhava.Common.{
  ℕ, zero, suc, ◌+◌, String, ◌≡◌, ◌≢◌, ◌⊎◌, refl, ap, Bool, true, false, Option, none, some, List,
  [], ◌∷◌, length, arith, ◌==◌, if◌then◌else◌, ◌≤◌, str_eq, if_true,
}
use dhava.Result.{Result, ok, raise, ◌>>=◌}
use dhava.Exec.{Exec}
use dhava.Models.{AuditEntry, Record}
use dhava.Models.Wire.{AuditEntryDict, entry_to_dict}
use dhava.Backend.{Bytes, Db}
use dhava.Crypto
use dhava.Crypto.{CryptoLayer, zstd, pack, unpack}
use dhava.Crypto.RoundTrip.{node}
use dhava.Crypto.Keys.{
  KeyLibrary, NodeKeyMaterial, Drawing, generate_node_key_material, compute_ecdh_shared_key,
}
use dhava.Crypto.Keys.Laws.{
  IsKeyLibrary, IsBundle, generate_node_key_material-IsBundle, compute_ecdh_shared_key-pack,
}
use dhava.Audit.Export.{ExportLibrary, IsExport, between, export, read_entries, export-read_entries}
use dhava.Backend.Connection.{SqliteBackend, found_by, run_statement}
use dhava.Backend.Connection.Life.{
  IsOnFile, idle_on, closes, states, calls, effects, run_statement-calls,
}
use dhava.Node.{SyncEngine}
use dhava.Node.Create.{NewEngine, create_engine}
use dhava.Node.Create.Restart.{key_of, IsRestarted, create_engine-IsRestarted}
use dhava.Tests.{sample}
use dhava.Tests.Packets.{cipher, gzip_like, zstd_like, nonce, cipher-IsCipher, compressors}

-- so many bytes
pub sevens : ℕ → Bytes
sevens zero = []
sevens (suc n) = 7 ∷ sevens n

length-sevens : (n : ℕ) → length (sevens n) ≡ n
unfolding sevens
length-sevens zero = refl
length-sevens (suc n) = omega (arith, length-sevens n)

-- a signature that knows the length of the message
abbrev checks : Bytes → ℕ → Result (Unit {0})
checks [] n = raise "InvalidSignature"
checks (x ∷ xs) n = if x == n then ok tt else raise "InvalidSignature"

-- a secret that both sides can add up
abbrev shared_secret : Bytes → Bytes → Result Bytes
shared_secret (x ∷ xs) (y ∷ ys) = ok ((x + y) ∷ [])
shared_secret _ _ = raise "no key"

abbrev key_library : KeyLibrary
key_library = record {
  utf8 = λ s. [];
  hkdf = λ n info master. ok (sevens n);
  ed_public = λ k. k;
  load_ed_private = λ k. ok k;
  load_ed_public = λ k. ok k;
  ed_sign = λ k m. length m ∷ [];
  ed_verify = λ k s m. checks s (length m);
  load_x_private = λ k. ok k;
  load_x_public = λ k. ok k;
  x_exchange = shared_secret;
}

key_library_law : IsKeyLibrary key_library
key_library_law = record {
  hkdf_gives = λ n info master h. (sevens n, refl, length-sevens n);
  verify-sign = λ k m. if_true (length m == length m) _ _ (ground arith);
}

abbrev pub draw : Drawing
draw = record { ed_private = 3 ∷ []; aes_key = sevens 32 }

generate_node_key_material-IsBundle_example :
    (m : NodeKeyMaterial) × (generate_node_key_material key_library draw "alpha" ≡ ok m)
    × (m.node_id ≡ "alpha")
    × IsBundle key_library m
generate_node_key_material-IsBundle_example =
    generate_node_key_material-IsBundle key_library key_library_law draw "alpha"
      (record { private = refl; public = refl; full = length-sevens 32 })

compute_ecdh_shared_key-pack_example :
    (key : Bytes) × (compute_ecdh_shared_key key_library (2 ∷ []) (3 ∷ []) ≡ ok key)
    × (compute_ecdh_shared_key key_library (3 ∷ []) (2 ∷ []) ≡ ok key)
    × ((c : CryptoLayer) × (Crypto.new key zstd ≡ ok c)
        × (unpack
              (node cipher gzip_like zstd_like true)
              c
              (pack (node cipher gzip_like zstd_like false) c nonce (1 ∷ 2 ∷ []))
            ≡ ok (1 ∷ 2 ∷ [])))
compute_ecdh_shared_key-pack_example =
    compute_ecdh_shared_key-pack key_library key_library_law cipher gzip_like zstd_like
      cipher-IsCipher compressors (λ k. k) (2 ∷ []) (3 ∷ []) (5 ∷ [])
      (record {
        mine_loads = refl;
        theirs_loads = refl;
        my_public = refl;
        their_public = refl;
        from_mine = refl;
        from_theirs = refl;
      })
      false true zstd nonce (1 ∷ 2 ∷ []) (λ h. refl) refl

-- a trail of two entries, the later one first
abbrev entry_at : String → ℕ → AuditEntry
entry_at id t = record {
  audit_id = id;
  timestamp = t;
  action_type = "local_write";
  node_id = "alpha";
  details = [];
  user_id = none;
  authority = some "hq";
}

abbrev logged : Db ℕ
logged = record sample { audit_log = entry_at "e1" 100 ∷ entry_at "e2" 200 ∷ [] }

abbrev writer : ExportLibrary
writer = record {
  lower = λ s. if str_eq s "JSON" then "json" else s;
  dump_entries = λ ds. "[..]";
  dump_details = λ d. "{}";
  csv_row = λ row. "..";
  utf8 = λ s. [];
}

abbrev reader : Bytes → Result (List AuditEntryDict)
reader b = ok (entry_to_dict (entry_at "e2" 200) ∷ [])

reader_law :
    let ds =
      dhava.Common.map entry_to_dict
        (dhava.Audit.query (between (some 150) none) 1_000_000 0 logged) in
    reader (writer.utf8 (writer.dump_entries ds)) ≡ ok ds
unfolding dhava.Audit.query dhava.Common.select dhava.Common.Sort.sort dhava.Audit.meets
reader_law = refl

export-read_entries_example :
    (entries : List AuditEntry) × (((export writer (some 150) none "JSON" logged >>= reader)
        >>= read_entries)
      ≡ ok entries)
    × IsExport (between (some 150) none) logged entries
export-read_entries_example =
    export-read_entries writer reader (some 150) none "JSON" logged refl (omega arith) reader_law

-- a statement that writes
abbrev write_all_away : Exec (Db ℕ) (Unit {0})
write_all_away db = (ok tt, record db { records = [] })

-- a statement that reads
abbrev read : Exec (Db ℕ) (List (Record ℕ))
read db = (ok db.records, db)

abbrev file_backend : SqliteBackend ℕ
file_backend = record {
  db_path = "/data/node.db";
  conn = none;
  files = ("/data/node.db", some sample) ∷ [];
}

-- a statement that begins a transaction
abbrev begin : Exec (Db ℕ) (Unit {0})
begin db = (ok tt, record db { in_transaction = true })

run_statement-calls_example :
    let cs = closes ∷ states begin ∷ states write_all_away ∷ closes ∷ [] in
    let u = effects cs (idle_on sample) in
    (run_statement read (calls cs file_backend)).0 ≡ (read (found_by u.before u.tables)).0
unfolding dhava.Dict.get
run_statement-calls_example =
    run_statement-calls "/data/node.db"
      (closes ∷ states begin ∷ states write_all_away ∷ closes ∷ []) read (idle_on sample)
      file_backend refl (record { path_is = refl; linked = refl; held = refl })

-- The close has undone the transaction.
undone :
    (run_statement read
      (calls (closes ∷ states begin ∷ states write_all_away ∷ closes ∷ []) file_backend)).0
    ≡ ok sample.records
unfolding calls run_statement dhava.Backend.Connection.close dhava.Backend.Connection.get_connection
    dhava.Dict.get dhava.Dict.set
undone = refl

abbrev again : NewEngine (Unit {0})
again = record {
  node_id = "alpha";
  db_path = "/data/node.db";
  transports = [];
  encryption_key = none;
  config = none;
}

create_engine-IsRestarted_example :
    let run = create_engine draw 5 tt again file_backend.files in
    ((length (key_of draw again) ≡ 32)
      × ((s : SyncEngine ℕ (Unit {0})) × (run.0 ≡ ok s)
          × IsRestarted again sample s
          × IsOnFile "/data/node.db" (idle_on s.engine.db) run.1))
    ⊎ ((length (key_of draw again) ≢ 32)
        × (run.0 ≡ raise "Encryption key must be exactly 32 bytes (256 bits)")
        × IsOnFile "/data/node.db" (idle_on sample) run.1)
unfolding dhava.Dict.get
create_engine-IsRestarted_example =
    create_engine-IsRestarted draw 5 tt again file_backend.files refl refl
