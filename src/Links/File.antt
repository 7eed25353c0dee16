-- ===== src/Links/File.antt =====
-- transports/file.py: bundles that are carried from one directory to another. The directories are the
-- interface of the operating system; its calls may raise.
pub mod Bundles
use dhava.Common.{
  ℕ, String, ◌<>◌, Bool, true, false, Option, none, some, List, [], ◌∷◌, if◌then◌else◌,
}
use dhava.Result.{Result, ok, raise}
use dhava.Exec.{Exec, ◌>>=◌, ◌>>◌, pure}
use dhava.Backend.{Bytes}
use dhava.Framing.{Sha256, frame_payload, unframe_payload}
use dhava.Transport.{Transport, default_send_receive}
use dhava.Links.{framed, or_else}

-- The two directories of the link. `bundle_name` takes the time and a fresh identifier, and `bundles`
-- lists the names that match in the import directory, the oldest first.
pub record Disk (N : Type 0) : Type 0 where
  pub export_exists : N → Bool
  pub import_exists : N → Bool
  pub write_test : Exec N (Unit {0})
  pub make_export_dir : Exec N (Unit {0})
  pub bundle_name : N → String × N
  pub write_bytes : String → Bytes → Exec N (Unit {0})
  pub replace : String → String → Exec N (Unit {0})
  pub bundles : Exec N (List String)
  pub read_bytes : String → Exec N Bytes
  pub move_to_processed : String → Exec N (Unit {0})

module _ {N : Type 0} (disk : Disk N) (sha : Sha256) where
  -- `os_is_writable`
  abbrev is_writable : Exec N Bool
  is_writable = or_else false (disk.write_test >> pure true)

  unfoldable pub is_available : Exec N Bool
  is_available s = if disk.export_exists s then is_writable s else (ok false, s)

  abbrev new_name : Exec N String
  new_name s = let (name, t) = disk.bundle_name s in (ok name, t)

  -- The bundle appears under its name only once it is whole.
  unfoldable pub send : Bytes → Exec N Bool
  unfolding frame_payload
  send payload = or_else false (
      disk.make_export_dir >>= λ _. new_name >>= λ filename.
      framed (frame_payload sha payload) >>= λ bundle.
      disk.write_bytes (filename <> ".tmp") bundle >>= λ _.
      disk.replace (filename <> ".tmp") filename >> pure true)

  -- one turn of the loop over the bundles: the payload, or none if any call raises
  unfoldable pub take_bundle : String → Exec N (Option Bytes)
  unfolding unframe_payload
  take_bundle name = or_else none (
      disk.read_bytes name >>= λ raw. framed (unframe_payload sha raw) >>= λ parts.
      disk.move_to_processed name >> pure (some parts.0))

  abbrev pub or_next : Option Bytes → Exec N (Option Bytes) → Exec N (Option Bytes)
  or_next (some payload) next = pure (some payload)
  or_next none next = next

  unfoldable pub first_bundle : List String → Exec N (Option Bytes)
  unfolding take_bundle
  first_bundle [] = pure none
  first_bundle (name ∷ names) = take_bundle name >>= λ payload. or_next payload (first_bundle names)

  unfoldable pub receive : Exec N (Option Bytes)
  unfolding first_bundle
  receive s =
      if disk.import_exists s then or_else none (disk.bundles >>= first_bundle) s else (ok none, s)

  -- the link as the manager and the engine see it
  pub file_transport : String → ℕ → Transport N
  unfolding is_available send receive default_send_receive
  file_transport name bandwidth_bps = record {
    name = name;
    is_available = is_available;
    estimate_bandwidth = pure bandwidth_bps;
    estimate_latency = pure 10_000;
    send = send;
    receive = receive;
    send_receive = default_send_receive send receive;
    close = pure tt;
  }
