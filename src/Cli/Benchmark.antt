-- ===== src/Cli/Benchmark.antt =====
-- cli.py: the benchmark of the two pipelines.
use dhava.Common.{zero, suc, ◌+◌, ◌%◌, ◌<>◌, ℕ, String, List, [], ◌∷◌, length}
use dhava.Exec.{Exec, ◌>>=◌, ◌>>◌, lift}
use dhava.Models.{Time}
use dhava.Backend.{Bytes}
use dhava.Crypto
use dhava.Crypto.{AesGcm, Compressor, Platform, CryptoLayer, zstd, gzip, pack, unpack}
use dhava.Crypto.Keys.{Drawing, generate_key}
use dhava.Cli.Machine.{Machine, Line, benchmarking, benchmark_row, benchmark_complete, print}

-- The nonces and the times that the benchmark takes.
pub record Trial : Type 0 where
  pub nonce : Bytes
  pub pack_time : Time
  pub unpack_time : Time

-- a row of the table: the sizes before and after, and the two times
abbrev pub row : {V : Type 0} → String → Bytes → Bytes → Trial → Line V
row pipeline raw_bytes packed t =
    benchmark_row pipeline (length raw_bytes) (length packed) t.pack_time t.unpack_time

-- A test payload. The confidence is in thousandths, and the coordinates are in ten-thousandths of a
-- degree; `metadata` is flattened to its two values.
pub record Payload : Type 0 where
  pub id : String
  pub sensor : String
  pub kind : String
  pub confidence : ℕ
  pub coordinates : ℕ × ℕ
  pub sector : String
  pub operator : String
  pub auth : String

-- What the benchmark calls of other packages: `str`, `chr` and msgpack.
pub record BenchmarkLibrary : Type 0 where
  pub str : ℕ → String
  pub chr : ℕ → String
  pub pack_msgpack : List Payload → Bytes

unfoldable pub payload : BenchmarkLibrary → ℕ → Payload
payload lib i = record {
  id = "evt-" <> lib.str i;
  sensor = "EO-" <> lib.str (i % 10);
  kind = "vehicle_detection";
  confidence = 945;
  coordinates = (286_139 + i, 772_090 + i);
  sector = "Sector-" <> lib.chr (65 + i % 6);
  operator = "op_" <> lib.str (i % 5);
  auth = "duty_officer";
}

-- the payloads of so many numbers from one on
unfoldable pub payloads_from : BenchmarkLibrary → ℕ → ℕ → List Payload
unfolding payload
payloads_from lib i zero = []
payloads_from lib i (suc n) = payload lib i ∷ payloads_from lib (i + 1) n

module _ {V W : Type 0} where
  unfoldable pub benchmark :
      Platform → BenchmarkLibrary → Drawing → Trial → Trial → ℕ → Exec (Machine V W) (Unit {0})
  unfolding Crypto.new pack unpack generate_key payloads_from
  benchmark p lib draw zstd_trial gzip_trial count =
      print (benchmarking count)
      >> (lift (Crypto.new (generate_key draw) zstd) >>= λ crypto_zstd.
          lift (Crypto.new (generate_key draw) gzip) >>= λ crypto_gzip.
          let raw_bytes = lib.pack_msgpack (payloads_from lib 0 count) in
          let zstd_packed = pack p crypto_zstd zstd_trial.nonce raw_bytes in
          let gzip_packed = pack p crypto_gzip gzip_trial.nonce raw_bytes in
          lift (unpack p crypto_zstd zstd_packed)
          >> (lift (unpack p crypto_gzip gzip_packed)
              >> (print (row "MessagePack + zstd + AES-GCM" raw_bytes zstd_packed zstd_trial)
                  >> (print (row "MessagePack + gzip + AES-GCM" raw_bytes gzip_packed gzip_trial)
                      >> print benchmark_complete))))
