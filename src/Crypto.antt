-- ===== src/Crypto.antt =====
-- crypto.py: the pipeline of compression and authenticated encryption. The ciphers and the
-- compressors are libraries of others, and enter as parameters.
pub mod RoundTrip
pub mod Keys
use dhava.Common.{
  ℕ, ◌+◌, String, ◌<>◌, ◌≡◌, Bool, true, false, Option, none, some, List, [], ◌++◌, ltb, ◌==◌,
  if◌then◌else◌, length, take, drop,
}
use dhava.Backend.{Bytes}
use dhava.Result.{Result, ok, raise}

-- `AESGCM` of the package `cryptography`; `none` stands for `InvalidTag`.
pub record AesGcm : Type 0 where
  pub encrypt : Bytes → Bytes → Bytes → Bytes
  pub decrypt : Bytes → Bytes → Bytes → Option Bytes

-- A compressor; `none` stands for an exception of `decompress`.
pub record Compressor : Type 0 where
  pub compress : Bytes → Bytes
  pub decompress : Bytes → Option Bytes

-- What is installed on a node: `zstandard` may be missing.
pub record Platform : Type 0 where
  pub aesgcm : AesGcm
  pub gzip : Compressor
  pub zstd : Option Compressor

pub data CompressionAlgorithm : Type 0 where
  zstd gzip uncompressed : CompressionAlgorithm

pub record CryptoLayer : Type 0 where
  pub encryption_key : Bytes
  pub compression : CompressionAlgorithm

-- `__init__`
unfoldable pub new : Bytes → CompressionAlgorithm → Result CryptoLayer
new key algorithm =
    if length key == 32
    then ok (record { encryption_key = key; compression = algorithm })
    else raise "Encryption key must be exactly 32 bytes (256 bits)"

abbrev pub or_raise : String → Option Bytes → Result Bytes
or_raise e none = raise e
or_raise e (some b) = ok b

module _ (p : Platform) where
  -- without zstandard the request for zstd falls back to gzip
  abbrev zstd_compress : Option Compressor → Bytes → Bytes
  zstd_compress none b = p.gzip.compress b
  zstd_compress (some z) b = z.compress b

  unfoldable pub compress : CompressionAlgorithm → Bytes → Bytes
  compress zstd b = zstd_compress p.zstd b
  compress gzip b = p.gzip.compress b
  compress uncompressed b = b

  abbrev ungzip : Bytes → Result Bytes
  ungzip b = or_raise "gzip" (p.gzip.decompress b)

  -- what zstd refuses might have been compressed by the fallback
  abbrev or_ungzip : Option Bytes → Bytes → Result Bytes
  or_ungzip (some b) packed = ok b
  or_ungzip none packed = ungzip packed

  abbrev zstd_decompress : Option Compressor → Bytes → Result Bytes
  zstd_decompress none b = ungzip b
  zstd_decompress (some z) b = or_ungzip (z.decompress b) b

  unfoldable pub decompress : CompressionAlgorithm → Bytes → Result Bytes
  decompress zstd b = zstd_decompress p.zstd b
  decompress gzip b = ungzip b
  decompress uncompressed b = ok b

  -- The nonce is 12 bytes of `os.urandom`.
  unfoldable pub pack : CryptoLayer → Bytes → Bytes → Bytes
  unfolding compress
  pack c nonce payload =
      nonce ++ p.aesgcm.encrypt c.encryption_key nonce (compress c.compression payload)

  abbrev opened : CompressionAlgorithm → Option Bytes → Result Bytes
  opened algorithm none = raise "InvalidTag"
  opened algorithm (some b) = decompress algorithm b

  unfoldable pub unpack : CryptoLayer → Bytes → Result Bytes
  unfolding decompress
  unpack c packed =
      if ltb (length packed) 28
      then raise "Packed payload too short"
      else opened c.compression
          (p.aesgcm.decrypt c.encryption_key (take 12 packed) (drop 12 packed))
