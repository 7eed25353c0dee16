-- ===== src/Crypto/RoundTrip.antt =====
-- What one node packs, another node unpacks, with or without the zstd library.
use dhava.Common.{
  ◌+◌, ◌≡◌, refl, Bool, true, false, none, some, ◌++◌, arith, ltb, if◌then◌else◌, length,
  length-append, take_first, drop_first,
}
use dhava.Backend.{Bytes}
use dhava.Result.{ok}
use dhava.Crypto.{
  AesGcm, Compressor, Platform, CompressionAlgorithm, zstd, gzip, uncompressed, CryptoLayer,
  compress, decompress, pack, unpack,
}

-- A ciphertext is 16 bytes longer than the plaintext and opens with its key and nonce.
pub record IsCipher (a : AesGcm) : Type 0 where
  pub length-encrypt : (k n b : Bytes) → length (a.encrypt k n b) ≡ length b + 16
  pub decrypt-encrypt : (k n b : Bytes) → a.decrypt k n (a.encrypt k n b) ≡ some b

pub record IsCompressor (c : Compressor) : Type 0 where
  pub decompress-compress : (b : Bytes) → c.decompress (c.compress b) ≡ some b

-- The formats of gzip and zstd begin differently, so zstd refuses what gzip wrote.
pub record AreCompressors (g z : Compressor) : Type 0 where
  pub gzip_ok : IsCompressor g
  pub zstd_ok : IsCompressor z
  pub zstd_refuses_gzip : (b : Bytes) → z.decompress (g.compress b) ≡ none

module _ (a : AesGcm) (g z : Compressor) where
  abbrev with_zstd : Platform
  with_zstd = record { aesgcm = a; gzip = g; zstd = some z }

  abbrev without_zstd : Platform
  without_zstd = record { aesgcm = a; gzip = g; zstd = none }

  -- a node, with the library or without it
  abbrev pub node : Bool → Platform
  node b = if b then with_zstd else without_zstd

  aesgcm_of : (b : Bool) → (node b).aesgcm ≡ a
  aesgcm_of true = refl
  aesgcm_of false = refl

  module _ (cs : AreCompressors g z) where
    -- The receiver has the library, or the sender lacks it too.
    decompress-compress :
        (sender receiver : Bool) (t : CompressionAlgorithm) (b : Bytes)
        → (sender ≡ true → receiver ≡ true)
        → decompress (node receiver) t (compress (node sender) t b) ≡ ok b
    unfolding compress decompress
    decompress-compress true true zstd b h = rw (cs.zstd_ok.decompress-compress b) refl
    decompress-compress true false zstd b h = cc (h refl)
    decompress-compress false true zstd b h =
        rw (cs.zstd_refuses_gzip b) (rw (cs.gzip_ok.decompress-compress b) refl)
    decompress-compress false false zstd b h = rw (cs.gzip_ok.decompress-compress b) refl
    decompress-compress true true gzip b h = rw (cs.gzip_ok.decompress-compress b) refl
    decompress-compress true false gzip b h = rw (cs.gzip_ok.decompress-compress b) refl
    decompress-compress false true gzip b h = rw (cs.gzip_ok.decompress-compress b) refl
    decompress-compress false false gzip b h = rw (cs.gzip_ok.decompress-compress b) refl
    decompress-compress sender receiver uncompressed b h = refl

    -- What one node packs with a nonce of 12 bytes, another node with the same key and the same
    -- algorithm unpacks to the payload, if the receiver has the zstd library or the sender lacks it too.
    pub unpack-pack :
        IsCipher a
        → (sender receiver : Bool) (c : CryptoLayer) (nonce payload : Bytes)
        → (sender ≡ true → receiver ≡ true)
        → length nonce ≡ 12
        → unpack (node receiver) c (pack (node sender) c nonce payload) ≡ ok payload
    unfolding pack unpack
    unpack-pack ia sender receiver c nonce payload h n =
        let plain = compress (node sender) c.compression payload in
        let sealed = a.encrypt c.encryption_key nonce plain in
        let long : ltb (length (nonce ++ sealed)) 28 ≡ false =
          ground (
            arith,
            length-append {0} nonce sealed,
            ia.length-encrypt c.encryption_key nonce plain,
          ) in
        rw (aesgcm_of sender) (
          rw (aesgcm_of receiver) (
            rw (take_first {0} 12 nonce sealed n) (
              rw (drop_first {0} 12 nonce sealed n) (
                rw long (
                  rw (ia.decrypt-encrypt c.encryption_key nonce plain)
                    (decompress-compress sender receiver c.compression payload h))))))
