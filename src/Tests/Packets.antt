-- ===== src/Tests/Packets.antt =====
-- Frames and sealed payloads on concrete bytes, with simple stand-ins for the libraries.
use dhava.Common.{
  ℕ, ◌≡◌, refl, true, false, Option, none, some, [], ◌∷◌, ◌++◌, arith, drop, length-append,
  if◌then◌else◌, ◌==◌,
}
use dhava.Backend.{Bytes}
use dhava.Result.{ok}
use dhava.Framing.{Sha256, frame_payload, unframe_payload, Framed}
use dhava.Framing.RoundTrip.{unframe_payload-frame_payload}
use dhava.Framing.Sound.{AreBytes, frame_of_unframe}
use dhava.Crypto.{AesGcm, Compressor, CryptoLayer, zstd, pack, unpack}
use dhava.Crypto.RoundTrip.{IsCipher, AreCompressors, node, unpack-pack}

-- thirty-two bytes, all the same
abbrev zeros : Bytes
zeros = 0 ∷ 0 ∷ 0 ∷ 0 ∷ 0 ∷ 0 ∷ 0 ∷ 0 ∷ 0 ∷ 0 ∷ 0 ∷ 0 ∷ 0 ∷ 0 ∷ 0 ∷ 0 ∷ []

abbrev pub sha : Sha256
sha = record { digest = λ b. zeros ++ zeros; length-digest = λ b. refl }

unframe_payload-frame_payload_example :
    (frame : Bytes) × (frame_payload sha (1 ∷ 2 ∷ 3 ∷ []) ≡ Framed.ok frame)
    × (unframe_payload sha (frame ++ (9 ∷ [])) ≡ Framed.ok (1 ∷ 2 ∷ 3 ∷ [], 9 ∷ []))
unframe_payload-frame_payload_example =
    unframe_payload-frame_payload sha (1 ∷ 2 ∷ 3 ∷ []) (9 ∷ []) (omega arith)

-- the frame of the payload 1 2 and a byte that follows it
abbrev pub packet : Bytes
packet = 68 ∷ 68 ∷ 73 ∷ 76 ∷ 1 ∷ 0 ∷ 0 ∷ 0 ∷ 2 ∷ (zeros ++ zeros ++ (1 ∷ 2 ∷ 9 ∷ []))

packet_accepted : unframe_payload sha packet ≡ Framed.ok (1 ∷ 2 ∷ [], 9 ∷ [])
unfolding unframe_payload
packet_accepted = refl

pub packet-AreBytes : AreBytes packet
packet-AreBytes = ground arith

frame_of_unframe_example :
    (frame : Bytes) × (frame_payload sha (1 ∷ 2 ∷ []) ≡ Framed.ok frame)
    × (packet ≡ frame ++ (9 ∷ []))
frame_of_unframe_example =
    frame_of_unframe sha packet (1 ∷ 2 ∷ []) (9 ∷ []) packet-AreBytes packet_accepted

-- a cipher that appends sixteen bytes
abbrev pub cipher : AesGcm
cipher = record { encrypt = λ k n b. zeros ++ b; decrypt = λ k n b. some (drop 16 b) }

abbrev tagged : ℕ → Bytes → Option Bytes
tagged t [] = none
tagged t (u ∷ b) = if u == t then some b else none

-- compressors that mark what they wrote
abbrev pub gzip_like : Compressor
gzip_like = record { compress = λ b. 1 ∷ b; decompress = tagged 1 }

abbrev pub zstd_like : Compressor
zstd_like = record { compress = λ b. 2 ∷ b; decompress = tagged 2 }

pub cipher-IsCipher : IsCipher cipher
cipher-IsCipher = record {
  length-encrypt = λ k n b. omega (arith, length-append {0} zeros b);
  decrypt-encrypt = λ k n b. refl;
}

pub compressors : AreCompressors gzip_like zstd_like
compressors = record {
  gzip_ok = record { decompress-compress = λ b. refl };
  zstd_ok = record { decompress-compress = λ b. refl };
  zstd_refuses_gzip = λ b. refl;
}

abbrev pub layer : CryptoLayer
layer = record { encryption_key = zeros ++ zeros; compression = zstd }

abbrev pub nonce : Bytes
nonce = 7 ∷ 7 ∷ 7 ∷ 7 ∷ 7 ∷ 7 ∷ 7 ∷ 7 ∷ 7 ∷ 7 ∷ 7 ∷ 7 ∷ []

-- the sender lacks the zstd library, the receiver has it
unpack-pack_example :
    unpack
      (node cipher gzip_like zstd_like true)
      layer
      (pack (node cipher gzip_like zstd_like false) layer nonce (5 ∷ 6 ∷ []))
    ≡ ok (5 ∷ 6 ∷ [])
unpack-pack_example =
    unpack-pack cipher gzip_like zstd_like compressors cipher-IsCipher false true layer nonce
      (5 ∷ 6 ∷ []) (λ e. cc) refl
