-- ===== src/Framing.antt =====
-- utils/serialization.py: the binary frame of a packet.
pub mod Words
pub mod RoundTrip
pub mod Sound
use dhava.Common.{
  ℕ, zero, suc, ◌+◌, ◌-◌, ◌*◌, ◌/◌, ◌%◌, ◌^◌, ◌≡◌, Bool, true, false, not, ◌&&◌, List, [], ◌∷◌,
  ◌++◌, ltb, ◌==◌, if◌then◌else◌, length, take, drop,
}
use dhava.Backend.{Bytes}

-- `hashlib.sha256(...).digest()`: a digest has 32 bytes.
pub record Sha256 : Type 0 where
  pub digest : Bytes → Bytes
  pub length-digest : (b : Bytes) → length (digest b) ≡ 32

-- `FRAME_MAGIC`, the text DDIL
abbrev pub frame_magic : Bytes
frame_magic = 68 ∷ 68 ∷ 73 ∷ 76 ∷ []

abbrev pub frame_version : ℕ
frame_version = 1

-- `FRAME_HEADER_SIZE`: 4 + 1 + 4 + 32
abbrev pub frame_header_size : ℕ
frame_header_size = 41

-- the exceptions of the two functions, with the values that they report
pub data FrameError : Type 0 where
  too_long : ℕ → FrameError
  incomplete_header : ℕ → FrameError
  invalid_magic : Bytes → FrameError
  unsupported_version : ℕ → FrameError
  incomplete_payload : ℕ → ℕ → FrameError
  digest_mismatch : FrameError

pub data Framed (A : Type 0) : Type 0 where
  ok : A → Framed A
  error : FrameError → Framed A

abbrev pub u32_mod : ℕ
u32_mod = 4_294_967_296

-- the format `I` in network order: four bytes, the highest first
unfoldable pub pack_u32 : ℕ → Bytes
pack_u32 n = (n / 16777216 % 256) ∷ (n / 65536 % 256) ∷ (n / 256 % 256) ∷ (n % 256) ∷ []

unfoldable pub unpack_u32 : Bytes → ℕ
unpack_u32 (a ∷ b ∷ c ∷ d ∷ _) = ((a * 256 + b) * 256 + c) * 256 + d
unpack_u32 _ = 0

-- `bytes ==`
unfoldable pub bytes_eq : Bytes → Bytes → Bool
bytes_eq [] [] = true
bytes_eq [] (_ ∷ _) = false
bytes_eq (_ ∷ _) [] = false
bytes_eq (a ∷ s) (b ∷ t) = (a == b) && bytes_eq s t

-- The four fields of `struct.unpack("!4sB I 32s", header)`.
pub record Header : Type 0 where
  pub magic : Bytes
  pub version : ℕ
  pub size : ℕ
  pub digest : Bytes

abbrev first_byte : Bytes → ℕ
first_byte [] = 0
first_byte (b ∷ _) = b

unfoldable pub unpack_header : Bytes → Header
unfolding unpack_u32
unpack_header h = record {
  magic = take 4 h;
  version = first_byte (drop 4 h);
  size = unpack_u32 (take 4 (drop 5 h));
  digest = take 32 (drop 9 h);
}

module _ (sha : Sha256) where
  -- `struct.pack`, whose format `I` takes no number of more than 32 bits
  unfoldable pub pack_header : Bytes → Bytes
  unfolding pack_u32
  pack_header payload =
      frame_magic ++ (frame_version ∷ (pack_u32 (length payload) ++ sha.digest payload))

  unfoldable pub frame_payload : Bytes → Framed Bytes
  unfolding pack_header
  frame_payload payload =
      if ltb (length payload) u32_mod
      then ok (pack_header payload ++ payload)
      else error (too_long (length payload))

  -- the part of `unframe_payload` after the header is read
  pub check_frame : Header → Bytes → Framed (Bytes × Bytes)
  unfolding bytes_eq
  check_frame h body =
      if not (bytes_eq h.magic frame_magic)
      then error (invalid_magic h.magic)
      else if not (h.version == frame_version)
      then error (unsupported_version h.version)
      else if ltb (length body) h.size
      then error (incomplete_payload (length body) h.size)
      else if not (bytes_eq (sha.digest (take h.size body)) h.digest)
      then error digest_mismatch
      else ok (take h.size body, drop h.size body)

  -- The payload and what follows the frame, or the first check that fails. `data[41:]` is the body.
  unfoldable pub unframe_payload : Bytes → Framed (Bytes × Bytes)
  unfolding unpack_header check_frame
  unframe_payload raw =
      if ltb (length raw) frame_header_size
      then error (incomplete_header (length raw))
      else check_frame (unpack_header (take frame_header_size raw)) (drop frame_header_size raw)
