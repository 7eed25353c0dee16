-- ===== src/Framing/RoundTrip.antt =====
-- A frame is read back, whatever follows it.
use mathlib.Core.List.{append_assoc}
use dhava.Common.{
  ℕ, ◌≤◌, ◌<◌, ◌≡◌, ap, ap₂, if_true, if_false, ◌∙◌, [], ◌++◌, arith, ltb, length, take, drop,
  length-append, take-append_left, drop-append_left, take_of_length-le, length-take, take_first,
  drop_first,
}
use dhava.Backend.{Bytes}
use dhava.Framing.{
  Sha256, ok, error, Header, u32_mod, frame_magic, frame_header_size, unpack_header, pack_header,
  frame_payload, check_frame, unframe_payload, too_long, incomplete_header, incomplete_payload,
}
use dhava.Framing.Words.{unpack_u32-pack_u32, bytes_eq_self}

module _ (sha : Sha256) where
  abbrev pub header_of : Bytes → Header
  header_of payload = record {
    magic = frame_magic;
    version = 1;
    size = length payload;
    digest = sha.digest payload;
  }

  pub length-pack_header : (payload : Bytes) → length (pack_header sha payload) ≡ frame_header_size
  unfolding pack_header
  length-pack_header payload = omega (arith, sha.length-digest payload)

  pub unpack_header-pack_header :
      (payload : Bytes)
      → length payload < u32_mod
      → unpack_header (pack_header sha payload) ≡ header_of payload
  unfolding unpack_header pack_header
  unpack_header-pack_header payload h = λ i. record {
    magic = frame_magic;
    version = 1;
    size = unpack_u32-pack_u32 (length payload) [] h i;
    digest = whole i;
  }
    where
      whole : take 32 (sha.digest payload) ≡ sha.digest payload
      whole = take_of_length-le 32 (sha.digest payload) (omega (arith, sha.length-digest payload))

  check_frame-header_of :
      (payload rest : Bytes)
      → check_frame sha (header_of payload) (payload ++ rest) ≡ ok (payload, rest)
  unfolding check_frame
  check_frame-header_of payload rest = ground (
    arith,
    length-append {0} payload rest,
    take-append_left payload rest,
    drop-append_left payload rest,
    bytes_eq_self (sha.digest payload),
  )

  pub unframe-parts :
      (raw : Bytes)
      → frame_header_size ≤ length raw
      → unframe_payload sha raw
        ≡ check_frame sha (unpack_header (take frame_header_size raw)) (drop frame_header_size raw)
  unfolding unframe_payload
  unframe-parts raw h = if_false (ltb (length raw) frame_header_size) _ _ (ground arith)

  pub unframe-short :
      (raw : Bytes)
      → length raw < frame_header_size
      → unframe_payload sha raw ≡ error (incomplete_header (length raw))
  unfolding unframe_payload
  unframe-short raw h = if_true (ltb (length raw) frame_header_size) _ _ (ground arith)

  unframe-check :
      (payload body : Bytes)
      → length payload < u32_mod
      → unframe_payload sha (pack_header sha payload ++ body)
        ≡ check_frame sha (header_of payload) body
  unframe-check payload body h =
      unframe-parts (header ++ body) (omega (arith, sized, length-append {0} header body))
      ∙ ap₂ (λ t b. check_frame sha (unpack_header t) b) (take_first 41 header body sized)
          (drop_first 41 header body sized)
      ∙ ap (λ t. check_frame sha t body) (unpack_header-pack_header payload h)
    where
      header : Bytes
      header = pack_header sha payload

      sized : length header ≡ 41
      sized = length-pack_header payload

  pub unframe-pack_header :
      (payload rest : Bytes)
      → length payload < u32_mod
      → unframe_payload sha (pack_header sha payload ++ (payload ++ rest)) ≡ ok (payload, rest)
  unframe-pack_header payload rest h =
      unframe-check payload (payload ++ rest) h ∙ check_frame-header_of payload rest

  -- A payload of less than 2³² bytes has a frame, and the frame is read back as that payload and
  -- whatever bytes follow it.
  pub unframe_payload-frame_payload :
      (payload rest : Bytes)
      → length payload < u32_mod
      → (frame : Bytes) × (frame_payload sha payload ≡ ok frame)
        × (unframe_payload sha (frame ++ rest) ≡ ok (payload, rest))
  unframe_payload-frame_payload payload rest h = (
    pack_header sha payload ++ payload,
    unfold frame_payload in ground arith,
    rw (append_assoc (pack_header sha payload) payload rest) (unframe-pack_header payload rest h),
  )

  -- A longer payload has no frame.
  pub frame_payload_too_long :
      (payload : Bytes)
      → u32_mod ≤ length payload
      → frame_payload sha payload ≡ error (too_long (length payload))
  unfolding frame_payload
  frame_payload_too_long payload h = ground arith

  -- A frame that breaks off, in the header or in the payload, is refused as incomplete with the
  -- counts of what is there and what is needed; it is never taken for a shorter packet.
  pub unframe_payload_cut :
      (payload : Bytes) (n : ℕ)
      → length payload < u32_mod
      → n < length payload
      → (unframe_payload sha (pack_header sha payload ++ take n payload)
          ≡ error (incomplete_payload n (length payload)))
        × ((m : ℕ)
            → m < frame_header_size
            → unframe_payload sha (take m (pack_header sha payload)) ≡ error (incomplete_header m))
  unframe_payload_cut payload n h lt =
      (unframe-check payload (take n payload) h ∙ short, λ m small. broken m small)
    where
      short :
          check_frame sha (header_of payload) (take n payload)
          ≡ error (incomplete_payload n (length payload))
      short = unfold check_frame in ground (arith, length-take {0} n payload)

      broken :
          (m : ℕ)
          → m < frame_header_size
          → unframe_payload sha (take m (pack_header sha payload)) ≡ error (incomplete_header m)
      broken m small =
          let size : length (take m (pack_header sha payload)) ≡ m =
            omega
              (arith, length-take {0} m (pack_header sha payload), length-pack_header payload) in
          unframe-short (take m (pack_header sha payload)) (omega (arith, size))
          ∙ ap (λ k. error (incomplete_header k)) size
