-- ===== src/Framing/Sound.antt =====
-- What `unframe_payload` accepts is a frame.
use mathlib.Core.List.{append_assoc}
use dhava.Common.{
  ◌≤◌, ◌<◌, ◌≡◌, sym, ap₂, ◌∙◌, inl, inr, ◌∷◌, ◌++◌, arith, ltb, length, take, drop, All,
  length-take, take-append-drop, Bool-cases, if_true, All-take, lt→ltb, ltb→lt, take_of_length-le,
}
use dhava.Backend.{Bytes}
use dhava.Framing.{
  Sha256, ok, Header, u32_mod, frame_magic, frame_version, frame_header_size, unpack_header,
  pack_header, frame_payload, check_frame, unframe_payload,
}
use dhava.Framing.RoundTrip.{unframe-parts, unframe-short}
use dhava.Framing.Words.{pack_u32-unpack_u32, eq_of_bytes_eq}

-- every item is a byte
abbrev pub AreBytes : Bytes → Type 0
AreBytes = All (λ b. b < 256)

module _ (sha : Sha256) where
  -- What the checks establish about a header and what follows it.
  record Passes (h : Header) (body payload rest : Bytes) : Type 0 where
    pub magic : h.magic ≡ frame_magic
    pub version : h.version ≡ frame_version
    pub size : h.size ≡ length payload
    pub digest : h.digest ≡ sha.digest payload
    pub parts : body ≡ payload ++ rest

  check_frame-Passes :
      (h : Header) (body payload rest : Bytes)
      → check_frame sha h body ≡ ok (payload, rest)
      → Passes h body payload rest
  unfolding check_frame
  check_frame-Passes h body payload rest e = ground (
    arith,
    eq_of_bytes_eq h.magic frame_magic,
    eq_of_bytes_eq (sha.digest (take h.size body)) h.digest,
    take-append-drop h.size body,
    length-take {0} h.size body,
  )

  header-eq :
      (hb payload : Bytes)
      → length hb ≡ frame_header_size
      → AreBytes hb
      → (unpack_header hb).magic ≡ frame_magic
      → (unpack_header hb).version ≡ frame_version
      → (unpack_header hb).size ≡ length payload
      → (unpack_header hb).digest ≡ sha.digest payload
      → (hb ≡ pack_header sha payload) × (length payload < u32_mod)
  unfolding unpack_header pack_header
  header-eq (m0 ∷ m1 ∷ m2 ∷ m3 ∷ v ∷ a ∷ b ∷ c ∷ d ∷ t) payload len bytes magic version size
        digest =
      ground (
        arith,
        pack_u32-unpack_u32 a b c d (omega arith) (omega arith) (omega arith) (omega arith),
        take_of_length-le 32 t (omega arith),
      )
  header-eq _ payload len bytes magic version size digest = absurd (omega arith)

  -- What is accepted is the frame of the payload that is returned, followed by the bytes that are
  -- returned as the rest: `unframe_payload` takes no other text for a packet.
  pub frame_of_unframe :
      (raw payload rest : Bytes)
      → AreBytes raw
      → unframe_payload sha raw ≡ ok (payload, rest)
      → (frame : Bytes) × (frame_payload sha payload ≡ ok frame) × (raw ≡ frame ++ rest)
  frame_of_unframe raw payload rest bytes accepted = (
    pack_header sha payload ++ payload,
    unfold frame_payload in
        if_true (ltb (length payload) u32_mod) _ _ (lt→ltb (length payload) u32_mod whole.1),
    sym (take-append-drop 41 raw)
        ∙ ap₂ ◌++◌ whole.0 passes.parts
        ∙ sym (append_assoc (pack_header sha payload) payload rest),
  )
    where
      header : Bytes
      header = take frame_header_size raw

      long : frame_header_size ≤ length raw
      long = elim (Bool-cases (ltb (length raw) frame_header_size)) [
        | inl short ↦
            cc (accepted, unframe-short sha raw (ltb→lt (length raw) frame_header_size short))
        | inr enough ↦ ground arith
      ]

      passes : Passes (unpack_header header) (drop frame_header_size raw) payload rest
      passes = check_frame-Passes _ _ payload rest (sym (unframe-parts sha raw long) ∙ accepted)

      whole : (header ≡ pack_header sha payload) × (length payload < u32_mod)
      whole =
          header-eq header payload (omega (arith, length-take {0} 41 raw, long))
            (All-take (λ b. b < 256) 41 raw bytes) passes.magic passes.version passes.size
            passes.digest
