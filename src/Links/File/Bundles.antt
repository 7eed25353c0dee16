-- ===== src/Links/File/Bundles.antt =====
-- transports/file.py: which bundle a receiver takes, and what becomes of it.
use dhava.Common.{
  String, ◌≡◌, refl, ap, Option, none, some, List, [], ◌∷◌, ◌++◌, length, arith, ltb, inl, inr,
  Bool-cases,
}
use dhava.Result.{Result, ok, raise}
use dhava.Exec.{continue, ◌>>◌, ◌>>=◌, pure}
use dhava.Backend.{Bytes}
use dhava.Framing
use dhava.Framing.{Sha256, Framed, u32_mod, frame_payload, unframe_payload}
use dhava.Framing.RoundTrip.{unframe_payload-frame_payload, frame_payload_too_long}
use dhava.Framing.Sound.{AreBytes, frame_of_unframe}
use dhava.Links.{framed, rescued}
use dhava.Links.File.{Disk, take_bundle, first_bundle, or_next}

module _ {N : Type 0} (disk : Disk N) (sha : Sha256) where
  -- The bytes begin with the frame of this payload.
  abbrev pub HoldsFrame : Bytes → Bytes → Type 0
  HoldsFrame raw payload =
      (frame : Bytes) × (rest : Bytes) × (raw ≡ frame ++ rest)
      × (frame_payload sha payload ≡ Framing.ok frame)

  -- What may happen to a bundle, from the state before it to the state after it: it cannot be read, it
  -- begins with no frame, its frame is whole but it cannot be moved away, or it is moved away.
  pub data Unusable (name : String) (s : N) : N → Type 0 where
    unreadable :
        {problem : String} {t : N} → disk.read_bytes name s ≡ (raise problem, t) → Unusable name s t
    no_frame :
        {raw : Bytes} {t : N}
        → disk.read_bytes name s ≡ (ok raw, t)
        → ((payload : Bytes) → ¬ HoldsFrame raw payload)
        → Unusable name s t
    stuck :
        {raw : Bytes} (payload : Bytes) {problem : String} {t u : N}
        → disk.read_bytes name s ≡ (ok raw, t)
        → HoldsFrame raw payload
        → disk.move_to_processed name t ≡ (raise problem, u)
        → Unusable name s u

  pub data Taken (name : String) (s : N) (payload : Bytes) : N → Type 0 where
    moved_away :
        {raw : Bytes} {t u : N}
        → disk.read_bytes name s ≡ (ok raw, t)
        → HoldsFrame raw payload
        → disk.move_to_processed name t ≡ (ok tt, u)
        → Taken name s payload u

  -- How a turn through the bundles may end.
  pub data TakesFirst : List String → N → Result (Option Bytes) × N → Type 0 where
    none_left : {s : N} → TakesFirst [] s (ok none, s)
    takes_first :
        {name : String} {names : List String} {payload : Bytes} {s t : N}
        → Taken name s payload t
        → TakesFirst (name ∷ names) s (ok (some payload), t)
    passes_over :
        {name : String} {names : List String} {s t : N} {run : Result (Option Bytes) × N}
        → Unusable name s t
        → TakesFirst names t run
        → TakesFirst (name ∷ names) s run

  -- What is on a disk is bytes.
  abbrev pub HoldsBytes : Type 0
  HoldsBytes =
      (name : String) (s : N) (raw : Bytes) → (disk.read_bytes name s).0 ≡ ok raw → AreBytes raw

  refused_frame :
      (raw : Bytes) (e : Framing.FrameError)
      → unframe_payload sha raw ≡ Framing.error e
      → (payload : Bytes) → ¬ HoldsFrame raw payload
  refused_frame raw e refused payload (frame, rest, parts, made) =
      elim (Bool-cases (ltb (length payload) u32_mod)) [
        | inl fits ↦
            let (other, made', accepted) =
              unframe_payload-frame_payload sha payload rest (ground (arith, fits)) in
            cc (parts, made, made', accepted, refused)
        | inr longer ↦ cc (made, frame_payload_too_long sha payload (ground (arith, longer)))
      ]

  -- What a call of `take_bundle` is.
  data Attempted (name : String) (s : N) : Result (Option Bytes) × N → Type 0 where
    nothing : {t : N} → Unusable name s t → Attempted name s (ok none, t)
    found :
        {payload : Bytes} {t : N} → Taken name s payload t → Attempted name s (ok (some payload), t)

  moved :
      (name : String) (s : N) (raw payload : Bytes) (t : N)
      → disk.read_bytes name s ≡ (ok raw, t)
      → HoldsFrame raw payload
      → (run : Result (Unit {0}) × N) → disk.move_to_processed name t ≡ run
      → Attempted name s (rescued none (continue run.0 (λ _. pure (some payload)) run.1))
  moved name s raw payload t at whole (ok _, u) m = found (moved_away at whole m)
  moved name s raw payload t at whole (raise e, u) m = nothing (stuck payload at whole m)

  unframed :
      (name : String) (s : N) (raw : Bytes) (t : N)
      → AreBytes raw
      → disk.read_bytes name s ≡ (ok raw, t)
      → (o : Framed (Bytes × Bytes)) → unframe_payload sha raw ≡ o
      → Attempted name s (
          rescued none
            ((framed o >>= λ parts. disk.move_to_processed name >> pure (some parts.0)) t))
  unframed name s raw t bytes at (Framing.ok (payload, rest)) e =
      let (frame, made, parts) = frame_of_unframe sha raw payload rest bytes e in
      moved name s raw payload t at (frame, rest, parts, made) (disk.move_to_processed name t) refl
  unframed name s raw t bytes at (Framing.error e) refused =
      nothing (no_frame at (refused_frame raw e refused))

  read-Attempted :
      HoldsBytes
      → (name : String) (s : N) (run : Result Bytes × N) → disk.read_bytes name s ≡ run
      → Attempted name s (
          rescued none (
            continue run.0
              (λ raw. framed (unframe_payload sha raw) >>= λ parts.
                disk.move_to_processed name >> pure (some parts.0))
              run.1))
  read-Attempted holds name s (raise e, t) at = nothing (unreadable at)
  read-Attempted holds name s (ok raw, t) at =
      unframed name s raw t (holds name s raw (ap (λ (o : Result Bytes × N). o.0) at)) at
        (unframe_payload sha raw) refl

  Attempted-TakesFirst :
      (name : String) (names : List String) (s : N) (run : Result (Option Bytes) × N)
      → Attempted name s run
      → ((t : N) → TakesFirst names t (first_bundle disk sha names t))
      → TakesFirst
          (name ∷ names)
          s
          (continue run.0 (λ payload. or_next disk sha payload (first_bundle disk sha names)) run.1)
  Attempted-TakesFirst name names s run (nothing {t} h) ih = passes_over h (ih t)
  Attempted-TakesFirst name names s run (found h) ih = takes_first h

  -- Of the bundles, in their order, the first that can be read, begins with a frame and can be moved
  -- away is taken: the receiver returns the payload of that frame, and leaves the bundle moved away.
  -- Each bundle before it could not be read, begins with the frame of no payload, or could not be
  -- moved away. Without such a bundle nothing is returned. No exception leaves the loop. The disk
  -- holds bytes.
  pub first_bundle-TakesFirst :
      HoldsBytes
      → (names : List String) (s : N) → TakesFirst names s (first_bundle disk sha names s)
  unfolding first_bundle take_bundle
  first_bundle-TakesFirst holds [] s = none_left
  first_bundle-TakesFirst holds (name ∷ names) s =
      Attempted-TakesFirst name names s (take_bundle disk sha name s)
        (read-Attempted holds name s (disk.read_bytes name s) refl)
        (first_bundle-TakesFirst holds names)
