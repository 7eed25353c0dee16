-- ===== src/Links/Serial/Intact.antt =====
-- What comes back from an exchange over a serial port.
use dhava.Common.{
  ℕ, ◌<◌, ◌≡◌, refl, sym, ap, ◌∙◌, true, Option, none, some, [], ◌++◌, length, ltb, arith, if_false,
}
use mathlib.Core.List.{append-nil}
use dhava.Result.{Result, ok}
use dhava.Exec.{Exec, ◌>>◌}
use dhava.Backend.{Bytes}
use dhava.Framing
use dhava.Framing.{Sha256, frame_payload, unframe_payload, pack_header, frame_header_size, u32_mod}
use dhava.Framing.RoundTrip.{length-pack_header, unframe-pack_header}
use dhava.Links.{rescued_ok, parse_header-pack_header}
use dhava.Links.Serial.{
  Ports, SerialLink, get_serial, if_all, extract, read_payload, read_frame, talk, send_receive,
}

-- A port that gives all the bytes asked for once they have come.
pub record Fills {N : Type 0} (read : ℕ → Exec N Bytes) (content : N → Bytes) : Type 0 where
  pub fill :
      (n : ℕ) (want rest : Bytes) (s : N)
      → length want ≡ n
      → content s ≡ want ++ rest
      → ((read n s).0 ≡ ok want) × (content (read n s).1 ≡ rest)

module _ {N : Type 0} (port : Ports N) (sha : Sha256) (content : N → Bytes)
    (fills : Fills port.read content) where
  if_all-eq :
      (n : ℕ) (bytes : Bytes) (next : Exec (SerialLink N) (Option Bytes)) (l : SerialLink N)
      → length bytes ≡ n
      → if_all port sha n bytes next l ≡ next l
  if_all-eq n bytes next l h = if_false (ltb (length bytes) n) _ _ (ground (arith, h))

  extract_intact :
      (reply : Bytes) (l : SerialLink N)
      → length reply < u32_mod
      → (extract port sha (pack_header sha reply ++ reply) l).0 ≡ ok (some reply)
  unfolding extract
  extract_intact reply l h =
      rw
        (ap (λ x. unframe_payload sha (pack_header sha reply ++ x)) (sym (append-nil reply))
          ∙ unframe-pack_header sha reply [] h)
        refl

  read_payload_intact :
      (reply rest : Bytes) (l : SerialLink N)
      → length reply < u32_mod
      → content l.wire ≡ reply ++ rest
      → (read_payload port sha (pack_header sha reply) l).0 ≡ ok (some reply)
  unfolding read_payload
  read_payload_intact reply rest l h at =
      let m = record l { wire = (port.read (length reply) l.wire).1 } in
      let body = extract port sha (pack_header sha reply ++ reply) in
      rw
        (
          parse_header-pack_header sha reply l h,
          (fills.fill (length reply) reply rest l.wire refl at).0,
        )
        (ap (λ (run : Result (Option Bytes) × SerialLink N). run.0)
            (if_all-eq (length reply) reply body m refl)
          ∙ extract_intact reply m h)

  read_frame_intact :
      (reply rest : Bytes) (l : SerialLink N)
      → length reply < u32_mod
      → content l.wire ≡ pack_header sha reply ++ (reply ++ rest)
      → (read_frame port sha l).0 ≡ ok (some reply)
  unfolding read_frame
  read_frame_intact reply rest l h at =
      let header = pack_header sha reply in
      let k =
        fills.fill frame_header_size header (reply ++ rest) l.wire (length-pack_header sha reply)
          at in
      let m = record l { wire = (port.read frame_header_size l.wire).1 } in
      rw k.0 (
        ap (λ (run : Result (Option Bytes) × SerialLink N). run.0)
          (if_all-eq frame_header_size header (read_payload port sha header) m
            (length-pack_header sha reply))
        ∙ read_payload_intact reply rest m h k.1)

  -- If there is a port, the request goes out, and the peer answers with the frame of a payload,
  -- whatever follows it, then an exchange returns that payload.
  pub serial_exchange_intact :
      (request reply sent rest : Bytes) (l k : SerialLink N)
      → let ready = (port.prepare k.wire).1 in
        let asked = (port.write sent >> port.flush) ready in
        get_serial port sha l ≡ (true, k)
        → (port.prepare k.wire).0 ≡ ok tt
        → frame_payload sha request ≡ Framing.ok sent
        → asked.0 ≡ ok tt
        → length reply < u32_mod
        → content asked.1 ≡ pack_header sha reply ++ (reply ++ rest)
        → (send_receive port sha request l).0 ≡ ok (some reply)
  unfolding send_receive talk
  serial_exchange_intact request reply sent rest l k there prepared framing writes h at =
      let asked = ((port.write sent >> port.flush) (port.prepare k.wire).1).1 in
      rw (there, prepared, framing, writes)
        (rescued_ok none _ (some reply)
          (read_frame_intact reply rest (record k { wire = asked }) h at))
