-- ===== src/Links/Tcp/Intact.antt =====
-- What comes back from an exchange over a socket.
use dhava.Common.{ℕ, ◌<◌, ◌≡◌, refl, sym, ap, ◌∙◌, some, [], ◌++◌, length}
use mathlib.Core.List.{append-nil}
use dhava.Result.{ok}
use dhava.Models.{Time}
use dhava.Backend.{Bytes}
use dhava.Framing
use dhava.Framing.{
  Sha256, Header, frame_payload, unframe_payload, pack_header, unpack_header, frame_header_size,
  u32_mod,
}
use dhava.Framing.RoundTrip.{length-pack_header, unframe-pack_header}
use dhava.Links.{Link, parse_header-pack_header}
use dhava.Links.Stream.{Delivers, recv_exactly, recv_exactly-Reads}
use dhava.Links.Tcp.{Sockets, conclude, read_payload, read_frame, talk, send_receive}

module _ {N : Type 0} (net : Sockets N) (sha : Sha256) (content : N → Bytes)
    (socket : Delivers net.recv content) where
  conclude_intact :
      (start : Time) (sent : ℕ) (reply : Bytes) (l : Link N)
      → length reply < u32_mod
      → (conclude net sha start sent (pack_header sha reply ++ reply) l).0 ≡ ok (some reply)
  unfolding conclude
  conclude_intact start sent reply l h =
      rw
        (ap (λ x. unframe_payload sha (pack_header sha reply ++ x)) (sym (append-nil reply))
          ∙ unframe-pack_header sha reply [] h)
        refl

  read_payload_intact :
      (start : Time) (sent : ℕ) (reply rest : Bytes) (l : Link N)
      → length reply < u32_mod
      → content l.wire ≡ reply ++ rest
      → (read_payload net sha start sent (pack_header sha reply) l).0 ≡ ok (some reply)
  unfolding read_payload
  read_payload_intact start sent reply rest l h at =
      let k = recv_exactly-Reads net.recv content socket (length reply) reply rest l.wire refl at in
      rw (parse_header-pack_header sha reply l h, k.0)
        (conclude_intact start sent reply
          (record l { wire = (recv_exactly net.recv (length reply) l.wire).1 }) h)

  read_frame_intact :
      (start : Time) (sent : ℕ) (reply rest : Bytes) (l : Link N)
      → length reply < u32_mod
      → content l.wire ≡ pack_header sha reply ++ (reply ++ rest)
      → (read_frame net sha start sent l).0 ≡ ok (some reply)
  unfolding read_frame
  read_frame_intact start sent reply rest l h at =
      let k =
        recv_exactly-Reads net.recv content socket frame_header_size (pack_header sha reply)
          (reply ++ rest) l.wire (length-pack_header sha reply) at in
      rw k.0 (
        read_payload_intact start sent reply rest
          (record l { wire = (recv_exactly net.recv frame_header_size l.wire).1 }) h k.1)

  -- If the connection opens, the request is sent, and the peer answers with the frame of a payload,
  -- whatever follows it, then an exchange returns that payload, however the socket cuts the answer up.
  pub tcp_exchange_intact :
      (request reply sent rest : Bytes) (l : Link N)
      → let started = (net.perf_counter l.wire).1 in
        let connected = (net.connect started).1 in
        let asked = net.sendall sent connected in
        frame_payload sha request ≡ Framing.ok sent
        → (net.connect started).0 ≡ ok tt
        → asked.0 ≡ ok tt
        → length reply < u32_mod
        → content asked.1 ≡ pack_header sha reply ++ (reply ++ rest)
        → (send_receive net sha request l).0 ≡ ok (some reply)
  unfolding send_receive talk
  tcp_exchange_intact request reply sent rest l framing opens writes h at =
      let started = (net.perf_counter l.wire).1 in
      let asked = (net.sendall sent (net.connect started).1).1 in
      rw
        (
          opens,
          framing,
          writes,
          read_frame_intact (net.perf_counter l.wire).0 (length sent) reply rest
              (record l { wire = asked }) h at,
        )
        refl
