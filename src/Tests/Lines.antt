-- ===== src/Tests/Lines.antt =====
-- The links on concrete devices: sockets, a serial port, a server and a disk that hold what comes.
use dhava.Common.{
  ℕ, ◌+◌, ◌≡◌, refl, ap, ◌∙◌, true, none, some, [], ◌∷◌, ◌++◌, arith, take, drop, length-take, max,
  take-append-drop, take_first, drop_first, ltb, if◌then◌else◌,
}
use dhava.Result.{ok, raise}
use dhava.Exec.{Exec, pure}
use dhava.Backend.{Bytes}
use dhava.Framing.{frame_payload, pack_header, Framed}
use dhava.Links.{Link}
use dhava.Links.Stream.{Delivers, recv_exactly}
use dhava.Links.Stream.Ends.{Ends, recv_exactly-Ends}
use dhava.Links.Tcp
use dhava.Links.Tcp.{Sockets}
use dhava.Links.Tcp.Intact.{tcp_exchange_intact}
use dhava.Links.Serial
use dhava.Links.Serial.{Ports, SerialLink}
use dhava.Links.Serial.Intact.{Fills}
use dhava.Links.Http
use dhava.Links.Http.{Client}
use dhava.Links.Http.Attempts.{IsFirst, send_receive-IsFirst}
use dhava.Links.File.{Disk, first_bundle}
use dhava.Links.File.Bundles.{TakesFirst, HoldsBytes, first_bundle-TakesFirst}
use dhava.Tests.Packets.{sha, packet, packet-AreBytes}

abbrev question : Bytes
question = 1 ∷ 2 ∷ 3 ∷ []

abbrev reply : Bytes
reply = 4 ∷ 5 ∷ []

-- what the peer sends: the frame of the reply, and a byte that is not part of it
abbrev stream : Bytes
stream = pack_header sha reply ++ (reply ++ 9 ∷ [])

-- a socket that gives one byte at a time
abbrev byte_by_byte : ℕ → Exec Bytes Bytes
byte_by_byte n s = (ok (take 1 s), drop 1 s)

abbrev sockets : Sockets Bytes
sockets = record {
  connect = pure tt;
  sendall = λ b s. (ok tt, stream);
  recv = byte_by_byte;
  disconnect = λ s. [];
  perf_counter = λ s. (7, s);
}

abbrev all_of : Bytes → Bytes
all_of s = s

byte_by_byte-Delivers : Delivers byte_by_byte all_of
byte_by_byte-Delivers = record {
  part = λ n s some_asked some_left. (
    take 1 s,
    refl,
    omega (arith, some_left, length-take {0} 1 s),
    omega (arith, some_asked, length-take {0} 1 s),
    take-append-drop 1 s,
  );
}

abbrev line : Link Bytes
line = record {
  meter = record { bandwidth_bps = 500_000; latency = 20_000; last_received_bytes = none };
  wire = [];
}

question_framed : frame_payload sha question ≡ Framed.ok (pack_header sha question ++ question)
unfolding frame_payload
question_framed = refl

tcp_exchange_intact_example : (Tcp.send_receive sockets sha question line).0 ≡ ok (some reply)
tcp_exchange_intact_example =
    tcp_exchange_intact sockets sha all_of byte_by_byte-Delivers question reply
      (pack_header sha question ++ question) (9 ∷ []) line question_framed refl refl (omega arith)
      refl

recv_exactly-Ends_example : Ends byte_by_byte 5 [] reply (recv_exactly byte_by_byte 5 reply)
recv_exactly-Ends_example = recv_exactly-Ends byte_by_byte 5 reply

abbrev ports : Ports Bytes
ports = record {
  installed = true;
  open_port = pure tt;
  is_open = pure true;
  prepare = pure tt;
  write = λ b s. (ok tt, stream);
  flush = pure tt;
  read = λ n s. (ok (take n s), drop n s);
  close_port = pure tt;
}

ports-Fills : Fills ports.read all_of
ports-Fills = record {
  fill = λ n want rest s sized at. (
    ap (λ x. ok (take n x)) at ∙ ap ok (take_first n want rest sized),
    ap (drop n) at ∙ drop_first n want rest sized,
  );
}

abbrev radio : SerialLink Bytes
radio = record { connected = true; last_received_bytes = none; wire = [] }

radio_ready : Serial.get_serial ports sha radio ≡ (true, radio)
unfolding Serial.get_serial
radio_ready = refl

-- a server that does not answer the first request
abbrev client : Client ℕ
client = record {
  get = pure (record { status_code = 200; content = [] });
  post = λ b s.
      if ltb s 1
      then (raise "timed out", s + 1)
      else (ok (record { status_code = 200; content = reply }), s + 1);
  close_client = pure tt;
  perf_counter = λ s. (7, s);
}

abbrev web : Link ℕ
web = record {
  meter = record { bandwidth_bps = 1_000_000; latency = 50_000; last_received_bytes = none };
  wire = 0;
}

send_receive-IsFirst_example :
    IsFirst client question (max 1 3) web (Http.send_receive client 3 question web)
send_receive-IsFirst_example = send_receive-IsFirst client question 3 web

-- a disk on which every bundle holds the same packet
abbrev stick : Disk (Unit {0})
stick = record {
  export_exists = λ s. true;
  import_exists = λ s. true;
  write_test = pure tt;
  make_export_dir = pure tt;
  bundle_name = λ s. ("ddil_push_1.bundle", s);
  write_bytes = λ name b. pure tt;
  replace = λ name to. pure tt;
  bundles = pure ("a" ∷ "b" ∷ []);
  read_bytes = λ name. pure packet;
  move_to_processed = λ name. pure tt;
}

stick-HoldsBytes : HoldsBytes stick sha
stick-HoldsBytes name s raw h = let same : packet ≡ raw = cc h in rw (← same) packet-AreBytes

first_bundle-TakesFirst_example :
    TakesFirst stick sha ("a" ∷ "b" ∷ []) tt (first_bundle stick sha ("a" ∷ "b" ∷ []) tt)
first_bundle-TakesFirst_example =
    first_bundle-TakesFirst stick sha stick-HoldsBytes ("a" ∷ "b" ∷ []) tt
