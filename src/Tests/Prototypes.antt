-- ===== src/Tests/Prototypes.antt =====
-- The packets of the older program.
use socket.Base.{◌≡◌, refl, none, some, [], ◌∷◌, ◌==◌, if◌then◌else◌, arith}
use socket.Base.Run.{ok}
use socket.Packet.{Packet, Datagram, read8, write32, write16, write8, htonl, htons, read32, read16}
use socket.Packet.Path.{read_path}
use socket.Message.{PathMsg}
use socket.Prototype.{
  packet_size, send_resv_message1, send_path_message1, receive_resv_message1, get_resv_class_obj,
}
use socket.Prototype.Loop.{label_of, repeat, label_objects, receive_resv_message1_lem}
use socket.Prototype.Trip.{receive-send_resv_message1, read_path-send_path_message1}
use socket.Tests.Packets.{path_msg, zeros, deliver, deliver-Delivers}

-- The Resv message from 10.0.0.2 to 10.0.0.1, with no route.
abbrev answer : Packet
answer = Datagram.bytes (send_resv_message1 zeros none 0x0100000a 0x0200000a)

receive_resv_message1_lem_example :
    receive_resv_message1 (deliver answer)
    ≡ ok (repeat (label_objects (deliver answer) get_resv_class_obj) (label_of (deliver answer)))
receive_resv_message1_lem_example = receive_resv_message1_lem (deliver answer)

receive-send_resv_message1_example :
    receive_resv_message1 (deliver answer)
    ≡ ok (if zeros 46 == 16 then 1001 ∷ 1001 ∷ [] else 1001 ∷ [])
receive-send_resv_message1_example =
    receive-send_resv_message1 zeros (deliver answer) none 0x0100000a 0x0200000a
      (deliver-Delivers packet_size answer)

-- A stack that holds 16 everywhere.
printed_twice :
    receive_resv_message1
      (deliver (Datagram.bytes (send_resv_message1 (λ _. 16) none 0x0100000a 0x0200000a)))
    ≡ ok (1001 ∷ 1001 ∷ [])
unfolding receive_resv_message1 send_resv_message1 read8 write32 write16 write8 htonl htons read32
    read16
printed_twice = refl

-- The Path message from 10.0.0.1 to 10.0.0.2, by way of 10.0.0.9.
abbrev request : Packet
request = Datagram.bytes (send_path_message1 zeros (some 0x0900000a) 0x0100000a 0x0200000a)

read_path-send_path_message1_example :
    (Datagram.to (send_path_message1 zeros (some 0x0900000a) 0x0100000a 0x0200000a) ≡ 0x0900000a)
    × (PathMsg.tunnel_id (read_path (deliver request) path_msg) ≡ 256)
    × (PathMsg.src_ip (read_path (deliver request) path_msg) ≡ 0x0100000a)
    × (PathMsg.dest_ip (read_path (deliver request) path_msg) ≡ 0x0200000a)
    × (PathMsg.p_srcip (read_path (deliver request) path_msg) ≡ 0x0900000a)
read_path-send_path_message1_example =
    read_path-send_path_message1 zeros (deliver request) 0x0900000a 0x0100000a 0x0200000a path_msg
      (omega arith) (omega arith) (omega arith) (deliver-Delivers packet_size request)
