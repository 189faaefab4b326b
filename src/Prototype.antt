-- ===== src/Prototype.antt =====
-- rsvp_msg1.c, an older version of rsvp_msg.c: its packets have 256 bytes, and the label is always
-- 1001. The text of the next hop that `get_nexthop` leaves in `nhip` is an argument; what the
-- functions print but the label is left out.
pub mod Loop
pub mod Trip
use socket.Base.{ℕ, Option, none, some, List, [], ◌∷◌, ◌++◌, ◌+◌, ◌==◌, if◌then◌else◌}
use socket.Base.Run.{Run, ok, fault, ◌>>=◌}
use socket.Packet.{
  Packet, Datagram, write8, write16, write32, read8, read32, htons, htonl, ◌▸◌, write_class_obj,
  session_obj, hop_obj, time_obj, label_req_obj, session_attr_obj, sender_temp_obj, filter_spec_obj,
  label_obj, ip,
}

-- `sizeof(resv_packet)`.
abbrev pub packet_size : ℕ
packet_size = 256

-- `inet_pton(AF_INET, nhip, …)`: a text that is no address leaves the member as it was.
abbrev pub write_address : ℕ → Option ℕ → Packet → Packet
write_address at none b = b
write_address at (some a) b = write32 at a b

-- The header and the first three objects, which the two messages share; the tunnel id and the
-- numbers are in the order of the host.
unfoldable pub fill_common : ℕ → Option ℕ → ℕ → ℕ → Packet → Packet
unfolding write_class_obj
fill_common msg_type nhip sender_ip receiver_ip b =
    b
    ▸ write8 0 16
    ▸ write8 1 msg_type
    ▸ write16 6 (htons packet_size)
    ▸ write16 2 0
    ▸ write8 4 255
    ▸ write8 5 0
    ▸ write_class_obj session_obj 1 7 16
    ▸ write32 (session_obj + 4) receiver_ip
    ▸ write16 (session_obj + 10) 1
    ▸ write32 (session_obj + 12) sender_ip
    ▸ write_class_obj hop_obj 3 1 12
    ▸ write_address (hop_obj + 4) nhip
    ▸ write32 (hop_obj + 8) 123
    ▸ write_class_obj time_obj 5 1 8
    ▸ write32 (time_obj + 4) 123

-- `send_resv_message`: the packet goes to the sender of the Path message.
unfoldable pub send_resv_message1 : Packet → Option ℕ → ℕ → ℕ → Datagram
unfolding fill_common
send_resv_message1 stack nhip sender_ip receiver_ip = record {
  to = sender_ip;
  size = packet_size;
  bytes =
      fill_common 2 nhip sender_ip receiver_ip stack
      ▸ write_class_obj label_obj 16 1 8
      ▸ write32 (label_obj + 4) (htonl 1001);
}

unfoldable pub fill_path1 : Packet → Option ℕ → ℕ → ℕ → Packet
unfolding fill_common
fill_path1 stack nhip sender_ip receiver_ip =
    fill_common 1 nhip sender_ip receiver_ip stack
    ▸ write_class_obj label_req_obj 19 1 8
    ▸ write16 (label_req_obj + 6) (htonl 2048)
    ▸ write_class_obj session_attr_obj 207 1 40
    ▸ write8 (session_attr_obj + 4) 7
    ▸ write8 (session_attr_obj + 5) 7
    ▸ write8 (session_attr_obj + 6) 0
    ▸ write8 (session_attr_obj + 7) 4
    ▸ write_class_obj sender_temp_obj 11 7 12
    ▸ write32 (sender_temp_obj + 4) sender_ip
    ▸ write16 (sender_temp_obj + 8) 0
    ▸ write16 (sender_temp_obj + 10) 2

-- `send_path_message`: the packet goes to the next hop that stands in it.
unfoldable pub send_path_message1 : Packet → Option ℕ → ℕ → ℕ → Datagram
unfolding fill_path1
send_path_message1 stack nhip sender_ip receiver_ip = record {
  to = read32 (hop_obj + 4) (fill_path1 stack nhip sender_ip receiver_ip);
  size = packet_size;
  bytes = fill_path1 stack nhip sender_ip receiver_ip;
}

-- Where the objects begin in a packet that is received.
abbrev pub get_path_class_obj : List ℕ
get_path_class_obj =
    (ip + session_obj)
    ∷ (ip + hop_obj)
    ∷ (ip + time_obj)
    ∷ (ip + label_req_obj)
    ∷ (ip + session_attr_obj)
    ∷ (ip + sender_temp_obj)
    ∷ []

abbrev pub get_resv_class_obj : List ℕ
get_resv_class_obj =
    (ip + session_obj)
    ∷ (ip + hop_obj)
    ∷ (ip + time_obj)
    ∷ (ip + filter_spec_obj)
    ∷ (ip + label_obj)
    ∷ []

-- The loop of `receive_resv_message` over `class_obj_arr`, up to a 0, and the labels that it
-- prints. To read past the array is a fault.
unfoldable pub class_obj_loop : Packet → List ℕ → Run (List ℕ)
class_obj_loop buffer [] = fault
class_obj_loop buffer (at ∷ rest) =
    let more = class_obj_loop buffer rest in
    if at == 0 then ok [] else (do
      labels ← more
      ok (
          if read8 (at + 2) buffer == 16
          then htonl (read32 (ip + label_obj + 4) buffer) ∷ labels
          else labels))

-- `receive_resv_message`: the array has 10 elements, which are 0 but for the first five.
unfoldable pub receive_resv_message1 : Packet → Run (List ℕ)
unfolding class_obj_loop
receive_resv_message1 buffer = class_obj_loop buffer (get_resv_class_obj ++ 0 ∷ 0 ∷ 0 ∷ 0 ∷ 0 ∷ [])
