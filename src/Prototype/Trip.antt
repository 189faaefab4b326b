-- ===== src/Prototype/Trip.antt =====
-- The packets of rsvp_msg1.c, received by rsvp_msg1.c and by the daemon.
use socket.Base.{
  ℕ, Option, none, some, ◌<◌, ◌^◌, ◌≡◌, refl, ap, ◌∙◌, [], ◌∷◌, ◌==◌, if◌then◌else◌, Bool-cases,
  inl, inr, arith,
}
use socket.Base.Run.{ok}
use socket.Message.{PathMsg}
use socket.Packet.{Packet, Datagram, Delivers, write8, write16, write32, read8, htons, htonl}
use socket.Packet.Bytes.{
  Holds32, read32-Holds32, htonl-htonl, htonl-bound, read8-Delivers, read16-Delivers,
  read32-Delivers,
}
use socket.Packet.Path.{read_path}
use socket.Prototype.{
  packet_size, send_resv_message1, send_path_message1, receive_resv_message1, get_resv_class_obj,
  fill_path1, fill_common,
}
use socket.Prototype.Loop.{label_of, label_objects, receive_resv_message1_lem}

-- The classes of the five objects, and the label. The class of the filter spec is not written.
abbrev HasLabel : Packet → Packet → Type 0
HasLabel stack b =
    (read8 10 b ≡ 1)
    × (read8 26 b ≡ 3)
    × (read8 38 b ≡ 5)
    × (read8 46 b ≡ stack 46)
    × (read8 58 b ≡ 16)
    × Holds32 60 (htonl 1001) b

resv_message1-HasLabel :
    (stack : Packet) (nhip : Option ℕ) (sender_ip receiver_ip : ℕ)
    → HasLabel stack (Datagram.bytes (send_resv_message1 stack nhip sender_ip receiver_ip))
unfolding send_resv_message1 fill_common write8 write16 write32 read8 htonl htons
resv_message1-HasLabel stack none sender_ip receiver_ip =
    (refl, refl, refl, refl, refl, ((refl, refl), (refl, refl)))
resv_message1-HasLabel stack (some a) sender_ip receiver_ip =
    (refl, refl, refl, refl, refl, ((refl, refl), (refl, refl)))

label_of-HasLabel :
    (stack packet buffer : Packet)
    → HasLabel stack packet
    → Delivers packet_size packet buffer
    → label_of buffer ≡ 1001
label_of-HasLabel stack packet buffer (session, hop, time, filter, label, number) d =
    ap htonl (read32-Delivers _ _ buffer d 60 (htonl 1001) (omega arith) (htonl-bound 1001) number)
    ∙ htonl-htonl 1001 (omega arith)

label_objects-HasLabel :
    (stack packet buffer : Packet)
    → HasLabel stack packet
    → Delivers packet_size packet buffer
    → label_objects buffer get_resv_class_obj ≡ (if stack 46 == 16 then 2 else 1)
label_objects-HasLabel stack packet buffer (session, hop, time, filter, label, number) d =
    rw
      (
        read8-Delivers packet_size packet buffer d 10 30 1 (omega arith) refl session,
        read8-Delivers packet_size packet buffer d 26 46 3 (omega arith) refl hop,
        read8-Delivers packet_size packet buffer d 38 58 5 (omega arith) refl time,
        read8-Delivers packet_size packet buffer d 46 66 (stack 46) (omega arith) refl filter,
        read8-Delivers packet_size packet buffer d 58 78 16 (omega arith) refl label,
      )
      refl

-- `receive_resv_message` of rsvp_msg1.c prints 1001 of a packet of its `send_resv_message`: once,
-- or twice if the byte that nothing has written, where a filter spec would begin, is 16.
pub receive-send_resv_message1 :
    (stack buffer : Packet) (nhip : Option ℕ) (sender_ip receiver_ip : ℕ)
    → Delivers packet_size
        (Datagram.bytes (send_resv_message1 stack nhip sender_ip receiver_ip))
        buffer
    → receive_resv_message1 buffer ≡ ok (if stack 46 == 16 then 1001 ∷ 1001 ∷ [] else 1001 ∷ [])
receive-send_resv_message1 stack buffer nhip sender_ip receiver_ip d =
    let has = resv_message1-HasLabel stack nhip sender_ip receiver_ip in
    rw
      (
        receive_resv_message1_lem buffer,
        label_objects-HasLabel stack _ buffer has d,
        label_of-HasLabel stack _ buffer has d,
      )
      (elim (Bool-cases (stack 46 == 16)) [ inl twice ↦ rw twice refl | inr once ↦ rw once refl ])

-- A Path message of rsvp_msg1.c with the next hop `a` is sent to `a`. In the daemon,
-- `path_tree_insert` reads the same source and destination from it, but the tunnel id 256 for 1, and
-- `a` itself as the previous hop.
pub read_path-send_path_message1 :
    (stack buffer : Packet) (a sender_ip receiver_ip : ℕ) (new : PathMsg)
    → a < 2 ^ 32
    → sender_ip < 2 ^ 32
    → receiver_ip < 2 ^ 32
    → Delivers packet_size
        (Datagram.bytes (send_path_message1 stack (some a) sender_ip receiver_ip))
        buffer
    → (Datagram.to (send_path_message1 stack (some a) sender_ip receiver_ip) ≡ a)
      × (PathMsg.tunnel_id (read_path buffer new) ≡ 256)
      × (PathMsg.src_ip (read_path buffer new) ≡ sender_ip)
      × (PathMsg.dest_ip (read_path buffer new) ≡ receiver_ip)
      × (PathMsg.p_srcip (read_path buffer new) ≡ a)
unfolding send_path_message1 fill_path1 fill_common read_path write8 write16 write32 read8 htonl
    htons
read_path-send_path_message1 stack buffer a sender_ip receiver_ip new ha hs hr d = (
  read32-Holds32 _ 28 a ha ((refl, refl), (refl, refl)),
  ap htons (read16-Delivers _ _ buffer d 18 1 (omega arith) (omega arith) (refl, refl)),
  read32-Delivers _ _ buffer d 20 sender_ip (omega arith) hs ((refl, refl), (refl, refl)),
  read32-Delivers _ _ buffer d 12 receiver_ip (omega arith) hr ((refl, refl), (refl, refl)),
  read32-Delivers _ _ buffer d 28 a (omega arith) ha ((refl, refl), (refl, refl)),
)
