-- ===== src/Packet/PathTrip.antt =====
-- A Path message through a packet: what `path_tree_insert` reads of what `send_path_message` wrote.
use socket.Base.{◌≡◌, refl, ◌∙◌, ap, ◌<◌, ◌^◌, arith}
use socket.Message.{PathMsg}
use socket.Packet.{
  Packet, write8, write16, write32, read8, read16, read32, htons, htonl, Delivers, path_packet_size,
}
use socket.Packet.Bytes.{htons-htons, htons-bound, htonl-bound, read16-Delivers, read32-Delivers}
use socket.Packet.Path.{fill_path, read_path}

-- The members of a `path_msg` are in the ranges of their C types.
pub record IsPathMsg (p : PathMsg) : Type 0 where
  pub src_ip : p.src_ip < 2 ^ 32
  pub dest_ip : p.dest_ip < 2 ^ 32
  pub e_srcip : p.e_srcip < 2 ^ 32
  pub tunnel_id : p.tunnel_id < 2 ^ 16
  pub setup_priority : p.setup_priority < 2 ^ 8
  pub hold_priority : p.hold_priority < 2 ^ 8
  pub flags : p.flags < 2 ^ 8

-- What `p` becomes on its way: the receiver's message has the hop of the sender as its previous
-- hop, and the interval with its bytes in the other order, as it is not converted back.
abbrev pub ArrivesPath : PathMsg → PathMsg → Type 0
ArrivesPath p q =
    (q.tunnel_id ≡ p.tunnel_id)
    × (q.src_ip ≡ p.src_ip)
    × (q.dest_ip ≡ p.dest_ip)
    × (q.p_srcip ≡ p.e_srcip)
    × (q.setup_priority ≡ p.setup_priority)
    × (q.hold_priority ≡ p.hold_priority)
    × (q.flags ≡ p.flags)
    × (q.interval ≡ htonl p.interval)

module _ (p : PathMsg) (stack buffer : Packet) (h : IsPathMsg p)
    (d : Delivers path_packet_size (fill_path p stack) buffer) where
  path_tunnel_id : htons (read16 38 buffer) ≡ p.tunnel_id
  unfolding fill_path write8 write16 write32 read8 htons
  path_tunnel_id =
      ap htons (
        read16-Delivers _ _ buffer d 18 (htons p.tunnel_id) (omega arith) (htons-bound p.tunnel_id)
          (refl, refl))
      ∙ htons-htons p.tunnel_id h.tunnel_id

  path_addresses :
      (read32 40 buffer ≡ p.src_ip)
      × (read32 32 buffer ≡ p.dest_ip)
      × (read32 48 buffer ≡ p.e_srcip)
  unfolding fill_path write8 write16 write32 read8
  path_addresses = (
    read32-Delivers _ _ buffer d 20 p.src_ip (omega arith) h.src_ip ((refl, refl), (refl, refl)),
    read32-Delivers _ _ buffer d 12 p.dest_ip (omega arith) h.dest_ip ((refl, refl), (refl, refl)),
    read32-Delivers _ _ buffer d 28 p.e_srcip (omega arith) h.e_srcip ((refl, refl), (refl, refl)),
  )

  path_interval : read32 60 buffer ≡ htonl p.interval
  unfolding fill_path write8 write16 write32 read8 htonl htons
  path_interval =
      read32-Delivers _ _ buffer d 40 (htonl p.interval) (omega arith) (htonl-bound p.interval)
        ((refl, refl), (refl, refl))

  path_priorities :
      (read8 76 buffer ≡ p.setup_priority)
      × (read8 77 buffer ≡ p.hold_priority)
      × (read8 78 buffer ≡ p.flags)
  unfolding fill_path write8 write16 write32 read8
  path_priorities = (
    d 56 (omega arith) ∙ omega arith,
    d 57 (omega arith) ∙ omega arith,
    d 58 (omega arith) ∙ omega arith,
  )

  pub read_path-fill_path : (new : PathMsg) → ArrivesPath p (read_path buffer new)
  unfolding read_path
  read_path-fill_path new =
      let (src, dest, hop) = path_addresses in
      let (setup, hold, flags) = path_priorities in
      (path_tunnel_id, src, dest, hop, setup, hold, flags, path_interval)
