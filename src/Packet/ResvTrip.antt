-- ===== src/Packet/ResvTrip.antt =====
-- A Resv message through a packet: what `resv_tree_insert` reads of what `send_resv_message` wrote.
use socket.Base.{ℕ, ◌≡◌, refl, ◌∙◌, ap, ◌<◌, ◌^◌, arith}
use socket.Message.{ResvMsg}
use socket.Packet.{
  Packet, write8, write16, write32, read8, read16, read32, htons, htonl, Delivers, resv_packet_size,
}
use socket.Packet.Bytes.{
  htons-htons, htonl-htonl, htons-bound, htonl-bound, read16-Delivers, read32-Delivers,
}
use socket.Packet.Resv.{fill_resv, read_resv}

-- The members of a `resv_msg` are in the ranges of their C types.
pub record IsResvMsg (p : ResvMsg) : Type 0 where
  pub src_ip : p.src_ip < 2 ^ 32
  pub dest_ip : p.dest_ip < 2 ^ 32
  pub e_srcip : p.e_srcip < 2 ^ 32
  pub in_label : p.in_label < 2 ^ 32
  pub tunnel_id : p.tunnel_id < 2 ^ 16

-- What `p` becomes on its way, but for the labels.
abbrev pub ArrivesResv : ResvMsg → ResvMsg → Type 0
ArrivesResv p q =
    (q.tunnel_id ≡ p.tunnel_id)
    × (q.src_ip ≡ p.src_ip)
    × (q.dest_ip ≡ p.dest_ip)
    × (q.p_srcip ≡ p.e_srcip)
    × (q.interval ≡ htonl p.interval)

module _ (p : ResvMsg) (stack buffer : Packet) (h : IsResvMsg p)
    (d : Delivers resv_packet_size (fill_resv p stack) buffer) where
  resv_tunnel_id : htons (read16 38 buffer) ≡ p.tunnel_id
  unfolding fill_resv write8 write16 write32 read8 htons
  resv_tunnel_id =
      ap htons (
        read16-Delivers _ _ buffer d 18 (htons p.tunnel_id) (omega arith) (htons-bound p.tunnel_id)
          (refl, refl))
      ∙ htons-htons p.tunnel_id h.tunnel_id

  resv_addresses :
      (read32 40 buffer ≡ p.src_ip)
      × (read32 32 buffer ≡ p.dest_ip)
      × (read32 48 buffer ≡ p.e_srcip)
  unfolding fill_resv write8 write16 write32 read8
  resv_addresses = (
    read32-Delivers _ _ buffer d 20 p.src_ip (omega arith) h.src_ip ((refl, refl), (refl, refl)),
    read32-Delivers _ _ buffer d 12 p.dest_ip (omega arith) h.dest_ip ((refl, refl), (refl, refl)),
    read32-Delivers _ _ buffer d 28 p.e_srcip (omega arith) h.e_srcip ((refl, refl), (refl, refl)),
  )

  resv_interval : read32 60 buffer ≡ htonl p.interval
  unfolding fill_resv write8 write16 write32 read8 htonl htons
  resv_interval =
      read32-Delivers _ _ buffer d 40 (htonl p.interval) (omega arith) (htonl-bound p.interval)
        ((refl, refl), (refl, refl))

  pub resv_label : htonl (read32 80 buffer) ≡ p.in_label
  unfolding fill_resv write8 write16 write32 read8 htonl htons
  resv_label =
      ap htonl (
        read32-Delivers _ _ buffer d 60 (htonl p.in_label) (omega arith) (htonl-bound p.in_label)
          ((refl, refl), (refl, refl)))
      ∙ htonl-htonl p.in_label h.in_label

  pub read_resv-fill_resv :
      (p_nhip : ℕ) (new : ResvMsg) → ArrivesResv p (read_resv buffer p_nhip new)
  unfolding read_resv
  read_resv-fill_resv p_nhip new =
      let (src, dest, hop) = resv_addresses in (resv_tunnel_id, src, dest, hop, resv_interval)
