-- ===== src/Packet/Resv.antt =====
-- The Resv message of rsvp_msg.c and rsvp_db.c: what `send_resv_message` puts into its packet, and
-- what `resv_tree_insert` takes from one.
use socket.Base.{ℕ, Bool, true, false, Option, none, some, ◌+◌, ◌==◌, if◌then◌else◌}
use socket.Base.Int.{ℤ}
use socket.Base.Run.{Run, ok, fault, ◌>>=◌}
use socket.Label.{Bitmap, no_label, allocate_label}
use socket.Message.{ResvMsg, resv_order}
use socket.Packet.{
  Packet, Datagram, write8, write16, write32, read16, read32, htons, htonl, ◌▸◌, write_class_obj,
  session_obj, hop_obj, time_obj, filter_spec_obj, label_obj, resv_packet_size, ip, is_true,
  inet_pton,
}
use socket.Route.{SrcIp, Routing}
use socket.Tree.{Tree, null, node, search_node, insert_node}

-- The assignments of `send_resv_message` to the header and to the objects.
unfoldable pub fill_resv : ResvMsg → Packet → Packet
unfolding write_class_obj
fill_resv p b =
    b
    ▸ write8 0 16
    ▸ write8 1 2
    ▸ write16 6 (htons resv_packet_size)
    ▸ write16 2 0
    ▸ write8 4 255
    ▸ write8 5 0
    ▸ write_class_obj session_obj 1 7 16
    ▸ write32 (session_obj + 4) p.dest_ip
    ▸ write16 (session_obj + 10) (htons p.tunnel_id)
    ▸ write32 (session_obj + 12) p.src_ip
    ▸ write_class_obj hop_obj 3 1 12
    ▸ write32 (hop_obj + 4) p.e_srcip
    ▸ write32 (hop_obj + 8) (htonl p.ifh)
    ▸ write_class_obj time_obj 5 1 8
    ▸ write32 (time_obj + 4) (htonl p.interval)
    ▸ write_class_obj filter_spec_obj 16 1 12
    ▸ write32 (filter_spec_obj + 4) p.src_ip
    ▸ write16 (filter_spec_obj + 8) 0
    ▸ write16 (filter_spec_obj + 10) 1
    ▸ write_class_obj label_obj 16 1 8
    ▸ write32 (label_obj + 4) (htonl p.in_label)

-- `send_resv_message` with the node that its search returned: nothing is sent for NULL.
unfoldable pub send_resv_data : Packet → Tree ResvMsg → Option Datagram
unfolding fill_resv
send_resv_data stack null = none
send_resv_data stack (node p l r h) =
    some (record { to = p.nexthop_ip; size = resv_packet_size; bytes = fill_resv p stack })

-- `stack` is what stands in the array before it is written.
unfoldable pub send_resv_message : Packet → Tree ResvMsg → ℕ → Option Datagram
unfolding send_resv_data
send_resv_message stack resv_tree tunnel_id = send_resv_data stack (search_node resv_tree tunnel_id)

-- The members that `resv_tree_insert` takes from the packet and from the path, whose previous hop
-- is the next hop of the answer; the others stay as they are.
unfoldable pub read_resv : Packet → ℕ → ResvMsg → ResvMsg
read_resv buffer p_nhip p = record {
  src_ip = read32 (ip + session_obj + 12) buffer;
  dest_ip = read32 (ip + session_obj + 4) buffer;
  nexthop_ip = p_nhip;
  p_srcip = read32 (ip + hop_obj + 4) buffer;
  e_srcip = p.e_srcip;
  tunnel_id = htons (read16 (ip + session_obj + 10) buffer);
  ifh = p.ifh;
  interval = read32 (ip + time_obj + 4) buffer;
  in_label = p.in_label;
  out_label = p.out_label;
  lsp_id = p.lsp_id;
  dev = p.dev;
  prefix_len = p.prefix_len;
}

unfoldable pub set_labels : ℕ → ℕ → ResvMsg → ResvMsg
set_labels in_label out_label p = record {
  src_ip = p.src_ip;
  dest_ip = p.dest_ip;
  nexthop_ip = p.nexthop_ip;
  p_srcip = p.p_srcip;
  e_srcip = p.e_srcip;
  tunnel_id = p.tunnel_id;
  ifh = p.ifh;
  interval = p.interval;
  in_label = in_label;
  out_label = out_label;
  lsp_id = p.lsp_id;
  dev = p.dev;
  prefix_len = p.prefix_len;
}

unfoldable pub set_hop : ℕ → ℕ → ResvMsg → ResvMsg
set_hop e_srcip ifh p = record {
  src_ip = p.src_ip;
  dest_ip = p.dest_ip;
  nexthop_ip = p.nexthop_ip;
  p_srcip = p.p_srcip;
  e_srcip = e_srcip;
  tunnel_id = p.tunnel_id;
  ifh = ifh;
  interval = p.interval;
  in_label = p.in_label;
  out_label = p.out_label;
  lsp_id = p.lsp_id;
  dev = p.dev;
  prefix_len = p.prefix_len;
}

-- `if (get_srcip(nhip, srcip, &ifh)) …`
unfoldable pub set_srcip : Routing → Option ℕ → ResvMsg → ResvMsg
unfolding set_hop
set_srcip routing srcip p =
    by_status (routing.get_srcip (some p.nexthop_ip) (record { srcip = srcip; ifh = 0 }))
  where
    by_status : ℤ × SrcIp → ResvMsg
    by_status (status, src) =
        if is_true status then set_hop (inet_pton src.srcip p.e_srcip) src.ifh p else p

-- The label of `resv_tree_insert`, and the source address towards the next hop. The end of the
-- tunnel asks for a packet without a label (3). Elsewhere the label of the message goes out; the
-- head of the tunnel, which has no next hop, takes none in, and a router between takes a new one.
unfoldable pub label_resv :
    Routing → Option ℕ → Bool → Packet → Bitmap → ResvMsg → Run (ResvMsg × Bitmap)
unfolding set_labels set_hop set_srcip
label_resv routing srcip true buffer m p = ok (set_srcip routing srcip (set_labels 3 no_label p), m)
label_resv routing srcip false buffer m p =
    let out_label = htonl (read32 (ip + label_obj + 4) buffer) in
    if p.nexthop_ip == 0 then ok (set_hop 0 0 (set_labels no_label out_label p), m) else (do
      (m', in_label) ← allocate_label m
      ok (set_srcip routing srcip (set_labels in_label out_label p), m'))

-- What the caller of `malloc` gets: the contents of a new `resv_msg`, or NULL; the second argument
-- is whether `insert_node` gets a node. `srcip` is the array on the stack.
unfoldable pub resv_tree_insert :
    Routing
    → Option ResvMsg
    → Bool
    → Option ℕ
    → Tree ResvMsg
    → Packet
    → ℕ
    → Bool
    → Bitmap
    → Run (Tree ResvMsg × Bitmap)
unfolding read_resv label_resv
resv_tree_insert routing none malloc srcip resv_tree buffer p_nhip path_dst_reach m = fault
resv_tree_insert routing (some new) malloc srcip resv_tree buffer p_nhip path_dst_reach m = do
  (p, m') ← label_resv routing srcip path_dst_reach buffer m (read_resv buffer p_nhip new)
  t ← insert_node malloc resv_tree p
  ok (t, m')
