-- ===== src/Packet/Path.antt =====
-- The Path message of rsvp_msg.c and rsvp_db.c: what `send_path_message` puts into its packet, and
-- what `path_tree_insert` takes from one.
use socket.Base.{ℕ, zero, suc, Bool, Option, none, some, List, [], ◌∷◌, ◌+◌, ◌==◌, if◌then◌else◌}
use socket.Base.Int.{ℤ}
use socket.Base.Run.{Run, ok, fault, ◌>>=◌}
use socket.Message.{PathMsg, path_order}
use socket.Packet.{
  Datagram, is_true, inet_pton, Packet, write8, write16, write32, read8, read16, read32, htons,
  htonl, ◌▸◌, write_class_obj, session_obj, hop_obj, time_obj, label_req_obj, session_attr_obj,
  sender_temp_obj, path_packet_size, ip,
}
use socket.Route.{NextHop, SrcIp, Routing, copy_dev}
use socket.Tree.{Tree, null, node, search_node, insert_node}

-- The assignments of `send_path_message` to the header and to the objects.
unfoldable pub fill_path : PathMsg → Packet → Packet
unfolding write_class_obj
fill_path p b =
    b
    ▸ write8 0 16
    ▸ write8 1 1
    ▸ write16 6 (htons path_packet_size)
    ▸ write16 2 0
    ▸ write8 4 255
    ▸ write8 5 0
    ▸ write_class_obj session_obj 1 7 16
    ▸ write32 (session_obj + 4) p.dest_ip
    ▸ write16 (session_obj + 10) (htons p.tunnel_id)
    ▸ write32 (session_obj + 12) p.src_ip
    ▸ write_class_obj hop_obj 3 1 12
    ▸ write32 (hop_obj + 4) p.e_srcip
    ▸ write32 (hop_obj + 8) (htonl p.ifh)
    ▸ write_class_obj time_obj 5 1 8
    ▸ write32 (time_obj + 4) (htonl p.interval)
    ▸ write_class_obj label_req_obj 19 1 8
    ▸ write16 (label_req_obj + 6) (htons 2048)
    ▸ write_class_obj session_attr_obj 207 7 40
    ▸ write8 (session_attr_obj + 4) p.setup_priority
    ▸ write8 (session_attr_obj + 5) p.hold_priority
    ▸ write8 (session_attr_obj + 6) p.flags
    ▸ write8 (session_attr_obj + 7) 4
    ▸ write_class_obj sender_temp_obj 11 7 12
    ▸ write32 (sender_temp_obj + 4) p.src_ip
    ▸ write16 (sender_temp_obj + 8) 0
    ▸ write16 (sender_temp_obj + 10) (htons p.lsp_id)

-- `send_path_message` with the node that its search returned: nothing is sent for NULL.
unfoldable pub send_path_data : Packet → Tree PathMsg → Option Datagram
unfolding fill_path
send_path_data stack null = none
send_path_data stack (node p l r h) =
    some (record { to = p.nexthop_ip; size = path_packet_size; bytes = fill_path p stack })

-- `stack` is what stands in the array before it is written.
unfoldable pub send_path_message : Packet → Tree PathMsg → ℕ → Option Datagram
unfolding send_path_data
send_path_message stack path_tree tunnel_id = send_path_data stack (search_node path_tree tunnel_id)

-- `strncpy(p->name, Name, 31)` and the final zero, as a text.
unfoldable pub read_name : ℕ → ℕ → Packet → List ℕ
unfolding read8
read_name zero k b = []
read_name (suc count) k b =
    let rest = read_name count (k + 1) b in if read8 k b == 0 then [] else read8 k b ∷ rest

-- The members that `path_tree_insert` takes from the packet; the others stay as they are.
unfoldable pub read_path : Packet → PathMsg → PathMsg
unfolding read_name
read_path buffer p = record {
  src_ip = read32 (ip + session_obj + 12) buffer;
  dest_ip = read32 (ip + session_obj + 4) buffer;
  nexthop_ip = p.nexthop_ip;
  p_srcip = read32 (ip + hop_obj + 4) buffer;
  e_srcip = p.e_srcip;
  tunnel_id = htons (read16 (ip + session_obj + 10) buffer);
  ifh = p.ifh;
  interval = read32 (ip + time_obj + 4) buffer;
  prefix_len = p.prefix_len;
  setup_priority = read8 (ip + session_attr_obj + 4) buffer;
  hold_priority = read8 (ip + session_attr_obj + 5) buffer;
  flags = read8 (ip + session_attr_obj + 6) buffer;
  lsp_id = 1;
  dev = p.dev;
  name = read_name 31 (ip + session_attr_obj + 8) buffer;
}

-- The members that `path_tree_insert` takes from the route.
unfoldable pub set_route : Option ℕ → ℕ → ℕ → ℕ → List ℕ → PathMsg → PathMsg
set_route nexthop e_srcip ifh prefix_len dev p = record {
  src_ip = p.src_ip;
  dest_ip = p.dest_ip;
  nexthop_ip = inet_pton nexthop p.nexthop_ip;
  p_srcip = p.p_srcip;
  e_srcip = e_srcip;
  tunnel_id = p.tunnel_id;
  ifh = ifh;
  interval = p.interval;
  prefix_len = prefix_len;
  setup_priority = p.setup_priority;
  hold_priority = p.hold_priority;
  flags = p.flags;
  lsp_id = p.lsp_id;
  dev = dev;
  name = p.name;
}

-- The branches of `path_tree_insert` on the text of the next hop, where there is a route.
unfoldable pub route_path : Routing → Option ℕ → PathMsg → NextHop → PathMsg
unfolding set_route
route_path routing srcip p nh = by_text nh.nh_ip
  where
    by_srcip : ℕ → ℤ × SrcIp → PathMsg
    by_srcip a (status, src) =
        if is_true status
        then set_route (some a) (inet_pton src.srcip p.e_srcip) src.ifh nh.pref_len nh.dev p
        else set_route (some a) p.e_srcip p.ifh nh.pref_len nh.dev p

    by_text : Option ℕ → PathMsg
    by_text none = set_route (some 0) 0 0 nh.pref_len nh.dev p
    by_text (some a) =
        by_srcip a (routing.get_srcip (some a) (record { srcip = srcip; ifh = nh.ifh }))

-- What the caller of `malloc` gets: the contents of a new `path_msg`, or NULL; the second argument
-- is whether `insert_node` gets a node. `nhip` is the global text, `dev` and `srcip` are the arrays
-- on the stack. The result is the new tree, NULL where there is no route, and the new `nhip`.
unfoldable pub path_tree_insert :
    Routing
    → Option PathMsg
    → Bool
    → Option ℕ
    → List ℕ
    → Option ℕ
    → Tree PathMsg
    → Packet
    → Run (Tree PathMsg × Option ℕ)
unfolding read_path route_path
path_tree_insert routing none malloc nhip dev srcip path_tree buffer = fault
path_tree_insert routing (some new) malloc nhip dev srcip path_tree buffer =
    insert
      (routing.get_nexthop p.dest_ip (record { nh_ip = nhip; pref_len = 0; dev = dev; ifh = 0 }))
  where
    p : PathMsg
    p = read_path buffer new

    insert : ℤ × NextHop → Run (Tree PathMsg × Option ℕ)
    insert (status, nh) =
        if is_true status
        then copy_dev nh.dev
            (do t ← insert_node malloc path_tree (route_path routing srcip p nh); ok (t, nh.nh_ip))
        else ok (null, nh.nh_ip)
