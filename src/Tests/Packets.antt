-- ===== src/Tests/Packets.antt =====
-- Messages between two routers at concrete values.
use socket.Base.{
  ◌∷◌, ◌≤◌, ℕ, ◌+◌, ◌-◌, ◌≡◌, refl, true, false, none, some, [], ltb, if◌then◌else◌, arith,
}
use socket.Base.Int.{pos}
use socket.Base.Run.{ok, Returns}
use socket.Message.{PathMsg, ResvMsg, path_order, resv_order, compare_path_del, compare_resv_del}
use socket.Packet.{Packet, Delivers, read8, path_packet_size, resv_packet_size}
use socket.Packet.Objects.{message, fill_path_lem, fill_resv_lem}
use socket.Packet.Path.{fill_path, read_path, route_path, path_tree_insert}
use socket.Packet.PathInsert.{FromRoute, path_hop, send_path_message_lem}
use socket.Packet.PathTrip.{IsPathMsg, ArrivesPath}
use socket.Packet.Resv.{fill_resv, resv_tree_insert}
use socket.Packet.ResvInsert.{Stored, resv_hop, send_resv_message_lem}
use socket.Packet.ResvTrip.{IsResvMsg}
use socket.Route.{Routing}
use socket.Tree.{Tree, null, node, search_node}
use socket.Tree.Refines.{IsTable}
use socket.Tree.Search.{data_of}

-- Every address is behind the router 7 on the interface 2.
abbrev pub routing : Routing
routing = record {
  get_nexthop = λ dest old. (pos 1, record { nh_ip = some 7; pref_len = 24; dev = []; ifh = 2 });
  get_srcip = λ hop old. (pos 1, record { srcip = some 8; ifh = 2 });
}

abbrev pub path_msg : PathMsg
path_msg = record {
  src_ip = 0x01010101;
  dest_ip = 0x02020202;
  nexthop_ip = 3;
  p_srcip = 0;
  e_srcip = 4;
  tunnel_id = 0x1234;
  ifh = 1;
  interval = 30;
  prefix_len = 24;
  setup_priority = 7;
  hold_priority = 7;
  flags = 0;
  lsp_id = 1;
  dev = [];
  name = [];
}

abbrev pub path_table : Tree PathMsg
path_table = node path_msg null null 1

abbrev pub resv_msg : ResvMsg
resv_msg = record {
  src_ip = 0x01010101;
  dest_ip = 0x02020202;
  nexthop_ip = 3;
  p_srcip = 0;
  e_srcip = 4;
  tunnel_id = 0x1234;
  ifh = 1;
  interval = 30;
  in_label = 16;
  out_label = 3;
  lsp_id = 1;
  dev = [];
  prefix_len = 24;
}

abbrev pub resv_table : Tree ResvMsg
resv_table = node resv_msg null null 1

abbrev pub no_paths : Tree PathMsg
no_paths = null

abbrev pub no_resvs : Tree ResvMsg
no_resvs = null

abbrev pub zeros : Packet
zeros = λ i. 0

-- A packet behind an IP header.
abbrev pub deliver : Packet → Packet
deliver packet = λ i. if ltb i 20 then 0 else packet (i - 20)

shut : (i : ℕ) → ltb (20 + i) 20 ≡ false
shut i = ground arith

shift : (i : ℕ) → 20 + i - 20 ≡ i
shift i = omega arith

pub deliver-Delivers : (size : ℕ) (packet : Packet) → Delivers size packet (deliver packet)
unfolding read8
deliver-Delivers size packet i h = rw (shut i, shift i) refl

pub path_found : data_of (search_node path_table 0x1234) ≡ some path_msg
unfolding search_node path_order compare_path_del
path_found = refl

pub resv_found : data_of (search_node resv_table 0x1234) ≡ some resv_msg
unfolding search_node resv_order compare_resv_del
resv_found = refl

pub path_is_absent : data_of (search_node no_paths 0x1234) ≡ none
unfolding search_node
path_is_absent = refl

pub resv_is_absent : data_of (search_node no_resvs 0x1234) ≡ none
unfolding search_node
resv_is_absent = refl

pub path_msg-IsPathMsg : IsPathMsg path_msg
path_msg-IsPathMsg = record {
  src_ip = omega arith;
  dest_ip = omega arith;
  e_srcip = omega arith;
  tunnel_id = omega arith;
  setup_priority = omega arith;
  hold_priority = omega arith;
  flags = omega arith;
}

pub resv_msg-IsResvMsg : IsResvMsg resv_msg
resv_msg-IsResvMsg = record {
  src_ip = omega arith;
  dest_ip = omega arith;
  e_srcip = omega arith;
  in_label = omega arith;
  tunnel_id = omega arith;
}

pub path_null-IsTable : IsTable no_paths
path_null-IsTable = record { balanced = omega arith; ordered = omega arith }

pub resv_null-IsTable : IsTable no_resvs
resv_null-IsTable = record { balanced = omega arith; ordered = omega arith }

path_hop_example :
    (u' : Tree PathMsg) × (q : PathMsg) × (path_tree_insert routing
        (some path_msg)
        true
        none
        []
        none
        null
        (deliver (fill_path path_msg zeros))
      ≡ ok (u', some 7))
    × IsTable u'
    × (data_of (search_node u' 0x1234) ≡ some q)
    × (q
        ≡ route_path routing none
            (read_path (deliver (fill_path path_msg zeros)) path_msg)
            (record { nh_ip = some 7; pref_len = 24; dev = []; ifh = 2 }))
    × ArrivesPath path_msg q
    × FromRoute routing none
        (record { nh_ip = some 7; pref_len = 24; dev = []; ifh = 2 })
        path_msg
        q
path_hop_example =
    path_hop routing path_msg none none [] (pos 1)
      (record { nh_ip = some 7; pref_len = 24; dev = []; ifh = 2 }) null
      (deliver (fill_path path_msg zeros)) refl path_table 0x1234 path_msg zeros
      (record { to = 3; size = path_packet_size; bytes = fill_path path_msg zeros }) path_found
      path_msg-IsPathMsg (send_path_message_lem zeros path_table 0x1234 path_msg path_found)
      (deliver-Delivers path_packet_size (fill_path path_msg zeros)) refl (omega arith)
      path_null-IsTable path_is_absent

resv_hop_example :
    Returns
      (λ (u', m').
        IsTable u'
        × ((q : ResvMsg) × (data_of (search_node u' 0x1234) ≡ some q)
            × Stored zeros 9 resv_msg (q, m')))
      (resv_tree_insert routing
        (some resv_msg)
        true
        none
        null
        (deliver (fill_resv resv_msg zeros))
        9
        false
        zeros)
resv_hop_example =
    resv_hop routing resv_msg none null resv_table zeros 0x1234 9 resv_msg zeros
      (deliver (fill_resv resv_msg zeros))
      (record { to = 3; size = resv_packet_size; bytes = fill_resv resv_msg zeros }) resv_found
      resv_msg-IsResvMsg (send_resv_message_lem zeros resv_table 0x1234 resv_msg resv_found)
      (deliver-Delivers resv_packet_size (fill_resv resv_msg zeros)) resv_null-IsTable
      resv_is_absent

fill_path_lem_example :
    (message (fill_path path_msg zeros) ≡ (
      (16, 1),
      path_packet_size,
      some ((1, 7) ∷ (3, 1) ∷ (5, 1) ∷ (19, 1) ∷ (207, 7) ∷ (11, 7) ∷ []),
    ))
    × ((i : ℕ) → path_packet_size ≤ i → fill_path path_msg zeros i ≡ zeros i)
fill_path_lem_example = fill_path_lem path_msg zeros

fill_resv_lem_example :
    (message (fill_resv resv_msg zeros)
      ≡ ((16, 2), resv_packet_size, some ((1, 7) ∷ (3, 1) ∷ (5, 1) ∷ (16, 1) ∷ (16, 1) ∷ [])))
    × ((i : ℕ) → resv_packet_size ≤ i → fill_resv resv_msg zeros i ≡ zeros i)
fill_resv_lem_example = fill_resv_lem resv_msg zeros
