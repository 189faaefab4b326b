-- ===== src/Tests/Daemons.antt =====
-- A daemon that receives a Resv message, and two daemons that set up a tunnel.
use socket.Base.{◌≡◌, refl, Option, none, some, [], arith}
use socket.Base.Run.{Run, ok, fault, out_of_fuel, Returns}
use socket.Daemon.{Daemon, Env, receive_resv_message}
use socket.Daemon.Resv.{Received, receive_resv_message_lem}
use socket.Packet.ResvTrip.{IsResvMsg}
use socket.Message.{
  ResvMsg, path_order, resv_order, compare_path_del, compare_resv_del, compare_path_insert,
  compare_resv_insert,
}
use socket.Packet.{
  htons, htonl, read8, read16, read32, write8, write16, write32, write_class_obj, Packet, Datagram,
  resv_packet_size,
}
use socket.Packet.Path.{fill_path, path_tree_insert, read_name, route_path, set_route, read_path}
use socket.Packet.Resv.{
  fill_resv, resv_tree_insert, send_resv_message, label_resv, read_resv, set_labels, set_hop,
  set_srcip,
}
use socket.Packet.ResvInsert.{send_resv_message_lem}
use socket.Receive.{
  Router, receive_path_message, insert_path, answer_path, tunnel_id_of, insert_resv, set_path_tree,
  set_resv_tree,
}
use socket.Session.{nil}
use socket.Session.Chain.{Cells}
use socket.Tests.Packets.{
  path_table, path_found, resv_is_absent, deliver-Delivers, path_msg, resv_msg, resv_table,
  resv_found, resv_msg-IsResvMsg, zeros, deliver, no_resvs, resv_null-IsTable,
}
use socket.Tests.Routers.{host, host_here, router}
use socket.Tree.{insert_node, create_node, rebalance_insert, Tree, null, node, search_node}
use socket.Tree.Search.{data_of}

-- A daemon that has sent a Path message, and has no session.
abbrev pub daemon : Daemon
daemon = record {
  router = record { path_tree = path_table; resv_tree = no_resvs; labels = zeros; nhip = none };
  heap = λ a. none;
  path_head = nil;
  resv_head = nil;
}

abbrev pub env : Env
env = record {
  host = host;
  inet_ntop = λ a. [];
  out = record { nh_ip = none; pref_len = 0; dev = []; ifh = 0 };
  malloc = 10;
  now = 500;
  fuel = 4;
  undefined_shift = 1;
  srcip_of = λ p. 8;
}

abbrev no_cells : Cells
no_cells = []

receive_resv_message_lem_example :
    Returns
      (Received env (deliver (fill_resv resv_msg zeros)) path_msg daemon no_cells resv_msg)
      (receive_resv_message env (deliver (fill_resv resv_msg zeros)) daemon)
receive_resv_message_lem_example =
    receive_resv_message_lem env (deliver (fill_resv resv_msg zeros)) resv_msg path_msg daemon
      no_cells resv_table 0x1234 resv_msg zeros
      (record { to = 3; size = resv_packet_size; bytes = fill_resv resv_msg zeros }) refl refl
      (omega arith) refl (λ a. omega arith) refl (omega arith) resv_found resv_msg-IsResvMsg
      (send_resv_message_lem zeros resv_table 0x1234 resv_msg resv_found)
      (deliver-Delivers resv_packet_size (fill_resv resv_msg zeros)) resv_null-IsTable
      resv_is_absent path_found

-- The Path message at the end of the tunnel.
abbrev pub to_end : Packet
to_end = deliver (fill_path path_msg zeros)

abbrev state_of : Run (Router × Option Datagram) → Router
state_of (ok (s, g)) = s
state_of fault = router
state_of out_of_fuel = router

abbrev message_of : Tree ResvMsg → ResvMsg
message_of (node q l r h) = q
message_of null = resv_msg

abbrev end_state : Router
end_state = state_of (receive_path_message host_here to_end router)

abbrev pub answer : ResvMsg
answer = message_of end_state.resv_tree

abbrev reply : Datagram
reply = record { to = 4; size = resv_packet_size; bytes = fill_resv answer zeros }

-- What the end of the tunnel computes.
at_end :
    (receive_path_message host_here to_end router ≡ ok (end_state, some reply))
    × (data_of (search_node end_state.resv_tree 0x1234) ≡ some answer)
    × IsResvMsg answer
unfolding receive_path_message insert_path search_node path_tree_insert insert_node answer_path
    path_order htons read16 fill_path write16 write8 write32 tunnel_id_of resv_tree_insert
    send_resv_message resv_order read32 compare_path_del compare_resv_del htonl read8
    write_class_obj insert_resv set_path_tree set_resv_tree create_node rebalance_insert label_resv
    read_resv set_labels set_hop set_srcip read_path read_name route_path set_route
    compare_path_insert compare_resv_insert
at_end = (
  refl,
  refl,
  record {
    src_ip = omega arith;
    dest_ip = omega arith;
    e_srcip = omega arith;
    in_label = omega arith;
    tunnel_id = omega arith;
  },
)
