-- ===== src/Tests/Traces.antt =====
-- A router takes a label for one tunnel, and is the end of another one.
use socket.Base.{◌≡◌, ◌≢◌, refl, none, some, Option, [], ◌∷◌, ◌-◌, arith}
use socket.Base.Run.{Run, ok, fault, out_of_fuel}
use socket.Daemon.{
  Env, Command, answer_resv, store_resv, inserted_resv, install, receive_resv_message,
}
use socket.Label.{label_min, allocate_label}
use socket.Label.Digits.{used}
use socket.Main.{
  Server, Outcome, goes, ends, exits, receive, path_case, resv_case, inserted_path, reached_path,
}
use socket.Main.Distinct.{Reached-distinct}
use socket.Main.Reach.{Reached, round}
use socket.Main.Valid.{IsReady}
use socket.Message.{
  ResvMsg, path_order, resv_order, compare_path_del, compare_path_insert, compare_resv_del,
  compare_resv_insert,
}
use socket.Packet.{
  Packet, htons, htonl, read8, read16, read32, write8, write16, write32, write_class_obj,
}
use socket.Packet.Path.{
  fill_path, path_tree_insert, read_path, read_name, route_path, set_route, send_path_message,
  send_path_data,
}
use socket.Packet.Resv.{
  fill_resv, read_resv, label_resv, set_labels, set_hop, set_srcip, resv_tree_insert,
  send_resv_message, send_resv_data,
}
use socket.Receive.{
  receive_path_message, insert_path, answer_path, tunnel_id_of, set_path_tree, insert_resv,
  set_resv_tree,
}
use socket.Route.Subnet.{subnet_mask}
use socket.Session.{nil, search_session, search_loop, load, store, insert_session, strcpy, write}
use socket.Session.Chain.{Cells, Chain}
use socket.Session.Insert.{new_entry}
use socket.Session.Join.{dst_reached, insert_new, insert, insert_reached}
use socket.Tests.Daemons.{env}
use socket.Tests.Mains.{
  clock, later, server, server_of, sent_of, server-Reached, server-IsReady, resv_packet, enough,
}
use socket.Tests.Packets.{path_msg, resv_msg, zeros, deliver}
use socket.Tests.Routers.{host_here}
use socket.Timer.Event.{event_handler}
use socket.Tree.{Tree, null, node, search_node, insert_node, create_node, rebalance_insert}
use socket.Tree.Search.{data_of}

abbrev command_of : Run Outcome → Option Command
command_of (ok (goes s c g)) = c
command_of (ok (ends s)) = none
command_of (ok exits) = none
command_of fault = none
command_of out_of_fuel = none

-- The server after the Resv message.
abbrev second : Server
second = server_of (receive later clock (some resv_packet) server)

second_round :
    receive later clock (some resv_packet) server
    ≡ ok (
        goes second
          (command_of (receive later clock (some resv_packet) server))
          (sent_of (receive later clock (some resv_packet) server)))
unfolding receive event_handler path_case reached_path inserted_path dst_reached insert_new
    search_session search_loop load store insert_session strcpy receive_path_message insert_path
    search_node path_tree_insert insert_node answer_path path_order htons read16 fill_path write16
    write8 write32 tunnel_id_of read32 compare_path_del htonl read8 write_class_obj set_path_tree
    create_node rebalance_insert read_path read_name route_path set_route compare_path_insert
    send_path_message send_path_data write resv_case receive_resv_message answer_resv insert
    insert_reached store_resv resv_tree_insert read_resv label_resv set_labels set_hop set_srcip
    allocate_label inserted_resv install subnet_mask fill_resv send_resv_message send_resv_data
    resv_order compare_resv_del compare_resv_insert insert_resv set_resv_tree
second_round = refl

-- The destination of the other tunnel is on a link.
abbrev at_end : Env
at_end = record env { malloc = 30; now = 520; host = host_here }

abbrev other_packet : Packet
other_packet = deliver (fill_path (record path_msg { tunnel_id = 5 }) zeros)

abbrev third : Server
third = server_of (receive at_end clock (some other_packet) second)

third_round :
    receive at_end clock (some other_packet) second
    ≡ ok (
        goes third
          (command_of (receive at_end clock (some other_packet) second))
          (sent_of (receive at_end clock (some other_packet) second)))
unfolding receive event_handler path_case reached_path inserted_path dst_reached insert_new
    search_session search_loop load store insert_session strcpy receive_path_message insert_path
    search_node path_tree_insert insert_node answer_path path_order htons read16 fill_path write16
    write8 write32 tunnel_id_of read32 compare_path_del htonl read8 write_class_obj set_path_tree
    create_node rebalance_insert read_path read_name route_path set_route compare_path_insert
    send_path_message send_path_data write resv_case receive_resv_message answer_resv insert
    insert_reached store_resv resv_tree_insert read_resv label_resv set_labels set_hop set_srcip
    allocate_label inserted_resv install subnet_mask fill_resv send_resv_message send_resv_data
    resv_order compare_resv_del compare_resv_insert insert_resv set_resv_tree
third_round = refl

abbrev path_cells : Cells
path_cells = (10, new_entry 500 0x1234 [] [] 0) ∷ []

abbrev resv_cells : Cells
resv_cells = (20, new_entry 510 0x1234 [] [] 0) ∷ []

second-Chain :
    Chain second.daemon.heap second.daemon.path_head path_cells
    × Chain second.daemon.heap second.daemon.resv_head resv_cells
    × (second.daemon.heap 30 ≡ none)
unfolding receive event_handler path_case reached_path inserted_path dst_reached insert_new
    search_session search_loop load store insert_session strcpy receive_path_message insert_path
    search_node path_tree_insert insert_node answer_path path_order htons read16 fill_path write16
    write8 write32 tunnel_id_of read32 compare_path_del htonl read8 write_class_obj set_path_tree
    create_node rebalance_insert read_path read_name route_path set_route compare_path_insert
    send_path_message send_path_data write resv_case receive_resv_message answer_resv insert
    insert_reached store_resv resv_tree_insert read_resv label_resv set_labels set_hop set_srcip
    allocate_label inserted_resv install subnet_mask fill_resv send_resv_message send_resv_data
    resv_order compare_resv_del compare_resv_insert insert_resv set_resv_tree
second-Chain = (
  (refl, omega arith, refl, (nil, refl, refl)),
  (refl, omega arith, refl, (nil, refl, refl)),
  refl,
)

second-IsReady : IsReady at_end second.daemon
second-IsReady = record {
  path = path_msg;
  resv = resv_msg;
  new_path = refl;
  new_resv = refl;
  real = omega arith;
  unused = second-Chain.2;
  fits = λ a. omega arith;
  names = λ a out e. omega arith;
  out_names = λ a out e. omega arith;
  path_fuel =
      enough second.daemon.heap second.daemon.path_head path_cells 4 second-Chain.0 (omega arith);
  resv_fuel =
      enough second.daemon.heap second.daemon.resv_head resv_cells 4 second-Chain.1 (omega arith);
}

third-Reached : Reached third
third-Reached =
    round {s = second} {s' = third}
      (round {s = server} {s' = second} server-Reached later clock (some resv_packet) server-IsReady
        second_round)
      at_end clock (some other_packet) second-IsReady third_round

abbrev message_of : Tree ResvMsg → ResvMsg
message_of null = resv_msg
message_of (node q l r h) = q

-- The message with the label 16, and the one with the label 3.
abbrev between : ResvMsg
between = message_of (search_node third.daemon.router.resv_tree 0x1234)

abbrev ending : ResvMsg
ending = message_of (search_node third.daemon.router.resv_tree 5)

in_table :
    (data_of (search_node third.daemon.router.resv_tree 0x1234) ≡ some between)
    × (data_of (search_node third.daemon.router.resv_tree 5) ≡ some ending)
    × (between.in_label ≡ 16)
    × (ending.in_label ≡ 3)
unfolding receive event_handler path_case reached_path inserted_path dst_reached insert_new
    search_session search_loop load store insert_session strcpy receive_path_message insert_path
    search_node path_tree_insert insert_node answer_path path_order htons read16 fill_path write16
    write8 write32 tunnel_id_of read32 compare_path_del htonl read8 write_class_obj set_path_tree
    create_node rebalance_insert read_path read_name route_path set_route compare_path_insert
    send_path_message send_path_data write resv_case receive_resv_message answer_resv insert
    insert_reached store_resv resv_tree_insert read_resv label_resv set_labels set_hop set_srcip
    allocate_label inserted_resv install subnet_mask fill_resv send_resv_message send_resv_data
    resv_order compare_resv_del compare_resv_insert insert_resv set_resv_tree
in_table = (refl, refl, refl, refl)

Reached-distinct_example :
    (between.in_label ≢ ending.in_label)
    × (used third.daemon.router.labels (between.in_label - label_min) ≡ 1)
Reached-distinct_example =
    Reached-distinct third 0x1234 5 between ending third-Reached in_table.0 in_table.1
      (omega (arith, in_table.2)) (omega (arith, in_table.2)) (omega arith)
