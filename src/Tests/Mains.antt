-- ===== src/Tests/Mains.antt =====
-- A server that receives a Path message and then a Resv message.
use socket.Base.{ℕ, ◌≡◌, ◌≤◌, ◌<◌, refl, subst, none, some, Option, true, [], ◌∷◌, length, arith}
use socket.Base.Run.{Run, ok, fault, out_of_fuel, Returns}
use socket.Daemon.{Env}
use socket.Main.{
  Server, Outcome, goes, ends, exits, receive, path_case, inserted_path, reached_path,
}
use socket.Main.Reach.{Reached, start, round, receive-Reached}
use socket.Main.Valid.{IsDaemon, IsReady, OutcomeIsDaemon}
use socket.Message.{path_order, resv_order, compare_path_del, compare_path_insert}
use socket.Receive.{receive_path_message, insert_path, answer_path, tunnel_id_of, set_path_tree}
use socket.Tree.{search_node, insert_node, create_node, rebalance_insert, depth, get_height}
use socket.Main.Height.{Reached-depth}
use socket.Session.Join.{dst_reached, insert_new}
use socket.Packet.{
  Packet, Datagram, htons, htonl, read8, read16, read32, write8, write16, write32, write_class_obj,
}
use socket.Packet.Path.{
  fill_path, path_tree_insert, read_path, read_name, route_path, set_route, send_path_message,
  send_path_data,
}
use socket.Packet.Resv.{fill_resv}
use socket.Session.{
  nil, Heap, Ptr, search_session, search_loop, load, store, insert_session, strcpy, write,
}
use socket.Session.Chain.{Cells, Chain, Chain-unique}
use socket.Session.Insert.{new_entry}
use socket.Tests.Packets.{path_msg, resv_msg, zeros, deliver, no_paths, no_resvs}
use socket.Tests.Daemons.{env}
use socket.Timer.Event.{Clock, event_handler}

-- Timers are made and run.
abbrev pub clock : Clock
clock = record {
  timer_gettime = λ id. some (30, 0);
  timer_create = some 1;
  timer_settime = λ id. true;
}

abbrev pub empty : Server
empty = record {
  daemon = record {
    router = record { path_tree = no_paths; resv_tree = no_resvs; labels = zeros; nhip = none };
    heap = λ a. none;
    path_head = nil;
    resv_head = nil;
  };
  path_timer = 0;
  resv_timer = 0;
}

-- A Path message, behind an IP header.
abbrev pub path_packet : Packet
path_packet = deliver (fill_path path_msg zeros)

abbrev pub resv_packet : Packet
resv_packet = deliver (fill_resv resv_msg zeros)

abbrev pub server_of : Run Outcome → Server
server_of (ok (goes s c g)) = s
server_of (ok (ends s)) = s
server_of (ok exits) = empty
server_of fault = empty
server_of out_of_fuel = empty

-- The server after the Path message.
abbrev pub server : Server
server = server_of (receive env clock (some path_packet) empty)

abbrev pub sent_of : Run Outcome → Option Datagram
sent_of (ok (goes s c g)) = g
sent_of (ok (ends s)) = none
sent_of (ok exits) = none
sent_of fault = none
sent_of out_of_fuel = none

first_round :
    receive env clock (some path_packet) empty
    ≡ ok (goes server none (sent_of (receive env clock (some path_packet) empty)))
unfolding receive event_handler path_case reached_path inserted_path dst_reached insert_new
    search_session search_loop load store insert_session strcpy receive_path_message insert_path
    search_node path_tree_insert insert_node answer_path path_order htons read16 fill_path write16
    write8 write32 tunnel_id_of read32 compare_path_del htonl read8 write_class_obj set_path_tree
    create_node rebalance_insert read_path read_name route_path set_route compare_path_insert
    send_path_message send_path_data
first_round = refl

-- The Resv message finds another address free.
abbrev pub later : Env
later = record env { malloc = 20; now = 510 }

abbrev session_cell : Cells
session_cell = (10, new_entry 500 0x1234 [] [] 0) ∷ []

server-Chain :
    Chain server.daemon.heap server.daemon.path_head session_cell
    × Chain server.daemon.heap server.daemon.resv_head []
    × (server.daemon.heap 20 ≡ none)
unfolding receive event_handler path_case reached_path inserted_path dst_reached insert_new
    search_session search_loop load store insert_session strcpy receive_path_message insert_path
    search_node path_tree_insert insert_node answer_path path_order htons read16 fill_path write16
    write8 write32 tunnel_id_of read32 compare_path_del htonl read8 write_class_obj set_path_tree
    create_node rebalance_insert read_path read_name route_path set_route compare_path_insert
    send_path_message send_path_data write
server-Chain = ((refl, omega arith, refl, (nil, refl, refl)), refl, refl)

-- Fuel beyond the list that a head leads through is beyond every such list.
pub enough :
    (h : Heap) (p : Ptr) (known : Cells) (fuel : ℕ)
    → Chain h p known
    → length known < fuel
    → (cs : Cells) → Chain h p cs
    → length cs < fuel
enough h p known fuel c lt cs d =
    subst (λ ds. length ds < fuel) (Chain-unique h p p known cs refl c d) lt

pub empty-IsReady : IsReady env empty.daemon
empty-IsReady = record {
  path = path_msg;
  resv = resv_msg;
  new_path = refl;
  new_resv = refl;
  real = omega arith;
  unused = refl;
  fits = λ a. omega arith;
  names = λ a out e. omega arith;
  out_names = λ a out e. omega arith;
  path_fuel = enough empty.daemon.heap nil [] 4 refl (omega arith);
  resv_fuel = enough empty.daemon.heap nil [] 4 refl (omega arith);
}

pub server-IsReady : IsReady later server.daemon
server-IsReady = record {
  path = path_msg;
  resv = resv_msg;
  new_path = refl;
  new_resv = refl;
  real = omega arith;
  unused = server-Chain.2;
  fits = λ a. omega arith;
  names = λ a out e. omega arith;
  out_names = λ a out e. omega arith;
  path_fuel =
      enough server.daemon.heap server.daemon.path_head session_cell 4 server-Chain.0 (omega arith);
  resv_fuel = enough server.daemon.heap server.daemon.resv_head [] 4 server-Chain.1 (omega arith);
}

pub server-Reached : Reached server
server-Reached =
    round {s = empty} {s' = server} (start (refl, refl, refl, refl)) env clock (some path_packet)
      empty-IsReady first_round

receive-Reached_example :
    IsDaemon server.daemon × Returns OutcomeIsDaemon (receive later clock (some resv_packet) server)
receive-Reached_example =
    receive-Reached server later clock (some resv_packet) server-Reached server-IsReady

Reached-depth_example :
    ((depth server.daemon.router.path_tree ≤ 33) × (get_height server.daemon.router.path_tree ≤ 33))
    × ((depth server.daemon.router.resv_tree ≤ 33)
        × (get_height server.daemon.router.resv_tree ≤ 33))
Reached-depth_example = Reached-depth server server-Reached
