-- ===== src/Tests/Repeats.antt =====
-- A server with a tunnel that is set up receives a Path message again.
use socket.Base.{◌≡◌, refl, none, some, [], arith}
use socket.Base.Run.{Returns}
use socket.Main.{Server, receive}
use socket.Main.Again.{Stable, receive-Stable}
use socket.Main.Valid.{IsDaemon, IsReady}
use socket.Message.{path_order, resv_order, compare_path_del, compare_resv_del}
use socket.Packet.{htons, read16, read8, write8, write16, write32, write_class_obj}
use socket.Packet.Path.{fill_path}
use socket.Receive.{tunnel_id_of}
use socket.Receive.Again.{again}
use socket.Session.{nil}
use socket.Tests.Daemons.{env}
use socket.Tests.Mains.{path_packet, clock, enough}
use socket.Tests.Packets.{path_msg, resv_msg, path_table, resv_table, zeros}
use socket.Tests.Timers.{path_table-IsTable, resv_table-IsTable}
use socket.Tree.{search_node}
use socket.Tree.Search.{data_of}

-- Both tables have the tunnel.
abbrev known : Server
known = record {
  daemon = record {
    router = record { path_tree = path_table; resv_tree = resv_table; labels = zeros; nhip = none };
    heap = λ a. none;
    path_head = nil;
    resv_head = nil;
  };
  path_timer = 0;
  resv_timer = 0;
}

known-IsDaemon : IsDaemon known.daemon
known-IsDaemon = record {
  router = record { paths = path_table-IsTable; resvs = resv_table-IsTable };
  paths = [];
  resvs = [];
  path_chain = refl;
  resv_chain = refl;
  apart = λ a i. refl;
}

known-IsReady : IsReady env known.daemon
known-IsReady = record {
  path = path_msg;
  resv = resv_msg;
  new_path = refl;
  new_resv = refl;
  real = omega arith;
  unused = refl;
  fits = λ a. omega arith;
  names = λ a out e. omega arith;
  out_names = λ a out e. omega arith;
  path_fuel = enough known.daemon.heap nil [] 4 refl (omega arith);
  resv_fuel = enough known.daemon.heap nil [] 4 refl (omega arith);
}

-- The packet is for that tunnel.
in_tables :
    (data_of (search_node path_table (tunnel_id_of path_packet)) ≡ some path_msg)
    × (data_of (search_node resv_table (tunnel_id_of path_packet)) ≡ some resv_msg)
unfolding search_node tunnel_id_of htons read16 fill_path write8 write16 write32 write_class_obj
    path_order resv_order compare_path_del compare_resv_del read8
in_tables = (refl, refl)

receive-Stable_example :
    Returns
      (Stable known (again zeros path_msg resv_msg))
      (receive env clock (some path_packet) known)
receive-Stable_example =
    receive-Stable env path_packet known path_msg resv_msg known-IsDaemon known-IsReady in_tables.0
      in_tables.1 clock
