-- ===== src/Tests/Tunnels.antt =====
-- A tunnel that is typed in.
use socket.Base.{refl, some, [], ◌∷◌, arith}
use socket.Base.Int.{pos}
use socket.Base.Run.{Returns}
use socket.Main.Configure.{Input, configure}
use socket.Main.Reach.{start-IsDaemon}
use socket.Main.Start.{IsInput}
use socket.Main.Tunnel.{Configured, configure_lem}
use socket.Main.Valid.{IsDaemon}
use socket.Message.{path_order}
use socket.Route.{NextHop}
use socket.Tests.Daemons.{env}
use socket.Tests.Mains.{empty, empty-IsReady}
use socket.Tests.Packets.{path_is_absent}

-- The lines `1` and `2`, which stand for the address 5.
abbrev input : Input
input = record {
  tunnel_id = 0x1234;
  src_line = 49 ∷ 10 ∷ [];
  dst_line = 50 ∷ 10 ∷ [];
  parse = λ text. some 5;
  stale_ip = 0;
}

abbrev route : NextHop
route = record { nh_ip = some 7; pref_len = 24; dev = []; ifh = 2 }

input-IsInput : IsInput input
input-IsInput = record { tunnel_id = omega arith; src = omega arith; dst = omega arith }

empty-IsDaemon : IsDaemon empty.daemon
empty-IsDaemon = start-IsDaemon empty (refl, refl, refl, refl)

configure_lem_example : Returns (Configured env input route 7 []) (configure env input empty.daemon)
configure_lem_example =
    configure_lem env input empty.daemon empty-IsDaemon empty-IsReady input-IsInput [] refl (pos 1)
      route 7 refl refl refl refl path_is_absent
