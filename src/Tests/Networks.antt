-- ===== src/Tests/Networks.antt =====
-- A tunnel over three routers.
use socket.Base.{ℕ, ◌<◌, refl, subst, some-injective, [], ◌∷◌, none, some, arith}
use mathlib.Core.Option.{none-ne-some}
use socket.Base.Int.{pos}
use socket.Base.Run.{Returns}
use socket.Daemon.{Daemon}
use socket.Main.Ranges.{IsTyped, InRange}
use socket.Message.{path_order, resv_order}
use socket.Network.{Node, setup}
use socket.Network.Line.{IsNode, IsNew, IsBetween, IsEnd, Linked}
use socket.Network.Tunnel.{Pushes, setup_lem}
use socket.Session.{nil}
use socket.Tests.Daemons.{daemon, env}
use socket.Tests.Packets.{
  path_msg, resv_msg, zeros, deliver, deliver-Delivers, no_paths, no_resvs, path_found,
  path_is_absent, resv_is_absent, path_msg-IsPathMsg, resv_null-IsTable, path_null-IsTable,
}
use socket.Tests.Routers.{host_here}
use socket.Tests.Timers.{path_table-IsTable}
use socket.Tests.Typed.{deliver-IsBytes, later-IsTyped}
use socket.Tree.{search_node}

-- A router that knows nothing.
abbrev blank : Daemon
blank = record {
  router = record { path_tree = no_paths; resv_tree = no_resvs; labels = zeros; nhip = none };
  heap = λ a. none;
  path_head = nil;
  resv_head = nil;
}

abbrev head : Node
head = record { env = env; daemon = daemon; arrive = deliver }

abbrev between : Node
between = record { env = env; daemon = blank; arrive = deliver }

abbrev end : Node
end = record { env = record env { host = host_here }; daemon = blank; arrive = deliver }

nothing-InRange : InRange zeros no_resvs
unfolding search_node
nothing-InRange k q found = absurd (none-ne-some q found)

host_here-IsTyped : IsTyped host_here
host_here-IsTyped = record {
  new_path = λ p e. subst (λ q. q.e_srcip < 4294967296) (some-injective e) (omega arith);
  new_resv = λ p e. subst (λ q. q.e_srcip < 4294967296) (some-injective e) (omega arith);
  address = λ hop out a e. subst (λ b. b < 4294967296) (some-injective e) (omega arith);
}

head-IsNode : IsNode head 0x1234
head-IsNode = record {
  resv = resv_msg;
  new_resv = refl;
  resv_malloc = refl;
  real = omega arith;
  unused = refl;
  fits = λ a. omega arith;
  resvs = [];
  resv_chain = refl;
  fuel = omega arith;
  router = record { paths = path_table-IsTable; resvs = resv_null-IsTable };
  in_range = nothing-InRange;
  no_resv = resv_is_absent;
  typed = later-IsTyped;
  stack = λ i. omega arith;
  arrives = deliver-Delivers;
  bytes = deliver-IsBytes;
}

between-IsNew : IsNew between 0x1234
between-IsNew = record {
  node = record {
    resv = resv_msg;
    new_resv = refl;
    resv_malloc = refl;
    real = omega arith;
    unused = refl;
    fits = λ a. omega arith;
    resvs = [];
    resv_chain = refl;
    fuel = omega arith;
    router = record { paths = path_null-IsTable; resvs = resv_null-IsTable };
    in_range = nothing-InRange;
    no_resv = resv_is_absent;
    typed = later-IsTyped;
    stack = λ i. omega arith;
    arrives = deliver-Delivers;
    bytes = deliver-IsBytes;
  };
  path = path_msg;
  new_path = refl;
  path_malloc = refl;
  no_path = path_is_absent;
}

between-IsBetween : IsBetween between 0x1234 0x02020202
between-IsBetween = record {
  new = between-IsNew;
  hop = 7;
  src = 8;
  forwards = record {
    status = pos 1;
    nh = record { nh_ip = some 7; pref_len = 24; dev = []; ifh = 2 };
    route = refl;
    reached = refl;
    next = refl;
    short = omega arith;
    src_status = pos 1;
    src_ip = record { srcip = some 8; ifh = 2 };
    leaves = refl;
    known = refl;
    text = refl;
  };
  real_hop = omega arith;
  real_src = omega arith;
}

end-IsEnd : IsEnd end 0x1234 0x02020202
end-IsEnd = record {
  new = record {
    node = record {
      resv = resv_msg;
      new_resv = refl;
      resv_malloc = refl;
      real = omega arith;
      unused = refl;
      fits = λ a. omega arith;
      resvs = [];
      resv_chain = refl;
      fuel = omega arith;
      router = record { paths = path_null-IsTable; resvs = resv_null-IsTable };
      in_range = nothing-InRange;
      no_resv = resv_is_absent;
      typed = host_here-IsTyped;
      stack = λ i. omega arith;
      arrives = deliver-Delivers;
      bytes = deliver-IsBytes;
    };
    path = path_msg;
    new_path = refl;
    path_malloc = refl;
    no_path = path_is_absent;
  };
  status = pos 1;
  nh = record { nh_ip = none; pref_len = 24; dev = []; ifh = 2 };
  route = refl;
  reached = refl;
  here = refl;
  short = omega arith;
}

setup_lem_example :
    Returns
      (λ (x, xs). (label : ℕ) × Pushes head path_msg label x × Linked 0x1234 label xs)
      (setup head (between ∷ end ∷ []) 0x1234)
setup_lem_example =
    setup_lem head (between ∷ end ∷ []) path_msg path_found path_msg-IsPathMsg refl (omega arith)
      head-IsNode (between-IsBetween, end-IsEnd)
