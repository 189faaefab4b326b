-- ===== src/Main/Configure.antt =====
-- The start of `main` of rsvpd.c at an end of a tunnel: the tunnel that is typed in.
use socket.Base.{ℕ, ◌==◌, if◌then◌else◌, Option, none, some, List, [], ◌∷◌}
use socket.Base.Int.{ℤ}
use socket.Base.Run.{Run, ok, fault, ◌>>=◌}
use socket.Daemon.{Daemon, Env}
use socket.Message.{PathMsg, path_order}
use socket.Packet.{Datagram, is_true, inet_pton}
use socket.Packet.Path.{send_path_message}
use socket.Route.{NextHop, SrcIp, Routing, copy_dev}
use socket.Session.{nil, insert_session}
use socket.Tree.{insert_node}

-- What is typed in: the id, and the lines of the two addresses, as `fgets` gives them. `parse` is
-- `inet_pton`, and `stale_ip` stands in its target in route_dump.c if the text is no address.
pub record Input : Type 0 where
  pub tunnel_id : ℕ
  pub src_line : List ℕ
  pub dst_line : List ℕ
  pub parse : List ℕ → Option ℕ
  pub stale_ip : ℕ

-- `if(srcip[len-1] == '\n') srcip[len-1] = '\0';` on a line that is not empty.
abbrev pub strip : List ℕ → List ℕ
strip [] = []
strip (c ∷ []) = if c == 10 then [] else c ∷ []
strip (c ∷ d ∷ cs) = c ∷ strip (d ∷ cs)

-- `"Path1"`.
abbrev pub path1 : List ℕ
path1 = 80 ∷ 97 ∷ 116 ∷ 104 ∷ 49 ∷ []

-- The members that come from the route. Without a next hop `p_srcip` and `e_srcip` stay as `malloc`
-- gave them.
unfoldable pub set_start : Routing → Option ℕ → NextHop → PathMsg → PathMsg
set_start routing srcip nh new = by_text nh.nh_ip
  where
    by_srcip : ℕ → ℤ × SrcIp → PathMsg
    by_srcip a (status, src) = record new {
      dev = nh.dev;
      prefix_len = nh.pref_len;
      nexthop_ip = a;
      p_srcip = 0;
      e_srcip = if is_true status then inet_pton src.srcip new.e_srcip else new.e_srcip;
      ifh = src.ifh;
    }

    by_text : Option ℕ → PathMsg
    by_text none = record new {
      dev = nh.dev;
      prefix_len = nh.pref_len;
      nexthop_ip = 0;
      ifh = nh.ifh;
    }
    by_text (some a) =
        by_srcip a (routing.get_srcip (some a) (record { srcip = srcip; ifh = nh.ifh }))

-- The message of the tunnel.
unfoldable pub start_path : Env → Input → NextHop → PathMsg → PathMsg
unfolding set_start
start_path env c nh new =
    let p = set_start env.host.routing env.host.path_srcip nh new in
    record p {
      tunnel_id = c.tunnel_id;
      src_ip = inet_pton (c.parse (strip c.src_line)) p.src_ip;
      dest_ip = inet_pton (c.parse (strip c.dst_line)) p.dest_ip;
      interval = 30;
      setup_priority = 7;
      hold_priority = 7;
      flags = 0;
      lsp_id = 1;
      name = path1;
    }

-- From the route on. Only an empty Resv list takes the head that `insert_session` returns.
unfoldable pub add_tunnel :
    Env → Input → Daemon → NextHop → Option PathMsg → Run (Daemon × Option Datagram)
unfolding start_path
add_tunnel env c d nh none = fault
add_tunnel env c d nh (some new) = copy_dev nh.dev (do
  path_tree ← insert_node env.host.path_malloc d.router.path_tree (start_path env c nh new)
  (head, heap) ←
      insert_session env.malloc env.now d.resv_head c.tunnel_id (strip c.src_line)
        (strip c.dst_line) 1 d.heap
  ok (
    record d {
      router = record d.router { path_tree = path_tree };
      heap = heap;
      resv_head = if d.resv_head == nil then head else d.resv_head;
    },
    send_path_message env.host.stack path_tree c.tunnel_id,
  ))

-- One round of the loop that reads tunnels.
unfoldable pub configure : Env → Input → Daemon → Run (Daemon × Option Datagram)
unfolding add_tunnel
configure env c d =
    by_route
      (env.host.routing.get_nexthop (inet_pton (c.parse (strip c.dst_line)) c.stale_ip) env.out)
  where
    by_route : ℤ × NextHop → Run (Daemon × Option Datagram)
    by_route (status, nh) =
        if is_true status then add_tunnel env c d nh env.host.new_path else ok (d, none)
