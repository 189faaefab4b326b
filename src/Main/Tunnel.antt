-- ===== src/Main/Tunnel.antt =====
-- A tunnel that is typed in at the start of `main` of rsvpd.c, over a next hop.
use socket.Base.{subst, length, ◌<◌, ℕ, ◌≡◌, refl, ◌∙◌, ap, true, Option, none, some}
use socket.Base.Int.{ℤ}
use socket.Base.Run.{ok, Returns, Returns-imp}
use socket.Daemon.{Daemon, Env}
use socket.Main.Configure.{Input, strip, set_start, start_path, add_tunnel, configure}
use socket.Main.Valid.{IsDaemon, IsReady}
use socket.Message.{PathMsg, path_order, resv_order}
use socket.Packet.{Datagram, is_true, inet_pton, path_packet_size}
use socket.Packet.Path.{fill_path}
use socket.Packet.PathInsert.{send_path_message_lem, insert_path-new}
use socket.Route.{NextHop}
use socket.Session.Chain.{Chain-unique, Cells, Chain}
use socket.Tree.{Tree, search_node, insert_node}
use socket.Tree.Refines.{IsTable}
use socket.Tree.Search.{data_of}
use socket.Main.Start.{configured, IsInput, start_path-tunnel_id, Added, add_tunnel-Added}

-- The tunnel of the message `p`, over the next hop `a`, is in the table and its message has been sent.
abbrev pub Configured : Env → Input → NextHop → ℕ → Cells → Daemon × Option Datagram → Type 0
Configured env c nh a resvs (d', g) =
    IsDaemon d'
    × Chain d'.heap d'.resv_head (configured env c resvs)
    × ((p : PathMsg) × (data_of (search_node d'.router.path_tree c.tunnel_id) ≡ some p)
        × (p.tunnel_id ≡ c.tunnel_id)
        × (p.nexthop_ip ≡ a)
        × (p.p_srcip ≡ 0)
        × (p.prefix_len ≡ nh.pref_len)
        × (p.dev ≡ nh.dev)
        × (g
            ≡ some
                (record { to = a; size = path_packet_size; bytes = fill_path p env.host.stack })))

start_path-nexthop :
    (env : Env) (c : Input) (nh : NextHop) (new : PathMsg) (a : ℕ)
    → nh.nh_ip ≡ some a
    → let p = start_path env c nh new in
      (p.nexthop_ip ≡ a) × (p.p_srcip ≡ 0) × (p.prefix_len ≡ nh.pref_len) × (p.dev ≡ nh.dev)
unfolding start_path set_start
start_path-nexthop env c nh new a e = (rw e refl, rw e refl, rw e refl, rw e refl)

module _ (env : Env) (c : Input) (d : Daemon) (v : IsDaemon d) (r : IsReady env d) (i : IsInput c)
    (resvs : Cells) (sessions : Chain d.heap d.resv_head resvs) (status : ℤ) (nh : NextHop)
    (a : ℕ) where
  -- With memory, route lookups that return, and texts and names of devices that fit, for a tunnel that is new, and a route with a next hop to the destination,
  -- `configure` returns: the tables are valid and the lists are lists, the Path table has a message of the
  -- tunnel with this next hop, without a previous one, and with the prefix length and the device of the route;
  -- this message is sent to the next hop; and the tunnel has a session, marked as an end, if the Resv list
  -- was empty, while a list that was not is as before.
  pub configure_lem :
      env.host.routing.get_nexthop (inet_pton (c.parse (strip c.dst_line)) c.stale_ip) env.out
        ≡ (status, nh)
      → is_true status ≡ true
      → nh.nh_ip ≡ some a
      → env.host.path_malloc ≡ true
      → data_of (search_node d.router.path_tree c.tunnel_id) ≡ none
      → Returns (Configured env c nh a resvs) (configure env c d)
  unfolding configure Added
  configure_lem route there hop room absent =
      let p = start_path env c nh r.path in
      let id = start_path-tunnel_id env c nh r.path in
      let short : length nh.dev < 16 =
        subst (λ (x : ℤ × NextHop). length x.1.dev < 16) route
          (r.out_names (inet_pton (c.parse (strip c.dst_line)) c.stale_ip) env.out refl) in
      let same : v.resvs ≡ resvs =
        Chain-unique d.heap d.resv_head d.resv_head v.resvs resvs refl v.resv_chain sessions in
      let (t, inserted, w, found) = new_path_node p id in
      rw (route, there, r.new_path)
        (Returns-imp (Added env c d v r i t) (Configured env c nh a resvs)
          (add_tunnel env c d nh (some r.path))
          (add_tunnel-Added env c d v r i nh t inserted w short)
          (λ (d', g) (valid, chain, table, sent).
            let (next, previous, prefix, device) = start_path-nexthop env c nh r.path a hop in
            (
              valid,
              subst (λ cs. Chain d'.heap d'.resv_head (configured env c cs)) same chain,
              (
                p,
                ap (λ u. data_of (search_node u c.tunnel_id)) table ∙ found,
                id,
                next,
                previous,
                prefix,
                device,
                sent
                    ∙ send_path_message_lem env.host.stack t c.tunnel_id p found
                    ∙ ap
                        (λ to. some (record {
                          to = to;
                          size = path_packet_size;
                          bytes = fill_path p env.host.stack;
                        }))
                        next,
              ),
            )))
    where
      new_path_node :
          (p : PathMsg)
          → p.tunnel_id ≡ c.tunnel_id
          → (t : Tree PathMsg) × (insert_node env.host.path_malloc d.router.path_tree p ≡ ok t)
            × IsTable t
            × (data_of (search_node t c.tunnel_id) ≡ some p)
      new_path_node p id =
          let (t, inserted, w, found) =
            insert_path-new d.router.path_tree p c.tunnel_id v.router.paths id i.tunnel_id absent in
          (t, rw room inserted, w, found)
