-- ===== src/Receive/Tail.antt =====
-- `receive_path_message` at the router where a tunnel ends: its answer is a Resv message.
use mathlib.Core.Option.{none-ne-some}
use socket.Base.{
  some-injective, ==_iff, ℕ, ◌≡◌, refl, sym, ◌∙◌, ap, subst, ◌<◌, length, true, Option, none, some,
}
use socket.Base.Int.{ℤ}
use socket.Base.Run.{ok, Returns, Returns-bind}
use socket.Message.{PathMsg, ResvMsg, path_order, resv_order}
use socket.Packet.{Packet, Datagram, Delivers, is_true, htons, read16, read32, resv_packet_size}
use socket.Packet.Path.{send_path_message, read_path, route_path, set_route, path_tree_insert}
use socket.Packet.PathInsert.{path_hop}
use socket.Packet.PathTrip.{IsPathMsg}
use socket.Packet.Resv.{fill_resv, send_resv_message}
use socket.Packet.ResvInsert.{send_resv_message_lem}
use socket.Receive.{
  Router, Host, set_path_tree, insert_path, insert_resv, answer_path, tunnel_id_of,
  receive_path_message,
}
use socket.Receive.Valid.{IsRouter}
use socket.Route.{NextHop, Routing}
use socket.Tree.{Tree, null, node, search_node}
use socket.Tree.Refines.{IsTable, id_limit}
use socket.Tree.Search.{null-data_of, data_of}
use socket.Receive.Answer.{Answers, HasAnswer, set_path_tree-found, insert_resv-HasAnswer}

module _ (host : Host) (buffer : Packet) (new : ResvMsg) (s : Router) (id dest : ℕ)
    (e : host.new_resv ≡ some new) (m : host.resv_malloc ≡ true)
    (at : htons (read16 38 buffer) ≡ id) (there : read32 32 buffer ≡ dest) (lt : id < id_limit)
    (v : IsTable s.resv_tree) (absent : data_of (search_node s.resv_tree id) ≡ none) where
  insert_resv-search :
      (hop : ℕ)
      → Returns
          (λ s'. HasAnswer id hop dest s'.resv_tree)
          (insert_resv host buffer s hop (search_node s.resv_tree id))
  insert_resv-search hop =
      subst
        (λ n. Returns (λ s'. HasAnswer id hop dest s'.resv_tree) (insert_resv host buffer s hop n))
        (sym (null-data_of (search_node s.resv_tree id) absent))
        (insert_resv-HasAnswer host buffer new s hop id dest e m at there lt v absent)

  send_resv_message-Answers :
      (hop : ℕ) (s' : Router)
      → HasAnswer id hop dest s'.resv_tree
      → Answers host id hop dest (s', send_resv_message host.stack s'.resv_tree id)
  send_resv_message-Answers hop s' (q, found, (same, next, label, goal)) = (
    q,
    found,
    same,
    next,
    label,
    goal,
    subst
        (λ x.
          send_resv_message host.stack s'.resv_tree id
          ≡ some (record { to = x; size = resv_packet_size; bytes = fill_resv q host.stack }))
        next (send_resv_message_lem host.stack s'.resv_tree id q found),
  )

  -- From the Path message on, where it has no next hop.
  answer_path-node :
      (d : PathMsg) (l r : Tree PathMsg) (h : ℕ)
      → d.nexthop_ip ≡ 0
      → Returns (Answers host id d.p_srcip dest) (answer_path host buffer id s (node d l r h))
  unfolding answer_path
  answer_path-node d l r h zero_hop = rw ((==_iff d.nexthop_ip 0).1 zero_hop) (
      Returns-bind (λ s'. HasAnswer id d.p_srcip dest s'.resv_tree) (Answers host id d.p_srcip dest)
        (insert_resv host buffer s d.p_srcip (search_node s.resv_tree id))
        (λ s'. ok (s', send_resv_message host.stack s'.resv_tree id)) (insert_resv-search d.p_srcip)
        (λ s' has. send_resv_message-Answers d.p_srcip s' has))

  answer_path-Answers :
      (n : Tree PathMsg) (p : PathMsg)
      → data_of n ≡ some p
      → p.nexthop_ip ≡ 0
      → Returns (Answers host id p.p_srcip dest) (answer_path host buffer id s n)
  answer_path-Answers null p found zero_hop = absurd (none-ne-some p found)
  answer_path-Answers (node d l r h) p found zero_hop =
      let same : d ≡ p = some-injective found in
      subst
        (λ x.
          Returns (Answers host id x.p_srcip dest) (answer_path host buffer id s (node d l r h)))
        same (answer_path-node d l r h (ap (λ x. x.nexthop_ip) same ∙ zero_hop))

route_path-tail :
    (routing : Routing) (srcip : Option ℕ) (buffer : Packet) (new : PathMsg) (nh : NextHop)
    → nh.nh_ip ≡ none
    → ((route_path routing srcip (read_path buffer new) nh).nexthop_ip ≡ 0)
      × ((route_path routing srcip (read_path buffer new) nh).tunnel_id ≡ htons (read16 38 buffer))
      × ((route_path routing srcip (read_path buffer new) nh).dest_ip ≡ read32 32 buffer)
unfolding route_path set_route read_path
route_path-tail routing srcip buffer new nh e = rw e (refl, refl, refl)

module _ (host : Host) (buffer : Packet) (s : Router) (path : PathMsg) (resv : ResvMsg) (status : ℤ)
    (nh : NextHop) (new_path : host.new_path ≡ some path) (path_malloc : host.path_malloc ≡ true)
    (new_resv : host.new_resv ≡ some resv) (resv_malloc : host.resv_malloc ≡ true)
    (route : host.routing.get_nexthop
        (read_path buffer path).dest_ip
        (record { nh_ip = s.nhip; pref_len = 0; dev = host.dev; ifh = 0 })
      ≡ (status, nh))
    (here : nh.nh_ip ≡ none) (short : length nh.dev < 16) where
  insert_path-eq :
      (id : ℕ) (u : Tree PathMsg)
      → data_of (search_node s.path_tree id) ≡ none
      → path_tree_insert host.routing
          (some path)
          true
          s.nhip
          host.dev
          host.path_srcip
          s.path_tree
          buffer
        ≡ ok (u, nh.nh_ip)
      → insert_path host buffer s id (search_node s.path_tree id)
        ≡ ok (set_path_tree s id u nh.nh_ip)
  unfolding insert_path
  insert_path-eq id u absent e =
      subst (λ n. insert_path host buffer s id n ≡ ok (set_path_tree s id u nh.nh_ip))
        (sym (null-data_of (search_node s.path_tree id) absent))
        (rw (new_path, path_malloc, e) refl)

  -- The state with the new Path message, and the node of that message.
  answer_path-set_path_tree :
      (id dest : ℕ) (u : Tree PathMsg) (q : PathMsg)
      → htons (read16 38 buffer) ≡ id
      → read32 32 buffer ≡ dest
      → id < id_limit
      → IsRouter s
      → data_of (search_node s.resv_tree id) ≡ none
      → data_of (search_node u id) ≡ some q
      → q.nexthop_ip ≡ 0
      → Returns (Answers host id q.p_srcip dest) (
          answer_path host buffer id
            (set_path_tree s id u nh.nh_ip).0
            (set_path_tree s id u nh.nh_ip).1)
  answer_path-set_path_tree id dest u q at there lt v absent found zero_hop =
      let (n, r) = set_path_tree-found s u nh.nh_ip id q found in
      answer_path-Answers host buffer resv (set_path_tree s id u nh.nh_ip).0 id dest new_resv
        resv_malloc at there lt (subst IsTable (sym r) v.resvs)
        (subst (λ x. data_of (search_node x id) ≡ none) (sym r) absent)
        (set_path_tree s id u nh.nh_ip).1 q (ap data_of n ∙ found) zero_hop

  receive_path_message-step :
      (P : Router × Option Datagram → Type 0) (id : ℕ) (x : Router × Tree PathMsg)
      → tunnel_id_of buffer ≡ id
      → insert_path host buffer s id (search_node s.path_tree id) ≡ ok x
      → Returns P (answer_path host buffer id x.0 x.1)
      → Returns P (receive_path_message host buffer s)
  unfolding receive_path_message
  receive_path_message-step P id x at e r = rw (at, e) r

  -- Let a router's `send_path_message` send a message of its table, with members in range, and let
  -- its packet arrive behind an IP header where there is memory, where the route of the destination
  -- has no next hop and a device whose name has less than 16 characters, and where two valid tables do not have the tunnel. Then `receive_path_message`
  -- returns: the Resv table has a message for the tunnel with label 3 and the destination of the Path
  -- message, whose next hop is the outgoing address of the sender, and `send_resv_message`'s packet of that message goes to this address.
  pub receive_path_message-tail :
      (t : Tree PathMsg) (k : ℕ) (p : PathMsg) (stack : Packet) (g : Datagram)
      → data_of (search_node t k) ≡ some p
      → IsPathMsg p
      → send_path_message stack t k ≡ some g
      → Delivers g.size g.bytes buffer
      → is_true status ≡ true
      → IsRouter s
      → data_of (search_node s.path_tree p.tunnel_id) ≡ none
      → data_of (search_node s.resv_tree p.tunnel_id) ≡ none
      → Returns (Answers host p.tunnel_id p.e_srcip p.dest_ip) (receive_path_message host buffer s)
  unfolding tunnel_id_of
  receive_path_message-tail t k p stack g f h sent d ok_status v no_path no_resv =
      let (u, q, e, v', found, is_route, a, _) =
        path_hop host.routing path s.nhip host.path_srcip host.dev status nh s.path_tree buffer
          route t k p stack g f h sent d ok_status short v.paths no_path in
      let (zero_hop, id, dest) = route_path-tail host.routing host.path_srcip buffer path nh here in
      let at : htons (read16 38 buffer) ≡ p.tunnel_id =
        sym id ∙ sym (ap (λ x. x.tunnel_id) is_route) ∙ a.0 in
      let goal : read32 32 buffer ≡ p.dest_ip =
        sym dest ∙ sym (ap (λ x. x.dest_ip) is_route) ∙ a.2 in
      receive_path_message-step (Answers host p.tunnel_id p.e_srcip p.dest_ip) p.tunnel_id
        (set_path_tree s p.tunnel_id u nh.nh_ip) at (insert_path-eq p.tunnel_id u no_path e)
        (subst
          (λ x. Returns (Answers host p.tunnel_id x p.dest_ip) (
            answer_path host buffer p.tunnel_id (set_path_tree s p.tunnel_id u nh.nh_ip).0
              (set_path_tree s p.tunnel_id u nh.nh_ip).1))
          a.3
          (answer_path-set_path_tree p.tunnel_id p.dest_ip u q at goal h.tunnel_id v no_resv found
            (ap (λ x. x.nexthop_ip) is_route ∙ zero_hop)))
