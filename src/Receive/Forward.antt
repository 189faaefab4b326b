-- ===== src/Receive/Forward.antt =====
-- `receive_path_message` at a router between the ends of a tunnel: it sends the Path message on.
use mathlib.Core.Option.{none-ne-some}
use socket.Base.{
  ℕ, ◌≡◌, ◌≢◌, refl, sym, ◌∙◌, ap, subst, Bool-cases, inl, inr, ==_iff, some-injective, true,
  Option, none, some, ◌==◌, ◌<◌, length,
}
use socket.Base.Int.{ℤ}
use socket.Base.Run.{Run, ok}
use socket.Message.{PathMsg, path_order, resv_order}
use socket.Packet.{Packet, Datagram, Delivers, is_true}
use socket.Packet.Path.{send_path_message, read_path, route_path, set_route, path_tree_insert}
use socket.Packet.PathInsert.{path_hop, send_path_message_lem}
use socket.Packet.PathTrip.{IsPathMsg, ArrivesPath, read_path-fill_path}
use socket.Receive.{
  Router, Host, set_path_tree, insert_path, answer_path, tunnel_id_of, receive_path_message,
}
use socket.Route.{NextHop, SrcIp}
use socket.Tree.{Tree, null, node, search_node}
use socket.Tree.Refines.{IsTable}
use socket.Tree.Search.{null-data_of, data_of}

-- The route to an address has the next hop `a`, and the outgoing address is `src`.
pub record Forwards (host : Host) (s : Router) (dest a src : ℕ) : Type 0 where
  pub status : ℤ
  pub nh : NextHop
  pub route :
      host.routing.get_nexthop dest
        (record { nh_ip = s.nhip; pref_len = 0; dev = host.dev; ifh = 0 })
      ≡ (status, nh)
  pub reached : is_true status ≡ true
  pub next : nh.nh_ip ≡ some a
  pub short : length nh.dev < 16
  pub src_status : ℤ
  pub src_ip : SrcIp
  pub leaves :
      host.routing.get_srcip (some a) (record { srcip = host.path_srcip; ifh = nh.ifh })
      ≡ (src_status, src_ip)
  pub known : is_true src_status ≡ true
  pub text : src_ip.srcip ≡ some src

-- With a message found in it, a tree is not empty.
set_path_tree-eq :
    (s : Router) (u : Tree PathMsg) (nhip : Option ℕ) (id : ℕ) (q : PathMsg)
    → data_of (search_node u id) ≡ some q
    → set_path_tree s id u nhip ≡ (record s { path_tree = u; nhip = nhip }, search_node u id)
unfolding set_path_tree search_node
set_path_tree-eq s null nhip id q found = absurd (none-ne-some q found)
set_path_tree-eq s (node d l r h) nhip id q found = refl

answer_path-forward :
    (host : Host) (buffer : Packet) (id : ℕ) (s : Router) (n : Tree PathMsg) (q : PathMsg)
    → data_of n ≡ some q
    → q.nexthop_ip ≢ 0
    → answer_path host buffer id s n ≡ ok (s, send_path_message host.stack s.path_tree id)
unfolding answer_path
answer_path-forward host buffer id s null q found ne = absurd (none-ne-some q found)
answer_path-forward host buffer id s (node d l r h) q found ne =
    elim (Bool-cases (d.nexthop_ip == 0)) [
      | inl end ↦ absurd (
          ne (
            ap (λ (x : PathMsg). x.nexthop_ip) (sym (some-injective found))
            ∙ (==_iff d.nexthop_ip 0).0 end))
      | inr on ↦ rw on refl
    ]

route_path-forward :
    (host : Host) (s : Router) (dest a src : ℕ) (f : Forwards host s dest a src) (p : PathMsg)
    → ((route_path host.routing host.path_srcip p f.nh).nexthop_ip ≡ a)
      × ((route_path host.routing host.path_srcip p f.nh).e_srcip ≡ src)
unfolding route_path set_route
route_path-forward host s dest a src f p = rw (f.next, f.leaves, f.known, f.text) (refl, refl)

-- What is read from the packet of a Path message.
pub sent-ArrivesPath :
    (buffer : Packet) (path : PathMsg) (t : Tree PathMsg) (k : ℕ) (p : PathMsg) (stack : Packet)
    (g : Datagram)
    → data_of (search_node t k) ≡ some p
    → IsPathMsg p
    → send_path_message stack t k ≡ some g
    → Delivers g.size g.bytes buffer
    → ArrivesPath p (read_path buffer path)
sent-ArrivesPath buffer path t k p stack g found h sent d =
    let same = some-injective (sym sent ∙ send_path_message_lem stack t k p found) in
    read_path-fill_path p stack buffer h (subst (λ x. Delivers x.size x.bytes buffer) same d) path

ArrivesPath-tunnel_id :
    (buffer : Packet) (path p : PathMsg)
    → ArrivesPath p (read_path buffer path)
    → tunnel_id_of buffer ≡ p.tunnel_id
unfolding tunnel_id_of read_path
ArrivesPath-tunnel_id buffer path p arrives = arrives.0

-- What the router has done: the message is in its table, and goes on.
abbrev pub Forwarded : Host → Router → PathMsg → ℕ → ℕ → Run (Router × Option Datagram) → Type 0
Forwarded host s p a src m =
    (u : Tree PathMsg) × (q : PathMsg) × (m
      ≡ ok (record s { path_tree = u; nhip = some a }, send_path_message host.stack u p.tunnel_id))
    × IsTable u
    × (data_of (search_node u p.tunnel_id) ≡ some q)
    × ArrivesPath p q
    × (q.nexthop_ip ≡ a)
    × (q.e_srcip ≡ src)

module _ (host : Host) (buffer : Packet) (s : Router) (path : PathMsg) (a src : ℕ)
    (new_path : host.new_path ≡ some path) (path_malloc : host.path_malloc ≡ true) where
  insert_path-forward :
      (id : ℕ) (u : Tree PathMsg) (nhip : Option ℕ)
      → data_of (search_node s.path_tree id) ≡ none
      → path_tree_insert host.routing
          (some path)
          true
          s.nhip
          host.dev
          host.path_srcip
          s.path_tree
          buffer
        ≡ ok (u, nhip)
      → insert_path host buffer s id (search_node s.path_tree id) ≡ ok (set_path_tree s id u nhip)
  unfolding insert_path
  insert_path-forward id u nhip absent e =
      subst (λ n. insert_path host buffer s id n ≡ ok (set_path_tree s id u nhip))
        (sym (null-data_of (search_node s.path_tree id) absent))
        (rw (new_path, path_malloc, e) refl)

  -- A router between the ends of a tunnel receives the Path message.
  pub receive_path_message-forward :
      (t : Tree PathMsg) (k : ℕ) (p : PathMsg) (stack : Packet) (g : Datagram)
      → data_of (search_node t k) ≡ some p
      → IsPathMsg p
      → send_path_message stack t k ≡ some g
      → Delivers g.size g.bytes buffer
      → Forwards host s p.dest_ip a src
      → a ≢ 0
      → IsTable s.path_tree
      → data_of (search_node s.path_tree p.tunnel_id) ≡ none
      → Forwarded host s p a src (receive_path_message host buffer s)
  unfolding receive_path_message
  receive_path_message-forward t k p stack g found h sent d f ne v absent =
      let arrives = sent-ArrivesPath buffer path t k p stack g found h sent d in
      let (u, q, e, v', has, is_route, arrived, _) =
        path_hop host.routing path s.nhip host.path_srcip host.dev f.status f.nh s.path_tree buffer
          (subst
            (λ dest.
              host.routing.get_nexthop dest
                (record { nh_ip = s.nhip; pref_len = 0; dev = host.dev; ifh = 0 })
              ≡ (f.status, f.nh))
            (sym arrives.2) f.route)
          t k p stack g found h sent d f.reached f.short v absent in
      let (hop, out) = route_path-forward host s p.dest_ip a src f (read_path buffer path) in
      let to_a : q.nexthop_ip ≡ a = ap (λ (x : PathMsg). x.nexthop_ip) is_route ∙ hop in
      let s' : Router = record s { path_tree = u; nhip = some a } in
      (
        u,
        q,
        rw
            (
              ArrivesPath-tunnel_id buffer path p arrives,
              insert_path-forward p.tunnel_id u f.nh.nh_ip absent e,
              set_path_tree-eq s u f.nh.nh_ip p.tunnel_id q has,
              f.next,
            )
            (answer_path-forward host buffer p.tunnel_id s' (search_node u p.tunnel_id) q has
              (λ zero_hop. ne (sym to_a ∙ zero_hop))),
        v',
        has,
        arrived,
        to_a,
        ap (λ (x : PathMsg). x.e_srcip) is_route ∙ out,
      )
