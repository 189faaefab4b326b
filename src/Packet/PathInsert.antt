-- ===== src/Packet/PathInsert.antt =====
-- `path_tree_insert` of rsvp_db.c, on a packet that `send_path_message` filled.
use socket.Base.{
  some-injective, ℕ, ◌≡◌, refl, sym, ap, ◌∙◌, subst, ◌<◌, Bool, true, false, Option, none, some,
  List, length, lt→ltb, if◌then◌else◌, inl, inr, Bool-cases, arith,
}
use socket.Base.Int.{ℤ}
use socket.Base.Run.{ok, ◌>>=◌}
use socket.Message.{PathMsg, path_order}
use socket.Packet.{Datagram, is_true, inet_pton, Packet, Delivers, path_packet_size}
use socket.Packet.Path.{
  fill_path, send_path_data, send_path_message, read_path, set_route, route_path, path_tree_insert,
}
use socket.Packet.PathTrip.{IsPathMsg, ArrivesPath, read_path-fill_path}
use socket.Route.{NextHop, SrcIp, Routing}
use socket.Tree.{Tree, null, node, search_node, insert_node}
use socket.Tree.Refines.{IsTable, id_limit, insert_node-new}
use socket.Tree.Search.{data_of, null-data_of}

send_path_data-data_of :
    (stack : Packet) (n : Tree PathMsg) (p : PathMsg)
    → data_of n ≡ some p
    → send_path_data stack n
      ≡ some (record { to = p.nexthop_ip; size = path_packet_size; bytes = fill_path p stack })
unfolding send_path_data
send_path_data-data_of stack null p e = cc
send_path_data-data_of stack (node q l r h) p e = cc

-- For a tunnel that is in the table `send_path_message` sends its packet to the next hop.
pub send_path_message_lem :
    (stack : Packet) (t : Tree PathMsg) (k : ℕ) (p : PathMsg)
    → data_of (search_node t k) ≡ some p
    → send_path_message stack t k
      ≡ some (record { to = p.nexthop_ip; size = path_packet_size; bytes = fill_path p stack })
unfolding send_path_message
send_path_message_lem stack t k p e = send_path_data-data_of stack (search_node t k) p e

pub send_path_message-absent :
    (stack : Packet) (t : Tree PathMsg) (k : ℕ)
    → data_of (search_node t k) ≡ none
    → send_path_message stack t k ≡ none
unfolding send_path_message
send_path_message-absent stack t k e = ap (send_path_data stack) (null-data_of (search_node t k) e)

ArrivesPath-route_path :
    (routing : Routing) (srcip : Option ℕ) (p q : PathMsg) (nh : NextHop)
    → ArrivesPath p q
    → ArrivesPath p (route_path routing srcip q nh)
unfolding route_path set_route
ArrivesPath-route_path routing srcip p q nh a = ground arith

pub insert_path-new :
    (u : Tree PathMsg) (q : PathMsg) (k : ℕ)
    → IsTable u
    → q.tunnel_id ≡ k
    → k < id_limit
    → data_of (search_node u k) ≡ none
    → (u' : Tree PathMsg) × (insert_node true u q ≡ ok u')
      × IsTable u'
      × (data_of (search_node u' k) ≡ some q)
unfolding path_order
insert_path-new u q k v e =
    subst
      (λ j.
        j < id_limit
        → data_of (search_node u j) ≡ none
        → (u' : Tree PathMsg) × (insert_node true u q ≡ ok u')
          × IsTable u'
          × (data_of (search_node u' j) ≡ some q))
      e (insert_node-new u q v)

-- What a message has from the route: the prefix length and the device, the next hop, and the
-- outgoing address and the interface, which are those of the lookup of the next hop.
abbrev pub FromRoute : Routing → Option ℕ → NextHop → PathMsg → PathMsg → Type 0
FromRoute routing srcip nh new q =
    (q.prefix_len ≡ nh.pref_len) × (q.dev ≡ nh.dev) × by_text nh.nh_ip
  where
    by_srcip : ℤ × SrcIp → Type 0
    by_srcip (status, src) =
        (q.e_srcip ≡ (if is_true status then inet_pton src.srcip new.e_srcip else new.e_srcip))
        × (q.ifh ≡ (if is_true status then src.ifh else new.ifh))

    by_text : Option ℕ → Type 0
    by_text none = (q.nexthop_ip ≡ 0) × (q.e_srcip ≡ 0) × (q.ifh ≡ 0)
    by_text (some a) =
        (q.nexthop_ip ≡ a)
        × by_srcip (routing.get_srcip (some a) (record { srcip = srcip; ifh = nh.ifh }))

route_path-FromRoute :
    (routing : Routing) (srcip : Option ℕ) (buffer : Packet) (new : PathMsg) (nh : NextHop)
    → FromRoute routing srcip nh new (route_path routing srcip (read_path buffer new) nh)
unfolding route_path set_route read_path
route_path-FromRoute routing srcip buffer new nh = by_text nh.nh_ip refl
  where
    by_text :
        (text : Option ℕ)
        → nh.nh_ip ≡ text
        → FromRoute routing srcip nh new (route_path routing srcip (read_path buffer new) nh)
    by_text none e = rw e (refl, refl, (refl, refl, refl))
    by_text (some a) e =
        let (status, src) = routing.get_srcip (some a) (record { srcip = srcip; ifh = nh.ifh }) in
        elim (Bool-cases (is_true status)) [
          | inl found ↦ rw (e, found) (refl, refl, (refl, (refl, refl)))
          | inr lost ↦ rw (e, lost) (refl, refl, (refl, (refl, refl)))
        ]

module _ (routing : Routing) (new : PathMsg) (nhip srcip : Option ℕ) (dev : List ℕ) (status : ℤ)
    (nh : NextHop) (u : Tree PathMsg) (buffer : Packet)
    (e : routing.get_nexthop
        (read_path buffer new).dest_ip
        (record { nh_ip = nhip; pref_len = 0; dev = dev; ifh = 0 })
      ≡ (status, nh)) where
  path_tree_insert-route :
      (malloc : Bool)
      → is_true status ≡ true
      → length nh.dev < 16
      → path_tree_insert routing (some new) malloc nhip dev srcip u buffer ≡ (
          insert_node malloc u (route_path routing srcip (read_path buffer new) nh) >>= λ t.
          ok (t, nh.nh_ip))
  unfolding path_tree_insert
  path_tree_insert-route malloc s short = rw (e, s, lt→ltb (length nh.dev) 16 short) refl

  path_tree_insert-no_route :
      (malloc : Bool)
      → is_true status ≡ false
      → path_tree_insert routing (some new) malloc nhip dev srcip u buffer ≡ ok (null, nh.nh_ip)
  unfolding path_tree_insert
  path_tree_insert-no_route malloc s = rw (e, s) refl

  -- The packet that `send_path_message` makes of a message of its table, with its members in range,
  -- reaches, behind an IP header, a `path_tree_insert` that has memory, a route whose device has a
  -- name of less than 16 characters, and a valid table without the tunnel. The new table is valid,
  -- and `search_node` finds in it the message as it was sent, with the sender's outgoing address as
  -- the previous hop, and with the bytes of the interval reversed; its prefix length, device and
  -- next hop are those of the route. Without a next hop the next hop, the outgoing address and the
  -- interface are 0; with one the outgoing address and the interface are those of `get_srcip` for
  -- it, or if that fails what `malloc` gave.
  pub path_hop :
      (t : Tree PathMsg) (k : ℕ) (p : PathMsg) (stack : Packet) (g : Datagram)
      → data_of (search_node t k) ≡ some p
      → IsPathMsg p
      → send_path_message stack t k ≡ some g
      → Delivers g.size g.bytes buffer
      → is_true status ≡ true
      → length nh.dev < 16
      → IsTable u
      → data_of (search_node u p.tunnel_id) ≡ none
      → (u' : Tree PathMsg) × (q : PathMsg) × (path_tree_insert routing
            (some new)
            true
            nhip
            dev
            srcip
            u
            buffer
          ≡ ok (u', nh.nh_ip))
        × IsTable u'
        × (data_of (search_node u' p.tunnel_id) ≡ some q)
        × (q ≡ route_path routing srcip (read_path buffer new) nh)
        × ArrivesPath p q
        × FromRoute routing srcip nh new q
  path_hop t k p stack g f h sent d s short v absent =
      let same = some-injective (sym sent ∙ send_path_message_lem stack t k p f) in
      let d' = subst (λ x. Delivers x.size x.bytes buffer) same d in
      let q = route_path routing srcip (read_path buffer new) nh in
      let a : ArrivesPath p q =
        ArrivesPath-route_path routing srcip p (read_path buffer new) nh
          (read_path-fill_path p stack buffer h d' new) in
      let (u', e', v', found) = insert_path-new u q p.tunnel_id v a.0 h.tunnel_id absent in
      (
        u',
        q,
        rw (path_tree_insert-route true s short, e') refl,
        v',
        found,
        refl,
        a,
        route_path-FromRoute routing srcip buffer new nh,
      )
