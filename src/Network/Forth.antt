-- ===== src/Network/Forth.antt =====
-- What the routers of a tunnel do with the Path message: the end answers, and a router between
-- sends it on.
use socket.Base.{ℕ, ◌<◌, ◌^◌, ◌≡◌, ◌≢◌, refl, sym, ◌∙◌, ap, subst, Option, some, arith}
use socket.Base.Run.{Run, ok, Returns, Returns-and, Returns-imp}
use socket.Daemon.{quiet}
use socket.Main.KeepPath.{receive_path_message-Has}
use socket.Main.Ranges.{InRange, Inserts-InRange}
use socket.Message.{PathMsg, ResvMsg, path_order, resv_order}
use socket.Network.{Node}
use socket.Network.Line.{IsNode, IsBetween, IsEnd, Labels, Sends, Replies}
use socket.Packet.{Packet, Datagram, Delivers, path_packet_size, resv_packet_size}
use socket.Packet.PathInsert.{send_path_message_lem}
use socket.Packet.Path.{fill_path, send_path_message}
use socket.Packet.Ranges.{IsBytes, fill_path-IsBytes, fill_resv-IsBytes}
use socket.Packet.Resv.{fill_resv}
use socket.Packet.ResvInsert.{send_resv_message_lem}
use socket.Packet.ResvTrip.{IsResvMsg}
use socket.Receive.{Router, receive_path_message}
use socket.Receive.Answer.{Answers}
use socket.Receive.Forward.{sent-ArrivesPath, receive_path_message-forward}
use socket.Receive.Tail.{receive_path_message-tail}
use socket.Route.{SrcIp}
use socket.Tree.{Tree, search_node}
use socket.Tree.Refines.{IsTable}
use socket.Tree.Search.{data_of}

-- A reply that is in the range of bytes, from the message that the table has.
pub sent-Replies :
    (p : PathMsg) (label : ℕ) (reply : Option Datagram) (t : Tree ResvMsg) (stack : Packet)
    (q : ResvMsg)
    → data_of (search_node t p.tunnel_id) ≡ some q
    → IsResvMsg q
    → q.tunnel_id ≡ p.tunnel_id
    → q.dest_ip ≡ p.dest_ip
    → q.in_label ≡ label
    → q.nexthop_ip ≡ p.e_srcip
    → IsBytes stack
    → reply ≡ some (record { to = p.e_srcip; size = resv_packet_size; bytes = fill_resv q stack })
    → Replies p label reply
sent-Replies p label reply t stack q found range id dest label_in hop bytes e = record {
  sent = record { to = p.e_srcip; size = resv_packet_size; bytes = fill_resv q stack };
  is_sent = e;
  table = t;
  stack = stack;
  message = q;
  found = found;
  in_range = range;
  id = id;
  dest = dest;
  in_label = label_in;
  sends =
      send_resv_message_lem stack t p.tunnel_id q found
      ∙ ap (λ a. some (record { to = a; size = resv_packet_size; bytes = fill_resv q stack })) hop;
  to = refl;
  bytes = fill_resv-IsBytes q stack bytes;
}

-- What arrives of a datagram.
pub arrives-Delivers :
    (n : Node) (id : ℕ) (v : IsNode n id) (g : Datagram)
    → Delivers g.size g.bytes (n.arrive g.bytes)
arrives-Delivers n id v g = v.arrives g.size g.bytes

-- At the end.
abbrev pub EndsWith : PathMsg → Node → Router × Option Datagram → Type 0
EndsWith p n (router, reply) =
    ((out : ℕ) × Labels p.tunnel_id (quiet (record n.daemon { router = router })) 3 out)
    × Replies p 3 reply

pub end-EndsWith :
    (n : Node) (p : PathMsg) (g : Datagram)
    → Sends p g
    → IsEnd n p.tunnel_id p.dest_ip
    → Returns (EndsWith p n) (receive_path_message n.env.host (n.arrive g.bytes) n.daemon.router)
end-EndsWith n p g s v =
    let node = v.new.node in
    let host = n.env.host in
    let buffer = n.arrive g.bytes in
    let arrives = arrives-Delivers n p.tunnel_id node g in
    Returns-imp
      (λ (x : Router × Option Datagram).
        Answers host p.tunnel_id p.e_srcip p.dest_ip x × InRange x.0.labels x.0.resv_tree)
      (EndsWith p n) (receive_path_message host buffer n.daemon.router)
      (Returns-and (Answers host p.tunnel_id p.e_srcip p.dest_ip)
        (λ (x : Router × Option Datagram). InRange x.0.labels x.0.resv_tree)
        (receive_path_message host buffer n.daemon.router)
        (receive_path_message-tail host buffer n.daemon.router v.new.path node.resv v.status v.nh
          v.new.new_path v.new.path_malloc node.new_resv node.resv_malloc
          (subst
            (λ dest.
              host.routing.get_nexthop dest
                (record { nh_ip = n.daemon.router.nhip; pref_len = 0; dev = host.dev; ifh = 0 })
              ≡ (v.status, v.nh))
            (sym
              (sent-ArrivesPath buffer v.new.path s.table p.tunnel_id p s.stack g s.found s.in_range
                s.sends arrives).2)
            v.route)
          v.here v.short s.table p.tunnel_id p s.stack g s.found s.in_range s.sends arrives
          v.reached node.router v.new.no_path node.no_resv)
        (receive_path_message-Has host buffer InRange
          (Inserts-InRange host buffer node.typed (node.bytes g.bytes s.bytes)) n.daemon.router
          node.router.resvs node.in_range))
      (λ (x : Router × Option Datagram) ((q, found, id, hop, label, dest, sent), range). (
        (q.out_label, (q, found, label, refl)),
        sent-Replies p 3 x.1 x.0.resv_tree host.stack q found (range p.tunnel_id q found).0 id dest
            label hop node.stack sent,
      ))

src_bound : (n : Node) (id dest : ℕ) (v : IsBetween n id dest) → v.src < 2 ^ 32
src_bound n id dest v =
    let host = n.env.host in
    let f = v.forwards in
    let out : SrcIp = record { srcip = host.path_srcip; ifh = f.nh.ifh } in
    v.new.node.typed.address (some v.hop) out v.src (ap (λ r. r.1.srcip) f.leaves ∙ f.text)

-- Between the ends, the Path message.
abbrev pub GoesOn : PathMsg → Node → Run (Router × Option Datagram) → Type 0
GoesOn p n m =
    (s' : Router) × (q : PathMsg) × (g' : Datagram) × (m ≡ ok (s', some g'))
    × Sends q g'
    × (data_of (search_node s'.path_tree p.tunnel_id) ≡ some q)
    × (q.tunnel_id ≡ p.tunnel_id)
    × (q.dest_ip ≡ p.dest_ip)
    × (q.p_srcip ≡ p.e_srcip)
    × (q.e_srcip ≢ 0)
    × (s'.resv_tree ≡ n.daemon.router.resv_tree)
    × (s'.labels ≡ n.daemon.router.labels)
    × IsTable s'.path_tree

pub between-GoesOn :
    (n : Node) (p : PathMsg) (g : Datagram)
    → Sends p g
    → IsBetween n p.tunnel_id p.dest_ip
    → GoesOn p n (receive_path_message n.env.host (n.arrive g.bytes) n.daemon.router)
between-GoesOn n p g s v =
    let node = v.new.node in
    let host = n.env.host in
    let buffer = n.arrive g.bytes in
    let (u, q, returned, valid, found, (id, src, dest, hop, setup, hold, flags, _), to, out) =
      receive_path_message-forward host buffer n.daemon.router v.new.path v.hop v.src v.new.new_path
        v.new.path_malloc s.table p.tunnel_id p s.stack g s.found s.in_range s.sends
        (arrives-Delivers n p.tunnel_id node g) v.forwards v.real_hop node.router.paths
        v.new.no_path in
    let at_q : data_of (search_node u q.tunnel_id) ≡ some q =
      subst (λ k. data_of (search_node u k) ≡ some q) (sym id) found in
    let sends = send_path_message_lem host.stack u p.tunnel_id q found in
    (
      record n.daemon.router { path_tree = u; nhip = some v.hop },
      q,
      record { to = q.nexthop_ip; size = path_packet_size; bytes = fill_path q host.stack },
      returned
          ∙ ap (λ x. ok (record n.daemon.router { path_tree = u; nhip = some v.hop }, x)) sends,
      record {
        table = u;
        stack = host.stack;
        found = at_q;
        in_range = record {
          src_ip = omega (arith, src, s.in_range.src_ip);
          dest_ip = omega (arith, dest, s.in_range.dest_ip);
          e_srcip = omega (arith, out, src_bound n p.tunnel_id p.dest_ip v);
          tunnel_id = omega (arith, id, s.in_range.tunnel_id);
          setup_priority = omega (arith, setup, s.in_range.setup_priority);
          hold_priority = omega (arith, hold, s.in_range.hold_priority);
          flags = omega (arith, flags, s.in_range.flags);
        };
        sends =
            subst
              (λ k.
                send_path_message host.stack u k
                ≡ some (record {
                  to = q.nexthop_ip;
                  size = path_packet_size;
                  bytes = fill_path q host.stack;
                }))
              (sym id) sends;
        bytes = fill_path-IsBytes q host.stack node.stack;
      },
      found,
      id,
      dest,
      hop,
      (λ zero_src. v.real_src (sym out ∙ zero_src)),
      refl,
      refl,
      valid,
    )
