-- ===== src/Network/Tunnel.antt =====
-- A tunnel over any number of routers.
use Prim.Native.Nat.{bit_and}
use socket.Base.{ℕ, ◌≡◌, ◌≢◌, ◌∙◌, ap, inl, inr, none, some, List}
use socket.Base.Run.{Returns, Returns-eq}
use socket.Daemon.{Effect, push}
use socket.Message.{PathMsg, ResvMsg, path_order, resv_order}
use socket.Network.{Node, back, carry, setup}
use socket.Network.Back.{BackWith}
use socket.Network.Line.{IsNode, IsLine, Linked}
use socket.Packet.{Datagram, path_packet_size}
use socket.Packet.Path.{fill_path}
use socket.Packet.PathInsert.{send_path_message_lem}
use socket.Packet.PathTrip.{IsPathMsg}
use socket.Packet.Ranges.{fill_path-IsBytes}
use socket.Route.Subnet.{subnet_mask}
use socket.Tree.{search_node}
use socket.Tree.Search.{data_of}
use socket.Network.Carry.{Carried, back-Returns, carry-Carried}

-- The head of the tunnel pushes the label for the prefix of the destination, and sends nothing more.
abbrev pub Pushes : Node → PathMsg → ℕ → Effect → Type 0
Pushes n p label x =
    (q : ResvMsg) × (data_of (search_node x.daemon.router.resv_tree p.tunnel_id) ≡ some q)
    × (q.dest_ip ≡ p.dest_ip)
    × (q.out_label ≡ label)
    × (x.command
        ≡ some (
            push (bit_and q.dest_ip (subnet_mask n.env.undefined_shift p.prefix_len)) p.prefix_len
              label (n.env.srcip_of q) p.dev))
    × (x.sent ≡ none)

BackWith-Pushes :
    (n : Node) (p : PathMsg) (label : ℕ) (x : Effect)
    → p.p_srcip ≡ 0
    → BackWith n p label x
    → Pushes n p label x
BackWith-Pushes n p label x head (q, found, _, _, _, _, out, _, inr (ne, _, _)) = absurd (ne head)
BackWith-Pushes n p label x head (q, found, _, _, dest, _, out, _, inl (_, command, sent)) = (
  q,
  found,
  dest,
  out,
  command
      ∙ ap
          (λ o. some (
            push (bit_and q.dest_ip (subnet_mask n.env.undefined_shift p.prefix_len)) p.prefix_len o
              (n.env.srcip_of q) p.dev))
          out,
  sent,
)

-- Let a line of routers lead to the destination of a Path message: the route of each but the
-- last has a next hop and an outgoing address, neither of them 0, and that of the last has no
-- next hop; the lookups return, and the names of the devices have less than 16 characters. None of them has a message for the tunnel. The head stands before them: its Path
-- message came from no other router and has an outgoing address that is not 0 and members in
-- range, and it has no Resv message. All have memory, valid tables whose Resv messages are in
-- range, fuel beyond their Resv sessions and texts that fit, what the routes and malloc give is
-- in the ranges of its C types, and packets arrive whole, behind an IP header. The head sends
-- its message, each router hands it to the next, and the Resv messages come back. Then the
-- handlers of all of them return with no memory fault. Each router has a Resv message for the
-- tunnel; its outgoing label is the incoming one of the next router, and 3 is that of the last.
-- Each router between swaps the one for the other, but the last of these pops; the head pushes
-- the label of the first router for the prefix of the destination of the Path message, and sends
-- nothing.
pub setup_lem :
    (head : Node) (ns : List Node) (p : PathMsg)
    → data_of (search_node head.daemon.router.path_tree p.tunnel_id) ≡ some p
    → IsPathMsg p
    → p.p_srcip ≡ 0
    → p.e_srcip ≢ 0
    → IsNode head p.tunnel_id
    → IsLine ns p.tunnel_id p.dest_ip
    → Returns
        (λ (x, xs). (label : ℕ) × Pushes head p label x × Linked p.tunnel_id label xs)
        (setup head ns p.tunnel_id)
unfolding setup
setup_lem head ns p known range first ne v line =
    let stack = head.env.host.stack in
    let table = head.daemon.router.path_tree in
    let g : Datagram = record {
      to = p.nexthop_ip;
      size = path_packet_size;
      bytes = fill_path p stack;
    } in
    let sends = send_path_message_lem stack table p.tunnel_id p known in
    let ((xs, reply), e, (label, linked, replies)) = Returns-eq (Carried p) (carry ns (some g)) (
      carry-Carried ns p g
        (record {
          table = table;
          stack = stack;
          found = known;
          in_range = range;
          sends = sends;
          bytes = fill_path-IsBytes p stack v.stack;
        })
        ne line) in
    let (x, e', b) =
      Returns-eq (BackWith head p label) (back head reply)
        (back-Returns head p label reply replies v known) in
    rw (sends, e, e') (label, BackWith-Pushes head p label x first b, linked)
