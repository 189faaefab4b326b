-- ===== src/Network/Back.antt =====
-- What the routers of a tunnel do with the Resv message that the next router sends.
use socket.Base.{ℕ, ◌≡◌, ◌≢◌, sym, ◌∙◌, subst, inl, inr, Option, none, some, arith}
use socket.Base.Run.{Returns, Returns-and, Returns-imp, Yields}
use socket.Daemon.{Effect, receive_resv_message}
use socket.Daemon.Install.{Installs}
use socket.Daemon.Resv.{Received, receive_resv_message_lem}
use socket.Label.{Bitmap}
use socket.Main.KeepReceive.{answer_resv-Has}
use socket.Main.Ranges.{InRange, Inserts-InRange}
use socket.Message.{PathMsg, ResvMsg, path_order, resv_order}
use socket.Network.{Node}
use socket.Network.Line.{IsNode, Replies}
use socket.Packet.{Packet, Datagram}
use socket.Packet.Ranges.{IsBytes}
use socket.Packet.ResvInsert.{LabelIn}
use socket.Packet.ResvTrip.{IsResvMsg}
use socket.Receive.{tunnel_id_of}
use socket.Tree.{search_node}
use socket.Tree.Search.{data_of}
use socket.Network.Forth.{arrives-Delivers}

-- A label of the pool is not 3.
LabelIn-real :
    (m : Bitmap) (nexthop : ℕ) (m' : Bitmap) (label : ℕ)
    → LabelIn m nexthop m' label
    → nexthop ≢ 0
    → label ≢ 3
LabelIn-real m nexthop m' label (inl (zero_hop, _, _)) ne is_3 = ne zero_hop
LabelIn-real m nexthop m' label (inr (_, inl (k, lo, hi, named, _, _, _))) ne is_3 = omega arith
LabelIn-real m nexthop m' label (inr (_, inr (none_left, _, _))) ne is_3 = omega arith

received-InRange :
    (n : Node) (id : ℕ) (v : IsNode n id) (buffer : Packet)
    → IsBytes buffer
    → Yields
        (λ (x : Effect). InRange x.daemon.router.labels x.daemon.router.resv_tree)
        (receive_resv_message n.env buffer n.daemon)
unfolding receive_resv_message
received-InRange n id v buffer bytes =
    answer_resv-Has n.env buffer InRange (Inserts-InRange n.env.host buffer v.typed bytes) n.daemon
      (tunnel_id_of buffer) (search_node n.daemon.router.path_tree (tunnel_id_of buffer))
      v.router.resvs v.in_range

-- A router with the Path message `pa` receives the Resv message that the next one sent.
abbrev pub BackWith : Node → PathMsg → ℕ → Effect → Type 0
BackWith n pa out x =
    (q : ResvMsg) × (data_of (search_node x.daemon.router.resv_tree pa.tunnel_id) ≡ some q)
    × IsResvMsg q
    × (q.tunnel_id ≡ pa.tunnel_id)
    × (q.dest_ip ≡ pa.dest_ip)
    × (q.nexthop_ip ≡ pa.p_srcip)
    × (q.out_label ≡ out)
    × ((pa.p_srcip ≢ 0) → q.in_label ≢ 3)
    × Installs n.env pa q x

pub back-BackWith :
    (n : Node) (pa : PathMsg) (out : ℕ) (reply : Option Datagram)
    → (r : Replies pa out reply) → IsNode n pa.tunnel_id
    → data_of (search_node n.daemon.router.path_tree pa.tunnel_id) ≡ some pa
    → Returns (BackWith n pa out) (receive_resv_message n.env (n.arrive r.sent.bytes) n.daemon)
back-BackWith n pa out reply r v known =
    let env = n.env in
    let buffer = n.arrive r.sent.bytes in
    let d = n.daemon in
    let tid = r.id in
    Returns-imp
      (λ x.
        Received env buffer pa d v.resvs r.message x
        × InRange x.daemon.router.labels x.daemon.router.resv_tree)
      (BackWith n pa out) (receive_resv_message env buffer d)
      (Returns-and (Received env buffer pa d v.resvs r.message)
        (λ (x : Effect). InRange x.daemon.router.labels x.daemon.router.resv_tree)
        (receive_resv_message env buffer d)
        (receive_resv_message_lem env buffer v.resv pa d v.resvs r.table pa.tunnel_id r.message
          r.stack r.sent v.new_resv v.resv_malloc v.real v.unused v.fits v.resv_chain v.fuel r.found
          r.in_range r.sends (arrives-Delivers n pa.tunnel_id v r.sent) v.router.resvs
          (subst (λ i. data_of (search_node d.router.resv_tree i) ≡ none) (sym tid) v.no_resv)
          (subst (λ i. data_of (search_node d.router.path_tree i) ≡ some pa) (sym tid) known))
        (received-InRange n pa.tunnel_id v (n.arrive r.sent.bytes) (v.bytes r.sent.bytes r.bytes)))
      (λ x (((_, (q, found, (arrived, hop, label, fresh), installs)), _, _, _), range).
        let at =
          subst (λ i. data_of (search_node x.daemon.router.resv_tree i) ≡ some q) tid found in
        (
          q,
          at,
          (range pa.tunnel_id q at).0,
          arrived.0 ∙ tid,
          arrived.2 ∙ r.dest,
          hop,
          label ∙ r.in_label,
          LabelIn-real d.router.labels pa.p_srcip x.daemon.router.labels q.in_label fresh,
          installs,
        ))
