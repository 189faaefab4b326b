-- ===== src/Network/Carry.antt =====
-- A Path message along a line of routers, and the answer.
use mathlib.Core.Path.{subst₂}
use socket.Base.{
  ℕ, ◌≡◌, ◌≢◌, refl, sym, ◌∙◌, ap, subst, inl, inr, Option, none, some, ◌==◌, if◌then◌else◌, List,
  [], ◌∷◌,
}
use socket.Base.Run.{Returns, Returns-eq}
use socket.Daemon.{Effect, pop, swap}
use socket.Message.{PathMsg, path_order, resv_order}
use socket.Network.{Node, back, carry}
use socket.Network.Forth.{EndsWith, end-EndsWith, between-GoesOn, sent-Replies}
use socket.Network.Back.{BackWith, back-BackWith}
use socket.Network.Line.{IsNode, IsLine, Labels, Linked, Sends, Replies}
use socket.Packet.{Datagram, resv_packet_size}
use socket.Packet.Resv.{fill_resv}
use socket.Receive.{Router, receive_path_message}
use socket.Tree.{search_node}
use socket.Tree.Refines.{IsTable}
use socket.Tree.Search.{data_of}

-- The routers behind the sender of the Path message `p` have made a label route, and the answer has
-- the label of the first of them.
abbrev pub Carried : PathMsg → List Effect × Option Datagram → Type 0
Carried p (xs, reply) = (label : ℕ) × Linked p.tunnel_id label xs × Replies p label reply

Linked-cons :
    (id label out : ℕ) (x : Effect) (xs : List Effect)
    → Labels id x label out
    → label ≢ 3
    → ((via : ℕ) × (dev : List ℕ) × (x.command
          ≡ some (if out == 3 then pop label via dev else swap label out via)))
    → Linked id out xs
    → Linked id label (x ∷ xs)
Linked-cons id label out x [] labels ne command linked = absurd linked
Linked-cons id label out x (y ∷ xs) labels ne command linked = (out, labels, ne, command, linked)

-- The router after the Path message.
abbrev after : Node → Router → Node
after n s = record n { daemon = record n.daemon { router = s } }

after-IsNode :
    (n : Node) (s : Router) (id : ℕ)
    → IsNode n id
    → s.resv_tree ≡ n.daemon.router.resv_tree
    → s.labels ≡ n.daemon.router.labels
    → IsTable s.path_tree
    → IsNode (after n s) id
after-IsNode n s id v resvs labels paths = record {
  resv = v.resv;
  new_resv = v.new_resv;
  resv_malloc = v.resv_malloc;
  real = v.real;
  unused = v.unused;
  fits = v.fits;
  resvs = v.resvs;
  resv_chain = v.resv_chain;
  fuel = v.fuel;
  router = record { paths = paths; resvs = subst IsTable (sym resvs) v.router.resvs };
  in_range =
      λ k q found. v.in_range k q (subst (λ t. data_of (search_node t k) ≡ some q) resvs found);
  no_resv = subst (λ t. data_of (search_node t id) ≡ none) (sym resvs) v.no_resv;
  typed = v.typed;
  stack = v.stack;
  arrives = v.arrives;
  bytes = v.bytes;
}

-- The label route from a router between the ends, when the next one's answer has come back.
between-Carried :
    (n : Node) (p q : PathMsg) (out : ℕ) (x : Effect) (xs : List Effect)
    → IsNode n p.tunnel_id
    → q.tunnel_id ≡ p.tunnel_id
    → q.dest_ip ≡ p.dest_ip
    → q.p_srcip ≡ p.e_srcip
    → p.e_srcip ≢ 0
    → BackWith n q out x
    → Linked q.tunnel_id out xs
    → Carried p (x ∷ xs, x.sent)
between-Carried n p q out x xs v id goal hop ne
      (r, found, range, tid, dest, next, label, real, inl (end, _, _)) linked =
    absurd (ne (sym hop ∙ end))
between-Carried n p q out x xs v id goal hop ne
      (r, found, range, tid, dest, next, label, real, inr (_, command, sent)) linked =
    let here = subst (λ i. data_of (search_node x.daemon.router.resv_tree i) ≡ some r) id found in
    let not_3 = real (λ z. ne (sym hop ∙ z)) in
    let via = n.env.srcip_of r in
    (
      r.in_label,
      Linked-cons p.tunnel_id r.in_label out x xs (r, here, refl, label) not_3
          (
            via,
            q.dev,
            command
                ∙ ap
                    (λ o. some (if o == 3 then pop r.in_label via q.dev else swap r.in_label o via))
                    label,
          )
          (subst (λ i. Linked i out xs) id linked),
      sent-Replies p r.in_label x.sent x.daemon.router.resv_tree n.env.host.stack r here range
          (tid ∙ id) (dest ∙ goal) refl (next ∙ hop) v.stack
          (sent
            ∙ ap
                (λ a. some (record {
                  to = a;
                  size = resv_packet_size;
                  bytes = fill_resv r n.env.host.stack;
                }))
                hop),
    )

pub back-Returns :
    (n : Node) (q : PathMsg) (out : ℕ) (reply : Option Datagram)
    → Replies q out reply
    → IsNode n q.tunnel_id
    → data_of (search_node n.daemon.router.path_tree q.tunnel_id) ≡ some q
    → Returns (BackWith n q out) (back n reply)
back-Returns n q out reply r v known =
    subst (λ o. Returns (BackWith n q out) (back n o)) (sym r.is_sent)
      (back-BackWith n q out reply r v known)

pub carry-Carried :
    (ns : List Node) (p : PathMsg) (g : Datagram)
    → Sends p g
    → p.e_srcip ≢ 0
    → IsLine ns p.tunnel_id p.dest_ip
    → Returns (Carried p) (carry ns (some g))
unfolding carry
carry-Carried [] p g s ne line = absurd line
carry-Carried (n ∷ []) p g s ne line =
    let ((router, reply), e, ((out, labels), replies)) =
      Returns-eq (EndsWith p n) (receive_path_message n.env.host (n.arrive g.bytes) n.daemon.router)
        (end-EndsWith n p g s line) in
    rw e (3, (refl, refl, (out, labels)), replies)
carry-Carried (n ∷ m ∷ ns) p g s ne (v, line) =
    let (s', q, g', e, sends, found, id, dest, hop, real, resvs, labels, paths) =
      between-GoesOn n p g s v in
    let n' : Node = after n s' in
    let node : IsNode n' q.tunnel_id =
      subst (IsNode n') (sym id) (after-IsNode n s' p.tunnel_id v.new.node resvs labels paths) in
    let ((xs, reply), e', (out, linked, replies)) =
      Returns-eq (Carried q) (carry (m ∷ ns) (some g')) (
        carry-Carried (m ∷ ns) q g' sends real
          (subst₂ (λ i a. IsLine (m ∷ ns) i a) (sym id) (sym dest) line)) in
    let (x, e'', b) = Returns-eq (BackWith n' q out) (back n' reply) (
      back-Returns n' q out reply replies node
        (subst (λ i. data_of (search_node s'.path_tree i) ≡ some q) (sym id) found)) in
    rw (e, e', e'')
      (between-Carried n' p q out x xs (subst (IsNode n') id node) id dest hop ne b linked)
