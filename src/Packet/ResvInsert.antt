-- ===== src/Packet/ResvInsert.antt =====
-- `resv_tree_insert` of rsvp_db.c, on a packet that `send_resv_message` filled.
use socket.Base.{
  ap, some-injective, ℕ, ◌≡◌, ◌≢◌, ◌⊎◌, inl, inr, refl, sym, ◌∙◌, subst, ◌<◌, ◌==◌, ==_iff,
  Bool-cases, true, false, Option, none, some, arith,
}
use socket.Base.Run.{ok, Returns, Returns-bind}
use socket.Label.{Bitmap, no_label, allocate_label}
use socket.Label.Allocate.{Allocated, allocate_label_lem}
use socket.Message.{ResvMsg, resv_order}
use socket.Packet.{Packet, Datagram, Delivers, resv_packet_size, read32, htonl}
use socket.Packet.Resv.{
  fill_resv, send_resv_data, send_resv_message, read_resv, set_labels, set_hop, set_srcip,
  label_resv, resv_tree_insert,
}
use socket.Packet.ResvTrip.{IsResvMsg, ArrivesResv, resv_label, read_resv-fill_resv}
use socket.Route.{Routing}
use socket.Tree.{Tree, null, node, search_node, insert_node}
use socket.Tree.Refines.{IsTable, id_limit, insert_node-new}
use socket.Tree.Search.{data_of, null-data_of}

send_resv_data-data_of :
    (stack : Packet) (n : Tree ResvMsg) (p : ResvMsg)
    → data_of n ≡ some p
    → send_resv_data stack n
      ≡ some (record { to = p.nexthop_ip; size = resv_packet_size; bytes = fill_resv p stack })
unfolding send_resv_data
send_resv_data-data_of stack null p e = cc
send_resv_data-data_of stack (node q l r h) p e = cc

-- For a tunnel that is in the table `send_resv_message` sends its packet to the next hop.
pub send_resv_message_lem :
    (stack : Packet) (t : Tree ResvMsg) (k : ℕ) (p : ResvMsg)
    → data_of (search_node t k) ≡ some p
    → send_resv_message stack t k
      ≡ some (record { to = p.nexthop_ip; size = resv_packet_size; bytes = fill_resv p stack })
unfolding send_resv_message
send_resv_message_lem stack t k p e = send_resv_data-data_of stack (search_node t k) p e

pub send_resv_message-absent :
    (stack : Packet) (t : Tree ResvMsg) (k : ℕ)
    → data_of (search_node t k) ≡ none
    → send_resv_message stack t k ≡ none
unfolding send_resv_message
send_resv_message-absent stack t k e = ap (send_resv_data stack) (null-data_of (search_node t k) e)

pub insert_resv-new :
    (u : Tree ResvMsg) (q : ResvMsg) (k : ℕ)
    → IsTable u
    → q.tunnel_id ≡ k
    → k < id_limit
    → data_of (search_node u k) ≡ none
    → (u' : Tree ResvMsg) × (insert_node true u q ≡ ok u')
      × IsTable u'
      × (data_of (search_node u' k) ≡ some q)
unfolding resv_order
insert_resv-new u q k v e =
    subst
      (λ j.
        j < id_limit
        → data_of (search_node u j) ≡ none
        → (u' : Tree ResvMsg) × (insert_node true u q ≡ ok u')
          × IsTable u'
          × (data_of (search_node u' j) ≡ some q))
      e (insert_node-new u q v)

-- What `get_srcip` leaves alone.
set_srcip_lem :
    (routing : Routing) (srcip : Option ℕ) (p q : ResvMsg)
    → ArrivesResv p q
    → ArrivesResv p (set_srcip routing srcip q)
      × ((set_srcip routing srcip q).nexthop_ip ≡ q.nexthop_ip)
      × ((set_srcip routing srcip q).in_label ≡ q.in_label)
      × ((set_srcip routing srcip q).out_label ≡ q.out_label)
unfolding set_srcip set_hop
set_srcip_lem routing srcip p q a = ground arith

-- The label that comes in, with the pool before and after: the head of the tunnel, which has no
-- next hop, takes none; another router takes one from the pool.
abbrev pub LabelIn : Bitmap → ℕ → Bitmap → ℕ → Type 0
LabelIn m nexthop m' label =
    ((nexthop ≡ 0) × (label ≡ no_label) × (m' ≡ m)) ⊎ ((nexthop ≢ 0) × Allocated m 0 (m', label))

-- `q` is `p` as the router of the next hop `nexthop` stores it.
abbrev pub Stored : Bitmap → ℕ → ResvMsg → ResvMsg × Bitmap → Type 0
Stored m nexthop p (q, m') =
    ArrivesResv p q
    × (q.nexthop_ip ≡ nexthop)
    × (q.out_label ≡ p.in_label)
    × LabelIn m nexthop m' q.in_label

label_resv-Stored :
    (routing : Routing) (srcip : Option ℕ) (buffer : Packet) (m : Bitmap) (p q : ResvMsg)
    → ArrivesResv p q
    → htonl (read32 80 buffer) ≡ p.in_label
    → Returns (Stored m q.nexthop_ip p) (label_resv routing srcip false buffer m q)
unfolding label_resv set_labels set_hop
label_resv-Stored routing srcip buffer m p q a l = elim (Bool-cases (q.nexthop_ip == 0)) [
  | inl zero_hop ↦ rw zero_hop (a, refl, l, inl ((==_iff q.nexthop_ip 0).0 zero_hop, refl, refl))
  | inr hop ↦ rw hop (
      Returns-bind (Allocated m 0) (Stored m q.nexthop_ip p) (allocate_label m) _
        (allocate_label_lem m)
        (λ (m', label) fresh.
          let out_label = htonl (read32 80 buffer) in
          let (s, same_hop, same_in, same_out) =
            set_srcip_lem routing srcip p (set_labels label out_label q) a in
          (
            s,
            same_hop,
            same_out ∙ l,
            inr ((λ e. ground arith), subst (λ j. Allocated m 0 (m', j)) (sym same_in) fresh),
          )))
]

-- The packet that `send_resv_message` makes of a message of its table, with its members in range,
-- reaches, behind an IP header, a `resv_tree_insert` that has memory and a valid table without the
-- tunnel. The new table is valid, and `search_node` finds in it the message as it was sent, with
-- the sender's outgoing address as the previous hop, the bytes of the interval reversed, the label
-- that the sender takes in as the one that goes out, and a label of the pool that comes in, or
-- none at the head of the tunnel.
pub resv_hop :
    (routing : Routing) (new : ResvMsg) (srcip : Option ℕ) (u t : Tree ResvMsg) (m : Bitmap)
    (k nexthop : ℕ) (p : ResvMsg) (stack buffer : Packet) (g : Datagram)
    → data_of (search_node t k) ≡ some p
    → IsResvMsg p
    → send_resv_message stack t k ≡ some g
    → Delivers g.size g.bytes buffer
    → IsTable u
    → data_of (search_node u p.tunnel_id) ≡ none
    → Returns
        (λ (u', m').
          IsTable u'
          × ((q : ResvMsg) × (data_of (search_node u' p.tunnel_id) ≡ some q)
              × Stored m nexthop p (q, m')))
        (resv_tree_insert routing (some new) true srcip u buffer nexthop false m)
unfolding resv_tree_insert
resv_hop routing new srcip u t m k nexthop p stack buffer g f h sent d v absent =
    let same = some-injective (sym sent ∙ send_resv_message_lem stack t k p f) in
    let d' = subst (λ x. Delivers x.size x.bytes buffer) same d in
    let stored =
      label_resv-Stored routing srcip buffer m p (read_resv buffer nexthop new)
        (read_resv-fill_resv p stack buffer h d' nexthop new) (resv_label p stack buffer h d') in
    Returns-bind (Stored m nexthop p) _ _ _ stored (λ (q, m') s.
      let (u', e, v', found) = insert_resv-new u q p.tunnel_id v s.0.0 h.tunnel_id absent in
      rw e (v', (q, found, s)))
