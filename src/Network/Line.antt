-- ===== src/Network/Line.antt =====
-- What the routers along a tunnel are given, and the label route that they make.
use socket.Base.{
  ℕ, ◌<◌, ◌≡◌, ◌≢◌, true, Option, none, some, List, [], ◌∷◌, ◌==◌, if◌then◌else◌, length,
}
use socket.Base.Int.{ℤ}
use socket.Daemon.{Effect, pop, swap}
use socket.Main.Ranges.{IsTyped, InRange}
use socket.Message.{PathMsg, ResvMsg, path_order, resv_order}
use socket.Network.{Node}
use socket.Packet.{Packet, Datagram, Delivers, is_true}
use socket.Packet.Path.{send_path_message}
use socket.Packet.PathTrip.{IsPathMsg}
use socket.Packet.Ranges.{IsBytes}
use socket.Packet.Resv.{send_resv_message}
use socket.Packet.ResvTrip.{IsResvMsg}
use socket.Receive.Forward.{Forwards}
use socket.Receive.Valid.{IsRouter}
use socket.Route.{NextHop}
use socket.Session.{nil}
use socket.Session.Chain.{Cells, Chain}
use socket.Tree.{Tree, search_node}
use socket.Tree.Search.{data_of}

-- A router that has memory, fuel beyond its Resv sessions and texts that fit, valid tables without
-- a Resv message for the tunnel, and gets the bytes of a packet behind an IP header.
pub record IsNode (n : Node) (id : ℕ) : Type 0 where
  pub resv : ResvMsg
  pub new_resv : n.env.host.new_resv ≡ some resv
  pub resv_malloc : n.env.host.resv_malloc ≡ true
  pub real : n.env.malloc ≢ nil
  pub unused : n.daemon.heap n.env.malloc ≡ none
  pub fits : (a : ℕ) → length (n.env.inet_ntop a) < 16
  pub resvs : Cells
  pub resv_chain : Chain n.daemon.heap n.daemon.resv_head resvs
  pub fuel : length resvs < n.env.fuel
  pub router : IsRouter n.daemon.router
  pub in_range : InRange n.daemon.router.labels n.daemon.router.resv_tree
  pub no_resv : data_of (search_node n.daemon.router.resv_tree id) ≡ none
  pub typed : IsTyped n.env.host
  pub stack : IsBytes n.env.host.stack
  pub arrives : (size : ℕ) (b : Packet) → Delivers size b (n.arrive b)
  pub bytes : (b : Packet) → IsBytes b → IsBytes (n.arrive b)

-- A router that has not seen the tunnel yet.
pub record IsNew (n : Node) (id : ℕ) : Type 0 where
  pub node : IsNode n id
  pub path : PathMsg
  pub new_path : n.env.host.new_path ≡ some path
  pub path_malloc : n.env.host.path_malloc ≡ true
  pub no_path : data_of (search_node n.daemon.router.path_tree id) ≡ none

-- A router between the ends: the route to the destination has a next hop and an outgoing address.
pub record IsBetween (n : Node) (id dest : ℕ) : Type 0 where
  pub new : IsNew n id
  pub hop : ℕ
  pub src : ℕ
  pub forwards : Forwards n.env.host n.daemon.router dest hop src
  pub real_hop : hop ≢ 0
  pub real_src : src ≢ 0

-- The router of the destination: the route has no next hop, and a device with a name that fits.
pub record IsEnd (n : Node) (id dest : ℕ) : Type 0 where
  pub new : IsNew n id
  pub status : ℤ
  pub nh : NextHop
  pub route :
      n.env.host.routing.get_nexthop dest
        (record { nh_ip = n.daemon.router.nhip; pref_len = 0; dev = n.env.host.dev; ifh = 0 })
      ≡ (status, nh)
  pub reached : is_true status ≡ true
  pub here : nh.nh_ip ≡ none
  pub short : length nh.dev < 16

abbrev pub IsLine : List Node → ℕ → ℕ → Type 0
IsLine [] id dest = ⊥
IsLine (n ∷ []) id dest = IsEnd n id dest
IsLine (n ∷ m ∷ ns) id dest = IsBetween n id dest × IsLine (m ∷ ns) id dest

-- The message of the tunnel in a router's table takes `label` in and puts `out` on.
abbrev pub Labels : ℕ → Effect → ℕ → ℕ → Type 0
Labels id x label out =
    (q : ResvMsg) × (data_of (search_node x.daemon.router.resv_tree id) ≡ some q)
    × (q.in_label ≡ label)
    × (q.out_label ≡ out)

-- The label route from a router that packets reach with `label`, to the end: each router swaps the
-- label for the one that the next router takes in, and the last but one pops it.
abbrev pub Linked : ℕ → ℕ → List Effect → Type 0
Linked id label [] = ⊥
Linked id label (x ∷ []) = (label ≡ 3) × (x.command ≡ none) × ((out : ℕ) × Labels id x label out)
Linked id label (x ∷ y ∷ xs) =
    (out : ℕ) × Labels id x label out
    × (label ≢ 3)
    × ((via : ℕ) × (dev : List ℕ) × (x.command
          ≡ some (if out == 3 then pop label via dev else swap label out via)))
    × Linked id out (y ∷ xs)

-- A Path message as a router's `send_path_message` sends it.
pub record Sends (p : PathMsg) (g : Datagram) : Type 0 where
  pub table : Tree PathMsg
  pub stack : Packet
  pub found : data_of (search_node table p.tunnel_id) ≡ some p
  pub in_range : IsPathMsg p
  pub sends : send_path_message stack table p.tunnel_id ≡ some g
  pub bytes : IsBytes g.bytes

-- What comes back to the sender of the Path message `p`: the Resv message `q`, from a table.
pub record Replies (p : PathMsg) (label : ℕ) (reply : Option Datagram) : Type 0 where
  pub sent : Datagram
  pub is_sent : reply ≡ some sent
  pub table : Tree ResvMsg
  pub stack : Packet
  pub message : ResvMsg
  pub found : data_of (search_node table p.tunnel_id) ≡ some message
  pub in_range : IsResvMsg message
  pub id : message.tunnel_id ≡ p.tunnel_id
  pub dest : message.dest_ip ≡ p.dest_ip
  pub in_label : message.in_label ≡ label
  pub sends : send_resv_message stack table p.tunnel_id ≡ some sent
  pub to : sent.to ≡ p.e_srcip
  pub bytes : IsBytes sent.bytes
