-- ===== src/Receive/Valid.antt =====
-- The tables stay valid when a Path message is received.
use socket.Base.{
  ℕ, ◌≡◌, refl, ◌<◌, Bool, true, inl, inr, Bool-cases, Option, some, List, ◌==◌, lt→ltb, length,
  arith,
}
use socket.Base.Run.{ok, ◌>>=◌, Returns, Returns-bind}
use socket.Label.{Bitmap}
use socket.Message.{PathMsg, ResvMsg, path_order, resv_order}
use socket.Packet.{Packet, is_true, htons, read16, read32}
use socket.Packet.Bytes.{htons-bound}
use socket.Packet.Path.{read_path, route_path, set_route, path_tree_insert}
use socket.Packet.Resv.{
  send_resv_message, read_resv, set_srcip, set_labels, set_hop, label_resv, resv_tree_insert,
}
use socket.Receive.{
  Router, Host, set_path_tree, insert_path, set_resv_tree, insert_resv, answer_path, tunnel_id_of,
  receive_path_message,
}
use socket.Route.{NextHop, Routing, NamesFit}
use socket.Tree.{Tree, null, node, search_node, insert_node}
use socket.Tree.Refines.{IsTable, insert_node_refines}

-- Both tables are valid.
pub record IsRouter (s : Router) : Type 0 where
  pub paths : IsTable s.path_tree
  pub resvs : IsTable s.resv_tree

path_null-IsTable : (t : Tree PathMsg) → t ≡ null → IsTable t
path_null-IsTable t e = rw e (record { balanced = omega arith; ordered = omega arith })

insert_path-IsTable :
    (malloc : Bool) (t : Tree PathMsg) (x : PathMsg) (nhip : Option ℕ)
    → IsTable t
    → x.tunnel_id < 65536
    → Returns (λ (t', n). IsTable t') (insert_node malloc t x >>= λ t'. ok (t', nhip))
unfolding path_order
insert_path-IsTable malloc t x nhip v lt =
    let (t', e, v', listed) = insert_node_refines malloc t x v lt in rw e v'

pub insert_resv-IsTable :
    (malloc : Bool) (t : Tree ResvMsg) (x : ResvMsg) (m : Bitmap)
    → IsTable t
    → x.tunnel_id < 65536
    → Returns (λ (t', n). IsTable t') (insert_node malloc t x >>= λ t'. ok (t', m))
unfolding resv_order
insert_resv-IsTable malloc t x m v lt =
    let (t', e, v', listed) = insert_node_refines malloc t x v lt in rw e v'

route_path-bound :
    (routing : Routing) (srcip : Option ℕ) (buffer : Packet) (new : PathMsg) (nh : NextHop)
    → (route_path routing srcip (read_path buffer new) nh).tunnel_id < 65536
unfolding route_path set_route read_path
route_path-bound routing srcip buffer new nh = ground (arith, htons-bound (read16 38 buffer))

path_tree_insert-IsTable :
    (routing : Routing) (new : PathMsg) (malloc : Bool) (nhip srcip : Option ℕ) (dev : List ℕ)
    (t : Tree PathMsg) (buffer : Packet)
    → IsTable t
    → NamesFit routing dev
    → Returns
        (λ (t', n). IsTable t')
        (path_tree_insert routing (some new) malloc nhip dev srcip t buffer)
unfolding path_tree_insert
path_tree_insert-IsTable routing new malloc nhip srcip dev t buffer v short =
    let out : NextHop = record { nh_ip = nhip; pref_len = 0; dev = dev; ifh = 0 } in
    let (status, nh) =
      routing.get_nexthop (read_path buffer new).dest_ip
        (record { nh_ip = nhip; pref_len = 0; dev = dev; ifh = 0 }) in
    elim (Bool-cases (is_true status)) [
      | inl s ↦
          rw (s, lt→ltb (length nh.dev) 16 (short (read_path buffer new).dest_ip out refl))
            (insert_path-IsTable malloc t (route_path routing srcip (read_path buffer new) nh)
              nh.nh_ip v (route_path-bound routing srcip buffer new nh))
      | inr s ↦ rw s (path_null-IsTable null refl)
    ]

-- At the end of the tunnel the message of the answer keeps the id and the destination of the packet.
pub label_resv-tail :
    (routing : Routing) (srcip : Option ℕ) (buffer : Packet) (m : Bitmap) (hop : ℕ) (new : ResvMsg)
    → (q : ResvMsg) × (label_resv routing srcip true buffer m (read_resv buffer hop new)
        ≡ ok (q, m))
      × (q.tunnel_id ≡ htons (read16 38 buffer))
      × (q.nexthop_ip ≡ hop)
      × (q.in_label ≡ 3)
      × (q.dest_ip ≡ read32 32 buffer)
unfolding label_resv read_resv set_srcip set_labels set_hop
label_resv-tail routing srcip buffer m hop new = (
  set_srcip routing srcip (set_labels 3 4294967295 (read_resv buffer hop new)),
  refl,
  ground arith,
  ground arith,
  ground arith,
  ground arith,
)

label_resv-bound :
    (routing : Routing) (srcip : Option ℕ) (buffer : Packet) (m : Bitmap) (hop : ℕ) (new : ResvMsg)
    → Returns
        (λ (q, m'). q.tunnel_id < 65536)
        (label_resv routing srcip true buffer m (read_resv buffer hop new))
label_resv-bound routing srcip buffer m hop new =
    let (q, e, id, next, label, there) = label_resv-tail routing srcip buffer m hop new in
    rw e (rw id (htons-bound (read16 38 buffer)))

resv_tree_insert-IsTable :
    (routing : Routing) (new : ResvMsg) (malloc : Bool) (srcip : Option ℕ) (t : Tree ResvMsg)
    (buffer : Packet) (hop : ℕ) (m : Bitmap)
    → IsTable t
    → Returns {A = Tree ResvMsg × Bitmap}
        (λ (t', n). IsTable t')
        (resv_tree_insert routing (some new) malloc srcip t buffer hop true m)
unfolding resv_tree_insert
resv_tree_insert-IsTable routing new malloc srcip t buffer hop m v =
    Returns-bind (λ (q, m'). q.tunnel_id < 65536) (λ (t', n). IsTable t')
      (label_resv routing srcip true buffer m (read_resv buffer hop new))
      (λ (q, m'). insert_node malloc t q >>= λ t'. ok (t', m'))
      (label_resv-bound routing srcip buffer m hop new)
      (λ (q, m') lt. insert_resv-IsTable malloc t q m' v lt)

set_path_tree-IsRouter :
    (s : Router) (id : ℕ) (t : Tree PathMsg) (nhip : Option ℕ)
    → IsRouter s
    → IsTable t
    → IsRouter (set_path_tree s id t nhip).0
unfolding set_path_tree
set_path_tree-IsRouter s id null nhip v w = record { paths = v.paths; resvs = v.resvs }
set_path_tree-IsRouter s id (node p l r h) nhip v w = record { paths = w; resvs = v.resvs }

set_resv_tree-IsRouter :
    (s : Router) (t : Tree ResvMsg) (m : Bitmap)
    → IsRouter s
    → IsTable t
    → IsRouter (set_resv_tree s t m)
unfolding set_resv_tree
set_resv_tree-IsRouter s null m v w = record { paths = v.paths; resvs = v.resvs }
set_resv_tree-IsRouter s (node q l r h) m v w = record { paths = v.paths; resvs = w }

module _ (host : Host) (buffer : Packet) (short : NamesFit host.routing host.dev) where
  insert_path-IsRouter :
      (new : PathMsg) (s : Router) (id : ℕ) (n : Tree PathMsg)
      → host.new_path ≡ some new
      → IsRouter s
      → Returns (λ (s', n'). IsRouter s') (insert_path host buffer s id n)
  unfolding insert_path
  insert_path-IsRouter new s id null e v = rw e (
      Returns-bind (λ (t, n). IsTable t) (λ (s', n'). IsRouter s') _ _
        (path_tree_insert-IsTable host.routing new host.path_malloc s.nhip host.path_srcip host.dev
          s.path_tree buffer v.paths short)
        (λ (t, nhip) w. set_path_tree-IsRouter s id t nhip v w))
  insert_path-IsRouter new s id (node p l r h) e v = v

  insert_resv-IsRouter :
      (new : ResvMsg) (s : Router) (hop : ℕ) (n : Tree ResvMsg)
      → host.new_resv ≡ some new
      → IsRouter s
      → Returns IsRouter (insert_resv host buffer s hop n)
  unfolding insert_resv
  insert_resv-IsRouter new s hop null e v = rw e (
      Returns-bind (λ (t, n). IsTable t) IsRouter
        (resv_tree_insert host.routing (some new) host.resv_malloc host.resv_srcip s.resv_tree
          buffer hop true s.labels)
        (λ (t, m). ok (set_resv_tree s t m))
        (resv_tree_insert-IsTable host.routing new host.resv_malloc host.resv_srcip s.resv_tree
          buffer hop s.labels v.resvs)
        (λ (t, m) w. set_resv_tree-IsRouter s t m v w))
  insert_resv-IsRouter new s hop (node q l r h) e v = v

  answer_path-IsRouter :
      (new : ResvMsg) (s : Router) (id : ℕ) (n : Tree PathMsg)
      → host.new_resv ≡ some new
      → IsRouter s
      → Returns (λ (s', g). IsRouter s') (answer_path host buffer id s n)
  unfolding answer_path
  answer_path-IsRouter new s id null e v = v
  answer_path-IsRouter new s id (node p l r h) e v = elim (Bool-cases (p.nexthop_ip == 0)) [
    | inl end ↦ rw end (
        Returns-bind IsRouter (λ (s', g). IsRouter s')
          (insert_resv host buffer s p.p_srcip (search_node s.resv_tree id))
          (λ s'. ok (s', send_resv_message host.stack s'.resv_tree id))
          (insert_resv-IsRouter new s p.p_srcip (search_node s.resv_tree id) e v) (λ s' w. w))
    | inr on ↦ rw on v
  ]

  -- With memory for the messages, and where the lookups of routes return and leave names of devices
  -- of less than 16 characters, `receive_path_message` returns on every packet, with no memory
  -- fault, and keeps both tables valid, whatever the routes are otherwise and whether or not there is memory for a node.
  pub receive_path_message-IsRouter :
      (s : Router) (path : PathMsg) (resv : ResvMsg)
      → host.new_path ≡ some path
      → host.new_resv ≡ some resv
      → IsRouter s
      → Returns (λ (s', g). IsRouter s') (receive_path_message host buffer s)
  unfolding receive_path_message
  receive_path_message-IsRouter s path resv e f v =
      let id = tunnel_id_of buffer in
      Returns-bind (λ (s', n). IsRouter s') (λ (s', g). IsRouter s')
        (insert_path host buffer s id (search_node s.path_tree id))
        (λ (s', n). answer_path host buffer id s' n)
        (insert_path-IsRouter path s id (search_node s.path_tree id) e v)
        (λ (s', n) w. answer_path-IsRouter resv s' id n f w)
