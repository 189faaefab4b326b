-- ===== src/Daemon/Valid.antt =====
-- What `receive_resv_message` leaves of the state, on any packet.
use socket.Base.{
  ℕ, ◌≡◌, ◌<◌, refl, sym, subst, false, Option, some, inl, inr, Bool-cases, ◌==◌, arith,
}
use socket.Base.Run.{ok, ◌>>=◌, Returns, Returns-bind}
use socket.Daemon.{Daemon, Env, Effect, install_node, inserted_resv, store_resv}
use socket.Daemon.Install.{Keeps-install}
use socket.Label.{Bitmap, allocate_label}
use socket.Label.Allocate.{Allocated, allocate_label_lem}
use socket.Message.{PathMsg, ResvMsg, path_order, resv_order}
use socket.Packet.{Packet, htonl, read16, read32}
use socket.Packet.Bytes.{htons-bound}
use socket.Packet.Resv.{read_resv, set_labels, set_hop, set_srcip, label_resv, resv_tree_insert}
use socket.Receive.Valid.{IsRouter, insert_resv-IsTable}
use socket.Route.{Routing}
use socket.Tree.{Tree, null, node, search_node, insert_node}
use socket.Tree.Refines.{IsTable}

set_srcip-tunnel_id :
    (routing : Routing) (srcip : Option ℕ) (q : ResvMsg)
    → (set_srcip routing srcip q).tunnel_id ≡ q.tunnel_id
unfolding set_srcip set_hop
set_srcip-tunnel_id routing srcip q = ground arith

label_resv-tunnel_id :
    (routing : Routing) (srcip : Option ℕ) (buffer : Packet) (m : Bitmap) (q : ResvMsg)
    → Returns (λ (p, m'). p.tunnel_id ≡ q.tunnel_id) (label_resv routing srcip false buffer m q)
unfolding label_resv set_labels set_hop
label_resv-tunnel_id routing srcip buffer m q = elim (Bool-cases (q.nexthop_ip == 0)) [
  | inl head ↦ rw head refl
  | inr between ↦ rw between (
      Returns-bind (Allocated m 0) (λ (p, m'). p.tunnel_id ≡ q.tunnel_id) (allocate_label m)
        (λ (m', in_label).
          ok (set_srcip routing srcip (set_labels in_label (htonl (read32 80 buffer)) q), m'))
        (allocate_label_lem m)
        (λ (m', in_label) fresh.
          set_srcip-tunnel_id routing srcip (set_labels in_label (htonl (read32 80 buffer)) q)))
]

read_resv-bound :
    (buffer : Packet) (hop : ℕ) (new : ResvMsg) → (read_resv buffer hop new).tunnel_id < 65536
unfolding read_resv
read_resv-bound buffer hop new = htons-bound (read16 38 buffer)

module _ (env : Env) (buffer : Packet) (new : ResvMsg) (e : env.host.new_resv ≡ some new) where
  resv_tree_insert-IsTable :
      (hop : ℕ) (t : Tree ResvMsg) (m : Bitmap)
      → IsTable t
      → Returns {A = Tree ResvMsg × Bitmap}
          (λ (t', m'). IsTable t')
          (resv_tree_insert env.host.routing
            (some new)
            env.host.resv_malloc
            env.host.resv_srcip
            t
            buffer
            hop
            false
            m)
  unfolding resv_tree_insert
  resv_tree_insert-IsTable hop t m v =
      Returns-bind (λ (q, m'). q.tunnel_id ≡ (read_resv buffer hop new).tunnel_id)
        (λ (t', m'). IsTable t')
        (label_resv env.host.routing env.host.resv_srcip false buffer m (read_resv buffer hop new))
        (λ (q, m'). insert_node env.host.resv_malloc t q >>= λ t'. ok (t', m'))
        (label_resv-tunnel_id env.host.routing env.host.resv_srcip buffer m
          (read_resv buffer hop new))
        (λ (q, m') id.
          insert_resv-IsTable env.host.resv_malloc t q m' v
            (rw id (read_resv-bound buffer hop new)))

  -- The tables stay valid, and the lists are left alone.
  abbrev pub Spares : Daemon → Effect → Type 0
  Spares d x =
      IsRouter x.daemon.router
      × (x.daemon.heap ≡ d.heap)
      × (x.daemon.path_head ≡ d.path_head)
      × (x.daemon.resv_head ≡ d.resv_head)

  install_node-daemon :
      (pa : PathMsg) (d : Daemon) (id : ℕ) (n : Tree ResvMsg)
      → (install_node env pa d id n).daemon ≡ d
  install_node-daemon pa d id null = refl
  install_node-daemon pa d id (node p l r h) = Keeps-install env pa d id p

  inserted_resv-Spares :
      (pa : PathMsg) (d : Daemon) (id : ℕ) (t : Tree ResvMsg) (m : Bitmap)
      → IsRouter d.router
      → IsTable t
      → Spares d (inserted_resv env pa d id t m)
  unfolding inserted_resv
  inserted_resv-Spares pa d id null m v w =
      (record { paths = v.paths; resvs = v.resvs }, refl, refl, refl)
  inserted_resv-Spares pa d id (node p l r h) m v w =
      let d' : Daemon = record d {
        router = record d.router { resv_tree = node p l r h; labels = m };
      } in
      subst
        (λ (y : Daemon).
          IsRouter y.router
          × (y.heap ≡ d.heap)
          × (y.path_head ≡ d.path_head)
          × (y.resv_head ≡ d.resv_head))
        (sym (install_node-daemon pa d' id (search_node (node p l r h) id)))
        (record { paths = v.paths; resvs = w }, refl, refl, refl)

  pub store_resv-Spares :
      (pa : PathMsg) (d : Daemon) (id : ℕ) (n : Tree ResvMsg)
      → IsRouter d.router
      → Returns (Spares d) (store_resv env buffer pa d id n)
  unfolding store_resv
  store_resv-Spares pa d id (node p l r h) v = (v, refl, refl, refl)
  store_resv-Spares pa d id null v = rw e (
      Returns-bind (λ (t, m). IsTable t) (Spares d)
        (resv_tree_insert env.host.routing (some new) env.host.resv_malloc env.host.resv_srcip
          d.router.resv_tree buffer pa.p_srcip false d.router.labels)
        (λ (t, m). ok (inserted_resv env pa d id t m))
        (resv_tree_insert-IsTable pa.p_srcip d.router.resv_tree d.router.labels v.resvs)
        (λ (t, m) w. inserted_resv-Spares pa d id t m v w))
