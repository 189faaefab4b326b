-- ===== src/Main/Start.antt =====
-- The state after the start of `main` of rsvpd.c at an end of a tunnel.
use socket.Base.{
  ◌≡◌, ◌≢◌, ◌<◌, refl, ap, false, Option, some, [], ◌∷◌, inl, inr, Bool-cases, ◌==◌, if◌then◌else◌,
  length, lt→ltb, arith,
}
use socket.Base.Run.{ok, Returns, Returns-eq, Returns-imp}
use socket.Daemon.{Daemon, Env}
use socket.Main.Configure.{Input, strip, start_path, add_tunnel, configure}
use socket.Session.Chain.{Apart}
use socket.Main.Valid.{IsDaemon, IsReady}
use socket.Message.{PathMsg, path_order, resv_order}
use socket.Packet.{Datagram, is_true, inet_pton}
use socket.Packet.Path.{send_path_message}
use socket.Route.{NextHop}
use socket.Session.{Ptr, nil, Heap, insert_session}
use socket.Session.Chain.{Cells, Chain, has, frame}
use socket.Session.Insert.{has_of_none, new_entry, insert_session_lem}
use socket.Tree.{Tree, insert_node}
use socket.Tree.Refines.{IsTable, insert_node_refines}

-- The Resv list after a tunnel has been typed in: its session is kept only if it is the first.
abbrev pub configured : Env → Input → Cells → Cells
configured env c [] =
    (env.malloc, new_entry env.now c.tunnel_id (strip c.src_line) (strip c.dst_line) 1) ∷ []
configured env c (cell ∷ cs) = cell ∷ cs

-- What is typed in fits its types.
pub record IsInput (c : Input) : Type 0 where
  pub tunnel_id : c.tunnel_id < 65536
  pub src : length (strip c.src_line) < 16
  pub dst : length (strip c.dst_line) < 16

pub start_path-tunnel_id :
    (env : Env) (c : Input) (nh : NextHop) (new : PathMsg)
    → (start_path env c nh new).tunnel_id ≡ c.tunnel_id
unfolding start_path
start_path-tunnel_id env c nh new = refl

module _ (env : Env) (c : Input) (d : Daemon) (v : IsDaemon d) (r : IsReady env d)
    (i : IsInput c) where
  -- The state that the insertion of the table `t` and the session leaves.
  after : Tree PathMsg → Ptr → Heap → Daemon
  after t head heap = record d {
    router = record d.router { path_tree = t };
    heap = heap;
    resv_head = if d.resv_head == nil then head else d.resv_head;
  }

  -- The two lists after the insertion of the session.
  Lists : Ptr × Heap → Type 0
  Lists (head, heap) =
      Chain heap d.path_head v.paths
      × Chain heap (if d.resv_head == nil then head else d.resv_head) (configured env c v.resvs)
      × Apart v.paths (configured env c v.resvs)

  lists_after :
      (cs : Cells) (head : Ptr) (heap : Heap)
      → Chain d.heap d.resv_head cs
      → Apart v.paths cs
      → Chain heap head
          ((env.malloc, new_entry env.now c.tunnel_id (strip c.src_line) (strip c.dst_line) 1) ∷ cs)
      → ((a : Ptr) → a ≢ env.malloc → heap a ≡ d.heap a)
      → Chain heap d.path_head v.paths
        × Chain heap (if d.resv_head == nil then head else d.resv_head) (configured env c cs)
        × Apart v.paths (configured env c cs)
  lists_after [] head heap k apart chain spared =
      let out = has_of_none d.heap env.malloc d.path_head v.paths v.path_chain r.unused in
      (
        frame d.heap heap d.path_head v.paths v.path_chain
            (λ a there. spared a (λ same. ground (arith, ap (λ b. has b v.paths) same))),
        rw k chain,
        λ a there. ground (arith, out),
      )
  lists_after ((b, e) ∷ cs) head heap k apart chain spared =
      let out = has_of_none d.heap env.malloc d.path_head v.paths v.path_chain r.unused in
      let gone = has_of_none d.heap env.malloc d.resv_head ((b, e) ∷ cs) k r.unused in
      let full : (d.resv_head == nil) ≡ false = ground arith in
      (
        frame d.heap heap d.path_head v.paths v.path_chain
            (λ a there. spared a (λ same. ground (arith, ap (λ b. has b v.paths) same))),
        rw full (
            frame d.heap heap d.resv_head ((b, e) ∷ cs) k
              (λ a there. spared a (λ same. ground (arith, ap (λ x. has x ((b, e) ∷ cs)) same)))),
        apart,
      )

  insert_session-Lists : Returns Lists (
      insert_session env.malloc env.now d.resv_head c.tunnel_id
        (strip c.src_line)
        (strip c.dst_line)
        1
        d.heap)
  unfolding Lists
  insert_session-Lists =
      let ((head, heap), returned, (chain, spared)) =
        Returns-eq _
          (insert_session env.malloc env.now d.resv_head c.tunnel_id (strip c.src_line)
            (strip c.dst_line) 1 d.heap)
          (insert_session_lem d.heap env.malloc env.now d.resv_head c.tunnel_id (strip c.src_line)
            (strip c.dst_line) 1 v.resvs v.resv_chain r.real r.unused i.src i.dst) in
      rw returned (lists_after v.resvs head heap v.resv_chain v.apart chain spared)

  after-IsDaemon :
      (t : Tree PathMsg) (head : Ptr) (heap : Heap)
      → IsTable t
      → Lists (head, heap)
      → IsDaemon (after t head heap)
  unfolding Lists after
  after-IsDaemon t head heap w (paths, resvs, apart) = record {
    router = record { paths = w; resvs = v.router.resvs };
    paths = v.paths;
    resvs = configured env c v.resvs;
    path_chain = paths;
    resv_chain = resvs;
    apart = apart;
  }

  -- What has been added, if the table becomes `t`.
  unfoldable pub Added : Tree PathMsg → Daemon × Option Datagram → Type 0
  Added t (d', g) =
      IsDaemon d'
      × Chain d'.heap d'.resv_head (configured env c v.resvs)
      × (d'.router.path_tree ≡ t)
      × (g ≡ send_path_message env.host.stack t c.tunnel_id)

  pub add_tunnel-Added :
      (nh : NextHop) (t : Tree PathMsg)
      → insert_node env.host.path_malloc d.router.path_tree (start_path env c nh r.path) ≡ ok t
      → IsTable t
      → length nh.dev < 16
      → Returns (Added t) (add_tunnel env c d nh (some r.path))
  unfolding add_tunnel Added Lists after
  add_tunnel-Added nh t inserted w short =
      let ((head, heap), returned, lists) =
        Returns-eq Lists
          (insert_session env.malloc env.now d.resv_head c.tunnel_id (strip c.src_line)
            (strip c.dst_line) 1 d.heap)
          insert_session-Lists in
      rw (lt→ltb (length nh.dev) 16 short, inserted, returned)
        (after-IsDaemon t head heap w lists, lists.1, refl, refl)

  start_path-refines :
      (nh : NextHop)
      → (t : Tree PathMsg) × (insert_node env.host.path_malloc d.router.path_tree
            (start_path env c nh r.path)
          ≡ ok t)
        × IsTable t
  unfolding path_order
  start_path-refines nh =
      let (t, inserted, w, _) =
        insert_node_refines env.host.path_malloc d.router.path_tree (start_path env c nh r.path)
          v.router.paths (rw (start_path-tunnel_id env c nh r.path) i.tunnel_id) in
      (t, inserted, w)

  -- With memory, route lookups that return, and texts and names that fit, `configure` returns, with no memory fault, and keeps the tables valid
  -- and the lists lists, whatever the routes are.
  pub configure-IsDaemon : Returns (λ (d', g). IsDaemon d') (configure env c d)
  unfolding configure Added
  configure-IsDaemon =
      let (status, nh) =
        env.host.routing.get_nexthop (inet_pton (c.parse (strip c.dst_line)) c.stale_ip) env.out in
      elim (Bool-cases (is_true status)) [
        | inl route ↦
            let (t, inserted, w) = start_path-refines nh in
            rw (route, r.new_path)
              (Returns-imp (Added t) (λ (d', g). IsDaemon d') (add_tunnel env c d nh (some r.path))
                (add_tunnel-Added nh t inserted w
                  (r.out_names (inet_pton (c.parse (strip c.dst_line)) c.stale_ip) env.out refl))
                (λ (d', g) added. added.0))
        | inr no_route ↦ rw no_route v
      ]
