-- ===== src/Daemon/Resv.antt =====
-- `receive_resv_message` on a packet that `send_resv_message` filled.
use mathlib.Core.Option.{none-ne-some}
use socket.Base.{ℕ, ◌≡◌, ◌≢◌, sym, ◌∙◌, subst, some-injective, true, false, none, some, ◌<◌, length}
use socket.Base.Run.{ok, ◌>>=◌, Returns, Returns-bind, Returns-imp}
use socket.Daemon.{
  Daemon, Env, Effect, inserted_resv, store_resv, answer_resv, receive_resv_message,
}
use socket.Message.{PathMsg, ResvMsg, path_order, resv_order}
use socket.Packet.{Packet, Datagram, Delivers, htons, read16, read32}
use socket.Packet.Resv.{read_resv, send_resv_message, resv_tree_insert}
use socket.Packet.ResvInsert.{resv_hop, send_resv_message_lem}
use socket.Packet.ResvTrip.{IsResvMsg, read_resv-fill_resv}
use socket.Receive.{tunnel_id_of}
use socket.Session.{Ptr, nil, Heap}
use socket.Session.Chain.{Cells, Chain}
use socket.Session.Join.{insert, inserted, dst_reached, insert_lem}
use socket.Tree.{Tree, null, node, search_node}
use socket.Tree.Refines.{IsTable}
use socket.Tree.Search.{null-data_of, data_of}
use socket.Daemon.Install.{Keeps, Answered, HasStored, inserted_resv-Answered}

module _ (env : Env) (buffer : Packet) (new : ResvMsg) (pa : PathMsg) (d : Daemon)
    (t : Tree ResvMsg) (k : ℕ) (p : ResvMsg) (stack : Packet) (g : Datagram)
    (e : env.host.new_resv ≡ some new) (room : env.host.resv_malloc ≡ true)
    (f : data_of (search_node t k) ≡ some p) (h : IsResvMsg p)
    (sent : send_resv_message stack t k ≡ some g) (arrives : Delivers g.size g.bytes buffer)
    (v : IsTable d.router.resv_tree)
    (absent : data_of (search_node d.router.resv_tree p.tunnel_id) ≡ none) where
  store_resv-null :
      Returns
        (λ x. Answered env pa d.router.labels p x × Keeps d x)
        (store_resv env buffer pa d p.tunnel_id null)
  unfolding store_resv
  store_resv-null =
      rw (e, room)
        (Returns-bind (HasStored d.router.labels pa p)
          (λ x. Answered env pa d.router.labels p x × Keeps d x)
          (resv_tree_insert env.host.routing (some new) true env.host.resv_srcip d.router.resv_tree
            buffer pa.p_srcip false d.router.labels)
          (λ (u, m). ok (inserted_resv env pa d p.tunnel_id u m))
          (resv_hop env.host.routing new env.host.resv_srcip d.router.resv_tree t d.router.labels k
            pa.p_srcip p stack buffer g f h sent arrives v absent)
          (λ (u, m) has. inserted_resv-Answered env pa d u d.router.labels m p has))

  store_resv-search :
      Returns
        (λ x. Answered env pa d.router.labels p x × Keeps d x)
        (store_resv env buffer pa d p.tunnel_id (search_node d.router.resv_tree p.tunnel_id))
  store_resv-search =
      subst
        (λ n.
          Returns (λ x. Answered env pa d.router.labels p x × Keeps d x)
            (store_resv env buffer pa d p.tunnel_id n))
        (sym (null-data_of (search_node d.router.resv_tree p.tunnel_id) absent)) store_resv-null

-- The tunnel id of the packet.
resv_tunnel_id :
    (t : Tree ResvMsg) (k : ℕ) (p : ResvMsg) (stack buffer : Packet) (g : Datagram)
    → data_of (search_node t k) ≡ some p
    → IsResvMsg p
    → send_resv_message stack t k ≡ some g
    → Delivers g.size g.bytes buffer
    → tunnel_id_of buffer ≡ p.tunnel_id
unfolding tunnel_id_of read_resv
resv_tunnel_id t k p stack buffer g f h sent d =
    let same = some-injective (sym sent ∙ send_resv_message_lem stack t k p f) in
    (read_resv-fill_resv p stack buffer h (subst (λ x. Delivers x.size x.bytes buffer) same d) 0
      p).0

-- The Resv sessions after the message.
abbrev pub sessions : Env → Packet → Cells → Cells
sessions env buffer cs =
    inserted env.now env.malloc (htons (read16 38 buffer)) (env.inet_ntop (read32 40 buffer))
      (env.inet_ntop (read32 32 buffer)) cs
      (dst_reached env.host.routing env.out (read32 40 buffer))

-- What a router with the Path message `pa` has done when it has received the Resv message `p`.
abbrev pub Received : Env → Packet → PathMsg → Daemon → Cells → ResvMsg → Effect → Type 0
Received env buffer pa d cs p x =
    Answered env pa d.router.labels p x
    × (x.daemon.router.path_tree ≡ d.router.path_tree)
    × (x.daemon.path_head ≡ d.path_head)
    × Chain x.daemon.heap x.daemon.resv_head (sessions env buffer cs)

module _ (env : Env) (buffer : Packet) (new : ResvMsg) (pa : PathMsg) (d : Daemon) (cs : Cells)
    (t : Tree ResvMsg) (k : ℕ) (p : ResvMsg) (stack : Packet) (g : Datagram)
    (e : env.host.new_resv ≡ some new) (room : env.host.resv_malloc ≡ true)
    (real : env.malloc ≢ nil) (free : d.heap env.malloc ≡ none)
    (fits : (a : ℕ) → length (env.inet_ntop a) < 16) (chain : Chain d.heap d.resv_head cs)
    (fuel : length cs < env.fuel) (f : data_of (search_node t k) ≡ some p) (h : IsResvMsg p)
    (sent : send_resv_message stack t k ≡ some g) (arrives : Delivers g.size g.bytes buffer)
    (v : IsTable d.router.resv_tree)
    (absent : data_of (search_node d.router.resv_tree p.tunnel_id) ≡ none) where
  store_resv-Received :
      (head : Ptr) (heap : Heap)
      → Chain heap head (sessions env buffer cs)
      → Returns (Received env buffer pa d cs p) (
          store_resv env buffer pa
            (record d { resv_head = head; heap = heap })
            p.tunnel_id
            (search_node d.router.resv_tree p.tunnel_id))
  store_resv-Received head heap c =
      let d' : Daemon = record d { resv_head = head; heap = heap } in
      Returns-imp (λ x. Answered env pa d.router.labels p x × Keeps d' x)
        (Received env buffer pa d cs p)
        (store_resv env buffer pa d' p.tunnel_id (search_node d.router.resv_tree p.tunnel_id))
        (store_resv-search env buffer new pa d' t k p stack g e room f h sent arrives v absent)
        (λ x (answered, (paths, first, last, cells)). (
          answered,
          paths,
          first,
          subst (λ (y : Heap). Chain y x.daemon.resv_head (sessions env buffer cs)) (sym cells)
              (subst (λ y. Chain heap y (sessions env buffer cs)) (sym last) c),
        ))

  answer_resv-Received :
      (n : Tree PathMsg)
      → data_of n ≡ some pa
      → Returns (Received env buffer pa d cs p) (answer_resv env buffer d p.tunnel_id n)
  unfolding answer_resv
  answer_resv-Received null found = absurd (none-ne-some pa found)
  answer_resv-Received (node q l r b) found =
      subst
        (λ y. Returns (Received env buffer pa d cs p) (
          insert env.host.routing env.inet_ntop env.out env.fuel env.now env.malloc d.resv_head
            buffer d.heap
          >>= λ (head, heap).
              store_resv env buffer y (record d { resv_head = head; heap = heap }) p.tunnel_id
                (search_node d.router.resv_tree p.tunnel_id)))
        (sym (some-injective found))
        (Returns-bind (λ (head, heap). Chain heap head (sessions env buffer cs))
          (Received env buffer pa d cs p)
          (insert env.host.routing env.inet_ntop env.out env.fuel env.now env.malloc d.resv_head
            buffer d.heap)
          (λ (head, heap).
            store_resv env buffer pa (record d { resv_head = head; heap = heap }) p.tunnel_id
              (search_node d.router.resv_tree p.tunnel_id))
          (insert_lem env.host.routing env.inet_ntop env.out env.fuel env.now env.malloc buffer
            d.heap d.resv_head cs fits chain fuel real free)
          (λ (head, heap) c. store_resv-Received head heap c))

  -- A daemon with a Path message for the tunnel and no Resv message receives the packet that another
  -- router's `send_resv_message` made of a message of its table, behind an IP header. There is memory,
  -- the table is valid, the fuel is beyond the length of the session list, the lookups of routes return, and the texts of
  -- addresses fit.
  -- Then `receive_resv_message` returns: the table is valid and has the message, with the sender's
  -- incoming label as its outgoing one. At the head of the tunnel it has no incoming label, elsewhere
  -- a new one of the pool, or none if the pool is empty; at the head a push is run and nothing is sent; elsewhere a pop is run if the outgoing label is 3, and a swap
  -- otherwise, and the stored message is sent to the previous hop; the session of the tunnel is in
  -- the Resv list, if there is a route to the sender, and the Path table and the first of the Path list
  -- stay.
  pub receive_resv_message_lem :
      data_of (search_node d.router.path_tree p.tunnel_id) ≡ some pa
      → Returns (Received env buffer pa d cs p) (receive_resv_message env buffer d)
  unfolding receive_resv_message
  receive_resv_message_lem known =
      subst
        (λ id.
          Returns (Received env buffer pa d cs p)
            (answer_resv env buffer d id (search_node d.router.path_tree id)))
        (sym (resv_tunnel_id t k p stack buffer g f h sent arrives))
        (answer_resv-Received (search_node d.router.path_tree p.tunnel_id) known)
