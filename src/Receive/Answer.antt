-- ===== src/Receive/Answer.antt =====
-- The Resv message that `receive_path_message` puts into its table where a tunnel ends.
use socket.Base.{ℕ, ◌≡◌, refl, ◌∙◌, ◌<◌, true, Option, none, some}
use socket.Base.Run.{ok, ◌>>=◌, Returns, Returns-bind}
use socket.Label.{Bitmap}
use socket.Message.{PathMsg, ResvMsg, path_order, resv_order}
use socket.Packet.{Packet, Datagram, htons, read16, read32, resv_packet_size}
use socket.Packet.Resv.{fill_resv, read_resv, label_resv, resv_tree_insert}
use socket.Packet.ResvInsert.{insert_resv-new}
use socket.Receive.{Router, Host, set_path_tree, set_resv_tree, insert_resv}
use socket.Receive.Valid.{label_resv-tail}
use socket.Route.{Routing}
use socket.Tree.{Tree, null, node, search_node, insert_node}
use socket.Tree.Refines.{IsTable, id_limit}
use socket.Tree.Search.{data_of}

-- What the answer is: a Resv message for the tunnel to the router `hop`, with label 3 and
-- the destination `dest`.
abbrev pub Answers : Host → ℕ → ℕ → ℕ → Router × Option Datagram → Type 0
Answers host id hop dest (s', g) =
    (q : ResvMsg) × (data_of (search_node s'.resv_tree id) ≡ some q)
    × (q.tunnel_id ≡ id)
    × (q.nexthop_ip ≡ hop)
    × (q.in_label ≡ 3)
    × (q.dest_ip ≡ dest)
    × (g ≡ some (record { to = hop; size = resv_packet_size; bytes = fill_resv q host.stack }))

-- A tree in which the search finds a message is not empty, and becomes the state's.
set_resv_tree-found :
    (s : Router) (t : Tree ResvMsg) (m : Bitmap) (id : ℕ) (q : ResvMsg)
    → data_of (search_node t id) ≡ some q
    → (set_resv_tree s t m).resv_tree ≡ t
unfolding set_resv_tree search_node
set_resv_tree-found s null m id q e = cc
set_resv_tree-found s (node d l r h) m id q e = refl

pub set_path_tree-found :
    (s : Router) (t : Tree PathMsg) (nhip : Option ℕ) (id : ℕ) (q : PathMsg)
    → data_of (search_node t id) ≡ some q
    → ((set_path_tree s id t nhip).1 ≡ search_node t id)
      × ((set_path_tree s id t nhip).0.resv_tree ≡ s.resv_tree)
unfolding set_path_tree search_node
set_path_tree-found s null nhip id q e = (refl, refl)
set_path_tree-found s (node d l r h) nhip id q e = (refl, refl)

-- The message `q` answers: for the tunnel `id`, to the router `hop`, with label 3 and
-- the destination `dest`.
abbrev pub IsAnswer : ℕ → ℕ → ℕ → ResvMsg → Type 0
IsAnswer id hop dest q =
    (q.tunnel_id ≡ id) × (q.nexthop_ip ≡ hop) × (q.in_label ≡ 3) × (q.dest_ip ≡ dest)

label_resv-IsAnswer :
    (routing : Routing) (srcip : Option ℕ) (buffer : Packet) (m : Bitmap) (hop : ℕ) (new : ResvMsg)
    → Returns
        (λ (q, m'). IsAnswer (htons (read16 38 buffer)) hop (read32 32 buffer) q)
        (label_resv routing srcip true buffer m (read_resv buffer hop new))
label_resv-IsAnswer routing srcip buffer m hop new =
    let (q, e, id, next, label, there) = label_resv-tail routing srcip buffer m hop new in
    rw e (id, next, label, there)

-- The table `t` has a message that answers.
abbrev pub HasAnswer : ℕ → ℕ → ℕ → Tree ResvMsg → Type 0
HasAnswer id hop dest t =
    (q : ResvMsg) × (data_of (search_node t id) ≡ some q) × IsAnswer id hop dest q

insert_node-HasAnswer :
    (t : Tree ResvMsg) (q : ResvMsg) (m : Bitmap) (id hop dest : ℕ)
    → IsTable t
    → id < id_limit
    → data_of (search_node t id) ≡ none
    → IsAnswer id hop dest q
    → Returns (λ (t', m'). HasAnswer id hop dest t') (insert_node true t q >>= λ t'. ok (t', m))
insert_node-HasAnswer t q m id hop dest v lt absent answer =
    let (t', e, v', found) = insert_resv-new t q id v answer.0 lt absent in rw e (q, found, answer)

resv_tree_insert-HasAnswer :
    (routing : Routing) (new : ResvMsg) (srcip : Option ℕ) (t : Tree ResvMsg) (buffer : Packet)
    (hop id dest : ℕ) (m : Bitmap)
    → htons (read16 38 buffer) ≡ id
    → read32 32 buffer ≡ dest
    → id < id_limit
    → IsTable t
    → data_of (search_node t id) ≡ none
    → Returns {A = Tree ResvMsg × Bitmap}
        (λ (t', m'). HasAnswer id hop dest t')
        (resv_tree_insert routing (some new) true srcip t buffer hop true m)
unfolding resv_tree_insert
resv_tree_insert-HasAnswer routing new srcip t buffer hop id dest m at there lt v absent =
    Returns-bind (λ (q, m'). IsAnswer (htons (read16 38 buffer)) hop (read32 32 buffer) q)
      (λ (t', m'). HasAnswer id hop dest t')
      (label_resv routing srcip true buffer m (read_resv buffer hop new))
      (λ (q, m'). insert_node true t q >>= λ t'. ok (t', m'))
      (label_resv-IsAnswer routing srcip buffer m hop new)
      (λ (q, m') (same, next, label, goal).
        insert_node-HasAnswer t q m' id hop dest v lt absent (same ∙ at, next, label, goal ∙ there))

set_resv_tree-HasAnswer :
    (s : Router) (t : Tree ResvMsg) (m : Bitmap) (id hop dest : ℕ)
    → HasAnswer id hop dest t
    → HasAnswer id hop dest (set_resv_tree s t m).resv_tree
set_resv_tree-HasAnswer s t m id hop dest (q, found, answer) =
    rw (set_resv_tree-found s t m id q found) (q, found, answer)

pub insert_resv-HasAnswer :
    (host : Host) (buffer : Packet) (new : ResvMsg) (s : Router) (hop id dest : ℕ)
    → host.new_resv ≡ some new
    → host.resv_malloc ≡ true
    → htons (read16 38 buffer) ≡ id
    → read32 32 buffer ≡ dest
    → id < id_limit
    → IsTable s.resv_tree
    → data_of (search_node s.resv_tree id) ≡ none
    → Returns (λ s'. HasAnswer id hop dest s'.resv_tree) (insert_resv host buffer s hop null)
unfolding insert_resv
insert_resv-HasAnswer host buffer new s hop id dest e m at there lt v absent =
    rw (e, m)
      (Returns-bind (λ (t, m'). HasAnswer id hop dest t) (λ s'. HasAnswer id hop dest s'.resv_tree)
        (resv_tree_insert host.routing (some new) true host.resv_srcip s.resv_tree buffer hop true
          s.labels)
        (λ (t, m'). ok (set_resv_tree s t m'))
        (resv_tree_insert-HasAnswer host.routing new host.resv_srcip s.resv_tree buffer hop id dest
          s.labels at there lt v absent)
        (λ (t, m') answer. set_resv_tree-HasAnswer s t m' id hop dest answer))
