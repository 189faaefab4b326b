-- ===== src/Receive.antt =====
-- `receive_path_message` of rsvp_msg.c, over the state of the router that it reads and changes. The
-- locks are left out: one thread receives, and what it does here is one step.
use socket.Base.{ℕ, Bool, true, false, Option, none, some, List, ◌+◌, ◌==◌, if◌then◌else◌}
use socket.Base.Run.{Run, ok, ◌>>=◌}
use socket.Label.{Bitmap}
use socket.Message.{PathMsg, ResvMsg, path_order, resv_order}
use socket.Packet.{Packet, Datagram, read16, htons, session_obj, ip}
use socket.Packet.Path.{send_path_message, path_tree_insert}
use socket.Packet.Resv.{send_resv_message, resv_tree_insert}
use socket.Route.{Routing}
use socket.Tree.{Tree, null, node, search_node}
pub mod Valid
pub mod Answer
pub mod Tail
pub mod Forward
pub mod Again

-- The global variables: `path_tree`, `resv_tree`, `label_bitmap` and `nhip`.
pub record Router : Type 0 where
  pub path_tree : Tree PathMsg
  pub resv_tree : Tree ResvMsg
  pub labels : Bitmap
  pub nhip : Option ℕ

-- What a call finds in its surroundings: the routes, what `malloc` gives for a message and whether it
-- gives a node, and what stands in the arrays on the stack.
pub record Host : Type 0 where
  pub routing : Routing
  pub new_path : Option PathMsg
  pub path_malloc : Bool
  pub new_resv : Option ResvMsg
  pub resv_malloc : Bool
  pub dev : List ℕ
  pub path_srcip : Option ℕ
  pub resv_srcip : Option ℕ
  pub stack : Packet

-- `if(temp != NULL) { path_tree = temp; path_node = search_node(…); }`: the state, and `path_node`.
unfoldable pub set_path_tree : Router → ℕ → Tree PathMsg → Option ℕ → Router × Tree PathMsg
set_path_tree s id null nhip = (
  record { path_tree = s.path_tree; resv_tree = s.resv_tree; labels = s.labels; nhip = nhip },
  null,
)
set_path_tree s id (node p l r h) nhip = (
  record { path_tree = node p l r h; resv_tree = s.resv_tree; labels = s.labels; nhip = nhip },
  search_node (node p l r h) id,
)

-- The state and `path_node`, from what the search returned.
unfoldable pub insert_path : Host → Packet → Router → ℕ → Tree PathMsg → Run (Router × Tree PathMsg)
unfolding set_path_tree
insert_path host buffer s id null = do
  (temp, nhip) ←
      path_tree_insert host.routing host.new_path host.path_malloc s.nhip host.dev host.path_srcip
        s.path_tree buffer
  ok (set_path_tree s id temp nhip)
insert_path host buffer s id (node p l r h) = ok (s, node p l r h)

-- `if(temp != NULL) resv_tree = temp;`
unfoldable pub set_resv_tree : Router → Tree ResvMsg → Bitmap → Router
set_resv_tree s null m = record {
  path_tree = s.path_tree;
  resv_tree = s.resv_tree;
  labels = m;
  nhip = s.nhip;
}
set_resv_tree s (node q l r h) m = record {
  path_tree = s.path_tree;
  resv_tree = node q l r h;
  labels = m;
  nhip = s.nhip;
}

-- At the end of the tunnel: the Resv message, from what the search for it returned.
unfoldable pub insert_resv : Host → Packet → Router → ℕ → Tree ResvMsg → Run Router
unfolding set_resv_tree
insert_resv host buffer s p_srcip null = do
  (temp, m) ←
      resv_tree_insert host.routing host.new_resv host.resv_malloc host.resv_srcip s.resv_tree
        buffer p_srcip true s.labels
  ok (set_resv_tree s temp m)
insert_resv host buffer s p_srcip (node q l r h) = ok s

-- The message that goes out: a Resv message at the end of the tunnel, the Path message elsewhere.
unfoldable pub answer_path :
    Host → Packet → ℕ → Router → Tree PathMsg → Run (Router × Option Datagram)
unfolding insert_resv
answer_path host buffer id s null = ok (s, none)
answer_path host buffer id s (node p l r h) =
    if p.nexthop_ip == 0
    then (do
      s' ← insert_resv host buffer s p.p_srcip (search_node s.resv_tree id)
      ok (s', send_resv_message host.stack s'.resv_tree id))
    else ok (s, send_path_message host.stack s.path_tree id)

-- `ntohs(session_obj->tunnel_id)`.
unfoldable pub tunnel_id_of : Packet → ℕ
tunnel_id_of buffer = htons (read16 (ip + session_obj + 10) buffer)

unfoldable pub receive_path_message : Host → Packet → Router → Run (Router × Option Datagram)
receive_path_message host buffer s = do
  (s', path_node) ←
      insert_path host buffer s (tunnel_id_of buffer)
        (search_node s.path_tree (tunnel_id_of buffer))
  answer_path host buffer (tunnel_id_of buffer) s' path_node
