-- ===== src/Daemon.antt =====
-- `receive_resv_message` of rsvp_msg.c, over the whole state of the daemon. The commands that are
-- handed to `system` are values.
pub mod Install
pub mod Resv
pub mod Valid
use Prim.Native.Nat.{bit_and}
use socket.Base.{ℕ, false, Option, none, some, List, ◌==◌, if◌then◌else◌}
use socket.Base.Run.{Run, ok, ◌>>=◌}
use socket.Label.{Bitmap}
use socket.Message.{PathMsg, ResvMsg, path_order, resv_order}
use socket.Packet.{Packet, Datagram}
use socket.Packet.Resv.{send_resv_message, resv_tree_insert}
use socket.Receive.{Router, Host, tunnel_id_of}
use socket.Route.{NextHop}
use socket.Route.Subnet.{subnet_mask}
use socket.Session.{Ptr, Heap}
use socket.Session.Join.{insert}
use socket.Tree.{Tree, null, node, search_node}

-- The router, and the session lists in the heap.
pub record Daemon : Type 0 where
  pub router : Router
  pub heap : Heap
  pub path_head : Ptr
  pub resv_head : Ptr

-- What a call finds in its surroundings, besides what `Host` has: the texts of addresses, what stands in
-- the variables that `dst_reached` hands to `get_nexthop`, the address of a new session, the time,
-- the fuel of a search, the pattern of an undefined shift, and the address `p->srcip`, a member that
-- rsvp_db.h does not declare.
pub record Env : Type 0 where
  pub host : Host
  pub inet_ntop : ℕ → List ℕ
  pub out : NextHop
  pub malloc : Ptr
  pub now : ℕ
  pub fuel : ℕ
  pub undefined_shift : ℕ
  pub srcip_of : ResvMsg → ℕ

-- `ip route add N/LEN encap mpls OUT via A dev D`, `ip -M route add IN via inet A dev D` and
-- `ip -M route add IN as OUT via inet A`.
pub data Command : Type 0 where
  push : ℕ → ℕ → ℕ → ℕ → List ℕ → Command
  pop : ℕ → ℕ → List ℕ → Command
  swap : ℕ → ℕ → ℕ → Command

-- What a handler does: the new state, the command that it runs, and the packet that it sends.
pub record Effect : Type 0 where
  pub daemon : Daemon
  pub command : Option Command
  pub sent : Option Datagram

abbrev pub quiet : Daemon → Effect
quiet d = record { daemon = d; command = none; sent = none }

-- The label route of a message that has been inserted, and the message to the next router.
unfoldable pub install : Env → PathMsg → Daemon → ℕ → ResvMsg → Effect
unfolding subnet_mask
install env pa d id p =
    if p.nexthop_ip == 0
    then record {
      daemon = d;
      command = some (
          push (bit_and p.dest_ip (subnet_mask env.undefined_shift pa.prefix_len)) pa.prefix_len
            p.out_label (env.srcip_of p) pa.dev);
      sent = none;
    }
    else record {
      daemon = d;
      command = some (
          if p.out_label == 3
          then pop p.in_label (env.srcip_of p) pa.dev
          else swap p.in_label p.out_label (env.srcip_of p));
      sent = send_resv_message env.host.stack d.router.resv_tree id;
    }

abbrev pub install_node : Env → PathMsg → Daemon → ℕ → Tree ResvMsg → Effect
install_node env pa d id null = quiet d
install_node env pa d id (node p l r h) = install env pa d id p

-- `if(temp != NULL) …` after the insertion, and what follows it.
unfoldable pub inserted_resv : Env → PathMsg → Daemon → ℕ → Tree ResvMsg → Bitmap → Effect
unfolding install
inserted_resv env pa d id null m = quiet (record d { router = record d.router { labels = m } })
inserted_resv env pa d id (node p l r h) m =
    install_node env pa
      (record d { router = record d.router { resv_tree = node p l r h; labels = m } }) id
      (search_node (node p l r h) id)

-- From the search of the Resv table on, with what it returned. A tunnel that is there is left alone.
unfoldable pub store_resv : Env → Packet → PathMsg → Daemon → ℕ → Tree ResvMsg → Run Effect
unfolding inserted_resv
store_resv env buffer pa d id (node p l r h) = ok (quiet d)
store_resv env buffer pa d id null = do
  (temp, m) ←
      resv_tree_insert env.host.routing env.host.new_resv env.host.resv_malloc env.host.resv_srcip
        d.router.resv_tree buffer pa.p_srcip false d.router.labels
  ok (inserted_resv env pa d id temp m)

-- From the search of the Path table on. Without a Path message there is no next hop.
unfoldable pub answer_resv : Env → Packet → Daemon → ℕ → Tree PathMsg → Run Effect
unfolding store_resv
answer_resv env buffer d id null = ok (quiet d)
answer_resv env buffer d id (node pa l r h) = do
  (head, heap) ←
      insert env.host.routing env.inet_ntop env.out env.fuel env.now env.malloc d.resv_head buffer
        d.heap
  store_resv env buffer pa (record d { resv_head = head; heap = heap }) id
      (search_node d.router.resv_tree id)

unfoldable pub receive_resv_message : Env → Packet → Daemon → Run Effect
receive_resv_message env buffer d =
    answer_resv env buffer d (tunnel_id_of buffer)
      (search_node d.router.path_tree (tunnel_id_of buffer))
