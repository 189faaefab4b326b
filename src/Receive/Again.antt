-- ===== src/Receive/Again.antt =====
-- `receive_path_message` of rsvp_msg.c on a message of a tunnel that both tables have.
use socket.Base.{ℕ, ◌≡◌, refl, some-injective, some, ◌==◌, if◌then◌else◌, inl, inr, Bool-cases}
use socket.Base.Run.{ok}
use mathlib.Core.Option.{none-ne-some}
use socket.Message.{PathMsg, ResvMsg, path_order, resv_order}
use socket.Packet.{Packet, Datagram, path_packet_size, resv_packet_size}
use socket.Packet.Path.{fill_path}
use socket.Packet.PathInsert.{send_path_message_lem}
use socket.Packet.Resv.{fill_resv}
use socket.Packet.ResvInsert.{send_resv_message_lem}
use socket.Receive.{
  Router, Host, insert_path, insert_resv, answer_path, tunnel_id_of, receive_path_message,
}
use socket.Tree.{Tree, null, node, search_node}
use socket.Tree.Search.{data_of}

-- The message that goes out again.
abbrev pub again : Packet → PathMsg → ResvMsg → Datagram
again stack p q =
    if p.nexthop_ip == 0
    then record { to = q.nexthop_ip; size = resv_packet_size; bytes = fill_resv q stack }
    else record { to = p.nexthop_ip; size = path_packet_size; bytes = fill_path p stack }

module _ (host : Host) (buffer : Packet) (s : Router) (p : PathMsg) (q : ResvMsg) where
  insert_path-known :
      (id : ℕ) (n : Tree PathMsg) → data_of n ≡ some p → insert_path host buffer s id n ≡ ok (s, n)
  unfolding insert_path
  insert_path-known id null e = absurd (none-ne-some p e)
  insert_path-known id (node d l r h) e = refl

  insert_resv-known :
      (hop : ℕ) (n : Tree ResvMsg) → data_of n ≡ some q → insert_resv host buffer s hop n ≡ ok s
  unfolding insert_resv
  insert_resv-known hop null e = absurd (none-ne-some q e)
  insert_resv-known hop (node d l r h) e = refl

  answer_path-known :
      (id : ℕ) (n : Tree PathMsg)
      → data_of n ≡ some p
      → data_of (search_node s.path_tree id) ≡ some p
      → data_of (search_node s.resv_tree id) ≡ some q
      → answer_path host buffer id s n ≡ ok (s, some (again host.stack p q))
  unfolding answer_path
  answer_path-known id null e f g = absurd (none-ne-some p e)
  answer_path-known id (node d l r h) e f g =
      let same : d ≡ p = some-injective e in
      rw same (elim (Bool-cases (p.nexthop_ip == 0)) [
        | inl end ↦
            rw
              (
                end,
                insert_resv-known p.p_srcip (search_node s.resv_tree id) g,
                send_resv_message_lem host.stack s.resv_tree id q g,
              )
              refl
        | inr on ↦ rw (on, send_path_message_lem host.stack s.path_tree id p f) refl
      ])

  -- The Path message of a tunnel that both tables have leaves the tables, the labels and `nhip` as they are. At
  -- the end of the tunnel the stored Resv message goes out again, elsewhere the stored Path message.
  pub receive_path_message-again :
      data_of (search_node s.path_tree (tunnel_id_of buffer)) ≡ some p
      → data_of (search_node s.resv_tree (tunnel_id_of buffer)) ≡ some q
      → receive_path_message host buffer s ≡ ok (s, some (again host.stack p q))
  unfolding receive_path_message
  receive_path_message-again f g =
      let id = tunnel_id_of buffer in
      rw (insert_path-known id (search_node s.path_tree id) f)
        (answer_path-known id (search_node s.path_tree id) f f g)
