-- ===== src/Tests/Typed.antt =====
-- A round of the loop on a packet of bytes.
use socket.Base.{◌<◌, ◌-◌, ◌^◌, subst, some, some-injective, arith}
use mathlib.Core.Option.{none-ne-some}
use socket.Base.Run.{Returns}
use socket.Main.KeepReceive.{OutcomeHas}
use socket.Main.Ranges.{IsTyped, InRange, receive-InRange}
use socket.Main.Reach.{Reached-IsDaemon}
use socket.Main.Valid.{OutcomeIsDaemon}
use socket.Packet.Ranges.{IsBytes, fill_resv-IsBytes}
use socket.Packet.Resv.{fill_resv}
use socket.Tests.Mains.{clock, later, server, server-Reached, server-IsReady, resv_packet}
use socket.Tests.Packets.{deliver, resv_msg, zeros}
use socket.Main.{receive, path_case, inserted_path, reached_path}
use socket.Message.{path_order, resv_order, compare_path_del, compare_path_insert}
use socket.Receive.{receive_path_message, insert_path, answer_path, tunnel_id_of, set_path_tree}
use socket.Tree.{search_node, insert_node, create_node, rebalance_insert}
use socket.Session.Join.{dst_reached, insert_new}
use socket.Packet.{
  Packet, htons, htonl, read8, read16, read32, write8, write16, write32, write_class_obj,
}
use socket.Packet.Path.{
  fill_path, path_tree_insert, read_path, read_name, route_path, set_route, send_path_message,
  send_path_data,
}
use socket.Session.{search_session, search_loop, load, store, insert_session, strcpy, write}
use socket.Timer.Event.{event_handler}

pub deliver-IsBytes : (b : Packet) → IsBytes b → IsBytes (deliver b)
deliver-IsBytes b bytes i = ground (arith, bytes (i - 20))

pub later-IsTyped : IsTyped later.host
later-IsTyped = record {
  new_path = λ p e. subst (λ q. q.e_srcip < 2 ^ 32) (some-injective e) (omega arith);
  new_resv = λ p e. subst (λ q. q.e_srcip < 2 ^ 32) (some-injective e) (omega arith);
  address = λ hop out a e. subst (λ b. b < 2 ^ 32) (some-injective e) (omega arith);
}

-- The table has no message.
server-InRange : InRange server.daemon.router.labels server.daemon.router.resv_tree
unfolding receive event_handler path_case reached_path inserted_path dst_reached insert_new
    search_session search_loop load store insert_session strcpy receive_path_message insert_path
    search_node path_tree_insert insert_node answer_path path_order htons read16 fill_path write16
    write8 write32 tunnel_id_of read32 compare_path_del htonl read8 write_class_obj set_path_tree
    create_node rebalance_insert read_path read_name route_path set_route compare_path_insert
    send_path_message send_path_data write
server-InRange k q found = absurd (none-ne-some q found)

receive-InRange_example :
    Returns
      (λ o. OutcomeIsDaemon o × OutcomeHas InRange o)
      (receive later clock (some resv_packet) server)
receive-InRange_example =
    receive-InRange later clock (some resv_packet) server (Reached-IsDaemon server server-Reached)
      server-IsReady later-IsTyped
      (λ b e. subst IsBytes (some-injective e) (
        deliver-IsBytes (fill_resv resv_msg zeros)
          (fill_resv-IsBytes resv_msg zeros (λ i. omega arith))))
      server-InRange
