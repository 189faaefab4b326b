-- ===== src/Tests/Routers.antt =====
-- A router that receives a packet.
use socket.Base.Int.{pos}
use socket.Base.{arith, refl, true, none, some, []}
use socket.Base.Run.{Returns}
use socket.Packet.{path_packet_size}
use socket.Packet.PathInsert.{send_path_message_lem}
use socket.Packet.Path.{fill_path}
use socket.Receive.{Router, Host, receive_path_message}
use socket.Receive.Valid.{IsRouter, receive_path_message-IsRouter}
use socket.Receive.Answer.{Answers}
use socket.Receive.Tail.{receive_path_message-tail}
use socket.Route.{Routing}
use socket.Tests.Packets.{
  path_table, path_found, path_is_absent, resv_is_absent, path_msg-IsPathMsg, deliver-Delivers,
  routing, path_msg, resv_msg, zeros, deliver, no_paths, no_resvs, path_null-IsTable,
  resv_null-IsTable,
}

abbrev pub host : Host
host = record {
  routing = routing;
  new_path = some path_msg;
  path_malloc = true;
  new_resv = some resv_msg;
  resv_malloc = true;
  dev = [];
  path_srcip = none;
  resv_srcip = none;
  stack = zeros;
}

abbrev pub router : Router
router = record { path_tree = no_paths; resv_tree = no_resvs; labels = zeros; nhip = none }

pub router-IsRouter : IsRouter router
router-IsRouter = record { paths = path_null-IsTable; resvs = resv_null-IsTable }

receive_path_message-IsRouter_example :
    Returns
      (λ (s', g). IsRouter s')
      (receive_path_message host (deliver (fill_path path_msg zeros)) router)
receive_path_message-IsRouter_example =
    receive_path_message-IsRouter host (deliver (fill_path path_msg zeros)) (λ a out e. omega arith)
      router path_msg resv_msg refl refl router-IsRouter

-- The destination is on a link of the router.
abbrev pub routing_here : Routing
routing_here = record {
  get_nexthop = λ dest old. (pos 1, record { nh_ip = none; pref_len = 24; dev = []; ifh = 2 });
  get_srcip = λ hop old. (pos 1, record { srcip = some 8; ifh = 2 });
}

abbrev pub host_here : Host
host_here = record {
  routing = routing_here;
  new_path = some path_msg;
  path_malloc = true;
  new_resv = some resv_msg;
  resv_malloc = true;
  dev = [];
  path_srcip = none;
  resv_srcip = none;
  stack = zeros;
}

receive_path_message-tail_example :
    Returns
      (Answers host_here 0x1234 4 0x02020202)
      (receive_path_message host_here (deliver (fill_path path_msg zeros)) router)
receive_path_message-tail_example =
    receive_path_message-tail host_here (deliver (fill_path path_msg zeros)) router path_msg
      resv_msg (pos 1) (record { nh_ip = none; pref_len = 24; dev = []; ifh = 2 }) refl refl refl
      refl refl refl (omega arith) path_table 0x1234 path_msg zeros
      (record { to = 3; size = path_packet_size; bytes = fill_path path_msg zeros }) path_found
      path_msg-IsPathMsg (send_path_message_lem zeros path_table 0x1234 path_msg path_found)
      (deliver-Delivers path_packet_size (fill_path path_msg zeros)) refl router-IsRouter
      path_is_absent resv_is_absent
