-- ===== src/Tests/Netlinks.antt =====
-- Lookups over a netlink socket.
use socket.Base.{if◌then◌else◌, none, some, true, ◌≡◌, refl, [], ◌∷◌}
use socket.Base.Int.{ℤ, pos, negsuc}
use socket.Base.Run.{ok, fault}
use socket.Route.Subnet.{is_ip_in_subnet}
use socket.Packet.{htons, htonl}
use socket.Route.Dump.{parse_rtattr, received, cleared, get_nexthop, get_srcip}
use socket.Route.Netlink.{
  rtnl_recvmsg, response_calls, Kernel, opened, closed, nexthop_over_netlink, srcip_over_netlink,
  do_route_dump_requst,
}
use socket.Route.Netlink.Calls.{Ends, buffers_of, buffers_after, lost}
use socket.Route.Netlink.Errors.{over_netlink_lem}
use socket.Tests.Routes.{sys, dump, gateway, unset}

-- The descriptor 3, and an answer of 104 bytes.
abbrev kernel : Kernel
kernel = record {
  socket_result = pos 3;
  bind = λ fd. pos 0;
  send = λ fd request. send fd;
  peek = λ fd. pos 104;
  malloc = λ len. true;
  recv = λ fd len. len;
  messages = dump;
  time = 0;
}
  where
    send : ℤ → ℤ
    send (pos n) = pos 28
    send (negsuc n) = negsuc 0

over_netlink_lem_example :
    Ends kernel
      (buffers_of sys gateway cleared)
      (cleared, (negsuc 0, unset))
      (λ receipt. get_nexthop sys (some receipt) gateway unset cleared)
      (nexthop_over_netlink kernel sys gateway unset cleared)
    × Ends kernel
        (buffers_of sys gateway cleared)
        (cleared, (negsuc 0, record { srcip = none; ifh = 0 }))
        (λ receipt. get_srcip sys (some receipt) gateway (record { srcip = none; ifh = 0 }) cleared)
        (srcip_over_netlink kernel sys gateway (record { srcip = none; ifh = 0 }) cleared)
    × (buffers_after 0 (rtnl_recvmsg kernel kernel.socket_result).1
        ≡ (if lost kernel then 0 else 1))
over_netlink_lem_example =
    over_netlink_lem kernel sys gateway unset (record { srcip = none; ifh = 0 }) cleared (λ r. refl)

-- The socket is not bound.
unbound :
    nexthop_over_netlink (record kernel { bind = λ fd. negsuc 0 }) sys gateway unset cleared
    ≡ ok ((cleared, (negsuc 0, unset)), opened (pos 3) ∷ closed (pos 3) ∷ closed (negsuc 0) ∷ [])
unfolding nexthop_over_netlink get_nexthop do_route_dump_requst
unbound = refl

-- No answer arrives.
unanswered :
    nexthop_over_netlink (record kernel { peek = λ fd. negsuc 3 }) sys gateway unset cleared ≡ fault
unfolding nexthop_over_netlink get_nexthop do_route_dump_requst
unanswered = refl

-- The route to 10.0.0.1 is found, and the buffer of the answer is left.
leaked : response_calls sys gateway (received 104 dump) cleared ≡ []
unfolding response_calls is_ip_in_subnet htonl htons parse_rtattr
leaked = refl
