-- ===== src/Route/Netlink.antt =====
-- The netlink socket of route_dump.c: `open_netlink`, `do_route_dump_requst`, `rtnl_recvmsg`, and
-- how `get_nexthop` and `get_srcip` call them. What the system calls return is an argument, and the
-- calls that take or give back a descriptor or a buffer are listed in their order. What the loop
-- over the messages finds is Route/Dump; here are its calls of `free`.
pub mod Calls
pub mod Walk
pub mod Errors
use socket.Base.{ℕ, Bool, ◌||◌, Option, none, some, List, [], ◌∷◌, ◌++◌, if◌then◌else◌}
use socket.Base.Int.{ℤ, pos, negsuc, ltz}
use socket.Base.Run.{Run, ok, fault, out_of_fuel, ◌>>=◌}
use socket.Route.{NextHop, SrcIp}
use socket.Route.Dump.{
  Message, Receipt, no_receipt, received, System, Found, print_route, get_nexthop, get_srcip,
}

-- The request for a dump of the routes, as much of it as is not 0.
pub record Request : Type 0 where
  pub nlmsg_type : ℕ
  pub nlmsg_flags : ℕ
  pub nlmsg_len : ℕ
  pub nlmsg_seq : ℕ
  pub rtm_family : ℕ
  pub rtm_table : ℕ

-- What the system calls return. `peek` and `recv` are the two calls of `recv`, and `messages` is what
-- the second one puts into the buffer.
pub record Kernel : Type 0 where
  pub socket_result : ℤ
  pub bind : ℤ → ℤ
  pub send : ℤ → Request → ℤ
  pub peek : ℤ → ℤ
  pub malloc : ℤ → Bool
  pub recv : ℤ → ℤ → ℤ
  pub messages : List Message
  pub time : ℕ

pub data Call : Type 0 where
  opened : ℤ → Call
  closed : ℤ → Call
  allocated : Call
  freed : Call

-- `RTM_GETROUTE`, and `NLM_F_REQUEST | NLM_F_DUMP`.
abbrev pub rtm_getroute : ℕ
rtm_getroute = 26

abbrev pub dump_flags : ℕ
dump_flags = 0x301

abbrev pub rt_table_local : ℕ
rt_table_local = 255

-- `-ENOMEM`.
abbrev pub no_memory : ℤ
no_memory = negsuc 11

unfoldable pub open_netlink : Kernel → ℤ × List Call
open_netlink k =
    let sock = k.socket_result in
    if ltz sock (pos 0)
    then (negsuc 0, [])
    else if ltz (k.bind sock) (pos 0)
    then (negsuc 0, opened sock ∷ closed sock ∷ [])
    else (sock, opened sock ∷ [])

unfoldable pub do_route_dump_requst : Kernel → ℤ → ℤ
do_route_dump_requst k sock = k.send sock (record {
  nlmsg_type = rtm_getroute;
  nlmsg_flags = dump_flags;
  nlmsg_len = 28;
  nlmsg_seq = k.time;
  rtm_family = 2;
  rtm_table = rt_table_local;
})

-- `rtnl_recvmsg`: what it returns, the messages in `*answer` where it sets it, and its calls.
unfoldable pub rtnl_recvmsg : Kernel → ℤ → (ℤ × Option (List Message)) × List Call
rtnl_recvmsg k fd =
    let len = k.peek fd in
    if ltz len (pos 0)
    then ((len, none), [])
    else if k.malloc len
    then (if ltz (k.recv fd len) (pos 0)
        then ((k.recv fd len, none), allocated ∷ freed ∷ [])
        else ((k.recv fd len, some k.messages), allocated ∷ []))
    else ((no_memory, none), [])

-- `status` and `buf`, as the loop over the messages has them.
abbrev pub receipt_of : ℤ × Option (List Message) → Receipt
receipt_of (pos n, some ms) = received n ms
receipt_of (pos n, none) = no_receipt
receipt_of (negsuc n, answer) = no_receipt

-- What the loop of `get_route_dump_response` does with the buffer, by the result of `print_route`: a
-- route that is found is returned, and the buffer stays; a fault ends the calls.
abbrev pub calls_after : Run (Found × Bool) → (Found → List Call) → List Call
calls_after (ok (s, found)) rest = if found then [] else rest s
calls_after fault rest = []
calls_after out_of_fuel rest = []

-- The calls of that loop, and of `free(buf)` behind it.
unfoldable pub dump_calls : System → ℕ → List Message → Found → List Call
unfolding print_route
dump_calls sys dest_ip [] s = freed ∷ []
dump_calls sys dest_ip (m ∷ ms) s =
    let rest = λ (s' : Found). dump_calls sys dest_ip ms s' in
    if m.interrupted || m.is_error
    then freed ∷ []
    else calls_after (print_route sys dest_ip m s) rest

-- The calls of `get_route_dump_response` behind the receipt; without an answer there is no call, as
-- `free` gets a pointer that was never set.
unfoldable pub response_calls : System → ℕ → Receipt → Found → List Call
unfolding dump_calls
response_calls sys dest_ip no_receipt s = []
response_calls sys dest_ip (received status ms) s = dump_calls sys dest_ip ms s

-- The calls that `get_nexthop` and `get_srcip` share: the socket, the request, what `lookup` makes of
-- the answer with the calls `walk`, and `close` on each way out.
unfoldable pub over_netlink :
    {R : Type 0} → Kernel → (Receipt → List Call) → (Option Receipt → Run R) → Run (R × List Call)
unfolding open_netlink rtnl_recvmsg
over_netlink k walk lookup =
    let (sock, before) = open_netlink k in
    let (answer, between) = rtnl_recvmsg k sock in
    if ltz (do_route_dump_requst k sock) (pos 0)
    then lookup none >>= (λ r. ok (r, before ++ closed sock ∷ []))
    else lookup (some (receipt_of answer))
      >>= (λ r. ok (r, before ++ between ++ walk (receipt_of answer) ++ closed sock ∷ []))

unfoldable pub nexthop_over_netlink :
    Kernel → System → ℕ → NextHop → Found → Run ((Found × (ℤ × NextHop)) × List Call)
unfolding over_netlink response_calls
nexthop_over_netlink k sys dst_ip out s =
    over_netlink k (λ receipt. response_calls sys dst_ip receipt s)
      (λ receipt. get_nexthop sys receipt dst_ip out s)

unfoldable pub srcip_over_netlink :
    Kernel → System → ℕ → SrcIp → Found → Run ((Found × (ℤ × SrcIp)) × List Call)
unfolding over_netlink response_calls
srcip_over_netlink k sys nhip out s =
    over_netlink k (λ receipt. response_calls sys nhip receipt s)
      (λ receipt. get_srcip sys receipt nhip out s)
