-- ===== src/Route/Dump.antt =====
-- The walk over the route dump of route_dump.c: `parse_rtattr`, `print_route`,
-- `get_route_dump_response`, `get_nexthop` and `get_srcip`, with the static variables that they
-- share. The netlink socket is Route/Netlink: what it answers is an argument, with each message as
-- the macros of rtnetlink.h give its parts and its attributes.
use socket.Base.{
  ℕ, zero, suc, Bool, false, not, Option, none, some, List, [], ◌∷◌, ◌==◌, ◌&&◌, if◌then◌else◌, leb,
}
use socket.Base.Int.{ℤ, pos, negsuc}
use socket.Base.Run.{Run, ok, fault, ◌>>=◌}
use socket.Route.{NextHop, SrcIp}
use socket.Route.Subnet.{is_ip_in_subnet}

-- A message of the dump: its header, its `rtmsg`, and its attributes, each a type and the four bytes
-- of its data.
pub record Message : Type 0 where
  pub interrupted : Bool
  pub is_error : Bool
  pub is_short : Bool
  pub family : ℕ
  pub table : ℕ
  pub kind : ℕ
  pub dst_len : ℕ
  pub attributes : List (ℕ × ℕ)

-- `RTA_MAX` and the types of attributes that are looked at.
abbrev pub rta_max : ℕ
rta_max = 30

abbrev pub rta_dst : ℕ
rta_dst = 1

abbrev pub rta_oif : ℕ
rta_oif = 4

abbrev pub rta_gateway : ℕ
rta_gateway = 5

abbrev pub rta_prefsrc : ℕ
rta_prefsrc = 7

abbrev pub rta_table : ℕ
rta_table = 15

-- The loop of `parse_rtattr`; the table starts with NULL everywhere.
unfoldable pub parse_loop : ℕ → (ℕ → Option ℕ) → List (ℕ × ℕ) → ℕ → Option ℕ
parse_loop max tb [] = tb
parse_loop max tb ((rta_type, value) ∷ rtas) =
    parse_loop max (λ i. if leb rta_type max && i == rta_type then some value else tb i) rtas

unfoldable pub parse_rtattr : ℕ → List (ℕ × ℕ) → ℕ → Option ℕ
unfolding parse_loop
parse_rtattr max rtas = parse_loop max (λ i. none) rtas

-- `tb[type]`, after `parse_rtattr`.
abbrev pub attribute : Message → ℕ → Option ℕ
attribute m type = parse_rtattr rta_max m.attributes type

-- What the receipt of the dump gives: a failure, or a status, which is the number of bytes, and the
-- messages in these bytes.
pub data Receipt : Type 0 where
  no_receipt : Receipt
  received : ℕ → List Message → Receipt

-- The static variables `nh`, `src_ip`, `DEv`, `prefix_len` and `ifh`.
pub record Found : Type 0 where
  pub nh : Option ℕ
  pub src_ip : Option ℕ
  pub dev : List ℕ
  pub prefix_len : ℕ
  pub ifh : ℕ

-- `" "`.
abbrev pub blank : List ℕ
blank = 32 ∷ []

abbrev pub cleared : Found
cleared = record { nh = none; src_ip = none; dev = blank; prefix_len = 0; ifh = 0 }

-- Constants of socket.h and rtnetlink.h.
abbrev pub af_inet : ℕ
af_inet = 2

abbrev pub rt_table_main : ℕ
rt_table_main = 254

abbrev pub rtn_unicast : ℕ
rtn_unicast = 1

abbrev pub rtn_local : ℕ
rtn_local = 2

-- What the machine and the system give: the pattern of an undefined shift, the address that stands in
-- `subnet_addr` when its text is none, and `if_indextoname`, which gives NULL for an unknown index.
pub record System : Type 0 where
  pub undefined_shift : ℕ
  pub stale_subnet : ℕ
  pub if_indextoname : ℕ → Option (List ℕ)

-- `rtm_get_table`.
abbrev pub rtm_get_table : Message → ℕ
rtm_get_table m = table_of (attribute m rta_table)
  where
    table_of : Option ℕ → ℕ
    table_of none = m.table
    table_of (some t) = t

-- The text `route`, and `prefix_len`.
abbrev pub route_of : Option ℕ → ℕ → Option ℕ × ℕ
route_of (some a) dst_len = (some a, dst_len)
route_of none dst_len = if dst_len == 0 then (some 0, 0) else (none, 0)

-- The interface: `strcpy` from NULL is a fault.
abbrev pub device_of : System → Option ℕ → Run (List ℕ × ℕ)
device_of sys none = ok (blank, 0)
device_of sys (some index) = named (sys.if_indextoname index)
  where
    named : Option (List ℕ) → Run (List ℕ × ℕ)
    named none = fault
    named (some name) = ok (name, index)

abbrev pub subnet_addr : System → Option ℕ → ℕ
subnet_addr sys none = sys.stale_subnet
subnet_addr sys (some a) = a

-- `print_route`, with `dest_ip`: whether the message is a route to it. The dump is asked for
-- AF_INET; the texts of another family are not modelled, and a message that has them is a fault.
unfoldable pub print_route : System → ℕ → Message → Found → Run (Found × Bool)
print_route sys dest_ip m s =
    if m.is_short
    then ok (s, false)
    else if not (m.family == af_inet) && not (rtm_get_table m == rt_table_main)
    then ok (cleared, false)
    else if not (m.kind == rtn_local) && not (m.kind == rtn_unicast)
    then ok (cleared, false)
    else if not (m.family == af_inet)
    then fault
    else do
      let (route, prefix_len) = route_of (attribute m rta_dst) m.dst_len
      (dev, ifh) ← device_of sys (attribute m rta_oif)
      ok (
        record {
          nh = attribute m rta_gateway;
          src_ip = attribute m rta_prefsrc;
          dev = dev;
          prefix_len = prefix_len;
          ifh = ifh;
        },
        is_ip_in_subnet sys.undefined_shift dest_ip (subnet_addr sys route) prefix_len == 1,
      )

-- The loop of `get_route_dump_response`. An error message frees the buffer that the loop reads on.
unfoldable pub dump_loop : System → ℕ → ℕ → List Message → Found → Run (Found × ℤ)
unfolding print_route
dump_loop sys dest_ip status [] s = ok (s, pos status)
dump_loop sys dest_ip status (m ∷ ms) s =
    let rest = λ (s' : Found). dump_loop sys dest_ip status ms s' in
    if m.interrupted
    then ok (s, negsuc 0)
    else if m.is_error
    then fault
    else do (s', found) ← print_route sys dest_ip m s; if found then ok (s', pos 1) else rest s'

-- `get_route_dump_response`. After a receipt that failed it frees a pointer that was never set.
unfoldable pub get_route_dump_response : System → ℕ → Receipt → Found → Run (Found × ℤ)
unfolding dump_loop
get_route_dump_response sys dest_ip no_receipt s = fault
get_route_dump_response sys dest_ip (received status ms) s = dump_loop sys dest_ip status ms s

-- `if (temp) return 1; return 0;`
abbrev pub one_if_set : ℤ → ℤ
one_if_set (pos zero) = pos 0
one_if_set (pos (suc n)) = pos 1
one_if_set (negsuc n) = pos 1

abbrev pub to_nexthop : Found → NextHop
to_nexthop s = record { nh_ip = s.nh; pref_len = s.prefix_len; dev = s.dev; ifh = s.ifh }

abbrev pub to_srcip : Found → SrcIp
to_srcip s = record { srcip = s.src_ip; ifh = s.ifh }

-- `get_nexthop`, with what its arguments point at; `none` is a request that fails.
unfoldable pub get_nexthop :
    System → Option Receipt → ℕ → NextHop → Found → Run (Found × (ℤ × NextHop))
unfolding get_route_dump_response
get_nexthop sys none dst_ip out s = ok (s, (negsuc 0, out))
get_nexthop sys (some receipt) dst_ip out s = do
  (s', temp) ← get_route_dump_response sys dst_ip receipt s
  ok (s', (one_if_set temp, to_nexthop s'))

unfoldable pub get_srcip : System → Option Receipt → ℕ → SrcIp → Found → Run (Found × (ℤ × SrcIp))
unfolding get_route_dump_response
get_srcip sys none nhip out s = ok (s, (negsuc 0, out))
get_srcip sys (some receipt) nhip out s = do
  (s', temp) ← get_route_dump_response sys nhip receipt s
  ok (s', (one_if_set temp, to_srcip s'))
