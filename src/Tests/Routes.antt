-- ===== src/Tests/Routes.antt =====
-- Route lookups in a concrete dump, and the theorems applied to them.
use socket.Base.{
  length, ◌<◌, subst, sym, ◌∙◌, Bool-cases, inr, some-injective, leb, ◌∷◌, ℕ, ◌≡◌, refl, false,
  none, some, [], List, inl, arith, if◌then◌else◌, ◌==◌,
}
use socket.Base.Int.{pos}
use mathlib.Core.Option.{none-ne-some}
use socket.Route.Names.{get_nexthop-short}
use socket.Base.Run.{ok, Returns}
use socket.Packet.{htons, htonl}
use socket.Route.{NextHop, SrcIp}
use socket.Route.Answers.{get_nexthop_lem, routing_of, routing_of_refines}
use socket.Route.Attributes.{last, parse_rtattr_lem}
use socket.Route.Dump.{
  parse_rtattr, Message, Found, System, cleared, received, get_nexthop, get_srcip,
}
use socket.Route.Lookup.{IsSound, AllSound, first_route}
use socket.Route.Subnet.{network, is_ip_in_subnet, is_ip_in_subnet_lem}

-- `eth0`, at the index 2.
abbrev pub sys : System
sys = record {
  undefined_shift = 1;
  stale_subnet = 0;
  if_indextoname = λ i. if i == 2 then some (101 ∷ 116 ∷ 104 ∷ 48 ∷ []) else none;
}

-- 10.0.0.1, as it stands in memory.
abbrev pub gateway : ℕ
gateway = 0x0100000a

-- The default route over 10.0.0.1.
abbrev default_route : Message
default_route = record {
  interrupted = false;
  is_error = false;
  is_short = false;
  family = 2;
  table = 254;
  kind = 1;
  dst_len = 0;
  attributes = (5, gateway) ∷ (4, 2) ∷ [];
}

-- 10.0.0.0/8 on the link.
abbrev link_route : Message
link_route = record default_route {
  dst_len = 8;
  attributes = (1, 10) ∷ (4, 2) ∷ (7, 0x0200000a) ∷ [];
}

abbrev pub dump : List Message
dump = default_route ∷ link_route ∷ []

default_route-IsSound : IsSound sys default_route
unfolding parse_rtattr
default_route-IsSound = record {
  whole = refl;
  no_error = refl;
  inet = refl;
  known = refl;
  is_prefix = refl;
}

link_route-IsSound : IsSound sys link_route
unfolding parse_rtattr
link_route-IsSound = record {
  whole = refl;
  no_error = refl;
  inet = refl;
  known = refl;
  is_prefix = (omega arith, omega arith, omega arith);
}

dump-AllSound : AllSound sys dump
dump-AllSound = (default_route-IsSound, (link_route-IsSound, tt))

-- The address 10.0.0.1 is in 10.0.0.0/8.
is_ip_in_subnet_lem_example :
    is_ip_in_subnet 1 gateway 10 8
    ≡ (if network 10 8 == 0 then 2 else if network gateway 8 == network 10 8 then 1 else 0)
is_ip_in_subnet_lem_example =
    is_ip_in_subnet_lem 1 gateway 10 8 (omega arith) (omega arith) (omega arith) (omega arith)

here : is_ip_in_subnet 1 gateway 10 8 ≡ 1
unfolding is_ip_in_subnet htonl htons
here = refl

abbrev pub unset : NextHop
unset = record { nh_ip = none; pref_len = 0; dev = []; ifh = 0 }

get_nexthop_lem_example :
    get_nexthop sys (some (received 104 dump)) gateway unset cleared
    ≡ ok (
      record {
        nh = none;
        src_ip = some 0x0200000a;
        dev = 101 ∷ 116 ∷ 104 ∷ 48 ∷ [];
        prefix_len = 8;
        ifh = 2;
      },
      (pos 1, record { nh_ip = none; pref_len = 8; dev = 101 ∷ 116 ∷ 104 ∷ 48 ∷ []; ifh = 2 }),
    )
unfolding first_route htonl htons parse_rtattr
get_nexthop_lem_example =
    get_nexthop_lem sys dump 104 cleared gateway (omega arith) dump-AllSound unset

routing_of_refines_example :
    ((out : NextHop)
      → (s' : Found) × (get_nexthop sys (some (received 104 dump)) gateway out cleared
          ≡ ok (s', (routing_of sys dump 104).get_nexthop gateway out)))
    × ((out : SrcIp)
        → (s' : Found) × (get_srcip sys (some (received 104 dump)) gateway out cleared
            ≡ ok (s', (routing_of sys dump 104).get_srcip (some gateway) out)))
routing_of_refines_example =
    routing_of_refines sys dump 104 cleared gateway (omega arith) dump-AllSound (inl refl)

-- Of two gateways the second one is kept.
parse_rtattr_lem_example :
    parse_rtattr 30 ((5, 1) ∷ (99, 3) ∷ (5, 2) ∷ []) 5
    ≡ (if leb 5 30 then last 5 ((5, 1) ∷ (99, 3) ∷ (5, 2) ∷ []) none else none)
parse_rtattr_lem_example = parse_rtattr_lem 30 5 ((5, 1) ∷ (99, 3) ∷ (5, 2) ∷ [])

sys-short : (index : ℕ) (name : List ℕ) → sys.if_indextoname index ≡ some name → length name < 16
sys-short index name e = elim (Bool-cases (index == 2)) [
  | inl eth0 ↦
      let named : sys.if_indextoname index ≡ some (101 ∷ 116 ∷ 104 ∷ 48 ∷ []) = rw eth0 refl in
      subst (λ (text : List ℕ). length text < 16) (some-injective (sym named ∙ e)) (omega arith)
  | inr other ↦
      let unnamed : sys.if_indextoname index ≡ none = rw other refl in
      absurd (none-ne-some name (sym unnamed ∙ e))
]

get_nexthop-short_example :
    Returns
      (λ (s', (temp, out')). (length s'.dev < 16) × (length out'.dev < 16))
      (get_nexthop sys (some (received 104 dump)) gateway unset cleared)
get_nexthop-short_example =
    get_nexthop-short sys sys-short dump 104 cleared gateway unset (omega arith) dump-AllSound
      (omega arith)
