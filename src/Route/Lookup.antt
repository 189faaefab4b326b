-- ===== src/Route/Lookup.antt =====
-- `get_nexthop` and `get_srcip` of route_dump.c against the routes of a dump.
use mathlib.Core.Option.{some-ne-none}
use socket.Base.{
  ℕ, ◌^◌, ◌≤◌, ◌<◌, ◌≡◌, refl, ◌∙◌, Bool, true, false, not, Option, none, some, List, [], ◌∷◌, ◌==◌,
  ◌&&◌, ◌||◌, if◌then◌else◌, Bool-cases, Option-cases, some-injective, ap, inl, inr, arith,
}
use socket.Base.Int.{ℤ, pos}
use socket.Base.Run.{ok}
use socket.Route.Dump.{
  attribute, rta_dst, rta_gateway, rta_oif, rta_prefsrc, subnet_addr, Message, received, Found,
  System, blank, cleared, af_inet, rtn_unicast, rtn_local, route_of, device_of, print_route,
  dump_loop, get_route_dump_response,
}
use socket.Route.Subnet.{network, is_ip_in_subnet, is_ip_in_subnet_lem, is_ip_in_subnet-default}

-- The name and index of the interface of a route.
abbrev pub device : System → Option ℕ → List ℕ × ℕ
device sys none = (blank, 0)
device sys (some index) = named (sys.if_indextoname index)
  where
    named : Option (List ℕ) → List ℕ × ℕ
    named none = (blank, 0)
    named (some name) = (name, index)

-- The prefix of a route, which a default route has not got.
abbrev pub IsPrefix : Option ℕ → ℕ → Type 0
IsPrefix none dst_len = dst_len ≡ 0
IsPrefix (some a) dst_len = (a < 2 ^ 32) × (1 ≤ dst_len) × (dst_len ≤ 32)

-- What the kernel sends for a dump of AF_INET that is not disturbed: no error, known interfaces, and
-- a prefix of 1 to 32 bits wherever there is an address.
pub record IsSound (sys : System) (m : Message) : Type 0 where
  pub whole : m.interrupted ≡ false
  pub no_error : m.is_error ≡ false
  pub inet : m.family ≡ af_inet
  pub known : device_of sys (attribute m rta_oif) ≡ ok (device sys (attribute m rta_oif))
  pub is_prefix : IsPrefix (attribute m rta_dst) m.dst_len

-- A local or unicast route.
abbrev pub is_route : Message → Bool
is_route m = not m.is_short && (m.kind == rtn_local || m.kind == rtn_unicast)

-- The prefix is that of the address.
abbrev pub covers : ℕ → Option ℕ → ℕ → Bool
covers dest none dst_len = false
covers dest (some a) dst_len =
    not (network a dst_len == 0) && network dest dst_len == network a dst_len

abbrev pub leads : ℕ → Message → Bool
leads dest m = is_route m && covers dest (attribute m rta_dst) m.dst_len

-- What the static variables hold of a route.
abbrev pub entry : System → Message → Found
entry sys m = record {
  nh = attribute m rta_gateway;
  src_ip = attribute m rta_prefsrc;
  dev = (device sys (attribute m rta_oif)).0;
  prefix_len = (route_of (attribute m rta_dst) m.dst_len).1;
  ifh = (device sys (attribute m rta_oif)).1;
}

-- The static variables after a message.
abbrev pub after : System → Message → Found → Found
after sys m s = if m.is_short then s else if is_route m then entry sys m else cleared

-- The first route of the dump, in its order, that leads to the address.
unfoldable pub first_route : ℕ → List Message → Option Message
first_route dest [] = none
first_route dest (m ∷ ms) = if leads dest m then some m else first_route dest ms

-- The static variables after all messages.
unfoldable pub after_all : System → List Message → Found → Found
after_all sys [] s = s
after_all sys (m ∷ ms) s = after_all sys ms (after sys m s)

abbrev pub AllSound : System → List Message → Type 0
AllSound sys [] = Unit
AllSound sys (m ∷ ms) = IsSound sys m × AllSound sys ms

covers_lem :
    (sys : System) (dest : ℕ) (dst : Option ℕ) (dst_len : ℕ)
    → dest < 2 ^ 32
    → IsPrefix dst dst_len
    → (is_ip_in_subnet sys.undefined_shift dest
          (subnet_addr sys (route_of dst dst_len).0)
          (route_of dst dst_len).1
        == 1)
      ≡ covers dest dst dst_len
covers_lem sys dest none dst_len l e =
    rw (e, is_ip_in_subnet-default sys.undefined_shift dest 0) refl
covers_lem sys dest (some a) dst_len l (la, lo, hi) =
    rw (is_ip_in_subnet_lem sys.undefined_shift dest a dst_len l la lo hi) (ground arith)

print_route_lem :
    (sys : System) (dest : ℕ) (m : Message) (s : Found)
    → dest < 2 ^ 32
    → IsSound sys m
    → print_route sys dest m s ≡ ok (after sys m s, leads dest m)
unfolding print_route
print_route_lem sys dest m s l v =
    ground
      (arith, v.inet, v.known, covers_lem sys dest (attribute m rta_dst) m.dst_len l v.is_prefix)

module _ (sys : System) (dest status : ℕ) (l : dest < 2 ^ 32) where
  -- One round of the loop.
  dump_loop-step :
      (m : Message) (ms : List Message) (s : Found)
      → IsSound sys m
      → dump_loop sys dest status (m ∷ ms) s ≡ (
          if leads dest m
          then ok (after sys m s, pos 1)
          else dump_loop sys dest status ms (after sys m s))
  unfolding dump_loop
  dump_loop-step m ms s v = rw (v.whole, v.no_error, print_route_lem sys dest m s l v) refl

  after-leads : (m : Message) (s : Found) → leads dest m ≡ true → after sys m s ≡ entry sys m
  after-leads m s e = ground arith

  dump_loop-first_route :
      (ms : List Message) (m : Message) (s : Found)
      → AllSound sys ms
      → first_route dest ms ≡ some m
      → dump_loop sys dest status ms s ≡ ok (entry sys m, pos 1)
  unfolding first_route
  dump_loop-first_route [] m s v e = cc
  dump_loop-first_route (n ∷ ms) m s (v, vs) e =
      dump_loop-step n ms s v ∙ elim (Bool-cases (leads dest n)) [
        | inl here ↦
            let same : n ≡ m = some-injective (rw here at e) in
            rw here (ap (λ t. ok (t, pos 1)) (after-leads n s here ∙ ap (entry sys) same))
        | inr on ↦ rw on (dump_loop-first_route ms m (after sys n s) vs (rw on at e))
      ]

  dump_loop-no_route :
      (ms : List Message) (s : Found)
      → AllSound sys ms
      → first_route dest ms ≡ none
      → dump_loop sys dest status ms s ≡ ok (after_all sys ms s, pos status)
  unfolding first_route after_all dump_loop
  dump_loop-no_route [] s v e = refl
  dump_loop-no_route (n ∷ ms) s (v, vs) e =
      dump_loop-step n ms s v ∙ elim (Bool-cases (leads dest n)) [
        | inl here ↦ absurd (some-ne-none n (rw here at e))
        | inr on ↦ rw on (dump_loop-no_route ms (after sys n s) vs (rw on at e))
      ]

-- The static variables that a walk over the dump leaves, and what it returns.
abbrev pub outcome : System → List Message → ℕ → Found → Option Message → Found × ℤ
outcome sys ms status s none = (after_all sys ms s, pos status)
outcome sys ms status s (some m) = (entry sys m, pos 1)

pub get_route_dump_response_lem :
    (sys : System) (dest status : ℕ) (ms : List Message) (s : Found)
    → dest < 2 ^ 32
    → AllSound sys ms
    → get_route_dump_response sys dest (received status ms) s
      ≡ ok (outcome sys ms status s (first_route dest ms))
unfolding get_route_dump_response
get_route_dump_response_lem sys dest status ms s l v = elim (Option-cases (first_route dest ms)) [
  | inl e ↦ rw e (dump_loop-no_route sys dest status l ms s v e)
  | inr (m, e) ↦ rw e (dump_loop-first_route sys dest status l ms m s v e)
]
