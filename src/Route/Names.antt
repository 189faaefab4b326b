-- ===== src/Route/Names.antt =====
-- The name of the device that `get_nexthop` of route_dump.c leaves.
use socket.Base.{
  ℕ, ◌<◌, ◌^◌, ◌≡◌, refl, subst, not, ◌&&◌, ◌==◌, Bool-cases, if◌then◌else◌, inl, inr, Option, none,
  some, List, [], ◌∷◌, length, arith,
}
use socket.Base.Int.{ℤ, pos}
use socket.Base.Run.{ok, Returns, Yields, Yields-bind, Yields-if}
use socket.Route.{NextHop}
use socket.Route.Answers.{get_nexthop_lem}
use socket.Route.Dump.{
  Message, received, System, Found, af_inet, rt_table_main, rtn_local, rtn_unicast, rtm_get_table,
  device_of, print_route, dump_loop, get_route_dump_response, get_nexthop, attribute, rta_oif,
}
use socket.Route.Lookup.{AllSound}

module _ (sys : System)
    (short : (index : ℕ) (name : List ℕ)
      → sys.if_indextoname index ≡ some name
      → length name < 16) where
  device_of-short :
      (index : Option ℕ) → Yields (λ (dev, ifh). length dev < 16) (device_of sys index)
  device_of-short none = omega arith
  device_of-short (some index) = by_name (sys.if_indextoname index) refl
    where
      by_name :
          (name : Option (List ℕ))
          → sys.if_indextoname index ≡ name
          → Yields (λ (dev, ifh). length dev < 16) (device_of sys (some index))
      by_name none e = rw e tt
      by_name (some name) e = rw e (short index name e)

  print_route-short :
      (dest : ℕ) (m : Message) (s : Found)
      → length s.dev < 16
      → Yields (λ (s', found). length s'.dev < 16) (print_route sys dest m s)
  unfolding print_route
  print_route-short dest m s lt = elim (Bool-cases m.is_short) [
    | inl skipped ↦ rw skipped lt
    | inr long ↦
        elim (Bool-cases (not (m.family == af_inet) && not (rtm_get_table m == rt_table_main))) [
          | inl other ↦ rw (long, other) (omega arith)
          | inr main ↦
              elim (Bool-cases (not (m.kind == rtn_local) && not (m.kind == rtn_unicast))) [
                | inl no_route ↦ rw (long, main, no_route) (omega arith)
                | inr route ↦ elim (Bool-cases (not (m.family == af_inet))) [
                  | inl six ↦ rw (long, main, route, six) tt
                  | inr inet ↦
                      rw (long, main, route, inet)
                        (Yields-bind (λ (dev, ifh). length dev < 16)
                          (λ (s', found). length s'.dev < 16) (device_of sys (attribute m rta_oif))
                          _ (device_of-short (attribute m rta_oif)) (λ (dev, ifh) h. h))
                ]
              ]
        ]
  ]

  dump_loop-short :
      (dest status : ℕ) (ms : List Message) (s : Found)
      → length s.dev < 16
      → Yields (λ (s', temp). length s'.dev < 16) (dump_loop sys dest status ms s)
  unfolding dump_loop
  dump_loop-short dest status [] s lt = lt
  dump_loop-short dest status (m ∷ ms) s lt =
      let P = λ (x : Found × ℤ). length x.0.dev < 16 in
      let rest : (s' : Found) → length s'.dev < 16 → Yields P (dump_loop sys dest status ms s') =
        λ s' h. dump_loop-short dest status ms s' h in
      elim (Bool-cases m.interrupted) [
        | inl broken ↦ rw broken lt
        | inr whole ↦ elim (Bool-cases m.is_error) [
          | inl error ↦ rw (whole, error) tt
          | inr sound ↦
              rw (whole, sound)
                (Yields-bind (λ (s', found). length s'.dev < 16) P (print_route sys dest m s)
                  (λ (s', found). if found then ok (s', pos 1) else dump_loop sys dest status ms s')
                  (print_route-short dest m s lt)
                  (λ (s', found) h.
                    Yields-if P found (ok (s', pos 1)) (dump_loop sys dest status ms s') h
                      (rest s' h)))
        ]
      ]

  -- On a dump without errors, with known interfaces and with prefixes of 1 to 32 bits, and where
  -- `if_indextoname` gives names of less than 16 characters, as the static variable holds one,
  -- `get_nexthop` returns and leaves a name of less than 16 characters, in the static variable and in
  -- what its argument points at.
  pub get_nexthop-short :
      (ms : List Message) (status : ℕ) (s : Found) (dest : ℕ) (out : NextHop)
      → dest < 2 ^ 32
      → AllSound sys ms
      → length s.dev < 16
      → Returns
          (λ (s', (temp, out')). (length s'.dev < 16) × (length out'.dev < 16))
          (get_nexthop sys (some (received status ms)) dest out s)
  unfolding get_nexthop get_route_dump_response
  get_nexthop-short ms status s dest out l v lt =
      let run = get_nexthop sys (some (received status ms)) dest out s in
      let P = λ (x : Found × (ℤ × NextHop)). (length x.0.dev < 16) × (length x.1.1.dev < 16) in
      let yields : Yields P run =
        Yields-bind (λ (s', temp). length s'.dev < 16) P (dump_loop sys dest status ms s) _
          (dump_loop-short dest status ms s lt) (λ (s', temp) h. (h, h)) in
      let e = get_nexthop_lem sys ms status s dest l v out in rw e (subst (Yields P) e yields)
