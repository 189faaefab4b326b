-- ===== src/Route/Answers.antt =====
-- What `get_nexthop` and `get_srcip` of route_dump.c answer, and that they are a `Routing`.
use socket.Base.{
  ℕ, ◌^◌, ◌<◌, ◌≡◌, refl, ◌∙◌, ap, false, Option, none, some, List, [], ◌∷◌, inl, inr, ◌⊎◌,
}
use socket.Base.Int.{ℤ, pos}
use socket.Base.Run.{ok}
use socket.Route.{NextHop, SrcIp, Routing}
use socket.Route.Dump.{
  Message, received, Found, System, cleared, get_nexthop, get_srcip, one_if_set, to_nexthop,
  to_srcip,
}
use socket.Route.Lookup.{
  AllSound, after, after_all, first_route, outcome, get_route_dump_response_lem,
}

module _ (sys : System) (ms : List Message) (status : ℕ) (s : Found) (dest : ℕ) (l : dest < 2 ^ 32)
    (v : AllSound sys ms) where
  -- On a dump of sound messages `get_nexthop` returns 1 with the gateway, prefix and interface of
  -- the first route of the dump that leads to the address. Without such a route it returns what
  -- the last message left, and 0 only if the dump was empty.
  pub get_nexthop_lem :
      (out : NextHop)
      → let o = outcome sys ms status s (first_route dest ms) in
        get_nexthop sys (some (received status ms)) dest out s
        ≡ ok (o.0, (one_if_set o.1, to_nexthop o.0))
  unfolding get_nexthop
  get_nexthop_lem out = rw (get_route_dump_response_lem sys dest status ms s l v) refl

  -- The same of `get_srcip`, with the source address of the route.
  pub get_srcip_lem :
      (out : SrcIp)
      → let o = outcome sys ms status s (first_route dest ms) in
        get_srcip sys (some (received status ms)) dest out s
        ≡ ok (o.0, (one_if_set o.1, to_srcip o.0))
  unfolding get_srcip
  get_srcip_lem out = rw (get_route_dump_response_lem sys dest status ms s l v) refl

-- The routes of a dump, as the messages use them.
unfoldable pub routing_of : System → List Message → ℕ → Routing
routing_of sys ms status = record {
  get_nexthop = λ dest out.
      let o = outcome sys ms status cleared (first_route dest ms) in
      (one_if_set o.1, to_nexthop o.0);
  get_srcip = by_text;
}
  where
    by_text : Option ℕ → SrcIp → ℤ × SrcIp
    by_text none out = (pos 0, out)
    by_text (some dest) out =
        let o = outcome sys ms status cleared (first_route dest ms) in
        (one_if_set o.1, to_srcip o.0)

-- Some message is not too short to be read.
abbrev pub SomeLong : List Message → Type 0
SomeLong [] = ⊥
SomeLong (m ∷ ms) = (m.is_short ≡ false) ⊎ SomeLong ms

after_all-SomeLong :
    (sys : System) (ms : List Message) (s t : Found)
    → SomeLong ms
    → after_all sys ms s ≡ after_all sys ms t
unfolding after_all
after_all-SomeLong sys [] s t h = absurd h
after_all-SomeLong sys (m ∷ ms) s t (inl long) = rw long refl
after_all-SomeLong sys (m ∷ ms) s t (inr h) =
    after_all-SomeLong sys ms (after sys m s) (after sys m t) h

outcome-SomeLong :
    (sys : System) (ms : List Message) (status : ℕ) (s : Found) (r : Option Message)
    → SomeLong ms
    → outcome sys ms status s r ≡ outcome sys ms status cleared r
outcome-SomeLong sys ms status s none h = rw (after_all-SomeLong sys ms s cleared h) refl
outcome-SomeLong sys ms status s (some m) h = refl

-- On a dump of sound messages, of which one is not too short, the two functions are the `Routing` of
-- the dump, whatever an earlier call left in the static variables.
pub routing_of_refines :
    (sys : System) (ms : List Message) (status : ℕ) (s : Found) (dest : ℕ)
    → dest < 2 ^ 32
    → AllSound sys ms
    → SomeLong ms
    → ((out : NextHop)
        → (s' : Found) × (get_nexthop sys (some (received status ms)) dest out s
            ≡ ok (s', (routing_of sys ms status).get_nexthop dest out)))
      × ((out : SrcIp)
          → (s' : Found) × (get_srcip sys (some (received status ms)) dest out s
              ≡ ok (s', (routing_of sys ms status).get_srcip (some dest) out)))
unfolding routing_of
routing_of_refines sys ms status s dest l v h =
    let same = outcome-SomeLong sys ms status s (first_route dest ms) h in
    (
      (λ out. (
        (outcome sys ms status cleared (first_route dest ms)).0,
        get_nexthop_lem sys ms status s dest l v out
            ∙ ap (λ o. ok (o.0, (one_if_set o.1, to_nexthop o.0))) same,
      )),
      (λ out. (
        (outcome sys ms status cleared (first_route dest ms)).0,
        get_srcip_lem sys ms status s dest l v out
            ∙ ap (λ o. ok (o.0, (one_if_set o.1, to_srcip o.0))) same,
      )),
    )
