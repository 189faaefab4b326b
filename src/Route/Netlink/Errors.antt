-- ===== src/Route/Netlink/Errors.antt =====
-- What `get_nexthop` and `get_srcip` of route_dump.c return and close on every way out.
use socket.Base.{
  ℕ, if◌then◌else◌, true, false, ◌≡◌, refl, Bool-cases, inl, inr, Option, none, some, List, [], ◌∷◌,
  ◌++◌, ◌∙◌,
}
use socket.Base.Int.{ℤ, pos, negsuc, ltz}
use socket.Base.Run.{Run, ok, fault}
use socket.Route.{NextHop, SrcIp}
use socket.Route.Dump.{
  Message, Receipt, no_receipt, System, Found, get_nexthop, get_srcip, get_route_dump_response,
}
use socket.Route.Netlink.{
  Kernel, Request, no_memory, Call, opened, closed, allocated, freed, open_netlink,
  do_route_dump_requst, rtnl_recvmsg, receipt_of, over_netlink, nexthop_over_netlink,
  srcip_over_netlink, response_calls,
}
use socket.Route.Netlink.Calls.{
  buffers_of, open_after, buffers_after, refused, lost, answer_of, Handles, Ends, eqz_refl,
  run-calls, no_answer, received-nonneg,
}
use socket.Route.Netlink.Walk.{Walks, answer_of-Walks}

module _ {R : Type 0} (k : Kernel) (lookup : Option Receipt → Run R) (walk : Receipt → List Call)
    (kept : Receipt → ℕ) (unsent : (r : Request) → ltz (k.send (negsuc 0) r) (pos 0) ≡ true)
    (loses : lookup (some no_receipt) ≡ fault)
    (walks : lost k ≡ false → Walks kept walk (answer_of k)) where
  -- The request is not sent, on what `open_netlink` returns.
  refused-Handles :
      (fd : ℤ) (calls : List Call)
      → open_netlink k ≡ (fd, calls)
      → ltz (do_route_dump_requst k fd) (pos 0) ≡ true
      → open_after [] (calls ++ closed fd ∷ []) ≡ []
      → buffers_after 0 (calls ++ closed fd ∷ []) ≡ 0
      → refused k ≡ true
      → Handles k kept lookup (over_netlink k walk lookup)
  unfolding over_netlink
  refused-Handles fd calls e failed closes frees is_refused =
      rw (is_refused, e, failed) (run-calls (lookup none) _ 0 closes frees)

  -- The request is sent.
  module _ (e : open_netlink k ≡ (k.socket_result, opened k.socket_result ∷ []))
      (sent : ltz (do_route_dump_requst k k.socket_result) (pos 0) ≡ false)
      (accepted : refused k ≡ false) where
    lost-Handles :
        (answer : ℤ × Option (List Message)) (calls : List Call)
        → rtnl_recvmsg k k.socket_result ≡ (answer, calls)
        → receipt_of answer ≡ no_receipt
        → lost k ≡ true
        → Handles k kept lookup (over_netlink k walk lookup)
    unfolding over_netlink
    lost-Handles answer calls r is_none is_lost =
        rw (accepted, is_lost, e, sent, r, is_none, loses) (refl, tt)

    received-Handles :
        (answer : ℤ × Option (List Message))
        → rtnl_recvmsg k k.socket_result ≡ (answer, allocated ∷ [])
        → receipt_of answer ≡ answer_of k
        → lost k ≡ false
        → Handles k kept lookup (over_netlink k walk lookup)
    unfolding over_netlink
    received-Handles answer r is_answer arrives =
        let sock = k.socket_result in
        let (opens, buffers) = walks arrives sock (sock ∷ []) in
        rw (accepted, e, sent, r, is_answer)
          (run-calls (lookup (some (answer_of k)))
            (opened sock ∷ allocated ∷ (walk (answer_of k) ++ closed sock ∷ []))
            (kept (answer_of k)) (opens ∙ rw (eqz_refl sock) refl) buffers)

    sent-Handles : Handles k kept lookup (over_netlink k walk lookup)
    unfolding rtnl_recvmsg
    sent-Handles =
        let sock = k.socket_result in
        let len = k.peek sock in
        elim (Bool-cases (ltz len (pos 0))) [
          | inl none_there ↦
              lost-Handles (len, none) [] (rw none_there refl) (no_answer len) (rw none_there refl)
          | inr there ↦ elim (Bool-cases (k.malloc len)) [
            | inl buffer ↦ elim (Bool-cases (ltz (k.recv sock len) (pos 0))) [
              | inl failed ↦
                  lost-Handles (k.recv sock len, none) (allocated ∷ freed ∷ [])
                    (rw (there, buffer, failed) refl) (no_answer (k.recv sock len))
                    (rw (there, buffer, failed) refl)
              | inr arrived ↦
                  received-Handles (k.recv sock len, some k.messages)
                    (rw (there, buffer, arrived) refl)
                    (rw (there, buffer, arrived) (received-nonneg (k.recv sock len) k arrived))
                    (rw (there, buffer, arrived) refl)
            ]
            | inr no_buffer ↦
                lost-Handles (no_memory, none) [] (rw (there, no_buffer) refl) refl
                  (rw (there, no_buffer) refl)
          ]
        ]

  over_netlink-Handles : Handles k kept lookup (over_netlink k walk lookup)
  unfolding open_netlink do_route_dump_requst
  over_netlink-Handles =
      let sock = k.socket_result in
      elim (Bool-cases (ltz sock (pos 0))) [
        | inl no_socket ↦
            refused-Handles (negsuc 0) [] (rw no_socket refl) (unsent _) refl refl
              (rw no_socket refl)
        | inr socket ↦ elim (Bool-cases (ltz (k.bind sock) (pos 0))) [
          | inl unbound ↦
              refused-Handles (negsuc 0) (opened sock ∷ closed sock ∷ [])
                (rw (socket, unbound) refl) (unsent _) (rw (eqz_refl sock) refl) refl
                (rw (socket, unbound) refl)
          | inr bound ↦ elim (Bool-cases (ltz (do_route_dump_requst k sock) (pos 0))) [
            | inl failed ↦
                refused-Handles sock (opened sock ∷ []) (rw (socket, bound) refl) failed
                  (rw (eqz_refl sock) refl) refl (rw (socket, bound, failed) refl)
            | inr sent ↦ sent-Handles (rw (socket, bound) refl) sent (rw (socket, bound, sent) refl)
          ]
        ]
      ]

Handles-Ends :
    {R : Type 0} (k : Kernel) (kept : Receipt → ℕ) (lookup : Option Receipt → Run R) (failure : R)
    (run : Run (R × List Call))
    → lookup none ≡ ok failure
    → lookup (some no_receipt) ≡ fault
    → Handles k kept lookup run
    → Ends k kept failure (λ receipt. lookup (some receipt)) run
Handles-Ends k kept lookup failure run refuses loses (result, calls) = (
  result ∙ elim (Bool-cases (refused k)) [
    | inl is_refused ↦ rw is_refused refuses
    | inr accepted ↦ elim (Bool-cases (lost k)) [
      | inl is_lost ↦ rw (accepted, is_lost) loses
      | inr arrived ↦ rw (accepted, arrived) refl
    ]
  ],
  calls,
)

-- `rtnl_recvmsg` leaves a buffer only where the answer arrives.
rtnl_recvmsg-buffers :
    (k : Kernel) → buffers_after 0 (rtnl_recvmsg k k.socket_result).1 ≡ (if lost k then 0 else 1)
unfolding rtnl_recvmsg
rtnl_recvmsg-buffers k =
    let sock = k.socket_result in
    let len = k.peek sock in
    elim (Bool-cases (ltz len (pos 0))) [
      | inl none_there ↦ rw none_there refl
      | inr there ↦ elim (Bool-cases (k.malloc len)) [
        | inl buffer ↦ elim (Bool-cases (ltz (k.recv sock len) (pos 0))) [
          | inl failed ↦ rw (there, buffer, failed) refl
          | inr arrived ↦ rw (there, buffer, arrived) refl
        ]
        | inr no_buffer ↦ rw (there, no_buffer) refl
      ]
    ]

-- On a system that refuses to send on the descriptor -1: where there is no socket, or it is not
-- bound, or the request is not sent, `get_nexthop` and `get_srcip` return -1 and leave what their
-- arguments point at; where the answer does not arrive, they are a fault; else they return what the
-- walk over the messages of the answer gives. Whenever they return, the socket that was opened has
-- been closed, and no buffer is left, unless the walk has stopped at a route that it found: then the
-- buffer of the answer is left. `rtnl_recvmsg` leaves a buffer after an answer, and after a failure
-- none.
pub over_netlink_lem :
    (k : Kernel) (sys : System) (dest : ℕ) (out : NextHop) (out' : SrcIp) (s : Found)
    → ((r : Request) → ltz (k.send (negsuc 0) r) (pos 0) ≡ true)
    → Ends k
        (buffers_of sys dest s)
        (s, (negsuc 0, out))
        (λ receipt. get_nexthop sys (some receipt) dest out s)
        (nexthop_over_netlink k sys dest out s)
      × Ends k
          (buffers_of sys dest s)
          (s, (negsuc 0, out'))
          (λ receipt. get_srcip sys (some receipt) dest out' s)
          (srcip_over_netlink k sys dest out' s)
      × (buffers_after 0 (rtnl_recvmsg k k.socket_result).1 ≡ (if lost k then 0 else 1))
unfolding nexthop_over_netlink srcip_over_netlink get_nexthop get_srcip get_route_dump_response
over_netlink_lem k sys dest out out' s unsent =
    let walk = λ (receipt : Receipt). response_calls sys dest receipt s in
    let walks = answer_of-Walks k sys dest s in
    let hop = λ (receipt : Option Receipt). get_nexthop sys receipt dest out s in
    let src = λ (receipt : Option Receipt). get_srcip sys receipt dest out' s in
    (
      Handles-Ends k (buffers_of sys dest s) hop _ _ refl refl
          (over_netlink-Handles k hop walk (buffers_of sys dest s) unsent refl walks),
      Handles-Ends k (buffers_of sys dest s) src _ _ refl refl
          (over_netlink-Handles k src walk (buffers_of sys dest s) unsent refl walks),
      rtnl_recvmsg-buffers k,
    )
