-- ===== src/Tests/Sessions.antt =====
-- Session lists at concrete heaps: runs, and the theorems applied.
use socket.Base.{ℕ, ◌≡◌, refl, none, some, [], ◌∷◌, arith, ◌==◌, if◌then◌else◌}
use socket.Base.Run.{Returns}
use socket.Base.Int.{pos}
use socket.Route.{NextHop, Routing}
use socket.Packet.{Packet, read8, read16, read32, htons}
use socket.Session.Join.{dst_reached, insert, insert_reached, insert_new}
use socket.Session.{
  load, store, search_loop, nil, Entry, session, Heap, write, search_session, delete_session,
}
use socket.Session.Chain.{Cells, Chain}
use socket.Session.Insert.{new_entry}
use socket.Session.Remove.{Holds, last_ptr, delete_session_lem}

abbrev pub entry : ℕ → Entry
entry k = new_entry 100 k (49 ∷ []) (50 ∷ []) 1

-- Three sessions, for the tunnels 7, 8 and 9.
abbrev pub cells : Cells
cells = (10, entry 7) ∷ (20, entry 8) ∷ (30, entry 9) ∷ []

abbrev pub heap : Heap
heap a =
    if a == 10
    then some (session (entry 7) 20)
    else if a == 20
    then some (session (entry 8) 30)
    else if a == 30
    then some (session (entry 9) nil)
    else none

pub heap-Chain : Chain heap 10 cells
heap-Chain = (
  refl,
  omega arith,
  refl,
  (20, refl, (refl, omega arith, refl, (30, refl, (refl, omega arith, refl, (nil, refl, refl))))),
)

delete_session_lem_example : Returns (Holds (entry 7 ∷ entry 9 ∷ [])) (delete_session 10 20 10 heap)
delete_session_lem_example =
    delete_session_lem heap 10 20 (entry 8) 10 ((10, entry 7) ∷ []) ((30, entry 9) ∷ []) heap-Chain
      (unfold last_ptr in refl)

-- The session of tunnel 8 goes: the one of tunnel 9 moves to its address, and 30 is freed.
delete_inner :
    Returns
      (λ (r, g). (r ≡ 10) × (g 20 ≡ some (session (entry 9) nil)) × (g 30 ≡ none))
      (delete_session 10 20 10 heap)
unfolding delete_session write
delete_inner = (refl, refl, refl)

-- Every address is on a link of the router.
abbrev routing : Routing
routing = record {
  get_nexthop = λ dest old. (pos 1, record { nh_ip = none; pref_len = 24; dev = []; ifh = 2 });
  get_srcip = λ hop old. (pos 1, record { srcip = some 8; ifh = 2 });
}

abbrev out : NextHop
out = record { nh_ip = none; pref_len = 0; dev = []; ifh = 0 }

-- A packet for the tunnel 8: the bytes 38 and 39 are 0 and 8.
abbrev packet : Packet
packet = λ i. if i == 39 then 8 else 0

-- The session of tunnel 8 is there, and gets the time.
insert_stamps :
    Returns
      (λ (q, f).
        (q ≡ 10)
        × (f 40 ≡ none)
        × (f 20 ≡ some (session (record (entry 8) { last_path_time = 500 }) 30)))
      (insert routing (λ a. 48 ∷ []) out 4 500 40 10 packet heap)
unfolding insert insert_reached insert_new dst_reached search_session search_loop load store write
    htons read16 read32 read8
insert_stamps = (refl, refl, refl)
