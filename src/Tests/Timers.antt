-- ===== src/Tests/Timers.antt =====
-- The timer handlers on a list of three sessions.
use socket.Base.{ℕ, ◌≡◌, refl, [], ◌∷◌, none, some, ◌==◌, if◌then◌else◌, arith}
use socket.Base.Run.{fault}
use socket.Daemon.{Daemon}
use socket.Message.{path_order, resv_order}
use socket.Session.{nil, Entry, session, Heap, Ptr}
use socket.Session.Chain.{Apart, Cells, Chain}
use socket.Session.Insert.{new_entry}
use socket.Tests.Packets.{path_table, resv_table, zeros}
use socket.Timer.{path_timer_handler, resv_timer_handler}
use socket.Timer.Path.{PathRuns}
use socket.Timer.PathWalk.{path_timer_handler_lem}
use socket.Timer.Resv.{passed, removed}
use socket.Timer.ResvTimer.{resv_timer_handler_lem}
use socket.Timer.ResvWalk.{ResvRuns}
use socket.Tree.Refines.{IsTable}

-- A session of a tunnel, last heard of at some time.
abbrev entry : ℕ → ℕ → ℕ → Entry
entry time tunnel_id dest = new_entry time tunnel_id (49 ∷ []) (50 ∷ []) dest

-- A list of three sessions, of which the second is old, and a list of one.
abbrev three : ℕ → Cells
three dest =
    (10, entry 440 0x1234 dest) ∷ (20, entry 100 0x2222 0) ∷ (30, entry 440 0x1234 dest) ∷ []

abbrev one : Cells
one = (40, entry 440 0x1234 1) ∷ []

abbrev heap : ℕ → Heap
heap dest a =
    if a == 10
    then some (session (entry 440 0x1234 dest) 20)
    else if a == 20
    then some (session (entry 100 0x2222 0) 30)
    else if a == 30
    then some (session (entry 440 0x1234 dest) nil)
    else if a == 40
    then some (session (entry 440 0x1234 1) nil)
    else none

three-Chain : (dest : ℕ) → Chain (heap dest) 10 (three dest)
three-Chain dest = (
  refl,
  omega arith,
  refl,
  (20, refl, (refl, omega arith, refl, (30, refl, (refl, omega arith, refl, (nil, refl, refl))))),
)

one-Chain : (dest : ℕ) → Chain (heap dest) 40 one
one-Chain dest = (refl, omega arith, refl, (nil, refl, refl))

three-Apart : (dest : ℕ) → Apart (three dest) one
three-Apart dest a i = ground arith

abbrev daemon : ℕ → Ptr → Ptr → Daemon
daemon dest path_head resv_head = record {
  router = record { path_tree = path_table; resv_tree = resv_table; labels = zeros; nhip = none };
  heap = heap dest;
  path_head = path_head;
  resv_head = resv_head;
}

pub resv_table-IsTable : IsTable resv_table
unfolding resv_order
resv_table-IsTable = record { balanced = omega arith; ordered = omega arith }

pub path_table-IsTable : IsTable path_table
unfolding path_order
path_table-IsTable = record { balanced = omega arith; ordered = omega arith }

-- The second session is deleted, and the third takes its place unseen.
path_timer_handler_lem_example :
    PathRuns zeros 450
      (daemon 1 nil 10)
      []
      (three 1)
      ((10, entry 440 0x1234 1) ∷ (20, entry 100 0x2222 0) ∷ [])
      (some ((10, entry 440 0x1234 1) ∷ (20, entry 440 0x1234 1) ∷ []))
      (path_timer_handler 4 zeros 450 (daemon 1 nil 10))
path_timer_handler_lem_example =
    path_timer_handler_lem zeros 450 4 (daemon 1 nil 10) (three 1) (three-Chain 1) (omega arith)
      resv_table-IsTable

-- The second session is deleted, and with it the Resv message and the session of the third one's tunnel.
resv_timer_handler_lem_example :
    ResvRuns zeros 450
      (daemon 1 10 40)
      []
      (three 1)
      one
      (passed (entry 440 0x1234 1) ∷ removed (entry 100 0x2222 0) (entry 440 0x1234 1) ∷ [])
      (some ((10, entry 440 0x1234 1) ∷ (20, entry 440 0x1234 1) ∷ []))
      (resv_timer_handler 5 zeros 450 (daemon 1 10 40))
resv_timer_handler_lem_example =
    resv_timer_handler_lem zeros 450 5 (daemon 1 10 40) (three 1) one (three-Chain 1) (one-Chain 1)
      (three-Apart 1) path_table-IsTable resv_table-IsTable (omega arith)

-- At the time 600 the first session is old as well.
path_timer-first : path_timer_handler 4 zeros 600 (daemon 0 nil 10) ≡ fault
path_timer-first =
    path_timer_handler_lem zeros 600 4 (daemon 0 nil 10) (three 0) (three-Chain 0) (omega arith)
      resv_table-IsTable

resv_timer-first : resv_timer_handler 5 zeros 600 (daemon 1 10 40) ≡ fault
resv_timer-first =
    resv_timer_handler_lem zeros 600 5 (daemon 1 10 40) (three 1) one (three-Chain 1) (one-Chain 1)
      (three-Apart 1) path_table-IsTable resv_table-IsTable (omega arith)
