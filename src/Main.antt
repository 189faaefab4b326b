-- ===== src/Main.antt =====
-- The loop of `main` of rsvpd.c that receives packets. One round is a function of the packet, or of
-- the failure to receive one. What it prints is left out.
pub mod Lists
pub mod Valid
pub mod Timers
pub mod Reach
pub mod Height
pub mod Again
pub mod Labels
pub mod LabelInsert
pub mod LabelTimer
pub mod LabelRounds
pub mod KeepPath
pub mod KeepReceive
pub mod Distinct
pub mod Ranges
pub mod Configure
pub mod Start
pub mod Tunnel
use socket.Base.{ℕ, ◌+◌, Option, none, some, ◌==◌, if◌then◌else◌}
use socket.Base.Int.{ℤ, pos, negsuc}
use socket.Base.Run.{Run, ok, ◌>>=◌}
use socket.Daemon.{Daemon, Env, Command, receive_resv_message}
use socket.Packet.{Packet, Datagram, read8, read32, ip, session_obj}
use socket.Receive.{tunnel_id_of, receive_path_message}
use socket.Session.{Ptr, nil, Heap}
use socket.Session.Join.{dst_reached, insert_new}
use socket.Timer.Event.{Clock, event_handler}

-- The daemon, `path_timer` and `resv_timer`.
pub record Server : Type 0 where
  pub daemon : Daemon
  pub path_timer : ℕ
  pub resv_timer : ℕ

-- The end of a round: the loop goes on, `main` returns, or the program exits.
pub data Outcome : Type 0 where
  goes : Server → Option Command → Option Datagram → Outcome
  ends : Server → Outcome
  exits : Outcome

abbrev pub path_msg_type : ℕ
path_msg_type = 1

abbrev pub resv_msg_type : ℕ
resv_msg_type = 2

-- From the insertion of the session on. A list in which the session is found is not empty.
unfoldable pub inserted_path : Env → Packet → Server → Ptr → Heap → Run Outcome
inserted_path env buffer s head heap =
    let d : Daemon = record s.daemon { path_head = head; heap = heap } in
    if head == nil then ok (ends (record s { daemon = d })) else (do
      (router, sent) ← receive_path_message env.host buffer d.router
      ok (goes (record s { daemon = record d { router = router } }) none sent))

-- By what `dst_reached` says of the receiver.
unfoldable pub reached_path : Env → Packet → Server → ℤ → Run Outcome
unfolding inserted_path
reached_path env buffer s (negsuc n) = ok (ends s)
reached_path env buffer s (pos reached) = do
  (head, heap) ←
      insert_new env.fuel env.now env.malloc s.daemon.path_head (tunnel_id_of buffer)
        (env.inet_ntop (read32 (ip + session_obj + 12) buffer))
        (env.inet_ntop (read32 (ip + session_obj + 4) buffer)) reached s.daemon.heap
  inserted_path env buffer s head heap

-- `case PATH_MSG_TYPE`, with what `resv_event_handler` leaves in its variable.
unfoldable pub path_case : Env → Packet → Server → Option ℕ → Run Outcome
unfolding reached_path
path_case env buffer s none = ok exits
path_case env buffer s (some timer) =
    reached_path env buffer (record s { resv_timer = timer })
      (dst_reached env.host.routing env.out (read32 (ip + session_obj + 4) buffer))

-- `case RESV_MSG_TYPE`, with what `path_event_handler` leaves in its variable.
unfoldable pub resv_case : Env → Packet → Server → Option ℕ → Run Outcome
resv_case env buffer s none = ok exits
resv_case env buffer s (some timer) = do
  x ← receive_resv_message env buffer s.daemon
  ok (goes (record s { daemon = x.daemon; path_timer = timer }) x.command x.sent)

-- One round of the loop.
unfoldable pub receive : Env → Clock → Option Packet → Server → Run Outcome
unfolding path_case resv_case
receive env clock none s = ok (goes s none none)
receive env clock (some buffer) s =
    let msg_type = read8 (ip + 1) buffer in
    if msg_type == path_msg_type
    then path_case env buffer s (event_handler clock s.resv_timer)
    else if msg_type == resv_msg_type
    then resv_case env buffer s (event_handler clock s.path_timer)
    else ok (goes s none none)
