-- ===== src/Main/Reach.antt =====
-- Every state that `main` of rsvpd.c reaches from the empty one.
use socket.Base.{List, ℕ, ◌+◌, ◌<◌, length, ◌≡◌, refl, Option, [], subst, arith}
use socket.Base.Run.{ok, Returns}
use socket.Daemon.{Daemon, Env, Command}
use socket.Main.Configure.{Input, configure}
use socket.Main.Start.{IsInput, configure-IsDaemon}
use socket.Main.{Server, goes, receive}
use socket.Main.Valid.{IsDaemon, IsReady, OutcomeIsDaemon, receive-IsDaemon}
use socket.Message.{path_order, resv_order}
use socket.Packet.{Packet, Datagram}
use socket.Session.{nil}
use socket.Session.Chain.{Cells, Chain}
use socket.Timer.{path_timer_handler, resv_timer_handler}
use socket.Main.Timers.{path_timer-Left, resv_timer-Left}
use socket.Timer.Event.{Clock}
use socket.Tree.{null}

-- No message, no session and no timer; the heap and the labels can be anything.
abbrev pub IsStart : Server → Type 0
IsStart s =
    (s.daemon.router.path_tree ≡ null)
    × (s.daemon.router.resv_tree ≡ null)
    × (s.daemon.path_head ≡ nil)
    × (s.daemon.resv_head ≡ nil)

-- The tunnels that are typed in, the rounds of the loop, and the runs of the timers that return, which lead
-- from the start to a state, whatever is received.
pub data Reached : Server → Type 0 where
  start : {s : Server} → IsStart s → Reached s
  tunnel :
      {s : Server} {d' : Daemon} {sent : Option Datagram}
      → Reached s
      → (env : Env) (input : Input) → IsReady env s.daemon
      → IsInput input
      → configure env input s.daemon ≡ ok (d', sent)
      → Reached (record s { daemon = d' })
  path_timer :
      {s : Server} {d' : Daemon} {sent : List Datagram}
      → Reached s
      → (fuel : ℕ) (stack : Packet) (now : ℕ)
      → ((cs : Cells) → Chain s.daemon.heap s.daemon.resv_head cs → length cs < fuel)
      → path_timer_handler fuel stack now s.daemon ≡ ok (d', sent)
      → Reached (record s { daemon = d' })
  resv_timer :
      {s : Server} {d' : Daemon} {sent : List Datagram}
      → Reached s
      → (fuel : ℕ) (stack : Packet) (now : ℕ)
      → ((cs rs : Cells)
          → Chain s.daemon.heap s.daemon.path_head cs
          → Chain s.daemon.heap s.daemon.resv_head rs
          → length cs + length rs < fuel)
      → resv_timer_handler fuel stack now s.daemon ≡ ok (d', sent)
      → Reached (record s { daemon = d' })
  round :
      {s s' : Server} {command : Option Command} {sent : Option Datagram}
      → Reached s
      → (env : Env) (clock : Clock) (buffer : Option Packet) → IsReady env s.daemon
      → receive env clock buffer s ≡ ok (goes s' command sent)
      → Reached s'

pub start-IsDaemon : (s : Server) → IsStart s → IsDaemon s.daemon
start-IsDaemon s (paths, resvs, first, last) = record {
  router = record {
    paths = rw paths (record { balanced = omega arith; ordered = omega arith });
    resvs = rw resvs (record { balanced = omega arith; ordered = omega arith });
  };
  paths = [];
  resvs = [];
  path_chain = first;
  resv_chain = last;
  apart = λ a i. refl;
}

pub Reached-IsDaemon : (s : Server) → Reached s → IsDaemon s.daemon
Reached-IsDaemon s (start e) = start-IsDaemon s e
Reached-IsDaemon s (tunnel {s = before} r env input ready fits e) =
    subst (Returns (λ (d', g). IsDaemon d')) e
      (configure-IsDaemon env input before.daemon (Reached-IsDaemon before r) ready fits)
Reached-IsDaemon s (path_timer {s = before} {d' = d'} {sent = sent} r fuel stack now lt e) =
    (path_timer-Left fuel stack now before.daemon d' sent (Reached-IsDaemon before r) lt e).0
Reached-IsDaemon s (resv_timer {s = before} {d' = d'} {sent = sent} r fuel stack now lt e) =
    (resv_timer-Left fuel stack now before.daemon d' sent (Reached-IsDaemon before r) lt e).0
Reached-IsDaemon s (round {s = before} r env clock buffer ready e) =
    subst (Returns OutcomeIsDaemon) e
      (receive-IsDaemon env clock buffer before (Reached-IsDaemon before r) ready)

-- In every state that is reached from empty tables and lists through tunnels that are typed in and
-- rounds of the loop, each with memory, with fuel beyond the two lists, with route lookups that
-- return, and with texts of addresses and names of devices that fit, and through runs of the two
-- timers that return, each with fuel beyond the lists, both tables are valid and the two heads lead
-- through lists without a session in common; and one more such round returns, on every packet, with
-- no memory fault, in a state that is valid again.
pub receive-Reached :
    (s : Server) (env : Env) (clock : Clock) (buffer : Option Packet)
    → Reached s
    → IsReady env s.daemon
    → IsDaemon s.daemon × Returns OutcomeIsDaemon (receive env clock buffer s)
receive-Reached s env clock buffer r ready =
    let v = Reached-IsDaemon s r in (v, receive-IsDaemon env clock buffer s v ready)
