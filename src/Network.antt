-- ===== src/Network.antt =====
-- The routers along a tunnel, each running the handlers of rsvp_msg.c: the Path message goes from the
-- head to the end, and the Resv message comes back. How the network hands over the bytes of a packet
-- is an argument.
pub mod Line
pub mod Forth
pub mod Back
pub mod Carry
pub mod Tunnel
use socket.Base.{ℕ, Option, none, some, List, [], ◌∷◌}
use socket.Base.Run.{Run, ok, ◌>>=◌}
use socket.Daemon.{Daemon, Env, Effect, quiet, receive_resv_message}
use socket.Message.{path_order, resv_order}
use socket.Packet.{Packet, Datagram}
use socket.Packet.Path.{send_path_message}
use socket.Receive.{receive_path_message}

-- A router: its state, its surroundings, and the buffer that a packet for it arrives in.
pub record Node : Type 0 where
  pub env : Env
  pub daemon : Daemon
  pub arrive : Packet → Packet

abbrev pub forth : Node → Option Datagram → Run (Node × Option Datagram)
forth n none = ok (n, none)
forth n (some g) = do
  (router, sent) ← receive_path_message n.env.host (n.arrive g.bytes) n.daemon.router
  ok (record n { daemon = record n.daemon { router = router } }, sent)

-- The Resv message, if one comes back, at a router.
abbrev pub back : Node → Option Datagram → Run Effect
back n none = ok (quiet n.daemon)
back n (some g) = receive_resv_message n.env (n.arrive g.bytes) n.daemon

-- A Path message to the first of these routers: what each of them does in the end, and the message that
-- the first one sends back.
unfoldable pub carry : List Node → Option Datagram → Run (List Effect × Option Datagram)
carry [] g = ok ([], none)
carry (n ∷ []) g = do (n', reply) ← forth n g; ok (quiet n'.daemon ∷ [], reply)
carry (n ∷ m ∷ ns) g =
    let rest = λ (h : Option Datagram). carry (m ∷ ns) h in
    do (n', sent) ← forth n g; (xs, reply) ← rest sent; x ← back n' reply; ok (x ∷ xs, x.sent)

-- The head of a tunnel sends its Path message along the routers, and receives the answer.
unfoldable pub setup : Node → List Node → ℕ → Run (Effect × List Effect)
unfolding carry
setup head ns id = do
  (xs, reply) ← carry ns (send_path_message head.env.host.stack head.daemon.router.path_tree id)
  x ← back head reply
  ok (x, xs)
