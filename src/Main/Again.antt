-- ===== src/Main/Again.antt =====
-- One round of the loop of rsvpd.c on a message of a tunnel that both tables have.
use socket.Base.{ℕ, ◌≡◌, refl, none, some, ◌==◌, inl, inr, ◌⊎◌, Bool-cases, Option}
use socket.Base.Int.{ℤ, pos, negsuc}
use socket.Base.Run.{ok, Returns, Returns-eq}
use mathlib.Core.Option.{none-ne-some}
use socket.Daemon.{Daemon, Env, Effect, quiet, store_resv, answer_resv, receive_resv_message}
use socket.Main.{
  Server, Outcome, goes, ends, exits, inserted_path, reached_path, path_case, resv_case, receive,
}
use socket.Main.Valid.{IsDaemon, IsReady}
use socket.Message.{PathMsg, ResvMsg, path_order, resv_order}
use socket.Packet.{Packet, Datagram, read8, read32}
use socket.Receive.{tunnel_id_of}
use socket.Receive.Again.{again, receive_path_message-again}
use socket.Session.{Ptr, nil, Heap}
use socket.Session.Join.{insert, insert_new, dst_reached, Joined, insert-Joined, insert_new-Joined}
use socket.Timer.Event.{Clock, event_handler}
use socket.Tree.{Tree, null, node, search_node}
use socket.Tree.Search.{data_of}

-- Nothing of the tables or labels changes, and what is sent, if anything, is the message `g`.
abbrev pub Stable : Server → Datagram → Outcome → Type 0
Stable s g (goes s' command sent) =
    (s'.daemon.router ≡ s.daemon.router) × (command ≡ none) × ((sent ≡ none) ⊎ (sent ≡ some g))
Stable s g (ends s') = s'.daemon.router ≡ s.daemon.router
Stable s g exits = Unit

module _ (env : Env) (buffer : Packet) (s : Server) (p : PathMsg) (q : ResvMsg)
    (v : IsDaemon s.daemon) (r : IsReady env s.daemon)
    (f : data_of (search_node s.daemon.router.path_tree (tunnel_id_of buffer)) ≡ some p)
    (g : data_of (search_node s.daemon.router.resv_tree (tunnel_id_of buffer)) ≡ some q) where
  inserted_path-Stable :
      (head : Ptr) (heap : Heap) (timer : ℕ)
      → Returns
          (Stable s (again env.host.stack p q))
          (inserted_path env buffer (record s { resv_timer = timer }) head heap)
  unfolding inserted_path
  inserted_path-Stable head heap timer = elim (Bool-cases (head == nil)) [
    | inl lost ↦ rw lost refl
    | inr on ↦
        rw (on, receive_path_message-again env.host buffer s.daemon.router p q f g)
          (refl, refl, inr refl)
  ]

  reached_path-Stable :
      (reached : ℤ) (timer : ℕ)
      → Returns
          (Stable s (again env.host.stack p q))
          (reached_path env buffer (record s { resv_timer = timer }) reached)
  unfolding reached_path
  reached_path-Stable (negsuc n) timer = refl
  reached_path-Stable (pos n) timer =
      let sender = env.inet_ntop (read32 40 buffer) in
      let receiver = env.inet_ntop (read32 32 buffer) in
      let ((head, heap), returned, _) =
        Returns-eq
          (Joined env.now env.malloc (tunnel_id_of buffer) sender receiver s.daemon.heap v.paths
            (pos n))
          (insert_new env.fuel env.now env.malloc s.daemon.path_head (tunnel_id_of buffer) sender
            receiver n s.daemon.heap)
          (insert_new-Joined env.now env.malloc (tunnel_id_of buffer) s.daemon.heap
            s.daemon.path_head v.paths sender receiver v.path_chain r.real r.unused
            (r.fits (read32 40 buffer)) (r.fits (read32 32 buffer)) env.fuel n
            (r.path_fuel v.paths v.path_chain)) in
      rw returned (inserted_path-Stable head heap timer)

  store_resv-known :
      (pa : PathMsg) (d : Daemon) (id : ℕ) (n : Tree ResvMsg)
      → data_of n ≡ some q
      → store_resv env buffer pa d id n ≡ ok (quiet d)
  unfolding store_resv
  store_resv-known pa d id null e = absurd (none-ne-some q e)
  store_resv-known pa d id (node x left right h) e = refl

  answer_resv-known :
      (n : Tree PathMsg)
      → Returns
          (λ (x : Effect).
            (x.daemon.router ≡ s.daemon.router) × (x.command ≡ none) × (x.sent ≡ none))
          (answer_resv env buffer s.daemon (tunnel_id_of buffer) n)
  unfolding answer_resv
  answer_resv-known null = (refl, refl, refl)
  answer_resv-known (node pa left right h) =
      let id = tunnel_id_of buffer in
      let ((head, heap), returned, _) =
        Returns-eq _
          (insert env.host.routing env.inet_ntop env.out env.fuel env.now env.malloc
            s.daemon.resv_head buffer s.daemon.heap)
          (insert-Joined env.host.routing env.inet_ntop env.out env.fuel env.now env.malloc buffer
            s.daemon.heap s.daemon.resv_head v.resvs r.fits v.resv_chain
            (r.resv_fuel v.resvs v.resv_chain) r.real r.unused) in
      rw
        (
          returned,
          store_resv-known pa (record s.daemon { resv_head = head; heap = heap }) id
              (search_node s.daemon.router.resv_tree id) g,
        )
        (refl, refl, refl)

  resv_case-Stable :
      (timer : Option ℕ)
      → Returns (Stable s (again env.host.stack p q)) (resv_case env buffer s timer)
  unfolding resv_case receive_resv_message
  resv_case-Stable none = tt
  resv_case-Stable (some timer) =
      let id = tunnel_id_of buffer in
      let (x, returned, (same, command, sent)) =
        Returns-eq _ (answer_resv env buffer s.daemon id (search_node s.daemon.router.path_tree id))
          (answer_resv-known (search_node s.daemon.router.path_tree id)) in
      rw returned (same, command, inl sent)

  path_case-Stable :
      (timer : Option ℕ)
      → Returns (Stable s (again env.host.stack p q)) (path_case env buffer s timer)
  unfolding path_case
  path_case-Stable none = tt
  path_case-Stable (some timer) =
      reached_path-Stable (dst_reached env.host.routing env.out (read32 32 buffer)) timer

  -- In a valid state, with memory, fuel beyond the two lists, route lookups that return, and texts and
  -- names of devices that fit, a round on any packet for a tunnel that both tables have returns, leaves the tables and the labels as they are and runs no
  -- command; if it sends anything, it is the stored Resv message where the tunnel ends, and the stored
  -- Path message elsewhere.
  pub receive-Stable :
      (clock : Clock)
      → Returns (Stable s (again env.host.stack p q)) (receive env clock (some buffer) s)
  unfolding receive
  receive-Stable clock = elim (Bool-cases (read8 21 buffer == 1)) [
    | inl is_path ↦ rw is_path (path_case-Stable (event_handler clock s.resv_timer))
    | inr not_path ↦ rw not_path (elim (Bool-cases (read8 21 buffer == 2)) [
      | inl is_resv ↦ rw is_resv (resv_case-Stable (event_handler clock s.path_timer))
      | inr other ↦ rw other (refl, refl, inl refl)
    ])
  ]
