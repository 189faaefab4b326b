-- ===== src/Main/KeepReceive.antt =====
-- What a round of `main` of rsvpd.c keeps of the Resv table and the labels: the part of
-- `receive_resv_message`, and the whole round.
use socket.Base.{refl, ◌≡◌}
use socket.Main.KeepPath.{Inserts, receive_path_message-Has}
use socket.Base.{false, ℕ, sym, subst, false, Option, none, some, inl, inr, Bool-cases, ◌==◌}
use socket.Base.Int.{ℤ, pos, negsuc}
use socket.Base.Run.{ok, Yields, Yields-bind, Yields-trivial}
use socket.Daemon.{
  Daemon, Env, Effect, install_node, inserted_resv, store_resv, answer_resv, receive_resv_message,
}
use socket.Daemon.Install.{Keeps-install}
use socket.Label.{Bitmap}
use socket.Main.{
  Server, Outcome, goes, ends, exits, inserted_path, reached_path, path_case, resv_case, receive,
}
use socket.Message.{PathMsg, ResvMsg, path_order, resv_order}
use socket.Packet.{Packet, read8, read32}
use socket.Packet.Resv.{resv_tree_insert}
use socket.Receive.{Router, tunnel_id_of, receive_path_message}
use socket.Session.{Ptr, nil, Heap}
use socket.Session.Join.{insert, insert_new, dst_reached}
use socket.Timer.Event.{Clock, event_handler}
use socket.Tree.{Tree, null, node, search_node}
use socket.Tree.Refines.{IsTable}

module _ (env : Env) (buffer : Packet) (P : Bitmap → Tree ResvMsg → Type 0)
    (inserts : Inserts env.host buffer P) where
  abbrev HasIn : Router → Type 0
  HasIn s = P s.labels s.resv_tree

  abbrev pub EffectHas : Effect → Type 0
  EffectHas x = HasIn x.daemon.router

  install_node-Has :
      (pa : PathMsg) (d : Daemon) (id : ℕ) (n : Tree ResvMsg)
      → HasIn d.router
      → EffectHas (install_node env pa d id n)
  install_node-Has pa d id null has = has
  install_node-Has pa d id (node p l r h) has =
      subst (λ (y : Daemon). HasIn y.router) (sym (Keeps-install env pa d id p)) has

  inserted_resv-Has :
      (pa : PathMsg) (d : Daemon) (id : ℕ) (t : Tree ResvMsg) (m : Bitmap)
      → P m d.router.resv_tree × P m t
      → EffectHas (inserted_resv env pa d id t m)
  unfolding inserted_resv
  inserted_resv-Has pa d id null m (old, new) = old
  inserted_resv-Has pa d id (node p l r h) m (old, new) =
      install_node-Has pa
        (record d { router = record d.router { resv_tree = node p l r h; labels = m } }) id
        (search_node (node p l r h) id) new

  store_resv-Has :
      (pa : PathMsg) (d : Daemon) (id : ℕ) (n : Tree ResvMsg)
      → IsTable d.router.resv_tree
      → HasIn d.router
      → Yields EffectHas (store_resv env buffer pa d id n)
  unfolding store_resv
  store_resv-Has pa d id (node p l r h) v has = has
  store_resv-Has pa d id null v has =
      Yields-bind (λ (t, m). P m d.router.resv_tree × P m t) EffectHas
        (resv_tree_insert env.host.routing env.host.new_resv env.host.resv_malloc
          env.host.resv_srcip d.router.resv_tree buffer pa.p_srcip false d.router.labels)
        (λ (t, m). ok (inserted_resv env pa d id t m))
        (inserts d.router.resv_tree d.router.labels pa.p_srcip false v has)
        (λ (t, m) both. inserted_resv-Has pa d id t m both)

  pub answer_resv-Has :
      (d : Daemon) (id : ℕ) (n : Tree PathMsg)
      → IsTable d.router.resv_tree
      → HasIn d.router
      → Yields EffectHas (answer_resv env buffer d id n)
  unfolding answer_resv
  answer_resv-Has d id null v has = has
  answer_resv-Has d id (node pa l r h) v has =
      Yields-bind (λ a. Unit {0}) EffectHas
        (insert env.host.routing env.inet_ntop env.out env.fuel env.now env.malloc d.resv_head
          buffer d.heap)
        (λ (head, heap).
          store_resv env buffer pa (record d { resv_head = head; heap = heap }) id
            (search_node d.router.resv_tree id))
        (Yields-trivial (
          insert env.host.routing env.inet_ntop env.out env.fuel env.now env.malloc d.resv_head
            buffer d.heap))
        (λ (head, heap) _.
          store_resv-Has pa (record d { resv_head = head; heap = heap }) id
            (search_node d.router.resv_tree id) v has)

-- The state of a round's outcome has the property.
abbrev pub OutcomeHas : (Bitmap → Tree ResvMsg → Type 0) → Outcome → Type 0
OutcomeHas P (goes s c g) = P s.daemon.router.labels s.daemon.router.resv_tree
OutcomeHas P (ends s) = P s.daemon.router.labels s.daemon.router.resv_tree
OutcomeHas P exits = Unit

module _ (env : Env) (buffer : Packet) (P : Bitmap → Tree ResvMsg → Type 0)
    (inserts : Inserts env.host buffer P) (s : Server) (v : IsTable s.daemon.router.resv_tree)
    (has : P s.daemon.router.labels s.daemon.router.resv_tree) where
  inserted_path-Has :
      (timer : ℕ) (head : Ptr) (heap : Heap)
      → Yields (OutcomeHas P) (inserted_path env buffer (record s { resv_timer = timer }) head heap)
  unfolding inserted_path
  inserted_path-Has timer head heap = elim (Bool-cases (head == nil)) [
    | inl lost ↦ rw lost has
    | inr on ↦ rw on (
        Yields-bind (λ (router, g). P router.labels router.resv_tree) (OutcomeHas P)
          (receive_path_message env.host buffer s.daemon.router)
          (λ (router, g). ok (
            goes
              (record s {
                resv_timer = timer;
                daemon = record s.daemon { path_head = head; heap = heap; router = router };
              })
              none g))
          (receive_path_message-Has env.host buffer P inserts s.daemon.router v has)
          (λ (router, g) w. w))
  ]

  reached_path-Has :
      (timer : ℕ) (n : ℤ)
      → Yields (OutcomeHas P) (reached_path env buffer (record s { resv_timer = timer }) n)
  unfolding reached_path
  reached_path-Has timer (negsuc n) = has
  reached_path-Has timer (pos n) =
      let session =
        insert_new env.fuel env.now env.malloc s.daemon.path_head (tunnel_id_of buffer)
          (env.inet_ntop (read32 40 buffer)) (env.inet_ntop (read32 32 buffer)) n s.daemon.heap in
      Yields-bind (λ a. Unit {0}) (OutcomeHas P) session
        (λ (head, heap). inserted_path env buffer (record s { resv_timer = timer }) head heap)
        (Yields-trivial session) (λ (head, heap) _. inserted_path-Has timer head heap)

  path_case-Has : (timer : Option ℕ) → Yields (OutcomeHas P) (path_case env buffer s timer)
  unfolding path_case
  path_case-Has none = tt
  path_case-Has (some timer) =
      reached_path-Has timer (dst_reached env.host.routing env.out (read32 32 buffer))

  resv_case-Has : (timer : Option ℕ) → Yields (OutcomeHas P) (resv_case env buffer s timer)
  unfolding resv_case receive_resv_message
  resv_case-Has none = tt
  resv_case-Has (some timer) =
      Yields-bind (EffectHas env buffer P inserts) (OutcomeHas P)
        (receive_resv_message env buffer s.daemon)
        (λ (x : Effect).
          ok (goes (record s { daemon = x.daemon; path_timer = timer }) x.command x.sent))
        (answer_resv-Has env buffer P inserts s.daemon (tunnel_id_of buffer)
          (search_node s.daemon.router.path_tree (tunnel_id_of buffer)) v has)
        (λ x w. w)

-- A property that `resv_tree_insert` keeps on the packet of a round is kept by the round.
pub receive-Has :
    (env : Env) (clock : Clock) (P : Bitmap → Tree ResvMsg → Type 0) (packet : Option Packet)
    (s : Server)
    → ((buffer : Packet) → packet ≡ some buffer → Inserts env.host buffer P)
    → IsTable s.daemon.router.resv_tree
    → P s.daemon.router.labels s.daemon.router.resv_tree
    → Yields (OutcomeHas P) (receive env clock packet s)
unfolding receive
receive-Has env clock P none s inserts v has = has
receive-Has env clock P (some buffer) s inserts v has =
    let keeps = inserts buffer refl in
    elim (Bool-cases (read8 21 buffer == 1)) [
      | inl is_path ↦
          rw is_path (path_case-Has env buffer P keeps s v has (event_handler clock s.resv_timer))
      | inr not_path ↦ rw not_path (elim (Bool-cases (read8 21 buffer == 2)) [
        | inl is_resv ↦
            rw is_resv (resv_case-Has env buffer P keeps s v has (event_handler clock s.path_timer))
        | inr other ↦ rw other has
      ])
    ]
