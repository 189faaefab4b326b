-- ===== src/Main/Valid.antt =====
-- One round of the loop of rsvpd.c keeps the tables valid, and the two lists lists.
use socket.Base.{ℕ, ◌≡◌, ◌≢◌, ◌<◌, Option, none, some, inl, inr, Bool-cases, ◌==◌, length}
use socket.Base.Int.{ℤ, pos, negsuc}
use socket.Base.Run.{ok, Returns, Returns-bind, Returns-imp}
use socket.Daemon.{Daemon, Env, Effect, answer_resv, store_resv, receive_resv_message}
use socket.Daemon.Valid.{Spares, store_resv-Spares}
use socket.Main.Lists.{Joined-Apart}
use socket.Main.{
  Server, Outcome, goes, ends, exits, inserted_path, reached_path, path_case, resv_case, receive,
}
use socket.Message.{PathMsg, ResvMsg, path_order, resv_order}
use socket.Packet.{Packet, read8, read16, read32, htons}
use socket.Receive.{tunnel_id_of, receive_path_message}
use socket.Receive.Valid.{IsRouter, receive_path_message-IsRouter}
use socket.Route.{NamesFit}
use socket.Session.{Ptr, nil, Heap}
use socket.Session.Chain.{Apart, Apart-sym, Cells, Chain}
use socket.Session.Join.{
  insert, insert_new, inserted, dst_reached, Joined, insert-Joined, insert_new-Joined,
}
use socket.Timer.Event.{Clock, event_handler}
use socket.Tree.{Tree, null, node, search_node}

-- The tables are valid, and the heads lead through two lists.
pub record IsDaemon (d : Daemon) : Type 0 where
  pub router : IsRouter d.router
  pub paths : Cells
  pub resvs : Cells
  pub path_chain : Chain d.heap d.path_head paths
  pub resv_chain : Chain d.heap d.resv_head resvs
  pub apart : Apart paths resvs

-- What a round finds: memory for the messages and for a session at a new address, fuel beyond the
-- two lists, texts of addresses that fit, and names of devices that fit.
pub record IsReady (env : Env) (d : Daemon) : Type 0 where
  pub path : PathMsg
  pub resv : ResvMsg
  pub new_path : env.host.new_path ≡ some path
  pub new_resv : env.host.new_resv ≡ some resv
  pub real : env.malloc ≢ nil
  pub unused : d.heap env.malloc ≡ none
  pub fits : (a : ℕ) → length (env.inet_ntop a) < 16
  pub names : NamesFit env.host.routing env.host.dev
  pub out_names : NamesFit env.host.routing env.out.dev
  pub path_fuel : (cs : Cells) → Chain d.heap d.path_head cs → length cs < env.fuel
  pub resv_fuel : (cs : Cells) → Chain d.heap d.resv_head cs → length cs < env.fuel

abbrev pub OutcomeIsDaemon : Outcome → Type 0
OutcomeIsDaemon (goes s c g) = IsDaemon s.daemon
OutcomeIsDaemon (ends s) = IsDaemon s.daemon
OutcomeIsDaemon exits = Unit

module _ (env : Env) (buffer : Packet) where
  inserted_path-IsDaemon :
      (s : Server) (head : Ptr) (heap : Heap) (path : PathMsg) (resv : ResvMsg)
      → env.host.new_path ≡ some path
      → env.host.new_resv ≡ some resv
      → NamesFit env.host.routing env.host.dev
      → IsDaemon (record s.daemon { path_head = head; heap = heap })
      → Returns OutcomeIsDaemon (inserted_path env buffer s head heap)
  unfolding inserted_path
  inserted_path-IsDaemon s head heap path resv e f short v = elim (Bool-cases (head == nil)) [
    | inl lost ↦ rw lost v
    | inr on ↦ rw on (
        Returns-bind (λ (router, g). IsRouter router) OutcomeIsDaemon
          (receive_path_message env.host buffer s.daemon.router)
          (λ (router, g). ok (
            goes
              (record s {
                daemon = record s.daemon { path_head = head; heap = heap; router = router };
              })
              none g))
          (receive_path_message-IsRouter env.host buffer short s.daemon.router path resv e f
            v.router)
          (λ (router, g) w. record {
            router = w;
            paths = v.paths;
            resvs = v.resvs;
            path_chain = v.path_chain;
            resv_chain = v.resv_chain;
            apart = v.apart;
          }))
  ]

  reached_path-IsDaemon :
      (s : Server) (reached : ℤ)
      → IsDaemon s.daemon
      → IsReady env s.daemon
      → Returns OutcomeIsDaemon (reached_path env buffer s reached)
  unfolding reached_path
  reached_path-IsDaemon s (negsuc n) v r = v
  reached_path-IsDaemon s (pos n) v r =
      let sender = env.inet_ntop (read32 40 buffer) in
      let receiver = env.inet_ntop (read32 32 buffer) in
      let id = tunnel_id_of buffer in
      let d = s.daemon in
      Returns-bind (Joined env.now env.malloc id sender receiver d.heap v.paths (pos n))
        OutcomeIsDaemon
        (insert_new env.fuel env.now env.malloc d.path_head id sender receiver n d.heap)
        (λ (head, heap). inserted_path env buffer s head heap)
        (insert_new-Joined env.now env.malloc id d.heap d.path_head v.paths sender receiver
          v.path_chain r.real r.unused (r.fits (read32 40 buffer)) (r.fits (read32 32 buffer))
          env.fuel n (r.path_fuel v.paths v.path_chain))
        (λ (head, heap) joined.
          let (chain, apart) =
            Joined-Apart env.now env.malloc id sender receiver d.heap d.path_head d.resv_head
              v.paths v.resvs v.path_chain v.resv_chain v.apart r.unused (pos n) head heap joined in
          inserted_path-IsDaemon s head heap r.path r.resv r.new_path r.new_resv r.names (record {
            router = v.router;
            paths = inserted env.now env.malloc id sender receiver v.paths (pos n);
            resvs = v.resvs;
            path_chain = joined.0;
            resv_chain = chain;
            apart = apart;
          }))

  -- A daemon with the lists of `d` and valid tables.
  Spares-IsDaemon :
      (new : ResvMsg) (e : env.host.new_resv ≡ some new) (d : Daemon) (x : Effect)
      → IsDaemon d
      → Spares env buffer new e d x
      → IsDaemon x.daemon
  Spares-IsDaemon new e d x v (router, heap, first, last) = record {
    router = router;
    paths = v.paths;
    resvs = v.resvs;
    path_chain = rw (heap, first) v.path_chain;
    resv_chain = rw (heap, last) v.resv_chain;
    apart = v.apart;
  }

  answer_resv-IsDaemon :
      (d : Daemon) (id : ℕ) (n : Tree PathMsg)
      → IsDaemon d
      → IsReady env d
      → Returns (λ x. IsDaemon x.daemon) (answer_resv env buffer d id n)
  unfolding answer_resv
  answer_resv-IsDaemon d id null v r = v
  answer_resv-IsDaemon d id (node pa left right h) v r =
      let k = htons (read16 38 buffer) in
      let sender = env.inet_ntop (read32 40 buffer) in
      let receiver = env.inet_ntop (read32 32 buffer) in
      let reached = dst_reached env.host.routing env.out (read32 40 buffer) in
      Returns-bind (Joined env.now env.malloc k sender receiver d.heap v.resvs reached)
        (λ x. IsDaemon x.daemon)
        (insert env.host.routing env.inet_ntop env.out env.fuel env.now env.malloc d.resv_head
          buffer d.heap)
        (λ (head, heap).
          store_resv env buffer pa (record d { resv_head = head; heap = heap }) id
            (search_node d.router.resv_tree id))
        (insert-Joined env.host.routing env.inet_ntop env.out env.fuel env.now env.malloc buffer
          d.heap d.resv_head v.resvs r.fits v.resv_chain (r.resv_fuel v.resvs v.resv_chain) r.real
          r.unused)
        (λ (head, heap) joined.
          let (chain, apart) =
            Joined-Apart env.now env.malloc k sender receiver d.heap d.resv_head d.path_head v.resvs
              v.paths v.resv_chain v.path_chain (Apart-sym v.paths v.resvs v.apart) r.unused reached
              head heap joined in
          let new_resvs = inserted env.now env.malloc k sender receiver v.resvs reached in
          let d' : Daemon = record d { resv_head = head; heap = heap } in
          let w : IsDaemon d' = record {
            router = v.router;
            paths = v.paths;
            resvs = new_resvs;
            path_chain = chain;
            resv_chain = joined.0;
            apart = Apart-sym new_resvs v.paths apart;
          } in
          Returns-imp (Spares env buffer r.resv r.new_resv d') (λ x. IsDaemon x.daemon)
            (store_resv env buffer pa d' id (search_node d.router.resv_tree id))
            (store_resv-Spares env buffer r.resv r.new_resv pa d' id
              (search_node d.router.resv_tree id) v.router)
            (λ x spares. Spares-IsDaemon r.resv r.new_resv d' x w spares))

  resv_case-IsDaemon :
      (s : Server) (timer : Option ℕ)
      → IsDaemon s.daemon
      → IsReady env s.daemon
      → Returns OutcomeIsDaemon (resv_case env buffer s timer)
  unfolding resv_case receive_resv_message
  resv_case-IsDaemon s none v r = tt
  resv_case-IsDaemon s (some timer) v r =
      let id = tunnel_id_of buffer in
      Returns-bind (λ (x : Effect). IsDaemon x.daemon) OutcomeIsDaemon
        (receive_resv_message env buffer s.daemon)
        (λ (x : Effect).
          ok (goes (record s { daemon = x.daemon; path_timer = timer }) x.command x.sent))
        (answer_resv-IsDaemon s.daemon id (search_node s.daemon.router.path_tree id) v r) (λ x w. w)

  path_case-IsDaemon :
      (s : Server) (timer : Option ℕ)
      → IsDaemon s.daemon
      → IsReady env s.daemon
      → Returns OutcomeIsDaemon (path_case env buffer s timer)
  unfolding path_case
  path_case-IsDaemon s none v r = tt
  path_case-IsDaemon s (some timer) v r =
      reached_path-IsDaemon (record s { resv_timer = timer })
        (dst_reached env.host.routing env.out (read32 32 buffer)) v r

-- With memory, fuel beyond the two lists and texts that fit, one round returns on every packet, with no
-- memory fault, and keeps the tables valid and the two lists lists without a session in common.
pub receive-IsDaemon :
    (env : Env) (clock : Clock) (buffer : Option Packet) (s : Server)
    → IsDaemon s.daemon
    → IsReady env s.daemon
    → Returns OutcomeIsDaemon (receive env clock buffer s)
unfolding receive
receive-IsDaemon env clock none s v r = v
receive-IsDaemon env clock (some buffer) s v r = elim (Bool-cases (read8 21 buffer == 1)) [
  | inl is_path ↦
      rw is_path (path_case-IsDaemon env buffer s (event_handler clock s.resv_timer) v r)
  | inr not_path ↦ rw not_path (elim (Bool-cases (read8 21 buffer == 2)) [
    | inl is_resv ↦
        rw is_resv (resv_case-IsDaemon env buffer s (event_handler clock s.path_timer) v r)
    | inr other ↦ rw other v
  ])
]
