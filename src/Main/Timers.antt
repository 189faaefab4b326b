-- ===== src/Main/Timers.antt =====
-- What a run of a timer of timer_event.c that returns leaves of the daemon.
use socket.Base.{
  ◌+◌, ℕ, ◌<◌, ◌≡◌, sym, refl, ap, subst, Bool, Option, none, some, [], length, List, arith,
}
use socket.Base.Run.{ok, fault}
use socket.Daemon.{Daemon}
use socket.Main.Valid.{IsDaemon}
use socket.Message.{path_order, resv_order}
use socket.Packet.{Packet, Datagram}
use socket.Session.Chain.{Cells, Chain, frame}
use socket.Timer.{expired, path_timer_handler, resv_timer_handler}
use socket.Timer.Path.{is_doomed, PathWalked, PathRuns}
use socket.Timer.PathWalk.{path_timer_handler_lem}
use socket.Timer.Purge.{Without}
use socket.Timer.Resv.{Visit, visits}
use socket.Timer.ResvWalk.{ResvRuns}
use socket.Timer.ResvTimer.{resv_timer_handler_lem}
use socket.Timer.Walk.{walk_seen, walk_left}

not-fault : {A : Type 0} (a : A) → ok a ≡ fault → ⊥
not-fault a e = cc

-- The daemon is valid, and its Resv table has lost messages at most.
abbrev pub Left : Daemon → Daemon → Type 0
Left d d' =
    IsDaemon d'
    × ((out : ℕ → Bool) × Without out d.router.resv_tree d'.router.resv_tree)
    × (d'.router.labels ≡ d.router.labels)

PathWalked-Left :
    (stack : Packet) (now : ℕ) (d : Daemon) (seen ds : Cells) (d' : Daemon) (gs : List Datagram)
    → (v : IsDaemon d) → PathWalked stack now d [] v.resvs seen ds (d', gs)
    → Left d d'
PathWalked-Left stack now d seen ds d' gs v (t, h, left, without, chain, sub, outside, _) =
    subst (Left d) (sym left) (
      record {
        router = record { paths = v.router.paths; resvs = without.0 };
        paths = v.paths;
        resvs = ds;
        path_chain =
            frame d.heap h d.path_head v.paths v.path_chain (λ a i. outside a (v.apart a i));
        resv_chain = chain;
        apart = λ a i. ground (arith, v.apart a i, sub a);
      },
      (_, without),
      refl,
    )

PathRuns-Left :
    (stack : Packet) (now : ℕ) (d : Daemon) (seen : Cells) (d' : Daemon) (gs : List Datagram)
    (left : Option Cells)
    → (v : IsDaemon d) → PathRuns stack now d [] v.resvs seen left (ok (d', gs))
    → Left d d'
PathRuns-Left stack now d seen d' gs none v runs = absurd (not-fault (d', gs) runs)
PathRuns-Left stack now d seen d' gs (some ds) v walked =
    PathWalked-Left stack now d seen ds d' gs v walked

pub path_timer-Left :
    (fuel : ℕ) (stack : Packet) (now : ℕ) (d d' : Daemon) (gs : List Datagram)
    → IsDaemon d
    → ((cs : Cells) → Chain d.heap d.resv_head cs → length cs < fuel)
    → path_timer_handler fuel stack now d ≡ ok (d', gs)
    → Left d d'
path_timer-Left fuel stack now d d' gs v lt e =
    let seen = walk_seen (is_doomed now) v.resvs in
    let left = walk_left (is_doomed now) v.resvs in
    PathRuns-Left stack now d seen d' gs left v (
      subst (PathRuns stack now d [] v.resvs seen left) e (
        path_timer_handler_lem stack now fuel d v.resvs v.resv_chain (lt v.resvs v.resv_chain)
          v.router.resvs))

ResvRuns-Left :
    (stack : Packet) (now : ℕ) (d : Daemon) (d' : Daemon) (gs : List Datagram) (vs : List Visit)
    (left : Option Cells)
    → (v : IsDaemon d) → ResvRuns stack now d [] v.paths v.resvs vs left (ok (d', gs))
    → Left d d'
ResvRuns-Left stack now d d' gs vs none v runs = absurd (not-fault (d', gs) runs)
ResvRuns-Left stack now d d' gs vs (some ds) v w = (
  record {
    router = record { paths = w.paths.0; resvs = w.resvs.0 };
    paths = ds;
    resvs = w.resv_list;
    path_chain =
        subst (λ p. Chain d'.heap p ds) (ap (λ (y : Daemon). y.path_head) (sym w.rest))
          w.path_chain;
    resv_chain = w.resv_chain;
    apart = λ a i. ground (arith, v.apart a (w.within a i), w.resv_within a);
  },
  (_, w.resvs),
  ap (λ (y : Daemon). y.router.labels) w.rest,
)

pub resv_timer-Left :
    (fuel : ℕ) (stack : Packet) (now : ℕ) (d d' : Daemon) (gs : List Datagram)
    → IsDaemon d
    → ((cs rs : Cells)
        → Chain d.heap d.path_head cs
        → Chain d.heap d.resv_head rs
        → length cs + length rs < fuel)
    → resv_timer_handler fuel stack now d ≡ ok (d', gs)
    → Left d d'
resv_timer-Left fuel stack now d d' gs v lt e =
    let vs = visits now v.paths in
    let left = walk_left (expired now) v.paths in
    ResvRuns-Left stack now d d' gs vs left v (
      subst (ResvRuns stack now d [] v.paths v.resvs vs left) e (
        resv_timer_handler_lem stack now fuel d v.paths v.resvs v.path_chain v.resv_chain v.apart
          v.router.paths v.router.resvs (lt v.paths v.resvs v.path_chain v.resv_chain)))
