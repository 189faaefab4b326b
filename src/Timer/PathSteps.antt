-- ===== src/Timer/PathSteps.antt =====
-- The steps of `path_timer_handler` of timer_event.c from one session of the Resv list to the next.
use socket.Base.{
  ℕ, suc, subst, ◌≡◌, ◌≢◌, refl, ◌∙◌, ap, true, false, none, some, Option, List, [], ◌∷◌, ◌++◌,
  ◌==◌, ◌&&◌, if◌then◌else◌, append_assoc, arith,
}
use socket.Base.Run.{Run, ok, fault, ◌>>=◌, Returns-bind, Returns-imp}
use socket.Daemon.{Daemon}
use socket.Message.{ResvMsg, path_order, resv_order}
use socket.Packet.{Packet, Datagram}
use socket.Packet.Path.{send_path_message}
use socket.Session.{Ptr, nil, Entry, Heap, session, delete_session}
use socket.Session.Chain.{Cells, Chain, Outside, has}
use socket.Session.Delete.{delete_session-last, delete_session-inner}
use socket.Session.Split.{part}
use socket.Timer.{expired, is_live, prepend, path_expire, path_timer_loop}
use socket.Timer.Path.{
  with_resv_side, is_doomed, PathWalked, PathRuns, path_expire-stays, path_expire-deletes,
  path_timer_loop-step, path_timer_loop-fault, resent-cons,
}
use socket.Timer.Purge.{Without, Without-trans}
use socket.Timer.Walk.{keep, walk_seen, seen-stays, behind}
use socket.Tree.{Tree}
use socket.Tree.Refines.{IsTable}

module _ (stack : Packet) (now : ℕ) where
  -- A walk that goes on behind a session, put together with what was done there.
  PathRuns-cons :
      (d : Daemon) (t : Tree ResvMsg) (h : Heap) (front cs cs' seen : Cells) (a : Ptr) (e f : Entry)
      (left : Option Cells) (r : Run (Daemon × List Datagram))
      → Without (λ j. expired now e && j == e.tunnel_id) d.router.resv_tree t
      → Outside ((a, e) ∷ cs) d.heap h
      → ((b : Ptr) → has b cs' ≡ true → has b cs ≡ true)
      → PathRuns stack now (with_resv_side d t h) (front ++ (a, f) ∷ []) cs' seen left r
      → PathRuns stack now d front ((a, e) ∷ cs) ((a, e) ∷ seen) (keep (a, f) left) (
          r >>= λ (d', more). ok (
            d',
            prepend
                (if is_live e then send_path_message stack d.router.path_tree e.tunnel_id else none)
                more,
          ))
  PathRuns-cons d t h front cs cs' seen a e f none r without outside sub runs = rw runs refl
  PathRuns-cons d t h front cs cs' seen a e f (some ds) r without outside sub runs =
      let sent =
        if is_live e then send_path_message stack d.router.path_tree e.tunnel_id else none in
      Returns-bind (PathWalked stack now (with_resv_side d t h) (front ++ (a, f) ∷ []) cs' seen ds)
        (PathWalked stack now d front ((a, e) ∷ cs) ((a, e) ∷ seen) ((a, f) ∷ ds)) r
        (λ (d', more). ok (d', prepend sent more)) runs
        (λ (d', more) (t', h', left, without', chain, sub', outside', resends). (
          t',
          h',
          left,
          Without-trans (λ j. expired now e && j == e.tunnel_id) _ d.router.resv_tree t t' without
              without',
          subst (Chain h' d.resv_head) (append_assoc front ((a, f) ∷ []) ds) chain,
          (λ b i. ground (arith, sub b, sub' b)),
          (λ b out. outside' b (ground (arith, sub b)) ∙ outside b out),
          ap (prepend sent) resends ∙ resent-cons stack now a e seen d.router.path_tree,
        ))

  -- The walk from the session `temp` on, with `prev` before it.
  abbrev pub Walks : ℕ → Ptr → Ptr → Daemon → Cells → Cells → Option Cells → Type 0
  Walks fuel temp prev d front cs left =
      PathRuns stack now d front cs (walk_seen (is_doomed now) cs) left
        (path_timer_loop fuel stack now temp prev d)

  pub Walks-stays :
      (fuel : ℕ) (a prev n : Ptr) (e : Entry) (d : Daemon) (front cs : Cells) (left : Option Cells)
      → a ≢ nil
      → d.heap a ≡ some (session e n)
      → is_doomed now e ≡ false
      → IsTable d.router.resv_tree
      → ((t : Tree ResvMsg)
          → IsTable t
          → Walks fuel n a (with_resv_side d t d.heap) (front ++ (a, e) ∷ []) cs left)
      → Walks (suc fuel) a prev d front ((a, e) ∷ cs) (keep (a, e) left)
  Walks-stays fuel a prev n e d front cs left real holds stays v rest =
      let (t, returned, without) = path_expire-stays stack now a prev e d stays v in
      let d' : Daemon = with_resv_side d t d.heap in
      rw
        (
          seen-stays (is_doomed now) a e cs stays,
          path_timer_loop-step stack now fuel a prev n n e e d d' real holds returned holds,
        )
        (PathRuns-cons d t d.heap front cs cs (walk_seen (is_doomed now) cs) a e e left
          (path_timer_loop fuel stack now n a d') without (λ b out. refl) (λ b i. i)
          (rest t without.0))

  pub Walks-last :
      (fuel : ℕ) (a q : Ptr) (d0 e : Entry) (d : Daemon) (zs : Cells)
      → Chain d.heap d.resv_head (zs ++ (q, d0) ∷ (a, e) ∷ [])
      → is_doomed now e ≡ true
      → IsTable d.router.resv_tree
      → path_timer_loop (suc fuel) stack now a q d ≡ fault
  Walks-last fuel a q d0 e d zs c doomed v =
      let (_, _, _, (_, _, (_, real, _, (n, holds, _)))) =
        part d.heap d.resv_head q zs d0 ((a, e) ∷ []) c in
      path_timer_loop-fault stack now fuel a q n e d real holds doomed v (
        Returns-imp _ (λ (r, h). h a ≡ none) (delete_session d.resv_head a q d.heap)
          (delete_session-last d.heap d.resv_head q a zs d0 e c) (λ (r, h) (_, freed, _). freed))

  pub Walks-drops :
      (fuel : ℕ) (a q b : Ptr) (d0 e f : Entry) (d : Daemon) (zs cs : Cells) (left : Option Cells)
      → Chain d.heap d.resv_head (zs ++ (q, d0) ∷ (a, e) ∷ (b, f) ∷ cs)
      → is_doomed now e ≡ true
      → IsTable d.router.resv_tree
      → ((t : Tree ResvMsg) (h : Heap) (n : Ptr)
          → IsTable t
          → Chain h d.resv_head (zs ++ (q, d0) ∷ (a, f) ∷ cs)
          → Chain h n cs
          → Walks fuel n a (with_resv_side d t h) ((zs ++ (q, d0) ∷ []) ++ (a, f) ∷ []) cs left)
      → Walks (suc fuel) a q d (zs ++ (q, d0) ∷ []) ((a, e) ∷ (b, f) ∷ cs) (keep (a, f) left)
  Walks-drops fuel a q b d0 e f d zs cs left c doomed v rest =
      let (_, _, _, (_, _, (_, real, _, (n, holds, _)))) =
        part d.heap d.resv_head q zs d0 ((a, e) ∷ (b, f) ∷ cs) c in
      let (t, r, h, returned, without, (same, (_, _, _, (m, again, behind)), chain, _, outside)) =
        path_expire-deletes stack now a q e d _ doomed v
          (delete_session-inner d.heap d.resv_head q a zs d0 e b f cs c) in
      let d' : Daemon = with_resv_side d t h in
      let expires : path_expire now a q e d ≡ ok d' =
        returned ∙ ap (λ p. ok (record d' { resv_head = p })) same in
      rw (doomed, path_timer_loop-step stack now fuel a q n m e f d d' real holds expires again)
        (PathRuns-cons d t h (zs ++ (q, d0) ∷ []) ((b, f) ∷ cs) cs (walk_seen (is_doomed now) cs) a
          e f left (path_timer_loop fuel stack now m a d') without outside (λ p i. ground arith)
          (rest t h m without.0 (subst (λ p. Chain h p (zs ++ (q, d0) ∷ (a, f) ∷ cs)) same chain)
            behind))
