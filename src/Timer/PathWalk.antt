-- ===== src/Timer/PathWalk.antt =====
-- The walk of `path_timer_handler` of timer_event.c along the Resv list.
use socket.Base.{
  ℕ, zero, suc, sym, subst, ◌<◌, ◌≡◌, refl, none, some, [], ◌∷◌, ◌++◌, inl, inr, Bool-cases, length,
  append-nil, arith,
}
use socket.Base.Run.{Returns, Returns-imp}
use socket.Daemon.{Daemon}
use socket.Message.{path_order, resv_order}
use socket.Packet.{Packet}
use socket.Session.{Ptr, nil, Entry, delete_session}
use socket.Session.Chain.{Cells, Chain}
use socket.Session.Delete.{delete_session-head}
use socket.Timer.{path_timer_loop, path_timer_handler}
use socket.Timer.Path.{with_resv_side, is_doomed, PathRuns, path_timer_loop-fault}
use socket.Timer.Purge.{Without-none}
use socket.Timer.Walk.{walk_seen, walk_kept, walk_left, kept-stays, kept-drops, behind}
use socket.Tree.Refines.{IsTable}
use socket.Timer.PathSteps.{Walks, Walks-stays, Walks-drops, Walks-last}

module _ (stack : Packet) (now : ℕ) where
  -- The walk from a session that has `(q, d0)` before it.
  path_timer_loop-runs :
      (fuel : ℕ) (temp q : Ptr) (d0 : Entry) (d : Daemon) (zs cs : Cells)
      → Chain d.heap d.resv_head (zs ++ (q, d0) ∷ cs)
      → Chain d.heap temp cs
      → length cs < fuel
      → IsTable d.router.resv_tree
      → Walks stack now fuel temp q d (zs ++ (q, d0) ∷ []) cs (walk_kept (is_doomed now) cs)
  unfolding path_timer_loop
  path_timer_loop-runs zero temp q d0 d zs cs whole c lt v = absurd (omega arith)
  path_timer_loop-runs (suc fuel) temp q d0 d zs [] whole c lt v = rw c (
    d.router.resv_tree,
    d.heap,
    refl,
    Without-none d.router.resv_tree v,
    subst (Chain d.heap d.resv_head) (sym (append-nil (zs ++ (q, d0) ∷ []))) whole,
    (λ a i. i),
    (λ a out. refl),
    refl,
  )
  path_timer_loop-runs (suc fuel) temp q d0 d zs ((a, e) ∷ []) whole
        (here, real, fresh, (n, holds, rest)) lt v =
      rw here (elim (Bool-cases (is_doomed now e)) [
        | inl doomed ↦ rw doomed (Walks-last stack now fuel a q d0 e d zs whole doomed v)
        | inr stays ↦ rw (kept-stays (is_doomed now) a e [] stays) (
            Walks-stays stack now fuel a q n e d (zs ++ (q, d0) ∷ []) [] (some []) real holds stays
              v
              (λ t w.
                path_timer_loop-runs fuel n a e (with_resv_side d t d.heap) (zs ++ (q, d0) ∷ []) []
                  (behind d.heap d.resv_head zs (q, d0) ((a, e) ∷ []) whole) rest (omega arith) w))
      ])
  path_timer_loop-runs (suc fuel) temp q d0 d zs ((a, e) ∷ (b, f) ∷ cs) whole
        (here, real, fresh, (n, holds, rest)) lt v =
      rw here (elim (Bool-cases (is_doomed now e)) [
        | inl doomed ↦ rw (kept-drops (is_doomed now) a e b f cs doomed) (
            Walks-drops stack now fuel a q b d0 e f d zs cs (walk_kept (is_doomed now) cs) whole
              doomed v
              (λ t h m w chain after.
                path_timer_loop-runs fuel m a f (with_resv_side d t h) (zs ++ (q, d0) ∷ []) cs
                  (behind h d.resv_head zs (q, d0) ((a, f) ∷ cs) chain) after (omega arith) w))
        | inr stays ↦ rw (kept-stays (is_doomed now) a e ((b, f) ∷ cs) stays) (
            Walks-stays stack now fuel a q n e d (zs ++ (q, d0) ∷ []) ((b, f) ∷ cs)
              (walk_kept (is_doomed now) ((b, f) ∷ cs)) real holds stays v
              (λ t w.
                path_timer_loop-runs fuel n a e (with_resv_side d t d.heap) (zs ++ (q, d0) ∷ [])
                  ((b, f) ∷ cs) (behind d.heap d.resv_head zs (q, d0) ((a, e) ∷ (b, f) ∷ cs) whole)
                  rest (omega arith) w))
      ])

  -- The walk from the first session.
  path_timer_loop-first :
      (fuel : ℕ) (a : Ptr) (e : Entry) (d : Daemon) (cs : Cells)
      → Chain d.heap d.resv_head ((a, e) ∷ cs)
      → length cs < fuel
      → IsTable d.router.resv_tree
      → Walks stack now
          (suc fuel)
          a
          nil
          d
          []
          ((a, e) ∷ cs)
          (walk_left (is_doomed now) ((a, e) ∷ cs))
  path_timer_loop-first fuel a e d cs c lt v =
      let (here, real, fresh, (n, holds, rest)) = c in
      elim (Bool-cases (is_doomed now e)) [
        | inl doomed ↦ rw doomed (
            path_timer_loop-fault stack now fuel a nil n e d real holds doomed v (
              subst (λ p. Returns (λ (r, h). h a ≡ none) (delete_session p a nil d.heap)) (sym here)
                (Returns-imp _ (λ (r, h). h a ≡ none) (delete_session a a nil d.heap)
                  (delete_session-head d.heap a nil e cs (refl, real, fresh, (n, holds, rest)))
                  (λ (r, h) (_, freed, _). freed))))
        | inr stays ↦ rw stays (
            Walks-stays stack now fuel a nil n e d [] cs (walk_kept (is_doomed now) cs) real holds
              stays v
              (λ t w.
                path_timer_loop-runs fuel n a e (with_resv_side d t d.heap) [] cs c rest lt w))
      ]

  -- On a valid Resv table, with fuel beyond the length of the Resv list, `path_timer_handler` ends in
  -- a fault where `walk_left` has no list: an expired session that is marked or not at the end of its
  -- tunnel is deleted, and it is the first one or, when the walk comes to it, the last one.
  -- Otherwise it returns, and that list is the new Resv list. The Path message of each live session
  -- that it looks at is sent, if there is one, in the order of the list; the Resv table is valid and
  -- has lost the messages of the tunnels of the expired sessions that it looks at and no other; the
  -- rest of the state, and the heap outside of the list, are as before.
  pub path_timer_handler_lem :
      (fuel : ℕ) (d : Daemon) (cs : Cells)
      → Chain d.heap d.resv_head cs
      → length cs < fuel
      → IsTable d.router.resv_tree
      → PathRuns stack now d [] cs
          (walk_seen (is_doomed now) cs)
          (walk_left (is_doomed now) cs)
          (path_timer_handler fuel stack now d)
  unfolding path_timer_handler path_timer_loop
  path_timer_handler_lem zero d cs c lt v = absurd (omega arith)
  path_timer_handler_lem (suc fuel) d [] c lt v = rw c (
    d.router.resv_tree,
    d.heap,
    refl,
    Without-none d.router.resv_tree v,
    refl,
    (λ a i. i),
    (λ a out. refl),
    refl,
  )
  path_timer_handler_lem (suc fuel) d ((a, e) ∷ cs) c lt v =
      subst
        (λ p.
          PathRuns stack now d [] ((a, e) ∷ cs) (walk_seen (is_doomed now) ((a, e) ∷ cs))
            (walk_left (is_doomed now) ((a, e) ∷ cs))
            (path_timer_loop (suc fuel) stack now p nil d))
        (sym c.0) (path_timer_loop-first fuel a e d cs c (omega arith) v)
