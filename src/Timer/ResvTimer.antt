-- ===== src/Timer/ResvTimer.antt =====
-- `resv_timer_handler` of timer_event.c: the whole walk along the Path list.
use socket.Base.{
  ℕ, zero, suc, sym, subst, ◌<◌, ◌+◌, ◌≡◌, refl, none, some, [], ◌∷◌, ◌++◌, inl, inr, Bool-cases,
  length, arith,
}
use socket.Base.Run.{Returns, Returns-imp}
use socket.Daemon.{Daemon}
use socket.Message.{path_order, resv_order}
use socket.Packet.{Packet}
use socket.Session.{Ptr, nil, Entry, delete_session}
use socket.Session.Chain.{Cells, Chain, Apart}
use socket.Session.Delete.{delete_session-head}
use socket.Timer.{expired, resv_timer_loop, resv_timer_handler}
use socket.Timer.Purge.{Without-none}
use socket.Timer.Resv.{visits}
use socket.Timer.ResvRounds.{resv_timer_loop-fault}
use socket.Timer.ResvWalk.{Stands, ResvRuns}
use socket.Timer.Walk.{walk_kept, walk_left, kept-stays, kept-drops}
use socket.Tree.Refines.{IsTable}
use socket.Timer.ResvSteps.{Walks, standing, next_Stands, Walks-stays, Walks-drops, Walks-last}

module _ (stack : Packet) (now : ℕ) where
  resv_timer_loop-end :
      (fuel : ℕ) (temp prev : Ptr) (d : Daemon) (front rs : Cells)
      → Stands d front [] rs temp
      → Walks stack now (suc fuel) temp prev d front [] rs (some [])
  unfolding resv_timer_loop
  resv_timer_loop-end fuel temp prev d front rs s = rw s.here (record {
    paths = Without-none d.router.path_tree s.paths;
    resvs = Without-none d.router.resv_tree s.resvs;
    rest = refl;
    path_chain = s.whole;
    within = λ a i. i;
    resv_list = rs;
    resv_chain = s.other;
    resv_entries = refl;
    resv_within = λ a i. i;
    outside = λ a out out'. refl;
    sent = refl;
  })

  -- The walk from a session that has `(q, d0)` before it.
  resv_timer_loop-runs :
      (fuel : ℕ) (temp q : Ptr) (d0 : Entry) (d : Daemon) (zs cs rs : Cells)
      → Stands d (zs ++ (q, d0) ∷ []) cs rs temp
      → length cs + length rs < fuel
      → Walks stack now fuel temp q d (zs ++ (q, d0) ∷ []) cs rs (walk_kept (expired now) cs)
  resv_timer_loop-runs zero temp q d0 d zs cs rs s lt = absurd (omega arith)
  resv_timer_loop-runs (suc fuel) temp q d0 d zs [] rs s lt =
      resv_timer_loop-end fuel temp q d (zs ++ (q, d0) ∷ []) rs s
  resv_timer_loop-runs (suc fuel) temp q d0 d zs ((a, e) ∷ []) rs s lt =
      let front = zs ++ (q, d0) ∷ [] in
      let (real, (n, holds, rest), at) = standing stack now d front a e [] rs temp s in
      rw s.here.0 (elim (Bool-cases (expired now e)) [
        | inl drops ↦ rw drops (Walks-last stack now fuel a q d0 e d zs rs at drops)
        | inr stays ↦ rw (kept-stays (expired now) a e [] stays) (
            Walks-stays stack now fuel a q n e d front [] rs (some []) real holds stays (
              resv_timer_loop-runs fuel n a e d front [] rs
                (next_Stands stack now d front a n e [] rs at rest) (omega arith)))
      ])
  resv_timer_loop-runs (suc fuel) temp q d0 d zs ((a, e) ∷ (b, f) ∷ cs) rs s lt =
      let front = zs ++ (q, d0) ∷ [] in
      let (real, (n, holds, rest), at) = standing stack now d front a e ((b, f) ∷ cs) rs temp s in
      rw s.here.0 (elim (Bool-cases (expired now e)) [
        | inl drops ↦ rw (kept-drops (expired now) a e b f cs drops) (
            Walks-drops stack now fuel a q b d0 e f d zs cs rs (walk_kept (expired now) cs) at
              (omega arith) drops
              (λ d1 m rs' shorter s'.
                resv_timer_loop-runs fuel m a f d1 front cs rs' s' (omega arith)))
        | inr stays ↦ rw (kept-stays (expired now) a e ((b, f) ∷ cs) stays) (
            Walks-stays stack now fuel a q n e d front ((b, f) ∷ cs) rs
              (walk_kept (expired now) ((b, f) ∷ cs)) real holds stays
              (resv_timer_loop-runs fuel n a e d front ((b, f) ∷ cs) rs
                (next_Stands stack now d front a n e ((b, f) ∷ cs) rs at rest) (omega arith)))
      ])

  -- The walk from the first session.
  resv_timer_loop-first :
      (fuel : ℕ) (temp a : Ptr) (e : Entry) (d : Daemon) (cs rs : Cells)
      → Stands d [] ((a, e) ∷ cs) rs temp
      → length cs + length rs < fuel
      → Walks stack now
          (suc fuel)
          temp
          nil
          d
          []
          ((a, e) ∷ cs)
          rs
          (walk_left (expired now) ((a, e) ∷ cs))
  resv_timer_loop-first fuel temp a e d cs rs s lt =
      let (real, (n, holds, rest), at) = standing stack now d [] a e cs rs temp s in
      let (here, _, fresh, _) = at.whole in
      rw s.here.0 (elim (Bool-cases (expired now e)) [
        | inl drops ↦ rw drops (
            resv_timer_loop-fault stack now fuel a nil n e d real holds drops s.paths (
              subst (λ p. Returns (λ (r, h). h a ≡ none) (delete_session p a nil d.heap)) (sym here)
                (Returns-imp _ (λ (r, h). h a ≡ none) (delete_session a a nil d.heap)
                  (delete_session-head d.heap a nil e cs (refl, real, fresh, (n, holds, rest)))
                  (λ (r, h) (_, freed, _). freed))))
        | inr stays ↦ rw stays (
            Walks-stays stack now fuel a nil n e d [] cs rs (walk_kept (expired now) cs) real holds
              stays
              (resv_timer_loop-runs fuel n a e d [] cs rs
                (next_Stands stack now d [] a n e cs rs at rest) lt))
      ])

  -- On valid tables and two lists without a session in common, with fuel beyond both lists together,
  -- `resv_timer_handler` ends in a fault where `walk_left` has no list: an expired session is deleted
  -- that is the first one or, when the walk comes to it, the last one. Otherwise it returns, and that
  -- list is the new Path list. The Path table is valid and has lost the messages of the tunnels of
  -- the deleted sessions and no other. For each deleted session whose successor is at the end of its
  -- tunnel, the Resv table has lost the message of the successor's tunnel, and the Resv list the first
  -- session of that tunnel, and no others. The Resv message of each session that the walk goes past is
  -- sent, if there still is one, where the session is at the end of its tunnel and silent for 30
  -- seconds or more, in the order of the list. The rest of the state, and the heap outside of the two
  -- lists, are as before.
  pub resv_timer_handler_lem :
      (fuel : ℕ) (d : Daemon) (cs rs : Cells)
      → Chain d.heap d.path_head cs
      → Chain d.heap d.resv_head rs
      → Apart cs rs
      → IsTable d.router.path_tree
      → IsTable d.router.resv_tree
      → length cs + length rs < fuel
      → ResvRuns stack now d [] cs rs
          (visits now cs)
          (walk_left (expired now) cs)
          (resv_timer_handler fuel stack now d)
  unfolding resv_timer_handler
  resv_timer_handler_lem zero d cs rs c r apart v w lt = absurd (omega arith)
  resv_timer_handler_lem (suc fuel) d [] rs c r apart v w lt =
      resv_timer_loop-end fuel d.path_head nil d [] rs
        (record { whole = c; here = c; other = r; apart = apart; paths = v; resvs = w })
  resv_timer_handler_lem (suc fuel) d ((a, e) ∷ cs) rs c r apart v w lt =
      resv_timer_loop-first fuel d.path_head a e d cs rs
        (record { whole = c; here = c; other = r; apart = apart; paths = v; resvs = w })
        (omega arith)
