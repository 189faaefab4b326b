-- ===== src/Timer/ResvRounds.antt =====
-- The walk of `resv_timer_handler` of timer_event.c along the Path list.
use mathlib.Core.Path.{fun_ext}
use socket.Base.{
  ℕ, suc, subst, ◌+◌, ltb, ◌≡◌, ◌≢◌, refl, ◌∙◌, ap, true, false, Option, Option-cases, none, some,
  List, [], ◌∷◌, ◌++◌, ◌==◌, if◌then◌else◌, inl, inr, Bool-cases, append_assoc, arith,
}
use socket.Base.Run.{Run, ok, fault, ◌>>=◌, Returns, Returns-eq, Returns-bind}
use socket.Daemon.{Daemon}
use socket.Message.{path_order, resv_order}
use socket.Packet.{Packet, Datagram}
use socket.Packet.Resv.{send_resv_message}
use socket.Packet.ResvInsert.{send_resv_message_lem, send_resv_message-absent}
use socket.Session.{Ptr, nil, Entry, session, load, delete_session}
use socket.Session.Chain.{Cells, Chain, not_nil, load-ok}
use socket.Timer.{expired, interval, prepend, purge, resv_drop, resv_expire, resv_timer_loop}
use socket.Timer.Purge.{Without-trans, purge_lem}
use socket.Timer.Resv.{
  Visit, passed, removed, path_out, resv_out, drops_resv, resvs_after, is_due, answered,
  resv_datagram, find_in,
}
use socket.Timer.ResvWalk.{with_tables, ResvWalked, ResvRuns, ResvExpired}
use socket.Timer.Walk.{keep}
use socket.Tree.{search_node}
use socket.Tree.Refines.{IsTable}
use socket.Tree.Search.{data_of}

module _ (stack : Packet) (now : ℕ) where
  -- What a session that is not expired makes the handler send.
  abbrev sends : Daemon → Entry → Option Datagram
  sends d e = if is_due now e then send_resv_message stack d.router.resv_tree e.tunnel_id else none

  sends_lem :
      (d : Daemon) (e : Entry)
      → sends d e ≡ (
          if is_due now e
          then resv_datagram stack (find_in d.router.resv_tree e.tunnel_id)
          else none)
  sends_lem d e = elim (Option-cases (data_of (search_node d.router.resv_tree e.tunnel_id))) [
    | inl absent ↦
        rw (absent, send_resv_message-absent stack d.router.resv_tree e.tunnel_id absent) refl
    | inr (p, found) ↦
        rw (found, send_resv_message_lem stack d.router.resv_tree e.tunnel_id p found) refl
  ]

  pub resv_timer_loop-passed :
      (fuel : ℕ) (temp prev n : Ptr) (e : Entry) (d : Daemon)
      → temp ≢ nil
      → d.heap temp ≡ some (session e n)
      → expired now e ≡ false
      → resv_timer_loop (suc fuel) stack now temp prev d ≡ (
          resv_timer_loop fuel stack now n temp d >>= λ (d', more).
          ok (d', prepend (sends d e) more))
  unfolding resv_timer_loop
  resv_timer_loop-passed fuel temp prev n e d real holds fresh =
      rw
        (
          not_nil d.heap temp (session e n) real holds,
          load-ok d.heap temp (session e n) real holds,
          fresh,
          load-ok d.heap temp (session e n) real holds,
        )
        (elim (Bool-cases (ltb now (e.last_path_time + interval))) [
          | inl soon ↦ rw soon refl
          | inr late ↦ rw late (elim (Bool-cases (e.dest == 0)) [
            | inl between ↦ rw between refl
            | inr last ↦ rw last refl
          ])
        ])

  pub resv_timer_loop-removed :
      (fuel : ℕ) (temp prev n m : Ptr) (e f : Entry) (d d' : Daemon)
      → temp ≢ nil
      → d.heap temp ≡ some (session e n)
      → expired now e ≡ true
      → resv_expire fuel temp prev e d ≡ ok d'
      → d'.heap temp ≡ some (session f m)
      → resv_timer_loop (suc fuel) stack now temp prev d
        ≡ (resv_timer_loop fuel stack now m temp d' >>= λ (d'', more). ok (d'', more))
  unfolding resv_timer_loop
  resv_timer_loop-removed fuel temp prev n m e f d d' real holds old returned again =
      rw
        (
          not_nil d.heap temp (session e n) real holds,
          load-ok d.heap temp (session e n) real holds,
          old,
          returned,
          load-ok d'.heap temp (session f m) real again,
        )
        refl

  -- A deletion that frees the session itself ends in a fault.
  pub resv_timer_loop-fault :
      (fuel : ℕ) (temp prev n : Ptr) (e : Entry) (d : Daemon)
      → temp ≢ nil
      → d.heap temp ≡ some (session e n)
      → expired now e ≡ true
      → IsTable d.router.path_tree
      → Returns (λ (r, h). h temp ≡ none) (delete_session d.path_head temp prev d.heap)
      → resv_timer_loop (suc fuel) stack now temp prev d ≡ fault
  unfolding resv_timer_loop resv_expire resv_drop load
  resv_timer_loop-fault fuel temp prev n e d real holds old v deletes =
      let (t, purged, _) =
        Returns-eq _ (purge d.router.path_tree e.tunnel_id)
          (purge_lem d.router.path_tree e.tunnel_id v) in
      let ((r, h), deleted, freed) =
        Returns-eq (λ (r, h). h temp ≡ none) (delete_session d.path_head temp prev d.heap)
          deletes in
      rw (not_nil d.heap temp (session e n) real holds, holds, old, purged, deleted, freed) refl

  -- A walk that goes on behind a session, put together with what was done there.
  pub ResvRuns-passed :
      (d : Daemon) (front cs rs : Cells) (vs : List Visit) (a : Ptr) (e : Entry)
      (left : Option Cells) (r : Run (Daemon × List Datagram))
      → ResvRuns stack now d (front ++ (a, e) ∷ []) cs rs vs left r
      → ResvRuns stack now d front
          ((a, e) ∷ cs)
          rs
          (passed e ∷ vs)
          (keep (a, e) left)
          (r >>= λ (d', more). ok (d', prepend (sends d e) more))
  ResvRuns-passed d front cs rs vs a e none r runs = rw runs refl
  ResvRuns-passed d front cs rs vs a e (some ds) r runs =
      Returns-bind (λ (d', gs). ResvWalked stack now d (front ++ (a, e) ∷ []) cs rs vs ds d' gs)
        (λ (d', gs).
          ResvWalked stack now d front ((a, e) ∷ cs) rs (passed e ∷ vs) ((a, e) ∷ ds) d' gs)
        r (λ (d', more). ok (d', prepend (sends d e) more)) runs
        (λ (d', more) w. record {
          paths = w.paths;
          resvs = w.resvs;
          rest = w.rest;
          path_chain =
              subst (Chain d'.heap d.path_head) (append_assoc front ((a, e) ∷ []) ds) w.path_chain;
          within = λ b i. ground (arith, w.within b);
          resv_list = w.resv_list;
          resv_chain = w.resv_chain;
          resv_entries = w.resv_entries;
          resv_within = w.resv_within;
          outside = λ b out out'. w.outside b (ground arith) out';
          sent =
              ap (prepend (sends d e)) w.sent
              ∙ ap (λ g. prepend g (answered stack now (find_in d.router.resv_tree) vs))
                  (sends_lem d e);
        })

  pub ResvRuns-removed :
      (d d1 : Daemon) (front cs rs : Cells) (vs : List Visit) (a b : Ptr) (e f : Entry)
      (left : Option Cells) (r : Run (Daemon × List Datagram))
      → (x : ResvExpired d front a e b f cs rs d1)
      → ResvRuns stack now d1 (front ++ (a, f) ∷ []) cs x.resv_list vs left r
      → ResvRuns stack now d front
          ((a, e) ∷ (b, f) ∷ cs)
          rs
          (removed e f ∷ vs)
          (keep (a, f) left)
          (r >>= λ (d', more). ok (d', more))
  ResvRuns-removed d d1 front cs rs vs a b e f none r x runs = rw runs refl
  ResvRuns-removed d d1 front cs rs vs a b e f (some ds) r x runs =
      Returns-bind
        (λ (d', gs). ResvWalked stack now d1 (front ++ (a, f) ∷ []) cs x.resv_list vs ds d' gs)
        (λ (d', gs).
          ResvWalked stack now d front ((a, e) ∷ (b, f) ∷ cs) rs (removed e f ∷ vs) ((a, f) ∷ ds) d'
            gs)
        r (λ (d', more). ok (d', more)) runs
        (λ (d', more) w. record {
          paths =
              Without-trans (λ j. j == e.tunnel_id) (path_out vs) d.router.path_tree
                d1.router.path_tree d'.router.path_tree x.paths w.paths;
          resvs =
              Without-trans (drops_resv f) (resv_out vs) d.router.resv_tree d1.router.resv_tree
                d'.router.resv_tree x.resvs w.resvs;
          rest =
              w.rest
              ∙ ap
                  (λ (y : Daemon).
                    with_tables y d'.router.path_tree d'.router.resv_tree d'.resv_head d'.heap)
                  x.rest;
          path_chain =
              subst (λ p. Chain d'.heap p (front ++ (a, f) ∷ ds))
                (ap (λ (y : Daemon). y.path_head) x.rest)
                (subst (Chain d'.heap d1.path_head) (append_assoc front ((a, f) ∷ []) ds)
                  w.path_chain);
          within = λ c i. ground (arith, w.within c);
          resv_list = w.resv_list;
          resv_chain = w.resv_chain;
          resv_entries = w.resv_entries ∙ ap (resvs_after vs) x.resv_entries;
          resv_within = λ c i. x.resv_within c (w.resv_within c i);
          outside = λ c out out'.
              w.outside c (ground arith) (ground (arith, x.resv_within c)) ∙ x.outside c out out';
          sent = w.sent ∙ ap (λ g. answered stack now g vs) (fun_ext x.resvs.1);
        })
