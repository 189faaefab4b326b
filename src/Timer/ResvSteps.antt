-- ===== src/Timer/ResvSteps.antt =====
-- The steps of `resv_timer_handler` of timer_event.c from one session of the Path list to the next.
use socket.Base.{
  ℕ, suc, sym, subst, ◌<◌, ◌≤◌, ◌≡◌, ◌≢◌, refl, ap, true, false, Option, none, some, List, [], ◌∷◌,
  ◌++◌, length, append_assoc, arith,
}
use socket.Base.Run.{fault, Returns-eq, Returns-imp}
use socket.Daemon.{Daemon}
use socket.Message.{path_order, resv_order}
use socket.Packet.{Packet}
use socket.Session.{Ptr, nil, Entry, session, delete_session}
use socket.Session.Chain.{Cells, Chain, Apart, entries}
use socket.Session.Delete.{delete_session-last}
use socket.Timer.{expired, resv_expire, resv_timer_loop}
use socket.Timer.Resv.{passed, removed, visits, without_first, resv_less}
use socket.Timer.ResvRounds.{
  resv_timer_loop-passed, resv_timer_loop-removed, resv_timer_loop-fault, ResvRuns-passed,
  ResvRuns-removed,
}
use socket.Timer.ResvWalk.{Stands, ResvRuns, ResvExpired, kept-Apart, resv_expire-ResvExpired}
use socket.Timer.Walk.{keep, behind}

length-entries : (cs : Cells) → length (entries cs) ≡ length cs
length-entries [] = refl
length-entries ((a, e) ∷ cs) = ap suc (length-entries cs)

length-without_first : (k : ℕ) (es : List Entry) → length (without_first k es) ≤ length es
length-without_first k [] = omega arith
length-without_first k (e ∷ es) = ground (arith, length-without_first k es)

length-resv_less : (f : Entry) (es : List Entry) → length (resv_less f es) ≤ length es
length-resv_less f es = ground (arith, length-without_first f.tunnel_id es)

module _ (stack : Packet) (now : ℕ) where
  visits-stays :
      (a : Ptr) (e : Entry) (cs : Cells)
      → expired now e ≡ false
      → visits now ((a, e) ∷ cs) ≡ passed e ∷ visits now cs
  visits-stays a e [] stays = refl
  visits-stays a e (c ∷ cs) stays = rw stays refl

  visits-drops :
      (a : Ptr) (e : Entry) (b : Ptr) (f : Entry) (cs : Cells)
      → expired now e ≡ true
      → visits now ((a, e) ∷ (b, f) ∷ cs) ≡ removed e f ∷ visits now cs
  visits-drops a e b f cs drops = rw drops refl

  -- The walk from the session `temp` on, with `prev` before it.
  abbrev pub Walks : ℕ → Ptr → Ptr → Daemon → Cells → Cells → Cells → Option Cells → Type 0
  Walks fuel temp prev d front cs rs left =
      ResvRuns stack now d front cs rs (visits now cs) left
        (resv_timer_loop fuel stack now temp prev d)

  pub next_Stands :
      (d : Daemon) (front : Cells) (a n : Ptr) (e : Entry) (cs rs : Cells)
      → Stands d front ((a, e) ∷ cs) rs a
      → Chain d.heap n cs
      → Stands d (front ++ (a, e) ∷ []) cs rs n
  next_Stands d front a n e cs rs s rest = record {
    whole = behind d.heap d.path_head front (a, e) cs s.whole;
    here = rest;
    other = s.other;
    apart = subst (λ ys. Apart ys rs) (sym (append_assoc front ((a, e) ∷ []) cs)) s.apart;
    paths = s.paths;
    resvs = s.resvs;
  }

  -- The session that a walk stands at.
  pub standing :
      (d : Daemon) (front : Cells) (a : Ptr) (e : Entry) (cs rs : Cells) (temp : Ptr)
      → Stands d front ((a, e) ∷ cs) rs temp
      → (a ≢ nil)
        × ((n : Ptr) × (d.heap a ≡ some (session e n)) × Chain d.heap n cs)
        × Stands d front ((a, e) ∷ cs) rs a
  standing d front a e cs rs temp s =
      let (here, real, fresh, rest) = s.here in
      (
        real,
        rest,
        record {
          whole = s.whole;
          here = (refl, real, fresh, rest);
          other = s.other;
          apart = s.apart;
          paths = s.paths;
          resvs = s.resvs;
        },
      )

  pub Walks-stays :
      (fuel : ℕ) (a prev n : Ptr) (e : Entry) (d : Daemon) (front cs rs : Cells)
      (left : Option Cells)
      → a ≢ nil
      → d.heap a ≡ some (session e n)
      → expired now e ≡ false
      → Walks fuel n a d (front ++ (a, e) ∷ []) cs rs left
      → Walks (suc fuel) a prev d front ((a, e) ∷ cs) rs (keep (a, e) left)
  Walks-stays fuel a prev n e d front cs rs left real holds stays rest =
      rw
        (
          visits-stays a e cs stays,
          resv_timer_loop-passed stack now fuel a prev n e d real holds stays,
        )
        (ResvRuns-passed stack now d front cs rs (visits now cs) a e left
          (resv_timer_loop fuel stack now n a d) rest)

  ResvExpired-Stands :
      (d d1 : Daemon) (front : Cells) (a b : Ptr) (e f : Entry) (cs rs : Cells)
      → Stands d front ((a, e) ∷ (b, f) ∷ cs) rs a
      → (x : ResvExpired d front a e b f cs rs d1) → Stands d1 front ((a, f) ∷ cs) x.resv_list a
  ResvExpired-Stands d d1 front a b e f cs rs s x = record {
    whole =
        subst (λ p. Chain d1.heap p (front ++ (a, f) ∷ cs))
          (ap (λ (y : Daemon). y.path_head) (sym x.rest)) x.whole;
    here = x.here;
    other = x.resv_chain;
    apart = λ c i. ground (arith, kept-Apart d front a e b f cs rs s.apart c i, x.resv_within c);
    paths = x.paths.0;
    resvs = x.resvs.0;
  }

  pub Walks-drops :
      (fuel : ℕ) (a q b : Ptr) (d0 e f : Entry) (d : Daemon) (zs cs rs : Cells)
      (left : Option Cells)
      → Stands d (zs ++ (q, d0) ∷ []) ((a, e) ∷ (b, f) ∷ cs) rs a
      → length rs < fuel
      → expired now e ≡ true
      → ((d1 : Daemon) (n : Ptr) (rs' : Cells)
          → length rs' ≤ length rs
          → Stands d1 ((zs ++ (q, d0) ∷ []) ++ (a, f) ∷ []) cs rs' n
          → Walks fuel n a d1 ((zs ++ (q, d0) ∷ []) ++ (a, f) ∷ []) cs rs' left)
      → Walks (suc fuel) a q d (zs ++ (q, d0) ∷ []) ((a, e) ∷ (b, f) ∷ cs) rs (keep (a, f) left)
  Walks-drops fuel a q b d0 e f d zs cs rs left s lt drops rest =
      let front = zs ++ (q, d0) ∷ [] in
      let (_, real, _, (n, holds, _)) = s.here in
      let (d1, returned, x) =
        Returns-eq (ResvExpired d front a e b f cs rs) (resv_expire fuel a q e d)
          (resv_expire-ResvExpired fuel a q b d0 e f d zs cs rs s lt) in
      let (_, _, _, (m, again, after)) = x.here in
      let shorter : length x.resv_list ≤ length rs = ground (
        arith,
        length-entries x.resv_list,
        length-entries rs,
        ap length x.resv_entries,
        length-resv_less f (entries rs),
      ) in
      rw
        (
          visits-drops a e b f cs drops,
          resv_timer_loop-removed stack now fuel a q n m e f d d1 real holds drops returned again,
        )
        (ResvRuns-removed stack now d d1 front cs rs (visits now cs) a b e f left
          (resv_timer_loop fuel stack now m a d1) x
          (rest d1 m x.resv_list shorter (
            next_Stands d1 front a m f cs x.resv_list
              (ResvExpired-Stands d d1 front a b e f cs rs s x) after)))

  pub Walks-last :
      (fuel : ℕ) (a q : Ptr) (d0 e : Entry) (d : Daemon) (zs rs : Cells)
      → Stands d (zs ++ (q, d0) ∷ []) ((a, e) ∷ []) rs a
      → expired now e ≡ true
      → resv_timer_loop (suc fuel) stack now a q d ≡ fault
  Walks-last fuel a q d0 e d zs rs s drops =
      let (_, real, _, (n, holds, _)) = s.here in
      resv_timer_loop-fault stack now fuel a q n e d real holds drops s.paths (
        Returns-imp _ (λ (r, h). h a ≡ none) (delete_session d.path_head a q d.heap)
          (delete_session-last d.heap d.path_head q a zs d0 e (
            subst (Chain d.heap d.path_head) (append_assoc zs ((q, d0) ∷ []) ((a, e) ∷ []))
              s.whole))
          (λ (r, h) (_, freed, _). freed))
