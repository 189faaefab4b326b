-- ===== src/Timer/ResvWalk.antt =====
-- A session of the Path list that `resv_timer_handler` of timer_event.c deletes.
use socket.Base.{
  ℕ, sym, subst, ◌<◌, ◌≡◌, refl, ◌∙◌, true, false, Option, none, some, List, [], ◌∷◌, ◌++◌, ◌==◌,
  length, append_assoc, arith,
}
use socket.Base.Run.{Run, fault, Returns, Returns-eq, Returns-imp}
use socket.Daemon.{Daemon}
use socket.Message.{PathMsg, ResvMsg, path_order, resv_order}
use socket.Packet.{Packet, Datagram}
use socket.Session.{Ptr, Entry, Heap, delete_session}
use socket.Session.Chain.{Cells, Chain, Outside, Apart, Apart-sym, has, entries, frame}
use socket.Session.Delete.{delete_session-inner}
use socket.Session.Split.{has-append}
use socket.Timer.{purge, resv_drop, resv_expire}
use socket.Timer.Purge.{Without, purge_lem}
use socket.Timer.Resv.{
  Visit, path_out, resv_out, drops_resv, resvs_after, resv_less, answered, find_in, ResvDropped,
  resv_drop-ResvDropped,
}
use socket.Timer.Walk.{behind}
use socket.Tree.{Tree}
use socket.Tree.Refines.{IsTable}

-- The daemon with other tables, another Resv list and another heap.
abbrev pub with_tables : Daemon → Tree PathMsg → Tree ResvMsg → Ptr → Heap → Daemon
with_tables d pt rt r h = record d {
  router = record d.router { path_tree = pt; resv_tree = rt };
  resv_head = r;
  heap = h;
}

-- Where a walk stands: at `temp`, where `cs` begins, with `front` before it. The Resv list is `rs`.
pub record Stands (d : Daemon) (front cs rs : Cells) (temp : Ptr) : Type 0 where
  pub whole : Chain d.heap d.path_head (front ++ cs)
  pub here : Chain d.heap temp cs
  pub other : Chain d.heap d.resv_head rs
  pub apart : Apart (front ++ cs) rs
  pub paths : IsTable d.router.path_tree
  pub resvs : IsTable d.router.resv_tree

-- What a walk over `cs` leaves of the daemon `d`, and what it sends, if it visits `vs` and
-- the sessions `ds` stay.
pub record ResvWalked (stack : Packet) (now : ℕ) (d : Daemon) (front cs rs : Cells)
    (vs : List Visit) (ds : Cells) (d' : Daemon) (gs : List Datagram) : Type 0 where
  pub paths : Without (path_out vs) d.router.path_tree d'.router.path_tree
  pub resvs : Without (resv_out vs) d.router.resv_tree d'.router.resv_tree
  pub rest : d' ≡ with_tables d d'.router.path_tree d'.router.resv_tree d'.resv_head d'.heap
  pub path_chain : Chain d'.heap d.path_head (front ++ ds)
  pub within : (a : Ptr) → has a ds ≡ true → has a cs ≡ true
  pub resv_list : Cells
  pub resv_chain : Chain d'.heap d'.resv_head resv_list
  pub resv_entries : entries resv_list ≡ resvs_after vs (entries rs)
  pub resv_within : (a : Ptr) → has a resv_list ≡ true → has a rs ≡ true
  pub outside : (a : Ptr) → has a cs ≡ false → has a rs ≡ false → d'.heap a ≡ d.heap a
  pub sent : gs ≡ answered stack now (find_in d.router.resv_tree) vs

abbrev pub ResvRuns :
    Packet
    → ℕ
    → Daemon
    → Cells
    → Cells
    → Cells
    → List Visit
    → Option Cells
    → Run (Daemon × List Datagram)
    → Type 0
ResvRuns stack now d front cs rs vs none r = r ≡ fault
ResvRuns stack now d front cs rs vs (some ds) r =
    Returns (λ (d', gs). ResvWalked stack now d front cs rs vs ds d' gs) r

-- The daemon after the session at `a` has been deleted, which now has the contents `f`.
pub record ResvExpired (d : Daemon) (front : Cells) (a : Ptr) (e : Entry) (b : Ptr) (f : Entry)
    (cs rs : Cells) (d' : Daemon) : Type 0 where
  pub paths : Without (λ j. j == e.tunnel_id) d.router.path_tree d'.router.path_tree
  pub resvs : Without (drops_resv f) d.router.resv_tree d'.router.resv_tree
  pub rest : d' ≡ with_tables d d'.router.path_tree d'.router.resv_tree d'.resv_head d'.heap
  pub whole : Chain d'.heap d.path_head (front ++ (a, f) ∷ cs)
  pub here : Chain d'.heap a ((a, f) ∷ cs)
  pub resv_list : Cells
  pub resv_chain : Chain d'.heap d'.resv_head resv_list
  pub resv_entries : entries resv_list ≡ resv_less f (entries rs)
  pub resv_within : (c : Ptr) → has c resv_list ≡ true → has c rs ≡ true
  pub outside :
      (c : Ptr) → has c ((a, e) ∷ (b, f) ∷ cs) ≡ false → has c rs ≡ false → d'.heap c ≡ d.heap c

module _ (d : Daemon) (front : Cells) (a : Ptr) (e : Entry) (b : Ptr) (f : Entry) (cs rs : Cells)
    (apart : Apart (front ++ (a, e) ∷ (b, f) ∷ cs) rs) where
  old_out : (c : Ptr) → has c rs ≡ true → has c ((a, e) ∷ (b, f) ∷ cs) ≡ false
  old_out c i =
      let old = (a, e) ∷ (b, f) ∷ cs in
      let out : has c (front ++ old) ≡ false = Apart-sym (front ++ old) rs apart c i in
      ground (arith, has-append c front old)

  pub kept-Apart : Apart (front ++ (a, f) ∷ cs) rs
  kept-Apart c i =
      apart c (
        ground (arith, has-append c front ((a, f) ∷ cs), has-append c front ((a, e) ∷ (b, f) ∷ cs)))

  -- The Resv side, after the session has left the Path list.
  resv_drop-ResvExpired :
      (fuel : ℕ) (pt : Tree PathMsg) (h : Heap)
      → Without (λ j. j == e.tunnel_id) d.router.path_tree pt
      → IsTable d.router.resv_tree
      → Chain h d.path_head (front ++ (a, f) ∷ cs)
      → Chain h a ((a, f) ∷ cs)
      → Chain d.heap d.resv_head rs
      → Outside ((a, e) ∷ (b, f) ∷ cs) d.heap h
      → length rs < fuel
      → Returns
          (ResvExpired d front a e b f cs rs)
          (resv_drop fuel a (with_tables d pt d.router.resv_tree d.resv_head h))
  resv_drop-ResvExpired fuel pt h without v whole here other outside lt =
      let (_, real, _, (m, holds, _)) = here in
      let d1 : Daemon = with_tables d pt d.router.resv_tree d.resv_head h in
      let still : Chain h d.resv_head rs =
        frame d.heap h d.resv_head rs other (λ c i. outside c (old_out c i)) in
      Returns-imp (ResvDropped d1 f rs) (ResvExpired d front a e b f cs rs) (resv_drop fuel a d1)
        (resv_drop-ResvDropped fuel a m f d1 rs real holds v still lt)
        (λ d' (t, r, g, left, without', (rs', chain, kept, within, outside')).
          subst (ResvExpired d front a e b f cs rs) (sym left) (record {
            paths = without;
            resvs = without';
            rest = refl;
            whole =
                frame h g d.path_head (front ++ (a, f) ∷ cs) whole
                  (λ c i. outside' c (kept-Apart c i));
            here = frame h g a ((a, f) ∷ cs) here (λ c i.
                outside' c (kept-Apart c (ground (arith, has-append c front ((a, f) ∷ cs)))));
            resv_list = rs';
            resv_chain = chain;
            resv_entries = kept;
            resv_within = within;
            outside = λ c out out'. outside' c out' ∙ outside c out;
          }))

pub resv_expire-ResvExpired :
    (fuel : ℕ) (a q b : Ptr) (d0 e f : Entry) (d : Daemon) (zs cs rs : Cells)
    → Stands d (zs ++ (q, d0) ∷ []) ((a, e) ∷ (b, f) ∷ cs) rs a
    → length rs < fuel
    → Returns (ResvExpired d (zs ++ (q, d0) ∷ []) a e b f cs rs) (resv_expire fuel a q e d)
unfolding resv_expire
resv_expire-ResvExpired fuel a q b d0 e f d zs cs rs s lt =
    let old = (a, e) ∷ (b, f) ∷ cs in
    let (pt, purged, without) =
      Returns-eq _ (purge d.router.path_tree e.tunnel_id)
        (purge_lem d.router.path_tree e.tunnel_id s.paths) in
    let ((r, h), deleted, (same, here, chain, _, outside)) =
      Returns-eq _ (delete_session d.path_head a q d.heap) (
        delete_session-inner d.heap d.path_head q a zs d0 e b f cs
          (subst (Chain d.heap d.path_head) (append_assoc zs ((q, d0) ∷ []) old) s.whole)) in
    rw (purged, deleted)
      (subst
        (λ p. Returns (ResvExpired d (zs ++ (q, d0) ∷ []) a e b f cs rs) (
          resv_drop fuel a
            (record d { router = record d.router { path_tree = pt }; path_head = p; heap = h })))
        (sym same)
        (resv_drop-ResvExpired d (zs ++ (q, d0) ∷ []) a e b f cs rs s.apart fuel pt h without
          s.resvs
          (behind h d.path_head zs (q, d0) ((a, f) ∷ cs)
            (subst (λ p. Chain h p (zs ++ (q, d0) ∷ (a, f) ∷ cs)) same chain))
          here s.other outside lt))
