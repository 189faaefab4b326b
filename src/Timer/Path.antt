-- ===== src/Timer/Path.antt =====
-- `path_timer_handler` of timer_event.c: the list that it leaves, and its rounds.
use socket.Base.{
  ℕ, suc, Option-cases, ◌≡◌, ◌≢◌, refl, Bool, true, false, not, Option, none, some, List, [], ◌∷◌,
  ◌++◌, ◌==◌, ◌&&◌, if◌then◌else◌, inl, inr, Bool-cases, arith,
}
use socket.Base.Run.{Run, ok, fault, ◌>>=◌, Returns, Returns-eq}
use socket.Daemon.{Daemon}
use socket.Message.{PathMsg, ResvMsg, path_order, resv_order}
use socket.Packet.{Packet, Datagram, path_packet_size}
use socket.Packet.Path.{fill_path, send_path_message}
use socket.Packet.PathInsert.{send_path_message_lem, send_path_message-absent}
use socket.Session.{Ptr, nil, Entry, Heap, session, load, delete_session}
use socket.Session.Chain.{Cells, Chain, Outside, has, not_nil, load-ok}
use socket.Timer.{expired, is_live, prepend, purge, path_expire, path_timer_loop}
use socket.Timer.Purge.{gone, Without, Without-none, purge_lem}
use socket.Tree.{Tree, search_node}
use socket.Tree.Refines.{IsTable}
use socket.Tree.Search.{data_of}

-- The daemon with another Resv table and another heap.
abbrev pub with_resv_side : Daemon → Tree ResvMsg → Heap → Daemon
with_resv_side d t h = record d { router = record d.router { resv_tree = t }; heap = h }

-- Expired, and marked or not at the end of its tunnel: the session is deleted.
abbrev pub is_doomed : ℕ → Entry → Bool
is_doomed now e = expired now e && not (is_live e)

-- The Path messages of the live sessions, in the order of the list.
abbrev pub resent : Packet → Tree PathMsg → Cells → List Datagram
resent stack paths [] = []
resent stack paths ((a, e) ∷ cs) =
    if is_live e
    then prepend (packet_of (data_of (search_node paths e.tunnel_id))) (resent stack paths cs)
    else resent stack paths cs
  where
    packet_of : Option PathMsg → Option Datagram
    packet_of none = none
    packet_of (some p) =
        some (record { to = p.nexthop_ip; size = path_packet_size; bytes = fill_path p stack })

-- What a walk over `cs`, behind the sessions `front`, leaves of the daemon `d`, and what it sends, if it
-- looks at `seen` and the sessions `ds` stay.
abbrev pub PathWalked :
    Packet → ℕ → Daemon → Cells → Cells → Cells → Cells → Daemon × List Datagram → Type 0
PathWalked stack now d front cs seen ds (d', gs) =
    (t : Tree ResvMsg) × (h : Heap) × (d' ≡ with_resv_side d t h)
    × Without (λ j. gone now j seen) d.router.resv_tree t
    × Chain h d.resv_head (front ++ ds)
    × ((a : Ptr) → has a ds ≡ true → has a cs ≡ true)
    × Outside cs d.heap h
    × (gs ≡ resent stack d.router.path_tree seen)

abbrev pub PathRuns :
    Packet
    → ℕ
    → Daemon
    → Cells
    → Cells
    → Cells
    → Option Cells
    → Run (Daemon × List Datagram)
    → Type 0
PathRuns stack now d front cs seen none r = r ≡ fault
PathRuns stack now d front cs seen (some ds) r = Returns (PathWalked stack now d front cs seen ds) r

module _ (stack : Packet) (now : ℕ) where
  pub path_expire-stays :
      (temp prev : Ptr) (e : Entry) (d : Daemon)
      → is_doomed now e ≡ false
      → IsTable d.router.resv_tree
      → (t : Tree ResvMsg) × (path_expire now temp prev e d ≡ ok (with_resv_side d t d.heap))
        × Without (λ j. expired now e && j == e.tunnel_id) d.router.resv_tree t
  unfolding path_expire
  path_expire-stays temp prev e d stays v = elim (Bool-cases (expired now e)) [
    | inl old ↦
        let (t, returned, without) =
          Returns-eq _ (purge d.router.resv_tree e.tunnel_id)
            (purge_lem d.router.resv_tree e.tunnel_id v) in
        let live : is_live e ≡ true = ground arith in
        (t, rw (old, returned, live) refl, rw old without)
    | inr young ↦ (d.router.resv_tree, rw young refl, rw young (Without-none d.router.resv_tree v))
  ]

  -- The deletion of a session, given what `delete_session` does.
  pub path_expire-deletes :
      (temp prev : Ptr) (e : Entry) (d : Daemon) (P : Ptr × Heap → Type 0)
      → is_doomed now e ≡ true
      → IsTable d.router.resv_tree
      → Returns P (delete_session d.resv_head temp prev d.heap)
      → (t : Tree ResvMsg) × (r : Ptr) × (h : Heap) × (path_expire now temp prev e d
          ≡ ok (record (with_resv_side d t h) { resv_head = r }))
        × Without (λ j. expired now e && j == e.tunnel_id) d.router.resv_tree t
        × P (r, h)
  unfolding path_expire
  path_expire-deletes temp prev e d P doomed v deletes =
      let old : expired now e ≡ true = ground arith in
      let idle : is_live e ≡ false = ground arith in
      let (t, returned, without) =
        Returns-eq _ (purge d.router.resv_tree e.tunnel_id)
          (purge_lem d.router.resv_tree e.tunnel_id v) in
      let ((r, h), deleted, p) =
        Returns-eq P (delete_session d.resv_head temp prev d.heap) deletes in
      (t, r, h, rw (old, returned, idle, deleted) refl, rw old without, p)

  -- One round of the loop: where the session can be read again, and where it has been freed.
  pub path_timer_loop-step :
      (fuel : ℕ) (temp prev n m : Ptr) (e f : Entry) (d d' : Daemon)
      → temp ≢ nil
      → d.heap temp ≡ some (session e n)
      → path_expire now temp prev e d ≡ ok d'
      → d'.heap temp ≡ some (session f m)
      → path_timer_loop (suc fuel) stack now temp prev d ≡ (
          path_timer_loop fuel stack now m temp d' >>= λ (d'', more). ok (
            d'',
            prepend
                (if is_live e then send_path_message stack d.router.path_tree e.tunnel_id else none)
                more,
          ))
  unfolding path_timer_loop
  path_timer_loop-step fuel temp prev n m e f d d' real holds returned again =
      rw
        (
          not_nil d.heap temp (session e n) real holds,
          load-ok d.heap temp (session e n) real holds,
          returned,
          load-ok d'.heap temp (session f m) real again,
        )
        refl

  path_timer_loop-freed :
      (fuel : ℕ) (temp prev n : Ptr) (e : Entry) (d d' : Daemon)
      → temp ≢ nil
      → d.heap temp ≡ some (session e n)
      → path_expire now temp prev e d ≡ ok d'
      → d'.heap temp ≡ none
      → path_timer_loop (suc fuel) stack now temp prev d ≡ fault
  unfolding path_timer_loop load
  path_timer_loop-freed fuel temp prev n e d d' real holds returned freed =
      rw (not_nil d.heap temp (session e n) real holds, holds, returned, freed) refl

  -- A deletion that frees the session itself ends in a fault.
  pub path_timer_loop-fault :
      (fuel : ℕ) (temp prev n : Ptr) (e : Entry) (d : Daemon)
      → temp ≢ nil
      → d.heap temp ≡ some (session e n)
      → is_doomed now e ≡ true
      → IsTable d.router.resv_tree
      → Returns (λ (r, h). h temp ≡ none) (delete_session d.resv_head temp prev d.heap)
      → path_timer_loop (suc fuel) stack now temp prev d ≡ fault
  path_timer_loop-fault fuel temp prev n e d real holds doomed v deletes =
      let (t, r, h, returned, _, freed) =
        path_expire-deletes temp prev e d (λ (r, h). h temp ≡ none) doomed v deletes in
      path_timer_loop-freed fuel temp prev n e d (record (with_resv_side d t h) { resv_head = r })
        real holds returned freed

  pub resent-cons :
      (a : Ptr) (e : Entry) (cs : Cells) (paths : Tree PathMsg)
      → prepend
          (if is_live e then send_path_message stack paths e.tunnel_id else none)
          (resent stack paths cs)
        ≡ resent stack paths ((a, e) ∷ cs)
  resent-cons a e cs paths = elim (Bool-cases (is_live e)) [
    | inl live ↦ rw live (elim (Option-cases (data_of (search_node paths e.tunnel_id))) [
      | inl absent ↦ rw (absent, send_path_message-absent stack paths e.tunnel_id absent) refl
      | inr (p, found) ↦ rw (found, send_path_message_lem stack paths e.tunnel_id p found) refl
    ])
    | inr idle ↦ rw idle refl
  ]
