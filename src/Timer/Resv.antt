-- ===== src/Timer/Resv.antt =====
-- `resv_timer_handler` of timer_event.c: what its walk visits, and the Resv side.
use mathlib.Core.Path.{subst₂}
use socket.Base.{
  ℕ, zero, suc, sym, ◌<◌, ◌+◌, ltb, ◌≡◌, ◌≢◌, refl, ◌∙◌, ap, Bool, false, Option, none, some, List,
  [], ◌∷◌, ◌++◌, ◌==◌, ◌&&◌, ◌||◌, if◌then◌else◌, inl, inr, Bool-cases, length, not, append_assoc,
  arith,
}
use socket.Base.Run.{ok, Returns, Returns-bind, Returns-eq, Returns-imp}
use socket.Daemon.{Daemon}
use socket.Message.{ResvMsg, path_order, resv_order}
use socket.Packet.{Packet, Datagram, resv_packet_size}
use socket.Packet.Resv.{fill_resv}
use socket.Session.{Ptr, nil, Entry, Heap, session, delete_session}
use socket.Session.Chain.{Cells, Chain, entries, not_nil, load-ok}
use socket.Session.Remove.{Drops, last_ptr, entries-append, delete_session-Drops}
use socket.Timer.{expired, interval, prepend, purge, delete_first, resv_drop}
use socket.Timer.Purge.{Without, Without-none, purge_lem}
use socket.Timer.Walk.{behind}
use socket.Tree.{Tree, search_node}
use socket.Tree.Refines.{IsTable}
use socket.Tree.Search.{data_of}

-- What a walk does at a session: it goes past it, or it deletes it and then reads the contents of the
-- next one in its place.
pub data Visit : Type 0 where
  passed : Entry → Visit
  removed : Entry → Entry → Visit

-- The visits of a walk from here on.
abbrev pub visits : ℕ → Cells → List Visit
visits now [] = []
visits now ((a, e) ∷ []) = passed e ∷ []
visits now ((a, e) ∷ (b, f) ∷ cs) =
    let skipping = visits now cs in
    let going = visits now ((b, f) ∷ cs) in
    if expired now e then removed e f ∷ skipping else passed e ∷ going

-- The tunnels whose messages leave the Path table, and those whose messages leave the Resv table.
abbrev pub path_out : List Visit → ℕ → Bool
path_out [] j = false
path_out (passed e ∷ vs) j = path_out vs j
path_out (removed e f ∷ vs) j = j == e.tunnel_id || path_out vs j

abbrev pub drops_resv : Entry → ℕ → Bool
drops_resv f j = not (f.dest == 0) && j == f.tunnel_id

abbrev pub resv_out : List Visit → ℕ → Bool
resv_out [] j = false
resv_out (passed e ∷ vs) j = resv_out vs j
resv_out (removed e f ∷ vs) j = drops_resv f j || resv_out vs j

-- A list without its first session of the tunnel.
abbrev pub without_first : ℕ → List Entry → List Entry
without_first k [] = []
without_first k (e ∷ es) =
    let rest = without_first k es in if k == e.tunnel_id then es else e ∷ rest

abbrev pub resv_less : Entry → List Entry → List Entry
resv_less f es = if f.dest == 0 then es else without_first f.tunnel_id es

-- The Resv list after the visits.
abbrev pub resvs_after : List Visit → List Entry → List Entry
resvs_after [] es = es
resvs_after (passed e ∷ vs) es = resvs_after vs es
resvs_after (removed e f ∷ vs) es = resvs_after vs (resv_less f es)

-- The session of an end of a tunnel, silent for 30 seconds or more.
abbrev pub is_due : ℕ → Entry → Bool
is_due now e = not (ltb now (e.last_path_time + interval)) && not (e.dest == 0)

abbrev pub resv_datagram : Packet → Option ResvMsg → Option Datagram
resv_datagram stack none = none
resv_datagram stack (some p) =
    some (record { to = p.nexthop_ip; size = resv_packet_size; bytes = fill_resv p stack })

-- The Resv messages of the sessions that are due, in the order of the list, as the Resv table `find`
-- has them at that time.
abbrev pub answered : Packet → ℕ → (ℕ → Option ResvMsg) → List Visit → List Datagram
answered stack now find [] = []
answered stack now find (passed e ∷ vs) =
    prepend (if is_due now e then resv_datagram stack (find e.tunnel_id) else none)
      (answered stack now find vs)
answered stack now find (removed e f ∷ vs) =
    answered stack now (λ j. if drops_resv f j then none else find j) vs

abbrev pub find_in : Tree ResvMsg → ℕ → Option ResvMsg
find_in t j = data_of (search_node t j)

-- The daemon with another Resv side.
abbrev pub with_resvs : Daemon → Tree ResvMsg → Ptr → Heap → Daemon
with_resvs d t r h = record d {
  router = record d.router { resv_tree = t };
  resv_head = r;
  heap = h;
}

-- The daemon without a session of the Resv list, `es` is what stays of the list `cs`.
abbrev pub Dropped : Daemon → Cells → List Entry → Daemon → Type 0
Dropped d cs es d' =
    (r : Ptr) × (h : Heap) × (d' ≡ with_resvs d d.router.resv_tree r h) × Drops d.heap cs es (r, h)

pub last_ptr-append : (xs : Cells) (a : Ptr) (e : Entry) → last_ptr (xs ++ (a, e) ∷ []) ≡ a
unfolding last_ptr
last_ptr-append [] a e = refl
last_ptr-append (x ∷ []) a e = refl
last_ptr-append (x ∷ y ∷ xs) a e = last_ptr-append (y ∷ xs) a e

pub delete_first-Dropped :
    (fuel k : ℕ) (temp prev : Ptr) (d : Daemon) (xs cs : Cells)
    → Chain d.heap d.resv_head (xs ++ cs)
    → Chain d.heap temp cs
    → prev ≡ last_ptr xs
    → length cs < fuel
    → Returns
        (Dropped d (xs ++ cs) (entries xs ++ without_first k (entries cs)))
        (delete_first fuel k temp prev d)
unfolding delete_first
delete_first-Dropped zero k temp prev d xs cs whole c p lt = absurd (omega arith)
delete_first-Dropped (suc fuel) k temp prev d xs [] whole c p lt = rw c (
  d.resv_head,
  d.heap,
  refl,
  (xs ++ [], whole, entries-append xs [], (λ a i. i), (λ a out. refl)),
)
delete_first-Dropped (suc fuel) k temp prev d xs ((a, e) ∷ cs) whole
      (here, real, fresh, (n, holds, rest)) p lt =
    rw (here, not_nil d.heap a (session e n) real holds, load-ok d.heap a (session e n) real holds)
      (elim (Bool-cases (k == e.tunnel_id)) [
        | inl hit ↦ rw hit (
            Returns-bind (Drops d.heap (xs ++ (a, e) ∷ cs) (entries xs ++ entries cs))
              (Dropped d (xs ++ (a, e) ∷ cs) (entries xs ++ entries cs))
              (delete_session d.resv_head a prev d.heap)
              (λ (r, h). ok (record d { resv_head = r; heap = h }))
              (delete_session-Drops d.heap d.resv_head a e prev xs cs whole p)
              (λ (r, h) drops. (r, h, refl, drops)))
        | inr miss ↦ rw miss (
            let w = without_first k (entries cs) in
            let ys = xs ++ (a, e) ∷ [] in
            let same : entries ys ++ w ≡ entries xs ++ e ∷ w =
              ap (λ es. es ++ w) (entries-append xs ((a, e) ∷ []))
              ∙ append_assoc (entries xs) (e ∷ []) w in
            subst₂ (λ zs es. Returns (Dropped d zs es) (delete_first fuel k n a d))
              (append_assoc xs ((a, e) ∷ []) cs) same
              (delete_first-Dropped fuel k n a d ys cs
                (behind d.heap d.resv_head xs (a, e) cs whole) rest (sym (last_ptr-append xs a e))
                (omega arith)))
      ])

-- What `resv_drop` leaves where it finds the contents `f`, of the daemon `d` with the Resv list `rs`.
abbrev pub ResvDropped : Daemon → Entry → Cells → Daemon → Type 0
ResvDropped d f rs d' =
    (t : Tree ResvMsg) × (r : Ptr) × (h : Heap) × (d' ≡ with_resvs d t r h)
    × Without (drops_resv f) d.router.resv_tree t
    × Drops d.heap rs (resv_less f (entries rs)) (r, h)

pub resv_drop-ResvDropped :
    (fuel : ℕ) (temp n : Ptr) (f : Entry) (d : Daemon) (rs : Cells)
    → temp ≢ nil
    → d.heap temp ≡ some (session f n)
    → IsTable d.router.resv_tree
    → Chain d.heap d.resv_head rs
    → length rs < fuel
    → Returns (ResvDropped d f rs) (resv_drop fuel temp d)
unfolding resv_drop
resv_drop-ResvDropped fuel temp n f d rs real holds v c lt =
    rw (load-ok d.heap temp (session f n) real holds) (elim (Bool-cases (f.dest == 0)) [
      | inl between ↦ rw between (
        d.router.resv_tree,
        d.resv_head,
        d.heap,
        refl,
        rw between (Without-none d.router.resv_tree v),
        (rs, c, rw between refl, (λ a i. i), (λ a out. refl)),
      )
      | inr last ↦ rw last (
          let (t, purged, without) =
            Returns-eq _ (purge d.router.resv_tree f.tunnel_id)
              (purge_lem d.router.resv_tree f.tunnel_id v) in
          let d1 : Daemon = with_resvs d t d.resv_head d.heap in
          rw purged (
            Returns-imp (Dropped d1 rs (without_first f.tunnel_id (entries rs))) _
              (delete_first fuel f.tunnel_id d.resv_head nil d1)
              (delete_first-Dropped fuel f.tunnel_id d.resv_head nil d1 [] rs c c
                (unfold last_ptr in refl) lt)
              (λ d' (r, h, left, drops). (t, r, h, left, rw last without, rw last drops))))
    ])
