-- ===== src/Timer.antt =====
-- The two periodic handlers of timer_event.c, over the state of the daemon. Every read of a session
-- is a `load`, also those after `delete_session`. Times are natural numbers, so `now - t > 90` is
-- `t + 90 < now`, and `now - t < 30` is `now < t + 30`. What the handlers print is left out.
pub mod Purge
pub mod Walk
pub mod Path
pub mod PathSteps
pub mod PathWalk
pub mod Resv
pub mod ResvWalk
pub mod ResvRounds
pub mod ResvSteps
pub mod ResvTimer
pub mod Event
use socket.Base.{
  ℕ, zero, suc, ◌+◌, Bool, not, Option, none, some, List, [], ◌∷◌, ltb, ◌==◌, ◌&&◌, ◌||◌,
  if◌then◌else◌,
}
use socket.Base.Run.{Run, ok, out_of_fuel, ◌>>=◌}
use socket.Daemon.{Daemon}
use socket.Message.{path_order, resv_order}
use socket.Packet.{Packet, Datagram}
use socket.Packet.Path.{send_path_message}
use socket.Packet.Resv.{send_resv_message}
use socket.Session.{Ptr, nil, Entry, load, delete_session}
use socket.Tree.{Tree, null, node, TunnelOrder, search_node, delete_node}

-- `TIMEOUT`, in seconds.
abbrev pub timeout : ℕ
timeout = 90

-- `INTERVAL`.
abbrev pub interval : ℕ
interval = 30

abbrev pub expired : ℕ → Entry → Bool
expired now e = ltb (e.last_path_time + timeout) now

-- `temp->dest && !temp->del`.
abbrev pub is_live : Entry → Bool
is_live e = not (e.dest == 0) && e.del == 0

-- `if(search_node(…) != NULL) tree = delete_node(…);`, with what the search returned.
abbrev pub delete_found : {A : Type 0} ⦃o : TunnelOrder A⦄ → Tree A → ℕ → Tree A → Run (Tree A)
delete_found t k null = ok t
delete_found t k (node d l r h) = delete_node t k

unfoldable pub purge : {A : Type 0} ⦃o : TunnelOrder A⦄ → Tree A → ℕ → Run (Tree A)
purge t k = delete_found t k (search_node t k)

abbrev pub prepend : Option Datagram → List Datagram → List Datagram
prepend none gs = gs
prepend (some g) gs = g ∷ gs

-- The expiry of a session of the Resv list: its message goes, and the session itself if this router
-- is not the head of the tunnel or the session is marked.
unfoldable pub path_expire : ℕ → Ptr → Ptr → Entry → Daemon → Run Daemon
unfolding purge
path_expire now temp prev e d =
    if expired now e
    then (do
      resv_tree ← purge d.router.resv_tree e.tunnel_id
      let d' : Daemon = record d { router = record d.router { resv_tree = resv_tree } }
      if is_live e then ok d' else (do
        (head, heap) ← delete_session d.resv_head temp prev d.heap
        ok (record d' { resv_head = head; heap = heap })))
    else ok d

-- The loop of `path_timer_handler`: the state, and the packets that are sent.
unfoldable pub path_timer_loop : ℕ → Packet → ℕ → Ptr → Ptr → Daemon → Run (Daemon × List Datagram)
unfolding path_expire
path_timer_loop zero stack now temp prev d = out_of_fuel
path_timer_loop (suc fuel) stack now temp prev d =
    let rest = λ (next : Ptr) (d' : Daemon). path_timer_loop fuel stack now next temp d' in
    if temp == nil then ok (d, []) else do
      (s, _) ← load temp d.heap
      let sent =
          if is_live s.entry
          then send_path_message stack d.router.path_tree s.entry.tunnel_id
          else none
      d' ← path_expire now temp prev s.entry d
      (t, _) ← load temp d'.heap
      (d'', more) ← rest t.next d'
      ok (d'', prepend sent more)

unfoldable pub path_timer_handler : ℕ → Packet → ℕ → Daemon → Run (Daemon × List Datagram)
unfolding path_timer_loop
path_timer_handler fuel stack now d = path_timer_loop fuel stack now d.resv_head nil d

-- The inner loop of `resv_timer_handler`: the first session of the tunnel leaves the Resv list.
unfoldable pub delete_first : ℕ → ℕ → Ptr → Ptr → Daemon → Run Daemon
delete_first zero tunnel_id temp1 prev1 d = out_of_fuel
delete_first (suc fuel) tunnel_id temp1 prev1 d =
    let rest = λ (next : Ptr). delete_first fuel tunnel_id next temp1 d in
    if temp1 == nil then ok d else do
      (s, _) ← load temp1 d.heap
      if tunnel_id == s.entry.tunnel_id
          then (do
            (head, heap) ← delete_session d.resv_head temp1 prev1 d.heap
            ok (record d { resv_head = head; heap = heap }))
          else rest s.next

-- `if(temp->dest) …` after the session `temp` of the Path list has been deleted.
unfoldable pub resv_drop : ℕ → Ptr → Daemon → Run Daemon
unfolding delete_first purge
resv_drop fuel temp d = do
  (s, _) ← load temp d.heap
  if s.entry.dest == 0 then ok d else (do
    resv_tree ← purge d.router.resv_tree s.entry.tunnel_id
    delete_first fuel s.entry.tunnel_id d.resv_head nil
        (record d { router = record d.router { resv_tree = resv_tree } }))

-- The expiry of a session of the Path list.
unfoldable pub resv_expire : ℕ → Ptr → Ptr → Entry → Daemon → Run Daemon
unfolding resv_drop purge
resv_expire fuel temp prev e d = do
  path_tree ← purge d.router.path_tree e.tunnel_id
  (head, heap) ← delete_session d.path_head temp prev d.heap
  resv_drop fuel temp (record d {
    router = record d.router { path_tree = path_tree };
    path_head = head;
    heap = heap;
  })

-- The loop of `resv_timer_handler`.
unfoldable pub resv_timer_loop : ℕ → Packet → ℕ → Ptr → Ptr → Daemon → Run (Daemon × List Datagram)
unfolding resv_expire
resv_timer_loop zero stack now temp prev d = out_of_fuel
resv_timer_loop (suc fuel) stack now temp prev d =
    let rest = λ (next : Ptr) (d' : Daemon). resv_timer_loop fuel stack now next temp d' in
    if temp == nil then ok (d, []) else do
      (s, _) ← load temp d.heap
      let sent =
          if expired now s.entry || ltb now (s.entry.last_path_time + interval) || s.entry.dest == 0
          then none
          else send_resv_message stack d.router.resv_tree s.entry.tunnel_id
      d' ← (if expired now s.entry then resv_expire fuel temp prev s.entry d else ok d)
      (t, _) ← load temp d'.heap
      (d'', more) ← rest t.next d'
      ok (d'', prepend sent more)

unfoldable pub resv_timer_handler : ℕ → Packet → ℕ → Daemon → Run (Daemon × List Datagram)
unfolding resv_timer_loop
resv_timer_handler fuel stack now d = resv_timer_loop fuel stack now d.path_head nil d
