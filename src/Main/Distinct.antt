-- ===== src/Main/Distinct.antt =====
-- No label is used twice in any state that `main` of rsvpd.c reaches.
use socket.Base.{
  ℕ, ◌≤◌, ◌-◌, ◌≡◌, ◌≢◌, subst, Option, none, some, inl, inr, Bool-cases, ltb, length,
}
use socket.Base.Run.{Yields, Yields-bind, Yields-trivial}
use socket.Daemon.{Daemon, Env}
use mathlib.Core.Option.{none-ne-some}
use socket.Label.{label_min, label_max}
use socket.Label.Digits.{used}
use socket.Main.{Server}
use socket.Main.Configure.{Input, start_path, strip, add_tunnel, configure}
use socket.Main.Labels.{HasLabels}
use socket.Main.LabelRounds.{RouterHasLabels, Inserts-HasLabels}
use socket.Main.Timers.{Left, path_timer-Left, resv_timer-Left}
use socket.Main.Reach.{Reached, start, tunnel, round, path_timer, resv_timer, Reached-IsDaemon}
use socket.Message.{PathMsg, ResvMsg, path_order, resv_order}
use socket.Packet.{inet_pton, is_true}
use socket.Receive.{Router}
use socket.Route.{NextHop}
use socket.Session.{insert_session}
use socket.Tree.{null, search_node, insert_node}
use socket.Tree.Search.{data_of}
use socket.Main.KeepReceive.{OutcomeHas, receive-Has}
use socket.Main.LabelTimer.{Without-HasLabels}

module _ (env : Env) (c : Input) (d : Daemon) (labels : RouterHasLabels d.router) where
  add_tunnel-HasLabels :
      (nh : NextHop) (new : Option PathMsg)
      → Yields (λ (d', g). RouterHasLabels d'.router) (add_tunnel env c d nh new)
  unfolding add_tunnel
  add_tunnel-HasLabels nh none = tt
  add_tunnel-HasLabels nh (some new) =
      let paths = insert_node env.host.path_malloc d.router.path_tree (start_path env c nh new) in
      let session =
        insert_session env.malloc env.now d.resv_head c.tunnel_id (strip c.src_line)
          (strip c.dst_line) 1 d.heap in
      elim (Bool-cases (ltb (length nh.dev) 16)) [
        | inl fits ↦ rw fits (
            Yields-bind (λ a. Unit {0}) (λ (d', g). RouterHasLabels d'.router) paths _
              (Yields-trivial paths)
              (λ t _.
                Yields-bind (λ a. Unit {0}) (λ (d', g). RouterHasLabels d'.router) session _
                  (Yields-trivial session) (λ (head, heap) _. labels)))
        | inr long ↦ rw long tt
      ]

  configure-HasLabels : Yields (λ (d', g). RouterHasLabels d'.router) (configure env c d)
  unfolding configure
  configure-HasLabels =
      let (status, nh) =
        env.host.routing.get_nexthop (inet_pton (c.parse (strip c.dst_line)) c.stale_ip) env.out in
      elim (Bool-cases (is_true status)) [
        | inl route ↦ rw route (add_tunnel-HasLabels nh env.host.new_path)
        | inr no_route ↦ rw no_route labels
      ]

null-HasLabels : (s : Router) → s.resv_tree ≡ null → RouterHasLabels s
unfolding search_node
null-HasLabels s e = rw e (record {
  marked = λ k q found. absurd (none-ne-some q found);
  distinct = λ j k p q found. absurd (none-ne-some p found);
})

Left-HasLabels : (d d' : Daemon) → RouterHasLabels d.router → Left d d' → RouterHasLabels d'.router
Left-HasLabels d d' labels (_, (out, without), same) =
    rw same
      (Without-HasLabels out d.router.labels d.router.resv_tree d'.router.resv_tree without labels)

Reached-HasLabels : (s : Server) → Reached s → RouterHasLabels s.daemon.router
Reached-HasLabels s (start (paths, resvs, first, last)) = null-HasLabels s.daemon.router resvs
Reached-HasLabels s (tunnel {s = before} r env input ready fits e) =
    subst (Yields (λ (d', g). RouterHasLabels d'.router)) e
      (configure-HasLabels env input before.daemon (Reached-HasLabels before r))
Reached-HasLabels s (path_timer {s = before} {d' = d'} {sent = sent} r fuel stack now lt e) =
    Left-HasLabels before.daemon d' (Reached-HasLabels before r)
      (path_timer-Left fuel stack now before.daemon d' sent (Reached-IsDaemon before r) lt e)
Reached-HasLabels s (resv_timer {s = before} {d' = d'} {sent = sent} r fuel stack now lt e) =
    Left-HasLabels before.daemon d' (Reached-HasLabels before r)
      (resv_timer-Left fuel stack now before.daemon d' sent (Reached-IsDaemon before r) lt e)
Reached-HasLabels s (round {s = before} r env clock buffer ready e) =
    let valid = Reached-IsDaemon before r in
    subst (Yields (OutcomeHas HasLabels)) e (
      receive-Has env clock HasLabels buffer before (λ b e. Inserts-HasLabels env.host b)
        valid.router.resvs (Reached-HasLabels before r))

-- In every state that is reached from empty tables and lists through tunnels that are typed in and
-- rounds of the loop, each with memory, with fuel beyond the two lists, with route lookups that
-- return, and with texts of addresses and names of devices that fit, and through runs of the two timers that return, each with fuel beyond the lists, two messages of the
-- Resv table have different incoming labels, where the first has one from 16 to 65535 and the
-- tunnels are not the same; and that label is in use.
pub Reached-distinct :
    (s : Server) (j k : ℕ) (p q : ResvMsg)
    → Reached s
    → data_of (search_node s.daemon.router.resv_tree j) ≡ some p
    → data_of (search_node s.daemon.router.resv_tree k) ≡ some q
    → label_min ≤ p.in_label
    → p.in_label ≤ label_max
    → j ≢ k
    → (p.in_label ≢ q.in_label) × (used s.daemon.router.labels (p.in_label - label_min) ≡ 1)
Reached-distinct s j k p q r found found' lo hi other =
    let labels = Reached-HasLabels s r in
    (
      (λ same. other (labels.distinct j k p q found found' lo hi same)),
      labels.marked j p found lo hi,
    )
