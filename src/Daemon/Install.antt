-- ===== src/Daemon/Install.antt =====
-- The label route that `receive_resv_message` installs, and the state that it leaves.
use Prim.Native.Nat.{bit_and}
use mathlib.Core.Option.{none-ne-some}
use socket.Base.{
  ℕ, ◌≡◌, ◌≢◌, refl, sym, ◌∙◌, ap, subst, inl, inr, ◌⊎◌, Bool-cases, ==_iff, some-injective, none,
  some, ◌==◌, if◌then◌else◌, arith,
}
use socket.Daemon.{Daemon, Env, push, pop, swap, Effect, install, install_node, inserted_resv}
use socket.Label.{Bitmap}
use socket.Message.{PathMsg, ResvMsg, path_order, resv_order}
use socket.Packet.{resv_packet_size}
use socket.Packet.Resv.{fill_resv, send_resv_message}
use socket.Packet.ResvInsert.{Stored, send_resv_message_lem}
use socket.Route.Subnet.{subnet_mask}
use socket.Tree.{Tree, null, node, search_node}
use socket.Tree.Refines.{IsTable}
use socket.Tree.Search.{data_of}

-- The command and the packet for the message `q` that a router has stored.
abbrev pub Installs : Env → PathMsg → ResvMsg → Effect → Type 0
Installs env pa q x =
    ((pa.p_srcip ≡ 0)
      × (x.command
          ≡ some (
              push (bit_and q.dest_ip (subnet_mask env.undefined_shift pa.prefix_len)) pa.prefix_len
                q.out_label (env.srcip_of q) pa.dev))
      × (x.sent ≡ none))
    ⊎ ((pa.p_srcip ≢ 0)
        × (x.command
            ≡ some (
                if q.out_label == 3
                then pop q.in_label (env.srcip_of q) pa.dev
                else swap q.in_label q.out_label (env.srcip_of q)))
        × (x.sent
            ≡ some (record {
              to = pa.p_srcip;
              size = resv_packet_size;
              bytes = fill_resv q env.host.stack;
            })))

-- The parts of the state that stay.
abbrev pub Keeps : Daemon → Effect → Type 0
Keeps d x =
    (x.daemon.router.path_tree ≡ d.router.path_tree)
    × (x.daemon.path_head ≡ d.path_head)
    × (x.daemon.resv_head ≡ d.resv_head)
    × (x.daemon.heap ≡ d.heap)

-- The effect of the Resv message `p` at a router whose Path message is `pa` and whose labels are `m`.
abbrev pub Answered : Env → PathMsg → Bitmap → ResvMsg → Effect → Type 0
Answered env pa m p x =
    IsTable x.daemon.router.resv_tree
    × ((q : ResvMsg) × (data_of (search_node x.daemon.router.resv_tree p.tunnel_id) ≡ some q)
        × Stored m pa.p_srcip p (q, x.daemon.router.labels)
        × Installs env pa q x)

install-Installs :
    (env : Env) (pa : PathMsg) (d : Daemon) (id : ℕ) (q : ResvMsg)
    → data_of (search_node d.router.resv_tree id) ≡ some q
    → q.nexthop_ip ≡ pa.p_srcip
    → Installs env pa q (install env pa d id q)
unfolding install
install-Installs env pa d id q found hop = elim (Bool-cases (q.nexthop_ip == 0)) [
  | inl head ↦ rw head (inl (sym hop ∙ (==_iff q.nexthop_ip 0).0 head, refl, refl))
  | inr between ↦ rw between (
      inr (
        (λ e. ground (arith, ==_iff q.nexthop_ip 0)),
        refl,
        subst
            (λ x.
              send_resv_message env.host.stack d.router.resv_tree id
              ≡ some
                  (record { to = x; size = resv_packet_size; bytes = fill_resv q env.host.stack }))
            hop (send_resv_message_lem env.host.stack d.router.resv_tree id q found),
      ))
]

install_node-found :
    (env : Env) (pa : PathMsg) (d : Daemon) (id : ℕ) (n : Tree ResvMsg) (q : ResvMsg)
    → data_of n ≡ some q
    → install_node env pa d id n ≡ install env pa d id q
install_node-found env pa d id null q e = absurd (none-ne-some q e)
install_node-found env pa d id (node p l r h) q e = ap (install env pa d id) (some-injective e)

pub Keeps-install :
    (env : Env) (pa : PathMsg) (d : Daemon) (id : ℕ) (q : ResvMsg)
    → (install env pa d id q).daemon ≡ d
unfolding install
Keeps-install env pa d id q = ground arith

-- A table with the message is not empty, so it becomes the state's.
inserted_resv-found :
    (env : Env) (pa : PathMsg) (d : Daemon) (id : ℕ) (t : Tree ResvMsg) (m : Bitmap) (q : ResvMsg)
    → data_of (search_node t id) ≡ some q
    → inserted_resv env pa d id t m
      ≡ install env pa (record d { router = record d.router { resv_tree = t; labels = m } }) id q
unfolding inserted_resv search_node
inserted_resv-found env pa d id null m q e = absurd (none-ne-some q e)
inserted_resv-found env pa d id (node p l r h) m q e =
    install_node-found env pa
      (record d { router = record d.router { resv_tree = node p l r h; labels = m } }) id
      (search_node (node p l r h) id) q e

-- What the insertion hands on.
abbrev pub HasStored : Bitmap → PathMsg → ResvMsg → Tree ResvMsg × Bitmap → Type 0
HasStored m pa p (t, m') =
    IsTable t
    × ((q : ResvMsg) × (data_of (search_node t p.tunnel_id) ≡ some q)
        × Stored m pa.p_srcip p (q, m'))

effect-Answered :
    (env : Env) (pa : PathMsg) (d d' : Daemon) (m : Bitmap) (p q : ResvMsg) (x : Effect)
    → IsTable d'.router.resv_tree
    → data_of (search_node d'.router.resv_tree p.tunnel_id) ≡ some q
    → Stored m pa.p_srcip p (q, d'.router.labels)
    → Keeps d (record x { daemon = d' })
    → Installs env pa q x
    → x.daemon ≡ d'
    → Answered env pa m p x × Keeps d x
effect-Answered env pa d d' m p q x v found stored keeps installs e = (
  (
    subst (λ (y : Daemon). IsTable y.router.resv_tree) (sym e) v,
    (
      q,
      subst (λ (y : Daemon). data_of (search_node y.router.resv_tree p.tunnel_id) ≡ some q) (sym e)
          found,
      subst (λ (y : Daemon). Stored m pa.p_srcip p (q, y.router.labels)) (sym e) stored,
      installs,
    ),
  ),
  subst (λ (y : Daemon). Keeps d (record x { daemon = y })) (sym e) keeps,
)

pub inserted_resv-Answered :
    (env : Env) (pa : PathMsg) (d : Daemon) (t : Tree ResvMsg) (m m' : Bitmap) (p : ResvMsg)
    → HasStored m pa p (t, m')
    → Answered env pa m p (inserted_resv env pa d p.tunnel_id t m')
      × Keeps d (inserted_resv env pa d p.tunnel_id t m')
inserted_resv-Answered env pa d t m m' p (v, (q, found, stored)) =
    let d' : Daemon = record d { router = record d.router { resv_tree = t; labels = m' } } in
    subst (λ x. Answered env pa m p x × Keeps d x)
      (sym (inserted_resv-found env pa d p.tunnel_id t m' q found))
      (effect-Answered env pa d d' m p q (install env pa d' p.tunnel_id q) v found stored
        (refl, refl, refl, refl) (install-Installs env pa d' p.tunnel_id q found stored.1)
        (Keeps-install env pa d' p.tunnel_id q))
