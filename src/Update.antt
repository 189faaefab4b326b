-- ===== src/Update.antt =====
-- `update_tables` of rsvp_db.c, which takes the label route of a tunnel out of the kernel and gives its
-- label back.
use socket.Base.{
  ℕ, ◌-◌, ◌≤◌, ◌<◌, ◌≡◌, refl, some-injective, Option, none, some, List, inl, inr, ◌⊎◌, leb, ltb,
  ◌==◌, ◌&&◌, ◌||◌, if◌then◌else◌, arith,
}
use mathlib.Core.Option.{none-ne-some}
use socket.Base.Int.{ℤ, pos, eqz, ltz}
use socket.Base.Run.{Run, ok, fault, ◌>>=◌, Returns}
use socket.Label.{Bitmap, label_min, label_max, no_label, free_label}
use socket.Label.Digits.{used}
use socket.Label.Free.{free_label-used}
use socket.Message.{PathMsg, ResvMsg, path_order, resv_order}
use socket.Packet.{is_true}
use socket.Receive.{Router, Host}
use socket.Route.{NextHop}
use socket.Tree.{Tree, null, node, TunnelOrder, search_node}
use socket.Tree.Search.{data_of}

-- `EXPLICIT_NULL`, `IMPLICIT_NULL` and `BASE_LABEL`.
abbrev pub explicit_null : ℕ
explicit_null = 0

abbrev pub implicit_null : ℕ
implicit_null = 3

abbrev pub base_label : ℕ
base_label = 16

-- `ip -M route del IN as OUT via inet A` and `ip -M route del IN via inet A dev D`.
pub data Removal : Type 0 where
  del_swap : ℕ → ℕ → ℕ → Removal
  del_pop : ℕ → ℕ → List ℕ → Removal

-- The command that is run. The one for a push is made and not run; -1 is `no_label`.
abbrev pub removal : ResvMsg → PathMsg → Option Removal
removal p pa =
    if p.in_label == no_label && leb base_label p.out_label
    then none
    else if leb base_label p.in_label && leb base_label p.out_label
    then some (del_swap p.in_label p.out_label pa.nexthop_ip)
    else if ltb base_label p.in_label
        && (p.out_label == implicit_null || p.out_label == explicit_null)
    then some (del_pop p.in_label pa.nexthop_ip pa.dev)
    else none

-- The message of the path after `get_nexthop`, which writes to its members.
abbrev pub rerouted : PathMsg → ℤ → NextHop → PathMsg
rerouted pa status nh = record pa {
  prefix_len = nh.pref_len;
  ifh = nh.ifh;
  nexthop_ip = if is_true status then by_text nh.nh_ip else pa.nexthop_ip;
}
  where
    by_text : Option ℕ → ℕ
    by_text none = 0
    by_text (some a) = a

-- A write to the data of the node that `search_node` finds.
unfoldable pub set_data : {A : Type 0} ⦃o : TunnelOrder A⦄ → Tree A → ℕ → A → Tree A
set_data null k x = null
set_data ⦃o⦄ (node d l r h) k x =
    let to_left = set_data l k x in
    let to_right = set_data r k x in
    if eqz (o.cmp k d) (pos 0)
    then node x l r h
    else if ltz (o.cmp k d) (pos 0)
    then node d to_left r h
    else node d l to_right h

-- From the two searches on. Without a Path message `pa` was never set, and is read.
unfoldable pub update_found :
    Host → Router → ℕ → Tree ResvMsg → Tree PathMsg → Run (Router × Option Removal)
unfolding set_data
update_found host s id null n = ok (s, none)
update_found host s id (node p l r h) null = fault
update_found host s id (node p l r h) (node pa l' r' h') = do
  let (status, nh) =
      host.routing.get_nexthop pa.dest_ip
        (record { nh_ip = s.nhip; pref_len = pa.prefix_len; dev = host.dev; ifh = pa.ifh })
  (labels, freed) ← free_label s.labels p.in_label
  ok (
    record s {
      path_tree = set_data s.path_tree id (rerouted pa status nh);
      labels = labels;
      nhip = nh.nh_ip;
    },
    removal p (rerouted pa status nh),
  )

unfoldable pub update_tables : Host → Router → ℕ → Run (Router × Option Removal)
unfolding update_found
update_tables host s tunnel_id =
    update_found host s tunnel_id (search_node s.resv_tree tunnel_id)
      (search_node s.path_tree tunnel_id)

-- The label `label` is free again, and no other has changed.
abbrev pub GivenBack : Bitmap → Bitmap → ℕ → Type 0
GivenBack m m' label = (i : ℕ) → used m' i ≡ (if i == label - label_min then 0 else used m i)

-- What the removal of the label route of `p` leaves.
abbrev pub Updated : Host → Router → ResvMsg → PathMsg → Router × Option Removal → Type 0
Updated host s p pa (s', command) =
    let (status, nh) =
      host.routing.get_nexthop pa.dest_ip
        (record { nh_ip = s.nhip; pref_len = pa.prefix_len; dev = host.dev; ifh = pa.ifh }) in
    let hop = (rerouted pa status nh).nexthop_ip in
    (command
      ≡ some (
          if p.out_label == 3
          then del_pop p.in_label hop pa.dev
          else del_swap p.in_label p.out_label hop))
    × GivenBack s.labels s'.labels p.in_label
    × (s'.resv_tree ≡ s.resv_tree)

removal-pool :
    (p : ResvMsg) (pa : PathMsg)
    → 16 < p.in_label
    → p.in_label ≤ label_max
    → (p.out_label ≡ 3) ⊎ (16 ≤ p.out_label)
    → removal p pa
      ≡ some (
          if p.out_label == 3
          then del_pop p.in_label pa.nexthop_ip pa.dev
          else del_swap p.in_label p.out_label pa.nexthop_ip)
removal-pool p pa lo hi (inl e) = ground arith
removal-pool p pa lo hi (inr e) = ground arith

update_found-Updated :
    (host : Host) (s : Router) (id : ℕ) (p : ResvMsg) (pa : PathMsg) (n : Tree ResvMsg)
    (n' : Tree PathMsg)
    → data_of n ≡ some p
    → data_of n' ≡ some pa
    → 16 < p.in_label
    → p.in_label ≤ label_max
    → (p.out_label ≡ 3) ⊎ (16 ≤ p.out_label)
    → Returns (Updated host s p pa) (update_found host s id n n')
unfolding update_found
update_found-Updated host s id p pa null n' e f lo hi out = absurd (none-ne-some p e)
update_found-Updated host s id p pa (node q l r h) null e f lo hi out = absurd (none-ne-some pa f)
update_found-Updated host s id p pa (node q l r h) (node q' l' r' h') e f lo hi out =
    let (m', freed, back) = free_label-used s.labels p.in_label (omega arith) hi in
    let (status, nh) =
      host.routing.get_nexthop pa.dest_ip
        (record { nh_ip = s.nhip; pref_len = pa.prefix_len; dev = host.dev; ifh = pa.ifh }) in
    rw (some-injective e, some-injective f, freed)
      (removal-pool p (rerouted pa status nh) lo hi out, back, refl)

-- For a tunnel that both tables have, with an incoming label above 16 of the pool, and an outgoing one that
-- is 3 or at least 16, `update_tables` returns: it runs the command that removes the pop, if the outgoing
-- label is 3, or else the swap; the incoming label is free and no other has changed; the Resv table stays.
pub update_tables_lem :
    (host : Host) (s : Router) (id : ℕ) (p : ResvMsg) (pa : PathMsg)
    → data_of (search_node s.resv_tree id) ≡ some p
    → data_of (search_node s.path_tree id) ≡ some pa
    → 16 < p.in_label
    → p.in_label ≤ label_max
    → (p.out_label ≡ 3) ⊎ (16 ≤ p.out_label)
    → Returns (Updated host s p pa) (update_tables host s id)
unfolding update_tables
update_tables_lem host s id p pa e f lo hi out =
    update_found-Updated host s id p pa (search_node s.resv_tree id) (search_node s.path_tree id) e
      f lo hi out
