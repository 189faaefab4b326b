-- ===== src/Main/LabelRounds.antt =====
-- `resv_tree_insert` of rsvp_db.c keeps what is known of the labels of the Resv table.
use socket.Base.{ℕ, Bool, Option, none, some}
use socket.Base.Run.{Yields, Returns-imp, Returns-Yields}
use socket.Label.{Bitmap}
use socket.Main.KeepPath.{Inserts}
use socket.Main.LabelInsert.{Relabelled, resv_tree_insert-HasLabels}
use socket.Main.Labels.{HasLabels, HasLabels-Grows}
use socket.Message.{ResvMsg, resv_order}
use socket.Packet.{Packet}
use socket.Packet.Resv.{resv_tree_insert}
use socket.Receive.{Router, Host}
use socket.Tree.{Tree}
use socket.Tree.Refines.{IsTable}

abbrev pub RouterHasLabels : Router → Type 0
RouterHasLabels s = HasLabels s.labels s.resv_tree

with_memory :
    (host : Host) (buffer : Packet) (new : Option ResvMsg) (t : Tree ResvMsg) (m : Bitmap) (hop : ℕ)
    (reach : Bool)
    → IsTable t
    → HasLabels m t
    → Yields
        (λ (t', m'). HasLabels m' t × HasLabels m' t')
        (resv_tree_insert host.routing new host.resv_malloc host.resv_srcip t buffer hop reach m)
unfolding resv_tree_insert
with_memory host buffer none t m hop reach v labels = tt
with_memory host buffer (some new) t m hop reach v labels =
    let inserted =
      resv_tree_insert host.routing (some new) host.resv_malloc host.resv_srcip t buffer hop reach
        m in
    Returns-Yields (λ (t', m'). HasLabels m' t × HasLabels m' t') inserted
      (Returns-imp (Relabelled m) (λ (t', m'). HasLabels m' t × HasLabels m' t') inserted
        (resv_tree_insert-HasLabels host.routing new host.resv_malloc host.resv_srcip t buffer hop
          reach m v labels)
        (λ (t', m') (grows, has). (HasLabels-Grows m m' t grows labels, has)))

pub Inserts-HasLabels : (host : Host) (buffer : Packet) → Inserts host buffer HasLabels
Inserts-HasLabels host buffer t m hop reach v labels =
    with_memory host buffer host.new_resv t m hop reach v labels
