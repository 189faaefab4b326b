-- ===== src/Main/LabelInsert.antt =====
-- What `resv_tree_insert` of rsvp_db.c keeps of the labels of the Resv table.
use socket.Base.{
  ℕ, ◌-◌, ◌≤◌, ◌<◌, ◌≡◌, refl, ◌∙◌, sym, ap, Bool, true, false, Option, none, some, List, [], ◌∷◌,
  inl, inr, ◌⊎◌, Bool-cases, ==_iff, some-injective, ◌==◌, if◌then◌else◌, arith,
}
use mathlib.Core.Option.{none-ne-some}
use socket.Base.Run.{ok, ◌>>=◌, Returns, Returns-bind}
use socket.Label.{Bitmap, label_min, label_max}
use socket.Label.Digits.{used}
use socket.Message.{ResvMsg, resv_order}
use socket.Packet.{Packet, read16}
use socket.Packet.Resv.{read_resv, label_resv, resv_tree_insert}
use socket.Route.{Routing}
use socket.Tree.{Tree, search_node, insert_node}
use socket.Tree.Contents.{to_list}
use socket.Tree.Refines.{IsTable, id_limit, insert_node_refines, search-insert_node, search-IsTable}
use socket.Tree.Search.{data_of}
use socket.Tree.Table.{insert_list, find_list}
use socket.Tree.Table.Find.{or_else}
use socket.Packet.Bytes.{htons-bound}
use socket.Main.Labels.{Grows, HasLabels, Fresh, Labelled, label_resv-Labelled}

insert_list-none : (q : ResvMsg) (ds : List ResvMsg) → insert_list false q ds ≡ ds
unfolding insert_list
insert_list-none q [] = refl
insert_list-none q (d ∷ ds) = ground (arith, insert_list-none q ds)

-- What a search finds after an insertion was there, or is the new message.
abbrev pub Finds : Tree ResvMsg → ResvMsg → Tree ResvMsg → Type 0
Finds t q t' =
    (k : ℕ) (p : ResvMsg)
    → data_of (search_node t' k) ≡ some p
    → (data_of (search_node t k) ≡ some p) ⊎ ((k ≡ q.tunnel_id) × (p ≡ q))

or_new :
    (found : Option ResvMsg) (id k : ℕ) (p q : ResvMsg)
    → (if k == id then or_else found q else found) ≡ some p
    → (found ≡ some p) ⊎ ((k ≡ id) × (p ≡ q))
or_new none id k p q e = elim (Bool-cases (k == id)) [
  | inl same ↦ inr ((==_iff k id).0 same, sym (some-injective (rw same at e)))
  | inr other ↦ absurd (none-ne-some p (rw other at e))
]
or_new (some x) id k p q e = elim (Bool-cases (k == id)) [
  | inl same ↦ inl (rw same at e)
  | inr other ↦ inl (rw other at e)
]

pub insert_node-Finds :
    (malloc : Bool) (t : Tree ResvMsg) (q : ResvMsg)
    → IsTable t
    → q.tunnel_id < id_limit
    → (t' : Tree ResvMsg) × (insert_node malloc t q ≡ ok t') × IsTable t' × Finds t q t'
unfolding resv_order
insert_node-Finds true t q v lt =
    let (t', e, v', listed) = insert_node_refines true t q v lt in
    (
      t',
      e,
      v',
      λ k p found.
          or_new (data_of (search_node t k)) q.tunnel_id k p q
            (sym (search-insert_node t t' q k v lt e) ∙ found),
    )
insert_node-Finds false t q v lt =
    let (t', e, v', listed) = insert_node_refines false t q v lt in
    (
      t',
      e,
      v',
      λ k p found. inl (
          search-IsTable t k v
          ∙ ap (find_list k) (sym (listed ∙ insert_list-none q (to_list t)))
          ∙ sym (search-IsTable t' k v')
          ∙ found),
    )

HasLabels-insert :
    (m m' : Bitmap) (t t' : Tree ResvMsg) (q : ResvMsg)
    → HasLabels m t
    → Fresh m m' q.in_label
    → Finds t q t'
    → HasLabels m' t'
HasLabels-insert m m' t t' q v (grows, fresh) finds = record {
  marked = λ k p found lo hi. elim (finds k p found) [
    | inl old ↦ grows (p.in_label - label_min) (v.marked k p old lo hi)
    | inr (at, same) ↦
        let e : p.in_label ≡ q.in_label = ap (λ r. r.in_label) same in
        ap (λ l. used m' (l - label_min)) e ∙ (fresh (omega arith) (omega arith)).1
  ];
  distinct = λ j k p r found found' lo hi e. elim (finds j p found) [
    | inl old ↦ elim (finds k r found') [
      | inl old' ↦ v.distinct j k p r old old' lo hi e
      | inr (at', same') ↦
          absurd (clash p (e ∙ ap (λ x. x.in_label) same') lo hi (v.marked j p old lo hi))
    ]
    | inr (at, same) ↦ elim (finds k r found') [
      | inl old' ↦ absurd (
          clash r (sym e ∙ ap (λ x. x.in_label) same) (omega arith) (omega arith)
            (v.marked k r old' (omega arith) (omega arith)))
      | inr (at', same') ↦ at ∙ sym at'
    ]
  ];
}
  where
    clash :
        (p : ResvMsg)
        → p.in_label ≡ q.in_label
        → label_min ≤ p.in_label
        → p.in_label ≤ label_max
        → used m (p.in_label - label_min) ≡ 1
        → ⊥
    clash p e lo hi taken =
        let (free, _) = fresh (omega arith) (omega arith) in
        let same : used m (p.in_label - label_min) ≡ used m (q.in_label - label_min) =
          ap (λ l. used m (l - label_min)) e in
        omega (arith, same, free, taken)

-- What `resv_tree_insert` hands on.
abbrev pub Relabelled : Bitmap → Tree ResvMsg × Bitmap → Type 0
Relabelled m (t', m') = Grows m m' × HasLabels m' t'

pub read_resv-id :
    (buffer : Packet) (hop : ℕ) (new : ResvMsg) → (read_resv buffer hop new).tunnel_id < id_limit
unfolding read_resv
read_resv-id buffer hop new = htons-bound (read16 38 buffer)

pub resv_tree_insert-HasLabels :
    (routing : Routing) (new : ResvMsg) (malloc : Bool) (srcip : Option ℕ) (t : Tree ResvMsg)
    (buffer : Packet) (hop : ℕ) (reach : Bool) (m : Bitmap)
    → IsTable t
    → HasLabels m t
    → Returns (Relabelled m) (resv_tree_insert routing (some new) malloc srcip t buffer hop reach m)
unfolding resv_tree_insert
resv_tree_insert-HasLabels routing new malloc srcip t buffer hop reach m v labels =
    let p = read_resv buffer hop new in
    Returns-bind (Labelled m p) (Relabelled m) (label_resv routing srcip reach buffer m p)
      (λ (q, m'). insert_node malloc t q >>= λ t'. ok (t', m'))
      (label_resv-Labelled routing srcip reach buffer m p)
      (λ (q, m') (fresh, id).
        let (t', e, v', finds) =
          insert_node-Finds malloc t q v (rw id (read_resv-id buffer hop new)) in
        rw e (fresh.0, HasLabels-insert m m' t t' q labels fresh finds))
