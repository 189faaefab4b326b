-- ===== src/Main/Labels.antt =====
-- The incoming labels of the Resv table against the label pool: what `label_resv` gives.
use socket.Base.{
  ℕ, ◌-◌, ◌≤◌, ◌≡◌, refl, ◌∙◌, sym, ap, subst, Bool, true, false, Option, some, inl, inr,
  Bool-cases, ◌==◌, arith,
}
use socket.Base.Run.{ok, Returns, Returns-bind}
use socket.Label.{Bitmap, label_min, label_max, no_label, allocate_label}
use socket.Label.Allocate.{Allocated, allocate_label_lem}
use socket.Label.Digits.{used}
use socket.Message.{ResvMsg, resv_order}
use socket.Packet.{Packet, htonl, read32}
use socket.Packet.Resv.{set_labels, set_hop, set_srcip, label_resv}
use socket.Route.{Routing}
use socket.Tree.{Tree, search_node}
use socket.Tree.Search.{data_of}

-- What is in use stays in use.
abbrev pub Grows : Bitmap → Bitmap → Type 0
Grows m m' = (i : ℕ) → used m i ≡ 1 → used m' i ≡ 1

-- Each label of the pool in the table is in use, and no two tunnels have the same.
pub record HasLabels (m : Bitmap) (t : Tree ResvMsg) : Type 0 where
  pub marked :
      (k : ℕ) (q : ResvMsg)
      → data_of (search_node t k) ≡ some q
      → label_min ≤ q.in_label
      → q.in_label ≤ label_max
      → used m (q.in_label - label_min) ≡ 1
  pub distinct :
      (j k : ℕ) (p q : ResvMsg)
      → data_of (search_node t j) ≡ some p
      → data_of (search_node t k) ≡ some q
      → label_min ≤ p.in_label
      → p.in_label ≤ label_max
      → p.in_label ≡ q.in_label
      → j ≡ k

pub HasLabels-Grows :
    (m m' : Bitmap) (t : Tree ResvMsg) → Grows m m' → HasLabels m t → HasLabels m' t
HasLabels-Grows m m' t grows v = record {
  marked = λ k q found lo hi. grows (q.in_label - label_min) (v.marked k q found lo hi);
  distinct = v.distinct;
}

-- A label that is given out was free, and is now in use; other numbers are not of the pool.
abbrev pub Fresh : Bitmap → Bitmap → ℕ → Type 0
Fresh m m' label =
    Grows m m'
    × (label_min ≤ label
        → label ≤ label_max
        → (used m (label - label_min) ≡ 0) × (used m' (label - label_min) ≡ 1))

Allocated-Fresh : (m m' : Bitmap) (label : ℕ) → Allocated m 0 (m', label) → Fresh m m' label
Allocated-Fresh m m' label (inl (k, lo, hi, named, free, taken, new)) =
    let place : label - label_min ≡ k = omega arith in
    (
      (λ i h. ground (arith, new i)),
      (λ l u. (ap (used m) place ∙ free, ap (used m') place ∙ ground (arith, new k))),
    )
Allocated-Fresh m m' label (inr (none_left, same, full)) =
    ((λ i h. ap (λ x. used x i) same ∙ h), (λ l u. absurd (omega arith)))

set_srcip-kept :
    (routing : Routing) (srcip : Option ℕ) (q : ResvMsg)
    → ((set_srcip routing srcip q).in_label ≡ q.in_label)
      × ((set_srcip routing srcip q).tunnel_id ≡ q.tunnel_id)
unfolding set_srcip set_hop
set_srcip-kept routing srcip q = (ground arith, ground arith)

-- The label and the id that `label_resv` gives.
abbrev pub Labelled : Bitmap → ResvMsg → ResvMsg × Bitmap → Type 0
Labelled m p (q, m') = Fresh m m' q.in_label × (q.tunnel_id ≡ p.tunnel_id)

pub label_resv-Labelled :
    (routing : Routing) (srcip : Option ℕ) (reach : Bool) (buffer : Packet) (m : Bitmap)
    (p : ResvMsg)
    → Returns (Labelled m p) (label_resv routing srcip reach buffer m p)
unfolding label_resv set_labels set_hop
label_resv-Labelled routing srcip true buffer m p =
    let (label, id) = set_srcip-kept routing srcip (set_labels 3 no_label p) in
    (((λ i h. h), (λ l u. absurd (omega arith))), id)
label_resv-Labelled routing srcip false buffer m p = elim (Bool-cases (p.nexthop_ip == 0)) [
  | inl head ↦ rw head (((λ i h. h), (λ l u. absurd (omega arith))), refl)
  | inr between ↦ rw between (
      Returns-bind (Allocated m 0) (Labelled m p) (allocate_label m)
        (λ (m', in_label).
          ok (set_srcip routing srcip (set_labels in_label (htonl (read32 80 buffer)) p), m'))
        (allocate_label_lem m)
        (λ (m', in_label) given.
          let (label, id) =
            set_srcip-kept routing srcip (set_labels in_label (htonl (read32 80 buffer)) p) in
          (subst (Fresh m m') (sym label) (Allocated-Fresh m m' in_label given), id)))
]
