-- ===== src/Timer/Purge.antt =====
-- What the handlers of timer_event.c take out of a table.
use socket.Base.{
  ℕ, ◌≡◌, refl, ◌∙◌, ap, Bool, false, none, [], ◌∷◌, ◌==◌, ◌&&◌, ◌||◌, if◌then◌else◌, inl, inr,
  Bool-cases, ==_iff, arith,
}
use socket.Base.Run.{Returns}
use socket.Session.Chain.{Cells}
use socket.Timer.{expired, delete_found, purge}
use socket.Tree.{Tree, null, node, TunnelOrder, search_node}
use socket.Tree.Refines.{IsTable, delete_node_refines, search-delete_node}
use socket.Tree.Search.{data_of}

-- A session of the tunnel is expired.
abbrev pub gone : ℕ → ℕ → Cells → Bool
gone now j [] = false
gone now j ((a, e) ∷ cs) = (expired now e && j == e.tunnel_id) || gone now j cs

module _ {A : Type 0} ⦃o : TunnelOrder A⦄ where
  -- The table `t'` is `t` without the messages of these tunnels.
  abbrev pub Without : (ℕ → Bool) → Tree A → Tree A → Type 0
  Without out t t' =
      IsTable t'
      × ((j : ℕ) → data_of (search_node t' j) ≡ (if out j then none else data_of (search_node t j)))

  pub Without-trans :
      (out out' : ℕ → Bool) (t t' t'' : Tree A)
      → Without out t t'
      → Without out' t' t''
      → Without (λ j. out j || out' j) t t''
  Without-trans out out' t t' t'' (v, first) (v', second) =
      (v', λ j. second j ∙ ground (arith, first j))

  pub Without-none : (t : Tree A) → IsTable t → Without (λ j. false) t t
  Without-none t v = (v, λ j. refl)

  absent-none :
      (t : Tree A) (k j : ℕ)
      → search_node t k ≡ null
      → data_of (search_node t j) ≡ (if j == k then none else data_of (search_node t j))
  absent-none t k j e = elim (Bool-cases (j == k)) [
    | inl same ↦ rw same (ap (λ i. data_of (search_node t i)) ((==_iff j k).0 same) ∙ ap data_of e)
    | inr other ↦ rw other refl
  ]

  delete_found-Without :
      (t : Tree A) (k : ℕ) (n : Tree A)
      → IsTable t
      → search_node t k ≡ n
      → Returns (Without (λ j. j == k) t) (delete_found t k n)
  delete_found-Without t k null v e = (v, λ j. absent-none t k j e)
  delete_found-Without t k (node d l r h) v e =
      let (t', returned, v', listed) = delete_node_refines t k v in
      rw returned (v', λ j. search-delete_node t t' k j v returned)

  -- `purge` takes the message of the tunnel out of a valid table, if it has one.
  pub purge_lem : (t : Tree A) (k : ℕ) → IsTable t → Returns (Without (λ j. j == k) t) (purge t k)
  unfolding purge
  purge_lem t k v = delete_found-Without t k (search_node t k) v refl
