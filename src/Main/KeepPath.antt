-- ===== src/Main/KeepPath.antt =====
-- What a round of `main` of rsvpd.c keeps of the Resv table and the labels: any property that
-- `resv_tree_insert` keeps. This is the part of `receive_path_message`.
use socket.Base.{ℕ, Bool, true, Option, inl, inr, Bool-cases, ◌==◌}
use socket.Base.Run.{ok, Yields, Yields-bind, Yields-trivial}
use socket.Label.{Bitmap}
use socket.Message.{PathMsg, ResvMsg, path_order, resv_order}
use socket.Packet.{Packet}
use socket.Packet.Path.{path_tree_insert}
use socket.Packet.Resv.{resv_tree_insert, send_resv_message}
use socket.Receive.{
  Router, Host, set_path_tree, insert_path, set_resv_tree, insert_resv, answer_path, tunnel_id_of,
  receive_path_message,
}
use socket.Tree.{Tree, null, node, search_node}
use socket.Tree.Refines.{IsTable}

-- `resv_tree_insert` on this packet keeps the property, with the old table and with the new one.
abbrev pub Inserts : Host → Packet → (Bitmap → Tree ResvMsg → Type 0) → Type 0
Inserts host buffer P =
    (t : Tree ResvMsg) (m : Bitmap) (hop : ℕ) (reach : Bool)
    → IsTable t
    → P m t
    → Yields (λ (t', m'). P m' t × P m' t')
        (resv_tree_insert host.routing host.new_resv host.resv_malloc host.resv_srcip t buffer hop
          reach m)

module _ (host : Host) (buffer : Packet) (P : Bitmap → Tree ResvMsg → Type 0)
    (inserts : Inserts host buffer P) where
  -- The Resv table and the has have the property.
  abbrev pub Has : Router → Type 0
  Has s = P s.labels s.resv_tree

  set_resv_tree-Has :
      (s : Router) (t : Tree ResvMsg) (m : Bitmap)
      → P m s.resv_tree × P m t
      → Has (set_resv_tree s t m)
  unfolding set_resv_tree
  set_resv_tree-Has s null m (old, new) = old
  set_resv_tree-Has s (node q l r h) m (old, new) = new

  insert_resv-Has :
      (s : Router) (hop : ℕ) (n : Tree ResvMsg)
      → IsTable s.resv_tree
      → Has s
      → Yields Has (insert_resv host buffer s hop n)
  unfolding insert_resv
  insert_resv-Has s hop (node q l r h) v has = has
  insert_resv-Has s hop null v has =
      Yields-bind (λ (t, m). P m s.resv_tree × P m t) Has
        (resv_tree_insert host.routing host.new_resv host.resv_malloc host.resv_srcip s.resv_tree
          buffer hop true s.labels)
        (λ (t, m). ok (set_resv_tree s t m)) (inserts s.resv_tree s.labels hop true v has)
        (λ (t, m) both. set_resv_tree-Has s t m both)

  answer_path-Has :
      (s : Router) (id : ℕ) (n : Tree PathMsg)
      → IsTable s.resv_tree
      → Has s
      → Yields (λ (s', g). Has s') (answer_path host buffer id s n)
  unfolding answer_path
  answer_path-Has s id null v has = has
  answer_path-Has s id (node p l r h) v has = elim (Bool-cases (p.nexthop_ip == 0)) [
    | inl end ↦ rw end (
        Yields-bind Has (λ (s', g). Has s')
          (insert_resv host buffer s p.p_srcip (search_node s.resv_tree id))
          (λ s'. ok (s', send_resv_message host.stack s'.resv_tree id))
          (insert_resv-Has s p.p_srcip (search_node s.resv_tree id) v has) (λ s' w. w))
    | inr on ↦ rw on has
  ]

  -- The Resv part of a router.
  abbrev pub ResvPart : Router → Type 0
  ResvPart s = IsTable s.resv_tree × Has s

  set_path_tree-ResvPart :
      (s : Router) (id : ℕ) (t : Tree PathMsg) (nhip : Option ℕ)
      → ResvPart s
      → ResvPart (set_path_tree s id t nhip).0
  unfolding set_path_tree
  set_path_tree-ResvPart s id null nhip w = w
  set_path_tree-ResvPart s id (node p l r h) nhip w = w

  insert_path-ResvPart :
      (s : Router) (id : ℕ) (n : Tree PathMsg)
      → ResvPart s
      → Yields (λ (s', n'). ResvPart s') (insert_path host buffer s id n)
  unfolding insert_path
  insert_path-ResvPart s id (node p l r h) w = w
  insert_path-ResvPart s id null w =
      Yields-bind (λ a. Unit {0}) (λ (s', n'). ResvPart s')
        (path_tree_insert host.routing host.new_path host.path_malloc s.nhip host.dev
          host.path_srcip s.path_tree buffer)
        (λ (t, nhip). ok (set_path_tree s id t nhip))
        (Yields-trivial (
          path_tree_insert host.routing host.new_path host.path_malloc s.nhip host.dev
            host.path_srcip s.path_tree buffer))
        (λ (t, nhip) _. set_path_tree-ResvPart s id t nhip w)

  pub receive_path_message-Has :
      (s : Router)
      → IsTable s.resv_tree
      → Has s
      → Yields (λ (s', g). Has s') (receive_path_message host buffer s)
  unfolding receive_path_message
  receive_path_message-Has s v has =
      let id = tunnel_id_of buffer in
      Yields-bind (λ (s', n). ResvPart s') (λ (s', g). Has s')
        (insert_path host buffer s id (search_node s.path_tree id))
        (λ (s', n). answer_path host buffer id s' n)
        (insert_path-ResvPart s id (search_node s.path_tree id) (v, has))
        (λ (s', n) (w, kept). answer_path-Has s' id n w kept)
