-- ===== src/Tree/Debug.antt =====
-- `display_tree_debug` of rsvp_db.c: what it logs of a tree.
use socket.Base.{ℕ, ◌≡◌, refl, sym, ap, List, [], ◌∷◌, ◌++◌}
use socket.Message.{PathMsg, ResvMsg}
use socket.Tree.{Tree, null, node}
use socket.Tree.Contents.{to_list}

-- A call of `log_message`: "No nodes in tree", or the values of a message.
pub data LogLine : Type 0 where
  no_nodes : LogLine
  path_values : ℕ → ℕ → ℕ → ℕ → ℕ → ℕ → LogLine
  resv_values : ℕ → ℕ → ℕ → ℕ → ℕ → ℕ → ℕ → ℕ → ℕ → LogLine

abbrev pub values_of_path : PathMsg → LogLine
values_of_path p = path_values p.tunnel_id p.src_ip p.dest_ip p.nexthop_ip p.p_srcip p.e_srcip

abbrev pub values_of_resv : ResvMsg → LogLine
values_of_resv r =
    resv_values r.tunnel_id r.src_ip r.dest_ip r.nexthop_ip r.p_srcip r.e_srcip r.prefix_len
      r.in_label r.out_label

unfoldable pub display_tree_debug : {A : Type 0} → (A → LogLine) → Tree A → List LogLine
display_tree_debug values null = no_nodes ∷ []
display_tree_debug values (node data' l r h) =
    display_tree_debug values l ++ values data' ∷ display_tree_debug values r

-- "No nodes in tree" before, between and after the messages.
abbrev pub logged : {A : Type 0} → (A → LogLine) → List A → List LogLine
logged values [] = no_nodes ∷ []
logged values (d ∷ ds) = no_nodes ∷ values d ∷ logged values ds

logged-append :
    {A : Type 0} (values : A → LogLine) (ds : List A) (d : A) (es : List A)
    → logged values (ds ++ d ∷ es) ≡ logged values ds ++ values d ∷ logged values es
logged-append values [] d es = refl
logged-append values (x ∷ ds) d es =
    ap (λ xs. no_nodes ∷ values x ∷ xs) (logged-append values ds d es)

-- `display_tree_debug` logs each message of a tree once, from left to right, and "No nodes in tree"
-- before, between and after them, so also where there are nodes.
pub display_tree_debug_lem :
    {A : Type 0} (values : A → LogLine) (t : Tree A)
    → display_tree_debug values t ≡ logged values (to_list t)
unfolding display_tree_debug
display_tree_debug_lem values null = refl
display_tree_debug_lem values (node d l r h) =
    rw (display_tree_debug_lem values l, display_tree_debug_lem values r)
      (sym (logged-append values (to_list l) d (to_list r)))
