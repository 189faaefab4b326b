-- ===== src/Tests/Displays.antt =====
-- What is printed of a table.
use socket.Base.{ℕ, ◌≡◌, refl, List, [], ◌∷◌, ◌++◌, arith}
use socket.Base.Run.{ok}
use socket.Base.Take.{take}
use socket.Message.{ResvMsg}
use socket.Tests.Packets.{path_table, resv_table}
use socket.Tree.Debug.{values_of_path, display_tree_debug, display_tree_debug_lem, logged}
use socket.Tree.Contents.{to_list}
use socket.Tree.Display.{display_tree, texts, display_tree_lem}

-- A text of three characters.
abbrev text : ResvMsg → List ℕ
text r = 84 ∷ r.tunnel_id ∷ 10 ∷ []

-- A buffer of three bytes has room for two characters.
display_tree_lem_example :
    display_tree text resv_table [] 3 ≡ ok (take 2 ([] ++ texts text (to_list resv_table)))
display_tree_lem_example = display_tree_lem text resv_table [] 3 (omega arith) (omega arith)

two_characters : display_tree text resv_table [] 3 ≡ ok (84 ∷ 0x1234 ∷ [])
unfolding display_tree take
two_characters = refl

display_tree_debug_lem_example :
    display_tree_debug values_of_path path_table ≡ logged values_of_path (to_list path_table)
display_tree_debug_lem_example = display_tree_debug_lem values_of_path path_table
