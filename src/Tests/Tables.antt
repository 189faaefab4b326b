-- ===== src/Tests/Tables.antt =====
-- The Path table at concrete messages: runs of the tree functions, and their theorems applied.
use socket.Base.{ℕ, ◌<◌, ◌≡◌, refl, true, none, [], arith, ◌==◌, if◌then◌else◌}
use socket.Base.Run.{ok}
use socket.Message.{PathMsg, path_order, compare_path_insert, compare_path_del}
use socket.Tree.{
  Tree, null, node, right_rotate, create_node, rebalance_insert, insert_node, min_node, set_min,
  depth, rebalance_delete, delete_loop, delete_node, search_node,
}
use socket.Tree.Contents.{to_list}
use socket.Tree.Refines.{
  IsTable, id_limit, insert_node_refines, delete_node_refines, search-insert_node,
  search-delete_node, search-IsTable,
}
use socket.Tree.Search.{data_of}
use socket.Tree.Table.{insert_list, delete_list, find_list}
use socket.Tree.Table.Find.{or_else}

-- A message for a tunnel.
abbrev path_msg : ℕ → PathMsg
path_msg k = record {
  src_ip = 0x01010101;
  dest_ip = 0x02020202;
  nexthop_ip = 0;
  p_srcip = 0;
  e_srcip = 0;
  tunnel_id = k;
  ifh = 0;
  interval = 30;
  prefix_len = 24;
  setup_priority = 7;
  hold_priority = 7;
  flags = 0;
  lsp_id = 1;
  dev = [];
  name = [];
}

abbrev leaf : ℕ → Tree PathMsg
leaf k = node (path_msg k) null null 1

abbrev small : Tree PathMsg
small = node (path_msg 5) (leaf 2) (node (path_msg 8) (leaf 7) null 2) 3

small-IsTable : IsTable small
unfolding path_order
small-IsTable = record { balanced = omega arith; ordered = omega arith }

-- The new message goes under the leaf 7, and the right side is rotated.
small_insert :
    insert_node true small (path_msg 6)
    ≡ ok (node (path_msg 5) (leaf 2) (node (path_msg 7) (leaf 6) (leaf 8) 2) 3)
unfolding insert_node rebalance_insert right_rotate create_node path_order compare_path_insert
small_insert = refl

-- The root goes: the least message on the right takes its place.
small_delete : delete_node small 5 ≡ ok (node (path_msg 7) (leaf 2) (leaf 8) 2)
unfolding delete_node delete_loop rebalance_delete right_rotate min_node set_min depth path_order
    compare_path_del
small_delete = refl

six_is_small : path_order.tunnel_id (path_msg 6) < id_limit
unfolding path_order
six_is_small = omega arith

insert_node_refines_example :
    (t' : Tree PathMsg) × (insert_node true small (path_msg 6) ≡ ok t')
    × IsTable t'
    × (to_list t' ≡ insert_list true (path_msg 6) (to_list small))
insert_node_refines_example = insert_node_refines true small (path_msg 6) small-IsTable six_is_small

delete_node_refines_example :
    (t' : Tree PathMsg) × (delete_node small 5 ≡ ok t')
    × IsTable t'
    × (to_list t' ≡ delete_list 5 (to_list small))
delete_node_refines_example = delete_node_refines small 5 small-IsTable

search-IsTable_example : data_of (search_node small 7) ≡ find_list 7 (to_list small)
search-IsTable_example = search-IsTable small 7 small-IsTable

abbrev grown : Tree PathMsg
grown = node (path_msg 5) (leaf 2) (node (path_msg 7) (leaf 6) (leaf 8) 2) 3

search-insert_node_example : data_of (search_node grown 8) ≡ (
    if 8 == path_order.tunnel_id (path_msg 6)
    then or_else (data_of (search_node small 8)) (path_msg 6)
    else data_of (search_node small 8))
search-insert_node_example =
    search-insert_node small grown (path_msg 6) 8 small-IsTable six_is_small small_insert

abbrev shrunk : Tree PathMsg
shrunk = node (path_msg 7) (leaf 2) (leaf 8) 2

search-delete_node_example :
    data_of (search_node shrunk 8) ≡ (if 8 == 5 then none else data_of (search_node small 8))
search-delete_node_example = search-delete_node small shrunk 5 8 small-IsTable small_delete
