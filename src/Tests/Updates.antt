-- ===== src/Tests/Updates.antt =====
-- The label route of a tunnel is taken out again.
use socket.Base.{◌≡◌, refl, none, some, inl, arith}
use socket.Base.Run.{Returns}
use socket.Message.{ResvMsg, path_order, resv_order, compare_resv_del}
use socket.Receive.{Router}
use socket.Tests.Packets.{path_msg, path_table, path_found, resv_msg, zeros}
use socket.Tests.Routers.{host}
use socket.Tree.{Tree, null, node, search_node}
use socket.Tree.Search.{data_of}
use socket.Update.{Updated, update_tables, update_tables_lem}

abbrev with_label : ResvMsg
with_label = record resv_msg { in_label = 17 }

abbrev table : Tree ResvMsg
table = node with_label null null 1

abbrev router : Router
router = record { path_tree = path_table; resv_tree = table; labels = zeros; nhip = none }

found : data_of (search_node table 0x1234) ≡ some with_label
unfolding search_node resv_order compare_resv_del
found = refl

update_tables_lem_example :
    Returns (Updated host router with_label path_msg) (update_tables host router 0x1234)
update_tables_lem_example =
    update_tables_lem host router 0x1234 with_label path_msg found path_found (omega arith)
      (omega arith) (inl refl)
