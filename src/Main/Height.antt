-- ===== src/Main/Height.antt =====
-- How deep the tables are in the states that `main` of rsvpd.c reaches.
use socket.Base.{◌≤◌}
use socket.Main.{Server}
use socket.Main.Reach.{Reached, Reached-IsDaemon}
use socket.Message.{path_order, resv_order}
use socket.Tree.{get_height, depth}
use socket.Tree.Height.{depth-IsTable}

-- In every state that is reached from empty tables and lists through tunnels that are typed in and
-- rounds of the loop, each with memory, with fuel beyond the two lists, with route lookups that
-- return, and with texts of addresses and names of devices that fit, and through runs of the two
-- timers that return, each with fuel beyond the lists, no path from the root of one of the two
-- tables has more than 33 nodes, and the height fields of the two roots are 33 at most.
pub Reached-depth :
    (s : Server)
    → Reached s
    → ((depth s.daemon.router.path_tree ≤ 33) × (get_height s.daemon.router.path_tree ≤ 33))
      × ((depth s.daemon.router.resv_tree ≤ 33) × (get_height s.daemon.router.resv_tree ≤ 33))
Reached-depth s r =
    let v = (Reached-IsDaemon s r).router in
    (
      depth-IsTable s.daemon.router.path_tree v.paths,
      depth-IsTable s.daemon.router.resv_tree v.resvs,
    )
