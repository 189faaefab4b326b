-- ===== src/Lib.antt =====
-- The RSVP-TE daemon: its tables, its session lists and its label pool.
--
-- The daemon keeps a table of Path messages and one of Resv messages, two AVL trees ordered by
-- tunnel id, and for each a linked list of sessions with the time of the last message. For a Path
-- message that arrives it inserts a session and a node where there are none, and sends the message
-- on to the next hop, or answers with a Resv message where the tunnel ends. The Resv message goes
-- back along the tunnel, and each router between the ends takes a label from the pool for it. The
-- timers walk the session lists, resend what is live, and delete what has expired.
--
-- The files and the code they model:
--   Base      helpers: Boolean tests, lists, integers, digits, and the results of C code, which
--             are a value, a memory fault (`fault`), or fuel that ran out (`out_of_fuel`).
--   Message   rsvp_db.h, `path_msg` and `resv_msg`; rsvp_db.c, the comparison functions.
--   Tree      rsvp_db.c, the AVL trees: `create_node`, the rotations, `insert_node`,
--             `min_node`, `delete_node`, `search_node`. The order is a parameter, as in the code.
--             What prints a table is Tree/Display and Tree/Debug; the texts are arguments.
--   Session   rsvp_db.c, the session lists: `search_session`, `insert_session`,
--             `delete_session` over a heap of sessions; `insert`, and with it
--             `get_ip` and `dst_reached` of rsvp_msg.c.
--   Label     label_mgt.c: `allocate_label`, `free_label` and the bitmap.
--   Packet    rsvp_msg.h, the layout of the packets; rsvp_msg.c, `send_path_message` and
--             `send_resv_message`; rsvp_db.c, `path_tree_insert` and `resv_tree_insert`. The
--             objects are read again the way RFC 2205 describes them. The structures, as the ABI
--             lays them out, are Packet/Layout.
--   Receive   rsvp_msg.c, `receive_path_message`, over the two trees, the labels and `nhip`.
--   Route     route_dump.c: the interface that the messages use, and behind it
--             `is_ip_in_subnet` (Route/Subnet) and the walk over the route dump (Route/Dump). What
--             a dump holds, as a list of routes, is Route/Lookup. The netlink socket is
--             Route/Netlink, over the results of the system calls.
--   Daemon    rsvp_msg.c, `receive_resv_message`, over the tables, the session lists and the heap;
--             the commands that it runs are values.
--   Timer     timer_event.c: `path_timer_handler` and `resv_timer_handler`, walks over the lists in
--             which every read of a session can fault, and the start of the timers (Timer/Event).
--   Update    rsvp_db.c, `update_tables`, which removes a label route and which nothing calls.
--   Main      rsvpd.c: the tunnel that is typed in when `main` starts (Main/Configure), and the loop
--             that receives packets, one round at a time; Main/Reach has the states that they
--             reach, Main/Distinct their labels, Main/Ranges the ranges of the members. What a round
--             keeps of the Resv table is Main/KeepPath and Main/KeepReceive, for any property.
--   Network   routers along a tunnel, each with the handlers of rsvp_msg.c: the Path message goes to
--             the end and the Resv message comes back. The network is an argument.
--   Checksum  rsvpd.c, `checksum`.
--   Trace     rsvpd.c, `trace`, a traceroute. The answers of the network are an argument.
--   Prototype rsvp_msg1.c, an older version of the messages: what it sends, and its
--             `receive_resv_message`. The text of the next hop is an argument.
--   Tests     runs at concrete inputs, and the theorems at them.
--
-- How the state corresponds to the code. A `db_node` that no other pointer reaches is a value of
-- `Tree`, with the height field the code keeps. The sessions are shared and relinked in place,
-- so they are cells of a heap from addresses to `Option Session`; the address 0 is NULL, and a
-- read or write of a cell that is free is a fault. The bitmap of the labels is a function from
-- word indices, and an access past its end is a fault. Ids and times are natural numbers, an
-- `int` that can be negative (a balance) is an integer.
--
-- A packet is a function from indices to bytes, laid out and ordered as on a little-endian host;
-- what stands in it, or in memory from `malloc`, before it is written is an argument. The text of
-- an address is the address, and the text " " of no address is `none`.
--
-- Fuel. `search_session` and the walks of the timers run on fuel, one unit a session, so fuel beyond
-- the length of the list is enough; `resv_timer_handler` also searches the Resv list, and fuel beyond
-- both lists together is enough. `delete_node` calls itself on a right subtree that it has
-- changed, so it runs on fuel as well, one unit more than the depth of the tree, since each call is
-- on a tree that is less deep. `allocate_label` makes 65520 rounds, as the code does.
--
-- A message of the route dump is given by its header, its `rtmsg` and the list of the attributes
-- that the macros of rtnetlink.h find in it, and the dump is one of AF_INET, which is what the
-- request asks for. A shift by 32 has a value that is an argument. `receive_resv_message` reads
-- `p->srcip`, a member that `resv_msg` has not got; the address is an argument.
--
-- The messages take the two lookups as an interface of functions that return. Route/Dump has the
-- same lookups with their faults (the name of an unknown interface, a failed receipt, an error
-- message), and Route/Answers relates the two; where a lookup faults, the model of the messages says
-- nothing. The name of the device that a lookup leaves is copied into 16 bytes, and a longer one is
-- a fault; that it fits is a hypothesis on messages that are inserted (Route/Names is about the
-- names). A shift by 31 has the value that compilers give, the bit of the sign.
--
-- Not modelled: the raw sockets, the threads and their mutexes, and the log file. What `malloc`
-- returns is an argument of the functions that call it. The socket is assumed to hand over the
-- bytes of a packet behind an IP header of 20 bytes, which the theorems on a message that goes
-- from one router to another state as a hypothesis. A timer that fires is a call of its handler;
-- it does not run while a packet is handled. Also left out: `delete_timer` and `free_tree`, which
-- nothing calls, and the older programs socket1.c and socket2.c, which call functions with other
-- arguments than the headers declare.
pub mod Base
pub mod Checksum
pub mod Daemon
pub mod Label
pub mod Main
pub mod Message
pub mod Network
pub mod Packet
pub mod Prototype
pub mod Receive
pub mod Route
pub mod Session
pub mod Tests
pub mod Timer
pub mod Trace
pub mod Tree
pub mod Update
