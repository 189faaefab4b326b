-- ===== src/Trace.antt =====
-- `trace` of rsvpd.c, which nothing calls: a traceroute that sends up to 30 echo requests. What the
-- system calls and the network answer is an argument; what it prints is left out.
pub mod Echoes
use socket.Base.{
  ℕ, zero, suc, ◌+◌, ◌*◌, ◌%◌, Bool, true, false, not, ◌&&◌, Option, none, some, List, [], ◌∷◌,
  ◌==◌, if◌then◌else◌,
}
use socket.Checksum.{checksum}
use socket.Packet.{Packet, write8, write16, read8, htons, ◌▸◌}

-- `MAX_HOPS`.
abbrev pub max_hops : ℕ
max_hops = 30

-- `struct sub_object`.
pub record SubObject : Type 0 where
  pub hop_type : ℕ
  pub length : ℕ
  pub nexthop_ip : ℕ
  pub prefix_len : ℕ
  pub reserved : ℕ

-- What `recvfrom` leaves: whether it failed, `reply_addr`, and `recvbuf`.
pub record Reply : Type 0 where
  pub failed : Bool
  pub address : ℕ
  pub bytes : Packet

-- Whether the calls of `socket`, of `malloc`, and for a TTL those of `setsockopt` and `realloc`
-- succeed, and the reply to a request.
pub record System : Type 0 where
  pub opens : Bool
  pub has_memory : Bool
  pub sets_ttl : ℕ → Bool
  pub reallocates : ℕ → Bool
  pub reply : ℕ → Packet → Reply

-- The requests that were sent, `count`, and `explicit`, which is `none` before it is written and for
-- NULL.
pub record Traced : Type 0 where
  pub sent : List Packet
  pub count : ℕ
  pub explicit : Option SubObject

-- The echo request before its checksum; the identifier is 16 bits wide.
unfoldable pub request : ℕ → ℕ → Packet
request pid ttl = (λ i. 0) ▸ write8 0 8 ▸ write8 1 0 ▸ write16 4 pid ▸ write16 6 ttl

unfoldable pub echo_request : ℕ → ℕ → Packet
echo_request pid ttl = write16 2 (checksum (request pid ttl) 64) (request pid ttl)

-- The numbers of 16 bits are stored in a byte.
abbrev pub hop_of : Reply → SubObject
hop_of r = record {
  hop_type = htons 1 % 256;
  length = htons 8 % 256;
  nexthop_ip = r.address;
  prefix_len = htons 32 % 256;
  reserved = 0;
}

-- `icmp_type` behind the IP header is `ICMP_ECHOREPLY`.
abbrev pub is_reached : Reply → Bool
is_reached r = not r.failed && read8 (read8 0 r.bytes % 16 * 4) r.bytes == 0

-- A round that sends and receives, before the rounds that follow.
abbrev pub add_round : Packet → Reply → Traced → Traced
add_round packet r t = record { sent = packet ∷ t.sent; count = t.count + 1; explicit = t.explicit }

-- The loop, with the rounds that are left, `ttl`, `first`, and what `explicit` points at.
unfoldable pub trace_loop : System → ℕ → ℕ → ℕ → Bool → Option SubObject → Traced
unfolding echo_request
trace_loop sys pid zero ttl first explicit = record { sent = []; count = 0; explicit = explicit }
trace_loop sys pid (suc rounds) ttl first explicit =
    let packet = echo_request pid ttl in
    let r = sys.reply ttl packet in
    let rest = trace_loop sys pid rounds (ttl + 1) false (some (hop_of r)) in
    if not (sys.sets_ttl ttl)
    then record { sent = []; count = 0; explicit = explicit }
    else if not first && not (sys.reallocates ttl)
    then record { sent = packet ∷ []; count = 0; explicit = none }
    else if is_reached r
    then record { sent = packet ∷ []; count = 1; explicit = some (hop_of r) }
    else add_round packet r rest

-- `trace`, where nothing is traced without a socket and without memory.
unfoldable pub trace : System → ℕ → Traced
unfolding trace_loop
trace sys pid =
    if sys.opens && sys.has_memory
    then trace_loop sys pid max_hops 1 true none
    else record { sent = []; count = 0; explicit = none }
