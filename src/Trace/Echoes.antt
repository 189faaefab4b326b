-- ===== src/Trace/Echoes.antt =====
-- What `trace` of rsvpd.c sends, counts and keeps.
use socket.Base.{
  ℕ, zero, suc, ◌+◌, ◌%◌, ◌≡◌, ◌≤◌, ◌⊎◌, inl, inr, refl, Bool, true, false, not, ◌&&◌, Bool-cases,
  Option, none, some, List, [], ◌∷◌, length, arith,
}
use socket.Checksum.{AreBytes, checksum, checksum-write16}
use socket.Packet.{Packet, write8, write16, read8, read16, htons}
use socket.Trace.{
  SubObject, Reply, System, Traced, request, echo_request, hop_of, is_reached, trace_loop, trace,
  max_hops,
}

request-AreBytes : (pid ttl : ℕ) → AreBytes (request pid ttl)
unfolding request write8 write16
request-AreBytes pid ttl i = ground arith

-- The request of a TTL, with a checksum that a receiver accepts.
abbrev pub IsEcho : ℕ → Packet → Type 0
IsEcho ttl p = (checksum p 64 ≡ 0) × (read8 0 p ≡ 8) × (read16 6 p ≡ ttl % 65536)

echo_request-IsEcho : (pid ttl : ℕ) → IsEcho ttl (echo_request pid ttl)
unfolding echo_request request read16 read8 write16 write8
echo_request-IsEcho pid ttl = (
  checksum-write16 (request pid ttl) 64 1 (request-AreBytes pid ttl) (omega arith) (omega arith)
      refl,
  refl,
  omega arith,
)

-- The packets are the requests of the TTLs from `ttl` on.
abbrev pub AreEchoes : ℕ → List Packet → Type 0
AreEchoes ttl [] = Unit
AreEchoes ttl (p ∷ ps) = IsEcho ttl p × AreEchoes (ttl + 1) ps

-- Nothing, or one hop of which the numbers are 0.
abbrev pub IsBlank : Option SubObject → Type 0
IsBlank none = Unit
IsBlank (some o) = (o.hop_type ≡ 0) × (o.length ≡ 0) × (o.prefix_len ≡ 0)

-- At most `rounds` requests of the TTLs from `ttl` on are sent, and all are counted but perhaps the
-- last one.
abbrev pub IsTrace : ℕ → ℕ → Traced → Type 0
IsTrace rounds ttl t =
    AreEchoes ttl t.sent
    × (length t.sent ≤ rounds)
    × ((t.count ≡ length t.sent) ⊎ (t.count + 1 ≡ length t.sent))
    × IsBlank t.explicit

hop_of-IsBlank : (r : Reply) → IsBlank (some (hop_of r))
unfolding htons
hop_of-IsBlank r = (refl, refl, refl)

trace_loop-IsTrace :
    (sys : System) (pid rounds ttl : ℕ) (first : Bool) (explicit : Option SubObject)
    → IsBlank explicit
    → IsTrace rounds ttl (trace_loop sys pid rounds ttl first explicit)
unfolding trace_loop
trace_loop-IsTrace sys pid zero ttl first explicit h = (tt, omega arith, inl refl, h)
trace_loop-IsTrace sys pid (suc rounds) ttl first explicit h =
    let p = echo_request pid ttl in
    let r = sys.reply ttl p in
    let is_echo = echo_request-IsEcho pid ttl in
    let (echoes, bound, counted, blank) =
      trace_loop-IsTrace sys pid rounds (ttl + 1) false (some (hop_of r)) (hop_of-IsBlank r) in
    elim (Bool-cases (not (sys.sets_ttl ttl))) [
      | inl unset ↦ rw unset (tt, omega arith, inl refl, h)
      | inr set ↦ elim (Bool-cases (not first && not (sys.reallocates ttl))) [
        | inl no_memory ↦ rw (set, no_memory) ((is_echo, tt), omega arith, inr (omega arith), tt)
        | inr memory ↦ elim (Bool-cases (is_reached r)) [
          | inl here ↦
              rw (set, memory, here)
                ((is_echo, tt), omega arith, inl (omega arith), hop_of-IsBlank r)
          | inr on ↦
              rw (set, memory, on) ((is_echo, echoes), omega arith, ground (arith, counted), blank)
        ]
      ]
    ]

-- Whatever the network answers, `trace` sends at most 30 echo requests, with the TTLs 1, 2, … as
-- their numbers and each with a checksum that makes the checksum of its 64 bytes 0. It counts all
-- of them, or all but the last one, and keeps one hop at most, with 0 as its type, length and
-- prefix length.
pub trace_lem : (sys : System) (pid : ℕ) → IsTrace max_hops 1 (trace sys pid)
unfolding trace
trace_lem sys pid = elim (Bool-cases (sys.opens && sys.has_memory)) [
  | inl ready ↦ rw ready (trace_loop-IsTrace sys pid max_hops 1 true none tt)
  | inr stuck ↦ rw stuck (tt, omega arith, inl refl, tt)
]
