-- ===== src/Tests/Hops.antt =====
-- A traceroute that the third router answers.
use socket.Base.{◌≡◌, refl, true, false, ◌+◌, ◌==◌, if◌then◌else◌, length}
use socket.Packet.{read8}
use socket.Trace.{System, Traced, trace, max_hops}
use socket.Trace.Echoes.{IsTrace, trace_lem}

-- The routers 101 and 102 say that the time is exceeded, the next one replies; its header has 20
-- bytes.
abbrev line : System
line = record {
  opens = true;
  has_memory = true;
  sets_ttl = λ ttl. true;
  reallocates = λ ttl. true;
  reply = λ ttl packet. record {
    failed = false;
    address = 100 + ttl;
    bytes = λ i. if i == 0 then 69 else if ttl == 3 then 0 else 11;
  };
}

trace_lem_example : IsTrace max_hops 1 (trace line 7)
trace_lem_example = trace_lem line 7

three_hops : length (Traced.sent (trace line 7)) ≡ 3
unfolding trace read8
three_hops = refl
