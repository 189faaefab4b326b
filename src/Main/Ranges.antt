-- ===== src/Main/Ranges.antt =====
-- The members of the messages in the Resv table, as rsvpd.c fills it, are in the ranges of their C types.
use socket.Base.{
  ℕ, ◌^◌, ◌<◌, ◌≡◌, refl, sym, subst, Bool, true, false, Option, none, some, inl, inr, Bool-cases,
  ◌==◌, arith,
}
use socket.Base.Run.{ok, ◌>>=◌, Returns, Yields, Returns-Yields, Returns-bind, Returns-and}
use socket.Label.{Bitmap, no_label, allocate_label}
use socket.Label.Allocate.{Allocated, allocate_label_lem}
use socket.Main.{Server, receive}
use socket.Main.KeepPath.{Inserts}
use socket.Main.KeepReceive.{OutcomeHas, receive-Has}
use socket.Main.LabelInsert.{insert_node-Finds}
use socket.Main.Valid.{IsDaemon, IsReady, OutcomeIsDaemon, receive-IsDaemon}
use socket.Message.{PathMsg, ResvMsg, resv_order}
use socket.Daemon.{Env}
use socket.Packet.{Packet, read16, read32, htonl, is_true, inet_pton}
use socket.Packet.Bytes.{htons-bound}
use socket.Packet.Ranges.{IsBytes, read32-bound}
use socket.Packet.Resv.{read_resv, set_labels, set_hop, set_srcip, label_resv, resv_tree_insert}
use socket.Packet.ResvTrip.{IsResvMsg}
use socket.Receive.{Host}
use socket.Route.{SrcIp}
use socket.Timer.Event.{Clock}
use socket.Tree.{Tree, search_node, insert_node}
use socket.Tree.Refines.{IsTable}
use socket.Tree.Search.{data_of}

-- What memory from `malloc` and the routes give is in the ranges of its C types.
pub record IsTyped (host : Host) : Type 0 where
  pub new_path : (p : PathMsg) → host.new_path ≡ some p → p.e_srcip < 2 ^ 32
  pub new_resv : (p : ResvMsg) → host.new_resv ≡ some p → p.e_srcip < 2 ^ 32
  pub address :
      (hop : Option ℕ) (out : SrcIp) (a : ℕ)
      → (host.routing.get_srcip hop out).1.srcip ≡ some a
      → a < 2 ^ 32

-- The members that go into a packet, and the previous hop.
abbrev pub IsTypedResv : ResvMsg → Type 0
IsTypedResv q = IsResvMsg q × (q.p_srcip < 2 ^ 32)

abbrev pub InRange : Bitmap → Tree ResvMsg → Type 0
InRange m t = (k : ℕ) (q : ResvMsg) → data_of (search_node t k) ≡ some q → IsTypedResv q

inet_pton-bound :
    (text : Option ℕ) (old : ℕ)
    → ((a : ℕ) → text ≡ some a → a < 2 ^ 32)
    → old < 2 ^ 32
    → inet_pton text old < 2 ^ 32
inet_pton-bound none old h lt = lt
inet_pton-bound (some a) old h lt = h a refl

-- A message without its label in, which is given.
abbrev Ranges : ResvMsg → Type 0
Ranges q =
    (q.src_ip < 2 ^ 32)
    × (q.dest_ip < 2 ^ 32)
    × (q.e_srcip < 2 ^ 32)
    × (q.tunnel_id < 2 ^ 16)
    × (q.p_srcip < 2 ^ 32)

pub set_srcip-e_srcip :
    (host : Host) (srcip : Option ℕ) (q : ResvMsg)
    → IsTyped host
    → Ranges q
    → Ranges (set_srcip host.routing srcip q)
      × ((set_srcip host.routing srcip q).in_label ≡ q.in_label)
unfolding set_srcip set_hop
set_srcip-e_srcip host srcip q typed (src, dest, hop, id, previous) =
    let out : SrcIp = record { srcip = srcip; ifh = 0 } in
    let new = host.routing.get_srcip (some q.nexthop_ip) out in
    elim (Bool-cases (is_true new.0)) [
      | inl found ↦ rw found (
        (
          src,
          dest,
          inet_pton-bound new.1.srcip q.e_srcip (typed.address (some q.nexthop_ip) out) hop,
          id,
          previous,
        ),
        refl,
      )
      | inr lost ↦ rw lost ((src, dest, hop, id, previous), refl)
    ]

module _ (host : Host) (srcip : Option ℕ) (buffer : Packet) (typed : IsTyped host)
    (bytes : IsBytes buffer) where
  set_srcip-IsTypedResv :
      (q : ResvMsg) → Ranges q → q.in_label < 2 ^ 32 → IsTypedResv (set_srcip host.routing srcip q)
  set_srcip-IsTypedResv q ranges lt =
      let ((src, dest, hop, id, previous), label) = set_srcip-e_srcip host srcip q typed ranges in
      (
        record {
          src_ip = src;
          dest_ip = dest;
          e_srcip = hop;
          in_label = subst (λ l. l < 2 ^ 32) (sym label) lt;
          tunnel_id = id;
        },
        previous,
      )

  read_resv-Ranges :
      (hop : ℕ) (new : ResvMsg) → host.new_resv ≡ some new → Ranges (read_resv buffer hop new)
  unfolding read_resv
  read_resv-Ranges hop new e = (
    read32-bound buffer 40 bytes,
    read32-bound buffer 32 bytes,
    typed.new_resv new e,
    htons-bound (read16 38 buffer),
    read32-bound buffer 48 bytes,
  )

  label_resv-IsTypedResv :
      (reach : Bool) (m : Bitmap) (q : ResvMsg)
      → Ranges q
      → Returns (λ (q', m'). IsTypedResv q') (label_resv host.routing srcip reach buffer m q)
  unfolding label_resv set_labels set_hop
  label_resv-IsTypedResv true m q ranges =
      set_srcip-IsTypedResv (set_labels 3 no_label q) ranges (omega arith)
  label_resv-IsTypedResv false m q (src, dest, hop, id, previous) =
      elim (Bool-cases (q.nexthop_ip == 0)) [
        | inl head ↦ rw head (
          record {
            src_ip = src;
            dest_ip = dest;
            e_srcip = omega arith;
            in_label = omega arith;
            tunnel_id = id;
          },
          previous,
        )
        | inr between ↦ rw between (
            Returns-bind (Allocated m 0) (λ (q', m'). IsTypedResv q') (allocate_label m)
              (λ (m', label).
                ok (
                  set_srcip host.routing srcip (set_labels label (htonl (read32 80 buffer)) q),
                  m',
                ))
              (allocate_label_lem m)
              (λ (m', label) given.
                set_srcip-IsTypedResv (set_labels label (htonl (read32 80 buffer)) q)
                  (src, dest, hop, id, previous) (allocated-bound label given)))
      ]
    where
      allocated-bound : {m' : Bitmap} (label : ℕ) → Allocated m 0 (m', label) → label < 2 ^ 32
      allocated-bound label (inl (k, lo, hi, named, _, _, _)) = omega arith
      allocated-bound label (inr (none_left, _, _)) = omega arith

  insert_node-InRange :
      (malloc : Bool) (t : Tree ResvMsg) (q : ResvMsg) (m : Bitmap)
      → IsTable t
      → InRange m t
      → IsTypedResv q
      → Returns
          (λ (t', m'). InRange m' t × InRange m' t')
          (insert_node malloc t q >>= λ t'. ok (t', m))
  insert_node-InRange malloc t q m v old new =
      let (t', e, _, finds) = insert_node-Finds malloc t q v new.0.tunnel_id in
      rw e (
        old,
        λ k p found. elim (finds k p found) [
          | inl before ↦ old k p before
          | inr (at, same) ↦ subst IsTypedResv (sym same) new
        ],
      )

  with_memory :
      (new : Option ResvMsg) (malloc : Bool) (t : Tree ResvMsg) (m : Bitmap) (hop : ℕ)
      (reach : Bool)
      → host.new_resv ≡ new
      → IsTable t
      → InRange m t
      → Yields
          (λ (t', m'). InRange m' t × InRange m' t')
          (resv_tree_insert host.routing new malloc srcip t buffer hop reach m)
  unfolding resv_tree_insert
  with_memory none malloc t m hop reach e v old = tt
  with_memory (some new) malloc t m hop reach e v old =
      let p = read_resv buffer hop new in
      Returns-Yields (λ (t', m'). InRange m' t × InRange m' t') _
        (Returns-bind (λ (q, m'). IsTypedResv q) (λ (t', m'). InRange m' t × InRange m' t')
          (label_resv host.routing srcip reach buffer m p)
          (λ (q, m'). insert_node malloc t q >>= λ t'. ok (t', m'))
          (label_resv-IsTypedResv reach m p (read_resv-Ranges hop new e))
          (λ (q, m') new_range. insert_node-InRange malloc t q m' v old new_range))

pub Inserts-InRange :
    (host : Host) (buffer : Packet) → IsTyped host → IsBytes buffer → Inserts host buffer InRange
Inserts-InRange host buffer typed bytes t m hop reach v old =
    with_memory host host.resv_srcip buffer typed bytes host.new_resv host.resv_malloc t m hop reach
      refl v old

-- Let the addresses that the routes and malloc give be below 2^32, and the packet be bytes. On a
-- valid daemon, with memory, fuel beyond the two lists, route lookups that return, and texts and
-- names of devices that fit, a round of the loop
-- of main returns with no memory fault, in a valid state; and if every message of the Resv table
-- has its source, destination and outgoing address, its previous hop, its incoming label and its
-- tunnel id in the ranges of their C types, so has every message of the new table.
pub receive-InRange :
    (env : Env) (clock : Clock) (packet : Option Packet) (s : Server)
    → IsDaemon s.daemon
    → IsReady env s.daemon
    → IsTyped env.host
    → ((buffer : Packet) → packet ≡ some buffer → IsBytes buffer)
    → InRange s.daemon.router.labels s.daemon.router.resv_tree
    → Returns (λ o. OutcomeIsDaemon o × OutcomeHas InRange o) (receive env clock packet s)
receive-InRange env clock packet s v ready typed bytes old =
    Returns-and OutcomeIsDaemon (OutcomeHas InRange) (receive env clock packet s)
      (receive-IsDaemon env clock packet s v ready)
      (receive-Has env clock InRange packet s (λ b e. Inserts-InRange env.host b typed (bytes b e))
        v.router.resvs old)
