-- ===== src/Session.antt =====
-- The session lists of rsvp_db.c: `struct session` with `search_session`, `insert_session` and
-- `delete_session`, over an explicit heap. `malloc` gives an address as an argument, `time(NULL)` is
-- an argument too. What the functions print to the log has no effect on the lists and is left out.
pub mod Chain
pub mod Delete
pub mod Insert
pub mod Join
pub mod Remove
pub mod Search
pub mod Split
use socket.Base.{
  ℕ, zero, suc, ◌<◌, Bool, true, false, Option, none, some, List, ltb, ◌==◌, if◌then◌else◌, length,
}
use socket.Base.Run.{Run, ok, fault, out_of_fuel}

abbrev pub Ptr : Type 0
Ptr = ℕ

-- `NULL`.
abbrev pub nil : Ptr
nil = 0

-- `struct session` without its link.
pub record Entry : Type 0 where
  pub sender : List ℕ
  pub receiver : List ℕ
  pub tunnel_id : ℕ
  pub del : ℕ
  pub dest : ℕ
  pub last_path_time : ℕ

pub record Session : Type 0 where
  pub entry : Entry
  pub next : Ptr

abbrev pub session : Entry → Ptr → Session
session e n = record { entry = e; next = n }

abbrev pub Heap : Type 0
Heap = Ptr → Option Session

unfoldable pub write : Heap → Ptr → Option Session → Heap
write h p c a = if a == p then c else h a

abbrev pub Cmd : Type 0 → Type 0
Cmd A = Heap → Run (A × Heap)

abbrev pub and_then : {A B : Type 0} → Run (A × Heap) → (A → Cmd B) → Run (B × Heap)
and_then (ok (a, h)) k = k a h
and_then fault k = fault
and_then out_of_fuel k = out_of_fuel

infixl 5 ◌>>=◌ ◌>>◌
abbrev pub ◌>>=◌ : {A B : Type 0} → Cmd A → (A → Cmd B) → Cmd B
m >>= k = λ h. and_then (m h) k

abbrev pub ◌>>◌ : {A B : Type 0} → Cmd A → Cmd B → Cmd B
m >> n = m >>= λ _. n

abbrev pub pure : {A : Type 0} → A → Cmd A
pure a h = ok (a, h)

-- `*p`: a fault at `NULL` and at an address that holds no session.
unfoldable pub load : Ptr → Cmd Session
load p h = if p == nil then fault else elim (h p) [ none ↦ fault | some s ↦ ok (s, h) ]

-- `*p = s`, where `p` holds a session.
unfoldable pub store : Ptr → Session → Cmd (Unit {0})
unfolding load
store p s = do load p; (λ h. ok (tt, write h p (some s)))

unfoldable pub free : Ptr → Cmd (Unit {0})
unfolding load
free p = do load p; (λ h. ok (tt, write h p none))

-- `strcpy` into a `char [16]`: a longer text writes past the end.
unfoldable pub strcpy : List ℕ → Cmd (List ℕ)
strcpy text = if ltb (length text) 16 then pure text else (λ _. fault)

-- The `while` loop, with fuel.
unfoldable pub search_loop : ℕ → ℕ → Ptr → ℕ → Cmd Ptr
unfolding load store
search_loop zero now temp tunnel_id = λ _. out_of_fuel
search_loop (suc fuel) now temp tunnel_id =
    let rest = λ (next : Ptr). search_loop fuel now next tunnel_id in
    if temp == nil then pure nil else do
      s ← load temp
      if s.entry.tunnel_id == tunnel_id
          then (do store temp (session (record s.entry { last_path_time = now }) s.next); pure temp)
          else rest s.next

unfoldable pub search_session : ℕ → ℕ → Ptr → ℕ → Cmd Ptr
unfolding search_loop
search_session fuel now sess tunnel_id = search_loop fuel now sess tunnel_id

-- The two branches write the same fields, and the link is the old head in both. The test
-- `temp < 0` never holds of a pointer, so a NULL from `malloc` is written through.
unfoldable pub insert_session : Ptr → ℕ → Ptr → ℕ → List ℕ → List ℕ → ℕ → Cmd Ptr
unfolding strcpy
insert_session malloc now sess t_id sender receiver dest =
    if malloc == nil then (λ _. fault) else do
      from ← strcpy sender
      to ← strcpy receiver
      (λ h. ok (
        tt,
        write h malloc (
            some (
              session
                (record {
                  sender = from;
                  receiver = to;
                  tunnel_id = t_id;
                  del = 0;
                  dest = dest;
                  last_path_time = now;
                })
                sess)),
      ))
      pure malloc

-- `*sess = *sess->next; free(temp)` copies the next session over this one and frees the next.
unfoldable pub delete_session : Ptr → Ptr → Ptr → Cmd Ptr
unfolding load store free
delete_session head sess prev =
    if head == nil
    then pure nil
    else if head == sess
    then (do n ← load head; free head; pure n.next)
    else do
      n ← load sess
      if n.next == nil
          then (do p ← load prev; store prev (session p.entry nil); free sess; pure head)
          else (do m ← load n.next; store sess m; free n.next; pure head)
