-- ===== src/Session/Join.antt =====
-- `insert` of rsvp_db.c, which `receive_resv_message` calls: it looks the tunnel's session up, and
-- inserts one where there is none. With it, `get_ip` and `dst_reached` of rsvp_msg.c.
use socket.Base.{
  ℕ, Option, none, some, List, inl, inr, Bool-cases, refl, false, ◌∙◌, ◌∷◌, ◌+◌, ◌==◌,
  if◌then◌else◌, ◌≡◌, ◌<◌, ◌≢◌, length,
}
use socket.Base.Int.{ℤ, pos, negsuc}
use socket.Base.Run.{Run, ok, fault, out_of_fuel, Returns, Returns-imp}
use socket.Packet.{Packet, read16, read32, htons, session_obj, ip, is_true}
use socket.Route.{NextHop, Routing}
use socket.Session.{Ptr, nil, Heap, Cmd, pure, and_then, ◌>>=◌, search_session, insert_session}
use socket.Session.Chain.{Cells, Chain, has}
use socket.Session.Search.{Searched, find_cell, touch, search_session_lem}
use socket.Session.Insert.{has_of_none, new_entry, insert_session_lem}

-- `dst_reached`: 1 where the route of the address has no next hop, 0 where it has one, -1 where
-- there is no route. `out` is what stands in the variables that `get_nexthop` writes.
unfoldable pub dst_reached : Routing → NextHop → ℕ → ℤ
dst_reached routing out address = by_status (routing.get_nexthop address out)
  where
    by_text : Option ℕ → ℤ
    by_text none = pos 1
    by_text (some a) = pos 0

    by_status : ℤ × NextHop → ℤ
    by_status (status, nh) = if is_true status then by_text nh.nh_ip else negsuc 0

-- What `insert` does where there is a route; main does the same for a Path message.
unfoldable pub insert_new : ℕ → ℕ → Ptr → Ptr → ℕ → List ℕ → List ℕ → ℕ → Cmd Ptr
insert_new fuel now malloc head tunnel_id sender receiver reached = do
  temp ← search_session fuel now head tunnel_id
  if temp == nil
      then insert_session malloc now head tunnel_id sender receiver reached
      else pure head

unfoldable pub insert_reached : ℕ → ℕ → Ptr → Ptr → ℕ → List ℕ → List ℕ → ℤ → Cmd Ptr
unfolding insert_new
insert_reached fuel now malloc head tunnel_id sender receiver (negsuc n) = pure head
insert_reached fuel now malloc head tunnel_id sender receiver (pos n) =
    insert_new fuel now malloc head tunnel_id sender receiver n

-- `insert`, with the head of the Resv sessions; `inet_ntop` gives the text of an address.
unfoldable pub insert : Routing → (ℕ → List ℕ) → NextHop → ℕ → ℕ → Ptr → Ptr → Packet → Cmd Ptr
unfolding dst_reached insert_reached
insert routing inet_ntop out fuel now malloc resv_head buffer =
    let sender_ip = read32 (ip + session_obj + 12) buffer in
    let receiver_ip = read32 (ip + session_obj + 4) buffer in
    insert_reached fuel now malloc resv_head (htons (read16 (ip + session_obj + 10) buffer))
      (inet_ntop sender_ip) (inet_ntop receiver_ip) (dst_reached routing out sender_ip)

-- The list after `insert`: without a route the old one; otherwise the session of the tunnel has the
-- time `now`, or, if there was none, a new session stands in front.
abbrev pub inserted : ℕ → Ptr → ℕ → List ℕ → List ℕ → Cells → ℤ → Cells
inserted now malloc k sender receiver cs (negsuc n) = cs
inserted now malloc k sender receiver cs (pos n) =
    if find_cell k cs == nil
    then (malloc, new_entry now k sender receiver n) ∷ touch now k cs
    else touch now k cs

and_then-Returns :
    {A B : Type 0} (P : A × Heap → Type 0) (Q : B × Heap → Type 0) (m : Run (A × Heap))
    (k : A → Cmd B)
    → Returns P m
    → ((a : A) (h : Heap) → P (a, h) → Returns Q (k a h))
    → Returns Q (and_then m k)
and_then-Returns P Q (ok (a, h)) k r f = f a h r
and_then-Returns P Q fault k r f = absurd r
and_then-Returns P Q out_of_fuel k r f = absurd r

-- The list after `insert`, and nothing else written but the new session.
abbrev pub Joined : ℕ → Ptr → ℕ → List ℕ → List ℕ → Heap → Cells → ℤ → Ptr × Heap → Type 0
Joined now malloc k sender receiver h cs d (q, f) =
    Chain f q (inserted now malloc k sender receiver cs d)
    × ((a : Ptr) → has a cs ≡ false → a ≢ malloc → f a ≡ h a)

module _ (now malloc k : ℕ) (h : Heap) (p : Ptr) (cs : Cells) (sender receiver : List ℕ)
    (c : Chain h p cs) (real : malloc ≢ nil) (free : h malloc ≡ none) (fs : length sender < 16)
    (fr : length receiver < 16) where
  insert_found :
      (n : ℕ) (r : Ptr) (g : Heap)
      → Searched now k h p cs (r, g)
      → Returns
          (Joined now malloc k sender receiver h cs (pos n))
          ((if r == nil then insert_session malloc now p k sender receiver n else pure p) g)
  insert_found n r g (same, chain, out) =
      let free' = out malloc (has_of_none h malloc p cs c free) ∙ free in
      rw same (elim (Bool-cases (find_cell k cs == nil)) [
        | inl none_there ↦ rw none_there (
            Returns-imp _ (Joined now malloc k sender receiver h cs (pos n))
              (insert_session malloc now p k sender receiver n g)
              (insert_session_lem g malloc now p k sender receiver n (touch now k cs) chain real
                free' fs fr)
              (λ (q, f) (d, spared). (rw none_there d, λ a apart ne. spared a ne ∙ out a apart)))
        | inr there ↦ rw there (rw there chain, λ a apart ne. out a apart)
      ])

  pub insert_new-Joined :
      (fuel n : ℕ)
      → length cs < fuel
      → Returns
          (Joined now malloc k sender receiver h cs (pos n))
          (insert_new fuel now malloc p k sender receiver n h)
  unfolding insert_new
  insert_new-Joined fuel n lt =
      and_then-Returns (Searched now k h p cs) (Joined now malloc k sender receiver h cs (pos n))
        (search_session fuel now p k h)
        (λ temp. if temp == nil then insert_session malloc now p k sender receiver n else pure p)
        (search_session_lem fuel now k h p cs c lt) (insert_found n)

  pub insert_reached-Joined :
      (fuel : ℕ) (d : ℤ)
      → length cs < fuel
      → Returns
          (Joined now malloc k sender receiver h cs d)
          (insert_reached fuel now malloc p k sender receiver d h)
  unfolding insert_reached
  insert_reached-Joined fuel (negsuc n) lt = (c, λ a apart ne. refl)
  insert_reached-Joined fuel (pos n) lt = insert_new-Joined fuel n lt

pub insert-Joined :
    (routing : Routing) (inet_ntop : ℕ → List ℕ) (out : NextHop) (fuel now malloc : ℕ)
    (buffer : Packet) (h : Heap) (p : Ptr) (cs : Cells)
    → ((a : ℕ) → length (inet_ntop a) < 16)
    → Chain h p cs
    → length cs < fuel
    → malloc ≢ nil
    → h malloc ≡ none
    → Returns
        (Joined now malloc
          (htons (read16 38 buffer))
          (inet_ntop (read32 40 buffer))
          (inet_ntop (read32 32 buffer))
          h
          cs
          (dst_reached routing out (read32 40 buffer)))
        (insert routing inet_ntop out fuel now malloc p buffer h)
unfolding insert
insert-Joined routing inet_ntop out fuel now malloc buffer h p cs fits c lt real free =
    insert_reached-Joined now malloc (htons (read16 38 buffer)) h p cs
      (inet_ntop (read32 40 buffer)) (inet_ntop (read32 32 buffer)) c real free
      (fits (read32 40 buffer)) (fits (read32 32 buffer)) fuel
      (dst_reached routing out (read32 40 buffer)) lt

pub insert_lem :
    (routing : Routing) (inet_ntop : ℕ → List ℕ) (out : NextHop) (fuel now malloc : ℕ)
    (buffer : Packet) (h : Heap) (p : Ptr) (cs : Cells)
    → ((a : ℕ) → length (inet_ntop a) < 16)
    → Chain h p cs
    → length cs < fuel
    → malloc ≢ nil
    → h malloc ≡ none
    → Returns
        (λ (q, f). Chain f q (
          inserted now malloc
            (htons (read16 38 buffer))
            (inet_ntop (read32 40 buffer))
            (inet_ntop (read32 32 buffer))
            cs
            (dst_reached routing out (read32 40 buffer))))
        (insert routing inet_ntop out fuel now malloc p buffer h)
insert_lem routing inet_ntop out fuel now malloc buffer h p cs fits c lt real free =
    Returns-imp _ _ (insert routing inet_ntop out fuel now malloc p buffer h)
      (insert-Joined routing inet_ntop out fuel now malloc buffer h p cs fits c lt real free)
      (λ (q, f) (chain, spared). chain)
