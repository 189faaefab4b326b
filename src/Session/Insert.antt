-- ===== src/Session/Insert.antt =====
-- `insert_session` of rsvp_db.c: a new session in front.
use socket.Base.{
  ℕ, ◌≡◌, ◌≢◌, ◌<◌, refl, false, none, some, List, [], ◌∷◌, arith, ◌==◌, lt→ltb, length,
}
use socket.Base.Run.{Returns}
use socket.Session.{Ptr, nil, Entry, session, Heap, insert_session}
use socket.Session.Chain.{Cells, has, Chain, frame-write, write_self, write-ne}

-- An address that holds nothing is not on the list.
pub has_of_none : (h : Heap) (a p : Ptr) (cs : Cells) → Chain h p cs → h a ≡ none → has a cs ≡ false
has_of_none h a p [] c free = refl
has_of_none h a p ((b, e) ∷ cs) (here, real, fresh, (n, holds, rest)) free =
    ground (arith, has_of_none h a n cs rest free)

abbrev pub new_entry : ℕ → ℕ → List ℕ → List ℕ → ℕ → Entry
new_entry now t_id sender receiver dest = record {
  sender = sender;
  receiver = receiver;
  tunnel_id = t_id;
  del = 0;
  dest = dest;
  last_path_time = now;
}

-- Given an address that is not in use and two texts that fit their 16 bytes, `insert_session`
-- returns a list with the new session in front, not marked for deletion and with the current time,
-- and the old sessions behind it; it writes nowhere else.
pub insert_session_lem :
    (h : Heap) (malloc now p t_id : ℕ) (sender receiver : List ℕ) (dest : ℕ) (cs : Cells)
    → Chain h p cs
    → malloc ≢ nil
    → h malloc ≡ none
    → length sender < 16
    → length receiver < 16
    → Returns
        (λ (r, g).
          Chain g r ((malloc, new_entry now t_id sender receiver dest) ∷ cs)
          × ((a : Ptr) → a ≢ malloc → g a ≡ h a))
        (insert_session malloc now p t_id sender receiver dest h)
unfolding insert_session
insert_session_lem h malloc now p t_id sender receiver dest cs c real free fs fr =
    let t = some (session (new_entry now t_id sender receiver dest) p) in
    let out = has_of_none h malloc p cs c free in
    let there : (malloc == nil) ≡ false = ground arith in
    rw (there, lt→ltb (length sender) 16 fs, lt→ltb (length receiver) 16 fr)
      (
        (refl, real, out, (p, write_self h malloc t, frame-write h p malloc t cs c out)),
        λ a ne. write-ne h malloc a t ne,
      )
