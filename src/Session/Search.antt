-- ===== src/Session/Search.antt =====
-- `search_session` of rsvp_db.c: it finds the first session of a tunnel and stamps it.
use socket.Base.{
  ℕ, zero, suc, ◌≡◌, ◌<◌, refl, ◌∙◌, sym, inl, inr, true, false, some, [], ◌∷◌, arith, ◌==◌,
  if◌then◌else◌, length, Bool-cases,
}
use socket.Base.Run.{Returns, Returns-imp}
use socket.Session.{Ptr, nil, Entry, session, Heap, write, search_loop, search_session}
use socket.Session.Chain.{
  Cells, has, Chain, frame-write, not_nil, load-ok, store-ok, write_self, write-ne,
}

-- The address of the first session of the tunnel, or `NULL`.
pub find_cell : ℕ → Cells → Ptr
find_cell k [] = nil
find_cell k ((a, e) ∷ cs) = if e.tunnel_id == k then a else find_cell k cs

-- The first session of the tunnel is given the time `now`.
pub touch : ℕ → ℕ → Cells → Cells
touch now k [] = []
touch now k ((a, e) ∷ cs) =
    let rest = touch now k cs in
    if e.tunnel_id == k then (a, record e { last_path_time = now }) ∷ cs else (a, e) ∷ rest

pub has-touch : (a now k : ℕ) (cs : Cells) → has a (touch now k cs) ≡ has a cs
unfolding touch
has-touch a now k [] = refl
has-touch a now k ((b, e) ∷ cs) = ground (arith, has-touch a now k cs)

module _ (k : ℕ) (a : Ptr) (e : Entry) (cs : Cells) where
  find_cell-hit : (e.tunnel_id == k) ≡ true → find_cell k ((a, e) ∷ cs) ≡ a
  unfolding find_cell
  find_cell-hit hit = rw hit

  find_cell-miss : (e.tunnel_id == k) ≡ false → find_cell k ((a, e) ∷ cs) ≡ find_cell k cs
  unfolding find_cell
  find_cell-miss miss = rw miss

module _ (now k : ℕ) (a : Ptr) (e : Entry) (cs : Cells) where
  touch-hit :
      (e.tunnel_id == k) ≡ true
      → touch now k ((a, e) ∷ cs) ≡ (a, record e { last_path_time = now }) ∷ cs
  unfolding touch
  touch-hit hit = rw hit

  touch-miss : (e.tunnel_id == k) ≡ false → touch now k ((a, e) ∷ cs) ≡ (a, e) ∷ touch now k cs
  unfolding touch
  touch-miss miss = rw miss

abbrev pub Searched : ℕ → ℕ → Heap → Ptr → Cells → Ptr × Heap → Type 0
Searched now k h p cs (r, g) =
    (r ≡ find_cell k cs) × Chain g p (touch now k cs) × ((a : Ptr) → has a cs ≡ false → g a ≡ h a)

search_loop-Searched :
    (fuel now k : ℕ) (h : Heap) (p : Ptr) (cs : Cells)
    → Chain h p cs
    → length cs < fuel
    → Returns (Searched now k h p cs) (search_loop fuel now p k h)
unfolding search_loop find_cell touch
search_loop-Searched zero now k h p cs c lt = elim lt [ ]
search_loop-Searched (suc fuel) now k h p [] c lt = rw c (refl, refl, λ a out. refl)
search_loop-Searched (suc fuel) now k h p ((a, e) ∷ cs) (here, real, fresh, (n, holds, rest)) lt =
    let s = session e n in
    rw (here, not_nil h a s real holds, load-ok h a s real holds)
      (elim (Bool-cases (e.tunnel_id == k)) [
        | inl hit ↦
            let e' = record e { last_path_time = now } in
            let t = session e' n in
            let g = write h a (some t) in
            let chain : Chain g a ((a, e') ∷ cs) = (
              refl,
              real,
              fresh,
              (n, write_self h a (some t), frame-write h n a (some t) cs rest fresh),
            ) in
            rw (hit, store-ok h a s real holds t)
              (
                sym (find_cell-hit k a e cs hit),
                rw (touch-hit now k a e cs hit) chain,
                λ b out. write-ne h a b (some t) (ground arith),
              )
        | inr miss ↦ rw miss (
            Returns-imp (Searched now k h n cs) _ (search_loop fuel now n k h)
              (search_loop-Searched fuel now k h n cs rest (omega arith))
              λ (r, g) (found, chain, same).
                let still : has a (touch now k cs) ≡ false = has-touch a now k cs ∙ fresh in
                let longer : Chain g a ((a, e) ∷ touch now k cs) =
                  (refl, real, still, (n, same a fresh ∙ holds, chain)) in
                (
                  found ∙ sym (find_cell-miss k a e cs miss),
                  rw (touch-miss now k a e cs miss) longer,
                  λ b out. same b (ground arith),
                ))
      ])

-- With fuel beyond the length of the list, `search_session` returns the address of the first
-- session of the tunnel, or NULL if there is none, and gives that session alone the current time;
-- nothing outside of the list is written.
pub search_session_lem :
    (fuel now k : ℕ) (h : Heap) (p : Ptr) (cs : Cells)
    → Chain h p cs
    → length cs < fuel
    → Returns (Searched now k h p cs) (search_session fuel now p k h)
unfolding search_session
search_session_lem fuel now k h p cs c lt = search_loop-Searched fuel now k h p cs c lt
