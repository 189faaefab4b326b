-- ===== src/Timer/Walk.antt =====
-- The walks of timer_event.c along a list: both handlers step from a session that they have deleted to
-- the one behind it, after the contents of the next session have moved to its address. Here `out` says
-- which sessions are deleted.
use socket.Base.{
  ◌≡◌, refl, subst, sym, Bool, true, false, Option, none, some, [], ◌∷◌, ◌++◌, if◌then◌else◌,
  append_assoc,
}
use socket.Session.{Ptr, Entry, Heap}
use socket.Session.Chain.{Cells, Chain}

-- The sessions that a walk from here on looks at: behind a deleted one, not the next one.
abbrev pub walk_seen : (Entry → Bool) → Cells → Cells
walk_seen out [] = []
walk_seen out (c ∷ []) = c ∷ []
walk_seen out ((a, e) ∷ c ∷ cs) =
    let skipping = walk_seen out cs in
    let going = walk_seen out (c ∷ cs) in (a, e) ∷ (if out e then skipping else going)

abbrev pub keep : Ptr × Entry → Option Cells → Option Cells
keep c none = none
keep c (some cs) = some (c ∷ cs)

-- The list after a walk from a session that is not the first, or `none` where the last session is deleted.
abbrev pub walk_kept : (Entry → Bool) → Cells → Option Cells
walk_kept out [] = some []
walk_kept out ((a, e) ∷ []) = if out e then none else some ((a, e) ∷ [])
walk_kept out ((a, e) ∷ (b, f) ∷ cs) =
    let skipping = walk_kept out cs in
    let going = walk_kept out ((b, f) ∷ cs) in
    if out e then keep (a, f) skipping else keep (a, e) going

-- The list after the whole walk, or `none` where the first or the last session is deleted.
abbrev pub walk_left : (Entry → Bool) → Cells → Option Cells
walk_left out [] = some []
walk_left out ((a, e) ∷ cs) = if out e then none else keep (a, e) (walk_kept out cs)

pub seen-stays :
    (out : Entry → Bool) (a : Ptr) (e : Entry) (cs : Cells)
    → out e ≡ false
    → walk_seen out ((a, e) ∷ cs) ≡ (a, e) ∷ walk_seen out cs
seen-stays out a e [] stays = refl
seen-stays out a e (c ∷ cs) stays = rw stays refl

pub kept-stays :
    (out : Entry → Bool) (a : Ptr) (e : Entry) (cs : Cells)
    → out e ≡ false
    → walk_kept out ((a, e) ∷ cs) ≡ keep (a, e) (walk_kept out cs)
kept-stays out a e [] stays = rw stays refl
kept-stays out a e (c ∷ cs) stays = rw stays refl

pub kept-drops :
    (out : Entry → Bool) (a : Ptr) (e : Entry) (b : Ptr) (f : Entry) (cs : Cells)
    → out e ≡ true
    → walk_kept out ((a, e) ∷ (b, f) ∷ cs) ≡ keep (a, f) (walk_kept out cs)
kept-drops out a e b f cs drops = rw drops refl

pub behind :
    (h : Heap) (p : Ptr) (zs : Cells) (c : Ptr × Entry) (cs : Cells)
    → Chain h p (zs ++ c ∷ cs)
    → Chain h p ((zs ++ c ∷ []) ++ cs)
behind h p zs c cs chain = subst (Chain h p) (sym (append_assoc zs (c ∷ []) cs)) chain
