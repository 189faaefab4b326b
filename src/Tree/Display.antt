-- ===== src/Tree/Display.antt =====
-- `display_tree` and `display_tree_debug` of rsvp_db.c. The text that `snprintf` makes of what it
-- is given is an argument; a buffer is the text in it, and a write past its end is a fault.
use socket.Base.{
  ℕ, zero, suc, ◌+◌, ◌-◌, ◌%◌, ◌^◌, ◌<◌, ◌≤◌, ◌≡◌, refl, sym, ◌∙◌, ap, subst, inl, inr, Bool-cases,
  ltb, true, List, [], ◌∷◌, ◌++◌, append_assoc, append-nil, length, if◌then◌else◌, arith,
}
use socket.Base.Run.{Run, ok, fault, ◌>>=◌}
use socket.Base.Take.{take, length-take, take-all, take-take-append, append-take, take-full}
use socket.Message.{PathMsg, ResvMsg}
use socket.Packet.{htonl}
use socket.Tree.{Tree, null, node}
use socket.Tree.Contents.{to_list}

-- What `snprintf` is given of a message: the tunnel, the three addresses, and the name or the labels.
pub data Line : Type 0 where
  path_line : ℕ → ℕ → ℕ → ℕ → List ℕ → Line
  resv_line : ℕ → ℕ → ℕ → ℕ → ℕ → ℕ → Line

abbrev pub line_of_path : PathMsg → Line
line_of_path p = path_line p.tunnel_id p.src_ip p.dest_ip p.nexthop_ip p.name

-- The labels go through `ntohl`, though they are in the order of the host.
abbrev pub line_of_resv : ResvMsg → Line
line_of_resv r =
    resv_line r.tunnel_id r.src_ip r.dest_ip r.nexthop_ip (htonl r.in_label) (htonl r.out_label)

-- `strncat(buffer, temp, count)` into a buffer of `size` bytes, with the final zero.
abbrev pub strncat : ℕ → List ℕ → List ℕ → ℕ → Run (List ℕ)
strncat size buffer temp count =
    if ltb (length (buffer ++ take count temp)) size then ok (buffer ++ take count temp) else fault

-- `display_tree`, given the text of a message. `temp` has 256 bytes, and `buffer_size - current_len`
-- is unsigned.
unfoldable pub display_tree : {A : Type 0} → (A → List ℕ) → Tree A → List ℕ → ℕ → Run (List ℕ)
display_tree text null buffer buffer_size = ok buffer
display_tree text (node data' l r h) buffer buffer_size =
    let right = λ (b : List ℕ). display_tree text r b buffer_size in
    do
      b ← display_tree text l buffer buffer_size
      let remaining_size = (2 ^ 64 + buffer_size - length b) % 2 ^ 64
      if ltb remaining_size 2 then ok b else (do
        b' ← strncat buffer_size b (take 255 (text data')) (remaining_size - 1)
        right (take (buffer_size - 1) b'))

unfoldable pub display_path_tree : (Line → List ℕ) → Tree PathMsg → List ℕ → ℕ → Run (List ℕ)
unfolding display_tree
display_path_tree snprintf = display_tree (λ p. snprintf (line_of_path p))

unfoldable pub display_resv_tree : (Line → List ℕ) → Tree ResvMsg → List ℕ → ℕ → Run (List ℕ)
unfolding display_tree
display_resv_tree snprintf = display_tree (λ r. snprintf (line_of_resv r))

-- The texts of the messages, from left to right.
abbrev pub texts : {A : Type 0} → (A → List ℕ) → List A → List ℕ
texts text [] = []
texts text (d ∷ ds) = take 255 (text d) ++ texts text ds

texts-append :
    {A : Type 0} (text : A → List ℕ) (ds es : List A)
    → texts text (ds ++ es) ≡ texts text ds ++ texts text es
texts-append text [] es = refl
texts-append text (d ∷ ds) es =
    ap (λ xs. take 255 (text d) ++ xs) (texts-append text ds es)
    ∙ sym (append_assoc (take 255 (text d)) (texts text ds) (texts text es))

remaining_lem :
    (m len : ℕ) → m + 1 < 2 ^ 64 → len ≤ m → (2 ^ 64 + (m + 1) - len) % 2 ^ 64 ≡ m + 1 - len
remaining_lem m len range le = omega arith

strncat-ok :
    (m : ℕ) (buffer temp : List ℕ)
    → length buffer ≤ m
    → strncat (m + 1) buffer temp (m - length buffer) ≡ ok (take m (buffer ++ temp))
strncat-ok m buffer temp le =
    let fits : ltb (length (take m (buffer ++ temp))) (m + 1) ≡ true =
      ground (arith, length-take m (buffer ++ temp)) in
    rw (append-take m buffer temp le, fits) refl

module _ {A : Type 0} (text : A → List ℕ) (m : ℕ) (range : m + 1 < 2 ^ 64) where
  -- What is left of the buffer after the left subtree decides whether there is more.
  display_tree-room :
      (d : A) (l r : Tree A) (h : ℕ) (buffer b : List ℕ)
      → display_tree text l buffer (m + 1) ≡ ok b
      → length b ≤ m
      → display_tree text (node d l r h) buffer (m + 1) ≡ (
          if ltb (m + 1 - length b) 2
          then ok b
          else display_tree text r (take m (b ++ take 255 (text d))) (m + 1))
  unfolding display_tree
  display_tree-room d l r h buffer b left le =
      let one : m + 1 - 1 ≡ m = omega arith in
      rw (left, remaining_lem m (length b) range le)
        (elim (Bool-cases (ltb (m + 1 - length b) 2)) [
          | inl full ↦ rw full refl
          | inr room ↦
              let count : m + 1 - length b - 1 ≡ m - length b = omega arith in
              rw
                (
                  room,
                  count,
                  strncat-ok m b (take 255 (text d)) le,
                  one,
                  take-all m (take m (b ++ take 255 (text d)))
                      (length-take m (b ++ take 255 (text d))),
                )
                refl
        ])

  display_tree-take :
      (t : Tree A) (xs : List ℕ)
      → display_tree text t (take m xs) (m + 1) ≡ ok (take m (xs ++ texts text (to_list t)))
  unfolding display_tree
  display_tree-take null xs = ap (λ ys. ok (take m ys)) (sym (append-nil xs))
  display_tree-take (node d l r h) xs =
      let ys = xs ++ texts text (to_list l) in
      let t = take 255 (text d) in
      let rest = t ++ texts text (to_list r) in
      let all : xs ++ texts text (to_list l ++ d ∷ to_list r) ≡ ys ++ rest =
        ap (λ zs. xs ++ zs) (texts-append text (to_list l) (d ∷ to_list r))
        ∙ sym (append_assoc xs (texts text (to_list l)) rest) in
      display_tree-room d l r h (take m xs) (take m ys) (display_tree-take l xs) (length-take m ys)
      ∙ elim (Bool-cases (ltb (m + 1 - length (take m ys)) 2)) [
        | inl full ↦
            let no_more : length (take m ys) ≡ m = ground (arith, length-take m ys) in
            rw full (ap ok (sym (ap (take m) all ∙ take-full m ys rest no_more)))
        | inr room ↦
            rw (room, take-take-append m ys t)
              (display_tree-take r (ys ++ t)
                ∙ ap (λ zs. ok (take m zs)) (append_assoc ys t (texts text (to_list r)) ∙ sym all))
      ]

-- In a buffer that has room for its text and a final zero, `display_tree` writes nothing past the
-- end, and leaves there as much as fits of the old text and the texts of the messages, from left
-- to right, each cut off at 255 characters.
pub display_tree_lem :
    {A : Type 0} (text : A → List ℕ) (t : Tree A) (buffer : List ℕ) (buffer_size : ℕ)
    → length buffer < buffer_size
    → buffer_size < 2 ^ 64
    → display_tree text t buffer buffer_size
      ≡ ok (take (buffer_size - 1) (buffer ++ texts text (to_list t)))
display_tree_lem text t buffer zero lt range = absurd (omega arith)
display_tree_lem text t buffer (suc m) lt range =
    let size : m + 1 ≡ suc m = omega arith in
    let count : m ≡ m + 1 - 1 = omega arith in
    let all = buffer ++ texts text (to_list t) in
    subst (λ k. display_tree text t buffer k ≡ ok (take (k - 1) all)) size
      (subst (λ b. display_tree text t b (m + 1) ≡ ok (take m all))
          (take-all m buffer (omega arith)) (display_tree-take text m (omega arith) t buffer)
        ∙ ap (λ k. ok (take k all)) count)
