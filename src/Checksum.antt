-- ===== src/Checksum.antt =====
-- `checksum` of rsvpd.c, the sum that a packet of the traceroute carries.
use socket.Base.{
  ℕ, zero, suc, ◌+◌, ◌-◌, ◌*◌, ◌/◌, ◌%◌, ◌^◌, ◌≤◌, ◌<◌, ◌≡◌, ◌∙◌, refl, sym, ap, arith,
}
use socket.Packet.{Packet, read8, read16, write8, write16}

-- The loop and the odd byte behind it, with the bytes that are left, where they begin, and `sum`, an
-- unsigned int.
unfoldable pub sum_loop : ℕ → ℕ → Packet → ℕ → ℕ
sum_loop zero k b sum = sum
sum_loop (suc zero) k b sum = (sum + read8 k b) % 2 ^ 32
sum_loop (suc (suc len)) k b sum = sum_loop len (k + 2) b ((sum + read16 k b) % 2 ^ 32)

-- The two foldings of the sum, and `~sum` as an unsigned short.
unfoldable pub fold : ℕ → ℕ
fold sum =
    let once = (sum / 65536 + sum % 65536) % 2 ^ 32 in
    let twice = (once + once / 65536) % 2 ^ 32 in (2 ^ 32 - 1 - twice) % 65536

unfoldable pub checksum : Packet → ℕ → ℕ
unfolding sum_loop fold
checksum b len = fold (sum_loop len 0 b 0)

-- The sum without a bound.
total : ℕ → ℕ → Packet → ℕ
total zero k b = 0
total (suc zero) k b = read8 k b
total (suc (suc len)) k b = read16 k b + total len (k + 2) b

abbrev pub AreBytes : Packet → Type 0
AreBytes b = (i : ℕ) → b i < 256

read16-bound : (k : ℕ) (b : Packet) → AreBytes b → read16 k b < 65536
unfolding read16 read8
read16-bound k b h = omega (arith, h k, h (k + 1))

total-bound : (len k : ℕ) (b : Packet) → AreBytes b → 2 * total len k b ≤ 65536 * len
unfolding total read8
total-bound zero k b h = omega arith
total-bound (suc zero) k b h = omega (arith, h k)
total-bound (suc (suc len)) k b h = omega (arith, read16-bound k b h, total-bound len (k + 2) b h)

-- Up to 65536 bytes the sum does not wrap around.
sum_loop-total :
    (len k : ℕ) (b : Packet) (sum : ℕ)
    → sum + total len k b < 2 ^ 32
    → sum_loop len k b sum ≡ sum + total len k b
unfolding sum_loop total
sum_loop-total zero k b sum h = omega arith
sum_loop-total (suc zero) k b sum h = omega arith
sum_loop-total (suc (suc len)) k b sum h =
    let small : (sum + read16 k b) % 2 ^ 32 ≡ sum + read16 k b = omega arith in
    ap (sum_loop len (k + 2) b) small
    ∙ sum_loop-total len (k + 2) b (sum + read16 k b) (omega arith)
    ∙ omega arith

checksum-total :
    (b : Packet) (len : ℕ) → AreBytes b → len ≤ 65536 → checksum b len ≡ fold (total len 0 b)
unfolding checksum
checksum-total b len h l =
    ap fold (sum_loop-total len 0 b 0 (omega (arith, total-bound len 0 b h)) ∙ omega arith)

fold-complement : (sum : ℕ) → sum < 2 ^ 32 → fold (sum + fold sum) ≡ 0
unfolding fold
fold-complement sum h = omega arith

-- A field that is written below the bytes that are summed.
total-below :
    (len k at c : ℕ) (b : Packet) → at + 2 ≤ k → total len k (write16 at c b) ≡ total len k b
unfolding total read16 read8 write16 write8
total-below zero k at c b h = refl
total-below (suc zero) k at c b h = ground arith
total-below (suc (suc len)) k at c b h =
    ground (arith, total-below len (k + 2) at c b (omega arith))

read16-write16 : (k c : ℕ) (b : Packet) → c < 65536 → read16 k (write16 k c b) ≡ c
unfolding read16 read8 write16 write8
read16-write16 k c b h = ground arith

read16-above : (k at c : ℕ) (b : Packet) → k + 2 ≤ at → read16 k (write16 at c b) ≡ read16 k b
unfolding read16 read8 write16 write8
read16-above k at c b h = ground arith

-- A field of two bytes at an even place that was 0 adds what is written there.
total-write16 :
    (len k j at c : ℕ) (b : Packet)
    → at ≡ k + 2 * j
    → c < 65536
    → 2 * j + 2 ≤ len
    → read16 at b ≡ 0
    → total len k (write16 at c b) ≡ total len k b + c
unfolding total
total-write16 zero k j at c b e h l z = absurd (omega arith)
total-write16 (suc zero) k j at c b e h l z = absurd (omega arith)
total-write16 (suc (suc len)) k zero at c b e h l z =
    let here : at ≡ k = omega arith in
    let zero_here : read16 k b ≡ 0 = ap (λ i. read16 i b) (sym here) ∙ z in
    rw here (
      omega (arith, read16-write16 k c b h, total-below len (k + 2) k c b (omega arith), zero_here))
total-write16 (suc (suc len)) k (suc j) at c b e h l z = omega (
  arith,
  read16-above k at c b (omega arith),
  total-write16 len (k + 2) j at c b (omega arith) h (omega arith) z,
)

write16-AreBytes : (at c : ℕ) (b : Packet) → AreBytes b → AreBytes (write16 at c b)
unfolding write16 write8
write16-AreBytes at c b h i = ground (arith, h i)

fold-bound : (sum : ℕ) → fold sum < 65536
unfolding fold
fold-bound sum = omega arith

-- The checksum of at most 65536 bytes, written into a field of two bytes at an even place of them that was
-- 0, makes the checksum of the bytes 0.
pub checksum-write16 :
    (b : Packet) (len j : ℕ)
    → AreBytes b
    → len ≤ 65536
    → 2 * j + 2 ≤ len
    → read16 (2 * j) b ≡ 0
    → checksum (write16 (2 * j) (checksum b len) b) len ≡ 0
checksum-write16 b len j h l inside z =
    let sum = total len 0 b in
    let small = total-bound len 0 b h in
    rw (checksum-total b len h l) (
      checksum-total (write16 (2 * j) (fold sum) b) len (write16-AreBytes (2 * j) (fold sum) b h) l
      ∙ ap fold (total-write16 len 0 j (2 * j) (fold sum) b (omega arith) (fold-bound sum) inside z)
      ∙ fold-complement sum (omega arith))
