-- ===== src/Route/Subnet.antt =====
-- `is_ip_in_subnet` of route_dump.c: the test of an address against a prefix.
use Prim.Native.Nat.{bit_and}
use native.Mathlib.Nat.{one-le-pow, div-mul-le_self, pow-le-pow_right}
use socket.Base.{
  ℕ, ◌+◌, ◌-◌, ◌*◌, ◌/◌, ◌%◌, ◌^◌, ◌≤◌, ◌<◌, ◌≡◌, ◌==◌, ltb, if◌then◌else◌, ◌||◌, ◌∙◌, refl, ap,
  arith, sym,
}
use socket.Base.Masks.{bit_and-eq, bit_and-le, bit_and_word, bit_and-mask, byte}
use socket.Packet.{htonl, htons}
use socket.Packet.Bytes.{htonl-htonl, htonl-bound}

-- The pattern of `1 << (32 - prefix_len)`. A shift by 32, and one by a negative number, is
-- undefined, and gives `undefined`. A shift by 31 leaves the range of an int as well; it gives the
-- bit of the sign, as compilers do.
abbrev pub shifted_one : ℕ → ℕ → ℕ
shifted_one undefined prefix_len =
    if prefix_len == 0 || ltb 32 prefix_len then undefined else 2 ^ (32 - prefix_len)

-- `htonl(~((1 << (32 - prefix_len)) - 1))`.
unfoldable pub subnet_mask : ℕ → ℕ → ℕ
subnet_mask undefined prefix_len =
    htonl (2 ^ 32 - 1 - (shifted_one undefined prefix_len + 2 ^ 32 - 1) % 2 ^ 32)

-- With the addresses that `inet_pton` makes of the two texts.
unfoldable pub is_ip_in_subnet : ℕ → ℕ → ℕ → ℕ → ℕ
unfolding subnet_mask
is_ip_in_subnet undefined ip subnet prefix_len =
    let mask = subnet_mask undefined prefix_len in
    if bit_and subnet mask == 0 then 2 else if bit_and ip mask == bit_and subnet mask then 1 else 0

byte-htonl :
    (v : ℕ)
    → v < 2 ^ 32
    → (byte 0 (htonl v) ≡ byte 3 v)
      × (byte 1 (htonl v) ≡ byte 2 v)
      × (byte 2 (htonl v) ≡ byte 1 v)
      × (byte 3 (htonl v) ≡ byte 0 v)
unfolding htonl htons
byte-htonl v lt = (omega arith, omega arith, omega arith, omega arith)

htonl_of_bytes :
    (a b c d : ℕ)
    → a < 256
    → b < 256
    → c < 256
    → d < 256
    → htonl (((a * 256 + b) * 256 + c) * 256 + d) ≡ ((d * 256 + c) * 256 + b) * 256 + a
unfolding htonl htons
htonl_of_bytes a b c d la lb lc ld = omega arith

bit_and_bytes : (a b i j : ℕ) → bit_and (byte i a) (byte j b) < 256
bit_and_bytes a b i j = omega (arith, bit_and-le (byte i a) (byte j b))

-- `&` commutes with the change of the byte order.
bit_and-htonl :
    (a b : ℕ) → a < 2 ^ 32 → b < 2 ^ 32 → bit_and a (htonl b) ≡ htonl (bit_and (htonl a) b)
bit_and-htonl a b la lb =
    let (b0, b1, b2, b3) = byte-htonl b lb in
    let (a0, a1, a2, a3) = byte-htonl a la in
    let w0 = bit_and (byte 0 a) (byte 3 b) in
    let w1 = bit_and (byte 1 a) (byte 2 b) in
    let w2 = bit_and (byte 2 a) (byte 1 b) in
    let w3 = bit_and (byte 3 a) (byte 0 b) in
    let outer : bit_and a (htonl b) ≡ ((w3 * 256 + w2) * 256 + w1) * 256 + w0 = omega (
      arith,
      bit_and_word a (htonl b) la (htonl-bound b),
      bit_and-eq (byte 0 a) (byte 0 (htonl b)) (byte 0 a) (byte 3 b) refl b0,
      bit_and-eq (byte 1 a) (byte 1 (htonl b)) (byte 1 a) (byte 2 b) refl b1,
      bit_and-eq (byte 2 a) (byte 2 (htonl b)) (byte 2 a) (byte 1 b) refl b2,
      bit_and-eq (byte 3 a) (byte 3 (htonl b)) (byte 3 a) (byte 0 b) refl b3,
    ) in
    let inner : bit_and (htonl a) b ≡ ((w0 * 256 + w1) * 256 + w2) * 256 + w3 = omega (
      arith,
      bit_and_word (htonl a) b (htonl-bound a) lb,
      bit_and-eq (byte 0 (htonl a)) (byte 0 b) (byte 3 a) (byte 0 b) a0 refl,
      bit_and-eq (byte 1 (htonl a)) (byte 1 b) (byte 2 a) (byte 1 b) a1 refl,
      bit_and-eq (byte 2 (htonl a)) (byte 2 b) (byte 1 a) (byte 2 b) a2 refl,
      bit_and-eq (byte 3 (htonl a)) (byte 3 b) (byte 0 a) (byte 3 b) a3 refl,
    ) in
    outer
    ∙ sym (
        htonl_of_bytes w0 w1 w2 w3 (bit_and_bytes a b 0 3) (bit_and_bytes a b 1 2)
          (bit_and_bytes a b 2 1) (bit_and_bytes a b 3 0))
    ∙ ap htonl (sym inner)

-- The network of an address: the number that its first `prefix_len` bits make.
abbrev pub network : ℕ → ℕ → ℕ
network a prefix_len = htonl a / 2 ^ (32 - prefix_len)

subnet_mask-prefix :
    (undefined prefix_len : ℕ)
    → 1 ≤ prefix_len
    → prefix_len ≤ 32
    → subnet_mask undefined prefix_len ≡ htonl (2 ^ 32 - 1 - (2 ^ (32 - prefix_len) - 1))
unfolding subnet_mask
subnet_mask-prefix undefined prefix_len lo hi =
    let one = one-le-pow (32 - prefix_len) 2 in
    let top = pow-le-pow_right {n = 2} (omega arith) {i = 32 - prefix_len} {j = 31} (omega arith) in
    ap htonl (ground (arith, one, top))

bit_and-subnet_mask :
    (undefined a prefix_len : ℕ)
    → a < 2 ^ 32
    → 1 ≤ prefix_len
    → prefix_len ≤ 32
    → bit_and a (subnet_mask undefined prefix_len)
      ≡ htonl (network a prefix_len * 2 ^ (32 - prefix_len))
bit_and-subnet_mask undefined a prefix_len la lo hi =
    ap (bit_and a) (subnet_mask-prefix undefined prefix_len lo hi)
    ∙ bit_and-htonl a (2 ^ 32 - 1 - (2 ^ (32 - prefix_len) - 1)) la (omega arith)
    ∙ ap htonl (bit_and-mask 32 (32 - prefix_len) (htonl a) (omega arith) (htonl-bound a))

test-eq : (a b c d : ℕ) → (a ≡ b → c ≡ d) → (c ≡ d → a ≡ b) → (a == b) ≡ (c == d)
test-eq a b c d f g = ground (arith, f, g)

htonl-injective : (u v : ℕ) → u < 2 ^ 32 → v < 2 ^ 32 → htonl u ≡ htonl v → u ≡ v
htonl-injective u v lu lv e = sym (htonl-htonl u lu) ∙ ap htonl e ∙ htonl-htonl v lv

mul_cancel : (x y m : ℕ) → 1 ≤ m → x * m ≡ y * m → x ≡ y
mul_cancel x y m h e = grind arith

-- Networks are compared as the masked addresses are.
masked-eq :
    (x y m : ℕ)
    → 1 ≤ m
    → x * m < 2 ^ 32
    → y * m < 2 ^ 32
    → (htonl (x * m) == htonl (y * m)) ≡ (x == y)
masked-eq x y m h lx ly =
    test-eq (htonl (x * m)) (htonl (y * m)) x y
      (λ e. mul_cancel x y m h (htonl-injective (x * m) (y * m) lx ly e))
      (λ e. ap (λ t. htonl (t * m)) e)

htonl-zero : (m : ℕ) → htonl (0 * m) ≡ 0
unfolding htonl htons
htonl-zero m = omega arith

masked-zero : (x m : ℕ) → 1 ≤ m → x * m < 2 ^ 32 → (htonl (x * m) == 0) ≡ (x == 0)
masked-zero x m h lx =
    ap (λ t. htonl (x * m) == t) (sym (htonl-zero m)) ∙ masked-eq x 0 m h lx (omega arith)

-- Which of the three answers is given, by the networks of the two addresses.
pub is_ip_in_subnet_lem :
    (undefined ip subnet prefix_len : ℕ)
    → ip < 2 ^ 32
    → subnet < 2 ^ 32
    → 1 ≤ prefix_len
    → prefix_len ≤ 32
    → is_ip_in_subnet undefined ip subnet prefix_len ≡ (
        if network subnet prefix_len == 0
        then 2
        else if network ip prefix_len == network subnet prefix_len
        then 1
        else 0)
unfolding is_ip_in_subnet
is_ip_in_subnet_lem undefined ip subnet prefix_len li ls lo hi =
    let m = 2 ^ (32 - prefix_len) in
    let one = one-le-pow (32 - prefix_len) 2 (omega arith) in
    let small : (a : ℕ) → network a prefix_len * m < 2 ^ 32 =
      λ a. omega (arith, div-mul-le_self (htonl a) m, htonl-bound a) in
    rw
      (
        bit_and-subnet_mask undefined ip prefix_len li lo hi,
        bit_and-subnet_mask undefined subnet prefix_len ls lo hi,
        masked-eq (network ip prefix_len) (network subnet prefix_len) m one (small ip)
            (small subnet),
        masked-zero (network subnet prefix_len) m one (small subnet),
      )
      refl

-- The default route is told apart whatever the undefined shift gives.
pub is_ip_in_subnet-default :
    (undefined ip prefix_len : ℕ) → is_ip_in_subnet undefined ip 0 prefix_len ≡ 2
unfolding is_ip_in_subnet
is_ip_in_subnet-default undefined ip prefix_len =
    ground (arith, bit_and-le 0 (subnet_mask undefined prefix_len))
