-- ===== src/Packet/Bytes.antt =====
-- Fields of two and of four bytes, and the byte orders.
use socket.Base.{ℕ, ◌≡◌, ◌<◌, ◌%◌, ◌/◌, ◌+◌, ◌^◌, ◌∙◌, refl, subst, arith}
use socket.Packet.{Packet, Delivers, ip, read8, read16, read32, htons, htonl}

pub htons-htons : (v : ℕ) → v < 65536 → htons (htons v) ≡ v
unfolding htons
htons-htons v h = omega arith

pub htons-bound : (v : ℕ) → htons v < 65536
unfolding htons
htons-bound v = omega arith

pub htonl-bound : (v : ℕ) → htonl v < 4294967296
unfolding htonl htons
htonl-bound v = omega arith

pub htonl-htonl : (v : ℕ) → v < 4294967296 → htonl (htonl v) ≡ v
unfolding htonl htons
htonl-htonl v h = omega arith

-- The bytes from `k` on hold a 16-bit number, in the order of the host.
abbrev pub Holds16 : ℕ → ℕ → Packet → Type 0
Holds16 k v b = (read8 k b ≡ v % 256) × (read8 (k + 1) b ≡ v / 256 % 256)

-- The bytes from `k` on hold a 32-bit number, in the order of the host.
abbrev pub Holds32 : ℕ → ℕ → Packet → Type 0
Holds32 k v b = Holds16 k v b × Holds16 (k + 2) (v / 65536) b

pub read16-Holds16 : (b : Packet) (k v : ℕ) → v < 2 ^ 16 → Holds16 k v b → read16 k b ≡ v
unfolding read16
read16-Holds16 b k v h (p, q) = omega arith

pub read32-Holds32 : (b : Packet) (k v : ℕ) → v < 2 ^ 32 → Holds32 k v b → read32 k b ≡ v
unfolding read16 read32
read32-Holds32 b k v h ((p, q), (r, s)) = omega arith

-- What the packet that was sent holds is read behind the IP header of the one that arrives.
module _ (size : ℕ) (packet buffer : Packet) (d : Delivers size packet buffer) where
  pub read8-Delivers : (i j w : ℕ) → i < size → ip + i ≡ j → read8 i packet ≡ w → read8 j buffer ≡ w
  read8-Delivers i j w h e p = subst (λ x. read8 x buffer ≡ w) e (d i h ∙ p)

  pub read16-Delivers :
      (k v : ℕ) → k + 1 < size → v < 2 ^ 16 → Holds16 k v packet → read16 (ip + k) buffer ≡ v
  read16-Delivers k v h b (p, q) =
      read16-Holds16 buffer (ip + k) v b
        (read8-Delivers k _ _ (omega arith) refl p, read8-Delivers (k + 1) _ _ h (omega arith) q)

  pub read32-Delivers :
      (k v : ℕ) → k + 3 < size → v < 2 ^ 32 → Holds32 k v packet → read32 (ip + k) buffer ≡ v
  read32-Delivers k v h b ((p, q), (r, s)) = read32-Holds32 buffer (ip + k) v b (
    (
      read8-Delivers k _ _ (omega arith) refl p,
      read8-Delivers (k + 1) _ _ (omega arith) (omega arith) q,
    ),
    (
      read8-Delivers (k + 2) _ _ (omega arith) (omega arith) r,
      read8-Delivers (k + 2 + 1) _ _ (omega arith) (omega arith) s,
    ),
  )
