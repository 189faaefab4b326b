-- ===== src/Packet.antt =====
-- The layout of the packets of rsvp_msg.h. A packet is the bytes of a C array: the structures are
-- laid over it as the ABI of a little-endian host lays them out, and the network order is made by
-- `htons` and `htonl`.
use socket.Base.Int.{ℤ, pos, eqz}
use socket.Base.{
  Option, none, some, not, ℕ, Bool, ◌+◌, ◌*◌, ◌/◌, ◌%◌, if◌then◌else◌, ◌==◌, ◌<◌, ◌≡◌,
}
pub mod Bytes
pub mod Path
pub mod PathTrip
pub mod PathInsert
pub mod Resv
pub mod ResvTrip
pub mod ResvInsert
pub mod Objects
pub mod Ranges
pub mod Layout

-- A `char` array, with the bytes as numbers below 256.
abbrev pub Packet : Type 0
Packet = ℕ → ℕ

unfoldable pub write8 : ℕ → ℕ → Packet → Packet
write8 k v b = λ i. if i == k then v % 256 else b i

unfoldable pub write16 : ℕ → ℕ → Packet → Packet
write16 k v b = write8 (k + 1) (v / 256) (write8 k v b)

unfoldable pub write32 : ℕ → ℕ → Packet → Packet
write32 k v b = write16 (k + 2) (v / 65536) (write16 k v b)

unfoldable pub read8 : ℕ → Packet → ℕ
read8 k b = b k

unfoldable pub read16 : ℕ → Packet → ℕ
read16 k b = read8 k b + 256 * read8 (k + 1) b

unfoldable pub read32 : ℕ → Packet → ℕ
read32 k b = read16 k b + 65536 * read16 (k + 2) b

-- The bytes of a 16-bit number in the other order; `ntohs` is the same function.
unfoldable pub htons : ℕ → ℕ
htons v = (v % 256) * 256 + v / 256 % 256

-- The bytes of a 32-bit number in the other order; `ntohl` is the same function.
unfoldable pub htonl : ℕ → ℕ
htonl v = htons (v % 65536) * 65536 + htons (v / 65536 % 65536)

-- Statements that write to a packet, in their order.
infixl 4 ◌▸◌
abbrev pub ◌▸◌ : Packet → (Packet → Packet) → Packet
b ▸ f = f b

-- The first members of an object, its `class_obj`.
unfoldable pub write_class_obj : ℕ → ℕ → ℕ → ℕ → Packet → Packet
write_class_obj at num c_type size b =
    b ▸ write8 (at + 2) num ▸ write8 (at + 3) c_type ▸ write16 at (htons size)

-- `START_SENT_…`: where the objects begin in a packet.
abbrev pub session_obj : ℕ
session_obj = 8

abbrev pub hop_obj : ℕ
hop_obj = 24

abbrev pub time_obj : ℕ
time_obj = 36

abbrev pub label_req_obj : ℕ
label_req_obj = 44

abbrev pub session_attr_obj : ℕ
session_attr_obj = 52

abbrev pub sender_temp_obj : ℕ
sender_temp_obj = 92

abbrev pub filter_spec_obj : ℕ
filter_spec_obj = 44

abbrev pub label_obj : ℕ
label_obj = 56

abbrev pub path_packet_size : ℕ
path_packet_size = 104

abbrev pub resv_packet_size : ℕ
resv_packet_size = 64

-- The length of the IP header in front of a packet that is received.
abbrev pub ip : ℕ
ip = 20

-- The raw socket hands over the bytes of a packet behind its IP header.
abbrev pub Delivers : ℕ → Packet → Packet → Type 0
Delivers size packet buffer = (i : ℕ) → i < size → read8 (ip + i) buffer ≡ read8 i packet

-- What `sendto` is given.
pub record Datagram : Type 0 where
  pub to : ℕ
  pub size : ℕ
  pub bytes : Packet

-- A C condition on an `int`.
abbrev pub is_true : ℤ → Bool
is_true s = not (eqz s (pos 0))

-- `inet_pton` of a text: what is no address leaves the target as it was.
abbrev pub inet_pton : Option ℕ → ℕ → ℕ
inet_pton none old = old
inet_pton (some a) old = a
