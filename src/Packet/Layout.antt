-- ===== src/Packet/Layout.antt =====
-- The structures of rsvp_msg.h, and the places that the ABI gives to their members: each at the next
-- multiple of its alignment, and the size a multiple of the greatest alignment.
use socket.Base.{ℕ, ◌+◌, ◌-◌, ◌*◌, ◌/◌, List, [], ◌∷◌, leb, if◌then◌else◌}

-- A type of C, as its size and its alignment.
pub record CType : Type 0 where
  pub size : ℕ
  pub align : ℕ

abbrev pub uint8 : CType
uint8 = record { size = 1; align = 1 }

abbrev pub uint16 : CType
uint16 = record { size = 2; align = 2 }

abbrev pub uint32 : CType
uint32 = record { size = 4; align = 4 }

abbrev pub chars : ℕ → CType
chars n = record { size = n; align = 1 }

-- The next multiple of `a`.
abbrev round_up : ℕ → ℕ → ℕ
round_up n a = (n + a - 1) / a * a

-- Where the members begin, from `at` on.
unfoldable pub offsets : ℕ → List CType → List ℕ
offsets at [] = []
offsets at (t ∷ ts) = round_up at t.align ∷ offsets (round_up at t.align + t.size) ts

unfoldable pub end_of : ℕ → List CType → ℕ
end_of at [] = at
end_of at (t ∷ ts) = end_of (round_up at t.align + t.size) ts

unfoldable pub align_of : List CType → ℕ
align_of [] = 1
align_of (t ∷ ts) = if leb (align_of ts) t.align then t.align else align_of ts

unfoldable pub struct : List CType → CType
unfolding end_of align_of
struct ts = record { size = round_up (end_of 0 ts) (align_of ts); align = align_of ts }

-- `version_flags`, `msg_type`, `checksum`, `ttl`, `reserved`, `length`.
abbrev pub rsvp_header : List CType
rsvp_header = uint8 ∷ uint8 ∷ uint16 ∷ uint8 ∷ uint8 ∷ uint16 ∷ []

-- `length`, `class_num`, `c_type`.
abbrev pub class_obj : List CType
class_obj = uint16 ∷ uint8 ∷ uint8 ∷ []

-- `class_obj`, `Reserved`, `L3PID`.
abbrev pub label_req_object : List CType
label_req_object = struct class_obj ∷ uint16 ∷ uint16 ∷ []

-- `class_obj`, `dst_ip`, `Reserved`, `tunnel_id`, `src_ip`.
abbrev pub session_object : List CType
session_object = struct class_obj ∷ uint32 ∷ uint16 ∷ uint16 ∷ uint32 ∷ []

-- `class_obj`, `next_hop`, `IFH`.
abbrev pub hop_object : List CType
hop_object = struct class_obj ∷ uint32 ∷ uint32 ∷ []

-- `class_obj`, `interval`.
abbrev pub time_object : List CType
time_object = struct class_obj ∷ uint32 ∷ []

-- `class_obj`, `setup_prio`, `hold_prio`, `flags`, `name_len`, `Name`.
abbrev pub session_attr_object : List CType
session_attr_object = struct class_obj ∷ uint8 ∷ uint8 ∷ uint8 ∷ uint8 ∷ chars 32 ∷ []

-- `class_obj`, `src_ip`, `Reserved`, `LSP_ID`.
abbrev pub sender_temp_object : List CType
sender_temp_object = struct class_obj ∷ uint32 ∷ uint16 ∷ uint16 ∷ []

-- `class_obj`, `label`.
abbrev pub label_object : List CType
label_object = struct class_obj ∷ uint32 ∷ []

-- `class_obj`, `src_ip`, `Reserved`, `LSP_ID`.
abbrev pub filter_spec_object : List CType
filter_spec_object = struct class_obj ∷ uint32 ∷ uint16 ∷ uint16 ∷ []
