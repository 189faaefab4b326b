-- ===== src/Packet/Ranges.antt =====
-- The packets of rsvp_msg.c are `char` arrays: their elements are bytes, whatever is assigned.
use socket.Base.{ℕ, ◌+◌, ◌^◌, ◌<◌, arith}
use socket.Message.{PathMsg, ResvMsg}
use socket.Packet.{Packet, write8, write16, write32, write_class_obj, read8, read16, read32}
use socket.Packet.Path.{fill_path}
use socket.Packet.Resv.{fill_resv}

abbrev pub IsBytes : Packet → Type 0
IsBytes b = (i : ℕ) → b i < 2 ^ 8

pub read32-bound : (b : Packet) (k : ℕ) → IsBytes b → read32 k b < 2 ^ 32
unfolding read32 read16 read8
read32-bound b k bytes = omega (arith, bytes k, bytes (k + 1), bytes (k + 2), bytes (k + 2 + 1))

write8-IsBytes : {b : Packet} (k v : ℕ) → IsBytes b → IsBytes (write8 k v b)
unfolding write8
write8-IsBytes k v bytes i = ground (arith, bytes i)

write16-IsBytes : {b : Packet} (k v : ℕ) → IsBytes b → IsBytes (write16 k v b)
unfolding write16
write16-IsBytes k v bytes = write8-IsBytes _ _ (write8-IsBytes _ _ bytes)

write32-IsBytes : {b : Packet} (k v : ℕ) → IsBytes b → IsBytes (write32 k v b)
unfolding write32
write32-IsBytes k v bytes = write16-IsBytes _ _ (write16-IsBytes _ _ bytes)

write_class_obj-IsBytes :
    {b : Packet} (at num c_type size : ℕ)
    → IsBytes b
    → IsBytes (write_class_obj at num c_type size b)
unfolding write_class_obj
write_class_obj-IsBytes at num c_type size bytes =
    write16-IsBytes _ _ (write8-IsBytes _ _ (write8-IsBytes _ _ bytes))

ruleset bytes_rules = (write8-IsBytes, write16-IsBytes, write32-IsBytes, write_class_obj-IsBytes)

pub fill_resv-IsBytes : (p : ResvMsg) (stack : Packet) → IsBytes stack → IsBytes (fill_resv p stack)
unfolding fill_resv
fill_resv-IsBytes p stack bytes = search (bytes_rules) depth 30

pub fill_path-IsBytes : (p : PathMsg) (stack : Packet) → IsBytes stack → IsBytes (fill_path p stack)
unfolding fill_path
fill_path-IsBytes p stack bytes = search (bytes_rules) depth 40 fits 20000
