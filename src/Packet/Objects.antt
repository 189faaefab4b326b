-- ===== src/Packet/Objects.antt =====
-- The packets of rsvp_msg.c as sequences of objects, read the way RFC 2205 describes one: the
-- header says how long the packet is, and each object, from its `class_obj`, where the next begins.
use socket.Base.{
  ℕ, zero, suc, ◌+◌, ◌≤◌, ◌≡◌, refl, Option, none, some, List, [], ◌∷◌, ◌==◌, if◌then◌else◌, arith,
}
use mathlib.Core.Option.{map}
use socket.Message.{PathMsg, ResvMsg}
use socket.Packet.{
  Packet, write8, write16, write32, write_class_obj, read8, read16, htons, path_packet_size,
  resv_packet_size,
}
use socket.Packet.Path.{fill_path}
use socket.Packet.Resv.{fill_resv}

-- The class numbers and types of the objects from `k` up to `size`, or `none` if the objects do not
-- end there.
abbrev pub objects : ℕ → ℕ → ℕ → Packet → Option (List (ℕ × ℕ))
objects zero size k b = none
objects (suc fuel) size k b =
    let rest = objects fuel size (k + htons (read16 k b)) b in
    if k == size then some [] else map (λ os. (read8 (k + 2) b, read8 (k + 3) b) ∷ os) rest

-- The version and type of the message, the length that its header claims, and its objects.
abbrev pub message : Packet → (ℕ × ℕ) × ℕ × Option (List (ℕ × ℕ))
message b = let size = htons (read16 6 b) in ((read8 0 b, read8 1 b), size, objects 10 size 8 b)

-- What `send_path_message` writes is a packet of RSVP version 1 and type Path, of the length it is
-- sent with, whose objects are the session, hop, time, label request, session attribute and sender
-- template and end with the packet; and it writes nothing behind the packet.
pub fill_path_lem :
    (p : PathMsg) (stack : Packet)
    → (message (fill_path p stack) ≡ (
      (16, 1),
      path_packet_size,
      some ((1, 7) ∷ (3, 1) ∷ (5, 1) ∷ (19, 1) ∷ (207, 7) ∷ (11, 7) ∷ []),
    ))
      × ((i : ℕ) → path_packet_size ≤ i → fill_path p stack i ≡ stack i)
unfolding fill_path write8 write16 write32 read8 read16 htons write_class_obj
fill_path_lem p stack = (refl, λ i h. ground arith)

-- What `send_resv_message` writes is a packet of RSVP version 1 and type Resv, of the length it is
-- sent with, whose objects are the session, hop, time, a second label class in place of the filter
-- spec, and label, and end with the packet; and it writes nothing behind the packet.
pub fill_resv_lem :
    (p : ResvMsg) (stack : Packet)
    → (message (fill_resv p stack)
        ≡ ((16, 2), resv_packet_size, some ((1, 7) ∷ (3, 1) ∷ (5, 1) ∷ (16, 1) ∷ (16, 1) ∷ [])))
      × ((i : ℕ) → resv_packet_size ≤ i → fill_resv p stack i ≡ stack i)
unfolding fill_resv write8 write16 write32 read8 read16 htons write_class_obj
fill_resv_lem p stack = (refl, λ i h. ground arith)
