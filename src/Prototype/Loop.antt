-- ===== src/Prototype/Loop.antt =====
-- `receive_resv_message` of rsvp_msg1.c on every packet: how often it prints the label.
use socket.Base.{
  ℕ, zero, suc, ◌+◌, ◌<◌, ◌≡◌, refl, List, [], ◌∷◌, ◌++◌, ◌==◌, false, Bool-cases, inl, inr,
  if◌then◌else◌, arith,
}
use socket.Base.Run.{ok}
use socket.Packet.{Packet, read8, read32, htonl, label_obj, ip}
use socket.Prototype.{class_obj_loop, get_resv_class_obj, receive_resv_message1}

-- The label of a packet.
abbrev pub label_of : Packet → ℕ
label_of buffer = htonl (read32 (ip + label_obj + 4) buffer)

abbrev pub repeat : ℕ → ℕ → List ℕ
repeat zero a = []
repeat (suc n) a = a ∷ repeat n a

-- How many of the objects have the class of a label.
abbrev pub label_objects : Packet → List ℕ → ℕ
label_objects buffer [] = 0
label_objects buffer (at ∷ rest) =
    let more = label_objects buffer rest in if read8 (at + 2) buffer == 16 then suc more else more

-- No object begins at 0.
abbrev pub Nonzero : List ℕ → Type 0
Nonzero [] = Unit
Nonzero (at ∷ rest) = (0 < at) × Nonzero rest

class_obj_loop-repeat :
    (buffer : Packet) (objects rest : List ℕ)
    → Nonzero objects
    → class_obj_loop buffer (objects ++ 0 ∷ rest)
      ≡ ok (repeat (label_objects buffer objects) (label_of buffer))
unfolding class_obj_loop
class_obj_loop-repeat buffer [] rest h = refl
class_obj_loop-repeat buffer (at ∷ objects) rest h =
    let more : (at == 0) ≡ false = ground (arith, h.0) in
    rw (more, class_obj_loop-repeat buffer objects rest h.1)
      (elim (Bool-cases (read8 (at + 2) buffer == 16)) [
        | inl is_label ↦ rw is_label refl
        | inr other ↦ rw other refl
      ])

-- Whatever stands in the packet, the loop of `receive_resv_message` stops inside its array, and
-- prints the label of the packet once for each of the five objects that has the class of a label.
pub receive_resv_message1_lem :
    (buffer : Packet)
    → receive_resv_message1 buffer
      ≡ ok (repeat (label_objects buffer get_resv_class_obj) (label_of buffer))
unfolding receive_resv_message1
receive_resv_message1_lem buffer =
    class_obj_loop-repeat buffer get_resv_class_obj (0 ∷ 0 ∷ 0 ∷ 0 ∷ [])
      (omega arith, (omega arith, (omega arith, (omega arith, (omega arith, tt)))))
