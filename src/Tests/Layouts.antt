-- ===== src/Tests/Layouts.antt =====
-- The places of the objects and of their members that the model writes out.
use socket.Base.{◌≡◌, refl, ◌+◌, [], ◌∷◌}
use socket.Packet.{
  session_obj, hop_obj, time_obj, label_req_obj, session_attr_obj, sender_temp_obj, filter_spec_obj,
  label_obj, path_packet_size, resv_packet_size,
}
use socket.Packet.Layout.{
  CType, struct, offsets, rsvp_header, class_obj, label_req_object, session_object, hop_object,
  time_object, session_attr_object, sender_temp_object, label_object, filter_spec_object,
}

common_objects :
    (session_obj ≡ CType.size (struct rsvp_header))
    × (hop_obj ≡ session_obj + CType.size (struct session_object))
    × (time_obj ≡ hop_obj + CType.size (struct hop_object))
unfolding struct
common_objects = (refl, refl, refl)

path_objects :
    (label_req_obj ≡ time_obj + CType.size (struct time_object))
    × (session_attr_obj ≡ label_req_obj + CType.size (struct label_req_object))
    × (sender_temp_obj ≡ session_attr_obj + CType.size (struct session_attr_object))
    × (path_packet_size ≡ sender_temp_obj + CType.size (struct sender_temp_object))
unfolding struct
path_objects = (refl, refl, refl, refl)

resv_objects :
    (filter_spec_obj ≡ time_obj + CType.size (struct time_object))
    × (label_obj ≡ filter_spec_obj + CType.size (struct filter_spec_object))
    × (resv_packet_size ≡ label_obj + CType.size (struct label_object))
unfolding struct
resv_objects = (refl, refl, refl)

header_members : offsets 0 rsvp_header ≡ 0 ∷ 1 ∷ 2 ∷ 4 ∷ 5 ∷ 6 ∷ []
unfolding offsets
header_members = refl

class_members : offsets 0 class_obj ≡ 0 ∷ 2 ∷ 3 ∷ []
unfolding offsets
class_members = refl

session_members : offsets 0 session_object ≡ 0 ∷ 4 ∷ 8 ∷ 10 ∷ 12 ∷ []
unfolding offsets struct
session_members = refl

hop_members : offsets 0 hop_object ≡ 0 ∷ 4 ∷ 8 ∷ []
unfolding offsets struct
hop_members = refl

attribute_members : offsets 0 session_attr_object ≡ 0 ∷ 4 ∷ 5 ∷ 6 ∷ 7 ∷ 8 ∷ []
unfolding offsets struct
attribute_members = refl

template_members : offsets 0 sender_temp_object ≡ 0 ∷ 4 ∷ 8 ∷ 10 ∷ []
unfolding offsets struct
template_members = refl
