-- ===== src/Message.antt =====
-- The messages of rsvp_db.h, `path_msg` and `resv_msg`, and the comparison functions of rsvp_db.c
-- for the two tables. An `in_addr` is the number whose bytes are the address, a device or a tunnel
-- name the list of its characters.
use socket.Base.{ℕ, ◌≡◌, refl, List}
use socket.Base.Int.{ℤ, sub_ℕ}
use socket.Tree.{TunnelOrder}

pub record PathMsg : Type 0 where
  pub src_ip : ℕ
  pub dest_ip : ℕ
  pub nexthop_ip : ℕ
  pub p_srcip : ℕ
  pub e_srcip : ℕ
  pub tunnel_id : ℕ
  pub ifh : ℕ
  pub interval : ℕ
  pub prefix_len : ℕ
  pub setup_priority : ℕ
  pub hold_priority : ℕ
  pub flags : ℕ
  pub lsp_id : ℕ
  pub dev : List ℕ
  pub name : List ℕ

pub record ResvMsg : Type 0 where
  pub src_ip : ℕ
  pub dest_ip : ℕ
  pub nexthop_ip : ℕ
  pub p_srcip : ℕ
  pub e_srcip : ℕ
  pub tunnel_id : ℕ
  pub ifh : ℕ
  pub interval : ℕ
  pub in_label : ℕ
  pub out_label : ℕ
  pub lsp_id : ℕ
  pub dev : List ℕ
  pub prefix_len : ℕ

-- The ids are promoted to `int`, so the difference is exact.
unfoldable pub compare_path_insert : PathMsg → PathMsg → ℤ
compare_path_insert a b = sub_ℕ a.tunnel_id b.tunnel_id

unfoldable pub compare_resv_insert : ResvMsg → ResvMsg → ℤ
compare_resv_insert a b = sub_ℕ a.tunnel_id b.tunnel_id

unfoldable pub compare_path_del : ℕ → PathMsg → ℤ
compare_path_del k b = sub_ℕ k b.tunnel_id

unfoldable pub compare_resv_del : ℕ → ResvMsg → ℤ
compare_resv_del k b = sub_ℕ k b.tunnel_id

compare_path_insert_lem : (a b : PathMsg) → compare_path_insert a b ≡ sub_ℕ a.tunnel_id b.tunnel_id
unfolding compare_path_insert
compare_path_insert_lem a b = refl

compare_path_del_lem : (k : ℕ) (b : PathMsg) → compare_path_del k b ≡ sub_ℕ k b.tunnel_id
unfolding compare_path_del
compare_path_del_lem k b = refl

compare_resv_insert_lem : (a b : ResvMsg) → compare_resv_insert a b ≡ sub_ℕ a.tunnel_id b.tunnel_id
unfolding compare_resv_insert
compare_resv_insert_lem a b = refl

compare_resv_del_lem : (k : ℕ) (b : ResvMsg) → compare_resv_del k b ≡ sub_ℕ k b.tunnel_id
unfolding compare_resv_del
compare_resv_del_lem k b = refl

-- What the Path table hands to the tree functions.
instance unfoldable pub path_order : TunnelOrder PathMsg
unfolding compare_path_insert_lem compare_path_del_lem
path_order = record {
  tunnel_id = λ a. a.tunnel_id;
  cmp1 = compare_path_insert;
  cmp = compare_path_del;
  cmp1_lem = compare_path_insert_lem;
  cmp_lem = compare_path_del_lem;
}

-- What the Resv table hands to the tree functions.
instance unfoldable pub resv_order : TunnelOrder ResvMsg
unfolding compare_resv_insert_lem compare_resv_del_lem
resv_order = record {
  tunnel_id = λ a. a.tunnel_id;
  cmp1 = compare_resv_insert;
  cmp = compare_resv_del;
  cmp1_lem = compare_resv_insert_lem;
  cmp_lem = compare_resv_del_lem;
}
