-- ===== src/Tree/Order.antt =====
-- What a table of rsvp_db.c gives the tree functions: the tunnel id of its messages, and the two
-- comparison functions that are handed over as function pointers.
use socket.Base.{ℕ, ◌≡◌}
use socket.Base.Int.{ℤ, sub_ℕ}

pub record TunnelOrder (A : Type 0) : Type 0 where
  pub tunnel_id : A → ℕ
  -- `cmp_message`, used by insertion.
  pub cmp1 : A → A → ℤ
  -- `cmp_tunnel_id`, used by deletion and search.
  pub cmp : ℕ → A → ℤ
  pub cmp1_lem : (a b : A) → cmp1 a b ≡ sub_ℕ (tunnel_id a) (tunnel_id b)
  pub cmp_lem : (k : ℕ) (b : A) → cmp k b ≡ sub_ℕ k (tunnel_id b)
