-- ===== src/Route.antt =====
-- What the messages use of route_dump.c: `get_nexthop` and `get_srcip`. The text of an address is
-- the address, or `none` for the text " " that stands for no address. A member of `NextHop` or of
-- `SrcIp` is an argument that the function writes through; it is given with its old value, which a
-- failure leaves there.
pub mod Subnet
pub mod Dump
pub mod Netlink
pub mod Attributes
pub mod Lookup
pub mod Answers
pub mod Names
use socket.Base.{ℕ, ◌≡◌, ◌<◌, Option, List, length, ltb, if◌then◌else◌}
use socket.Base.Int.{ℤ}
use socket.Base.Run.{Run, fault}

-- `nh_ip`, `*pref_len`, `Dev` and `*Ifh` of `get_nexthop`.
pub record NextHop : Type 0 where
  pub nh_ip : Option ℕ
  pub pref_len : ℕ
  pub dev : List ℕ
  pub ifh : ℕ

-- `srcip` and `*Ifh` of `get_srcip`.
pub record SrcIp : Type 0 where
  pub srcip : Option ℕ
  pub ifh : ℕ

-- The two lookups, where they return: a model over this interface says nothing of a lookup that is a
-- memory fault. Route/Dump has the lookups with their faults, and Route/Answers relates the two.
pub record Routing : Type 0 where
  pub get_nexthop : ℕ → NextHop → ℤ × NextHop
  pub get_srcip : Option ℕ → SrcIp → ℤ × SrcIp

-- `strcpy(p->dev, dev)` into 16 bytes, before what follows it: a longer text is a fault.
abbrev pub copy_dev : {A : Type 0} → List ℕ → Run A → Run A
copy_dev dev m = if ltb (length dev) 16 then m else fault

-- The name that a lookup leaves in an array that holds `dev` fits 16 bytes, with its final zero. A
-- lookup that fails leaves `dev` there.
abbrev pub NamesFit : Routing → List ℕ → Type 0
NamesFit routing dev =
    (a : ℕ) (out : NextHop) → out.dev ≡ dev → length (routing.get_nexthop a out).1.dev < 16
