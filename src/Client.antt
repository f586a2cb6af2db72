-- ===== src/Client.antt =====
-- The client classes and addresses by which connections are counted
-- (crates/bnetcc-core/src/limits.rs). A product code is the number of its four bytes.
use bnet_command_center.Base.{ℕ, ℕ_discrete}

pub data ClientClass : Type 0 where
  gateway bnftp game_pending : ClientClass
  game : ℕ → ClientClass

unfoldable pub ClientClass-discrete : Discrete ClientClass
ClientClass-discrete = hlevel ℕ_discrete

-- `std::net::IpAddr`: the version, and the address as a number.
pub data IpAddr : Type 0 where
  v4 v6 : ℕ → IpAddr

unfoldable pub IpAddr-discrete : Discrete IpAddr
IpAddr-discrete = hlevel ℕ_discrete
