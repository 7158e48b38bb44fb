-- ===== src/Net.antt =====
-- std::net::SocketAddrV4: an IPv4 address, as the number that its four octets spell, and a port.
use iroh_content_discovery.Prelude.{ℕ, ℕ_discrete, Bool, true, false, ◌&&◌, ◌||◌, ltb, ◌==◌}

pub record SocketAddrV4 : Type 0 where
  pub ip : ℕ
  pub port : ℕ

unfoldable pub addr_discrete : Discrete SocketAddrV4
unfolding ℕ_discrete
addr_discrete = hlevel ℕ_discrete

-- The order of `SocketAddrV4`: by address, then by port.
abbrev pub addr_ltb : SocketAddrV4 → SocketAddrV4 → Bool
addr_ltb a b = ltb a.ip b.ip || (a.ip == b.ip && ltb a.port b.port)

abbrev pub addr_eq : SocketAddrV4 → SocketAddrV4 → Bool
addr_eq a b = elim (addr_discrete a b) [ yes _ ↦ true | no _ ↦ false ]
