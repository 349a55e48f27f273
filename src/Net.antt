-- ===== src/Net.antt =====
-- The address types of package netip as the code uses them, and the answers of the world outside:
-- resolvers, address syntax, the regular-expression engine, the process environment.
use wireproxy_homerun.Prelude.{ℕ, ◌/◌, ◌^◌, Bool, true, false, ◌==◌}
use wireproxy_homerun.Std.{Text}

-- netip.Addr: the zero value, an IPv4 address, an IPv6 address with its zone.
pub data Addr : Type 0 where
  no_addr : Addr
  v4 : ℕ → Addr
  v6 : ℕ → Text → Addr

abbrev pub is4 : Addr → Bool
is4 (v4 n) = true
is4 _ = false

abbrev pub is6 : Addr → Bool
is6 (v6 n zone) = true
is6 _ = false

-- ::ffff:0:0/96
abbrev pub is4_in6 : Addr → Bool
is4_in6 (v6 n zone) = n / 2 ^ 32 == 0xffff
is4_in6 _ = false

pub record Prefix : Type 0 where
  pub addr : Addr
  pub bits : ℕ

pub record AddrPort : Type 0 where
  pub addr : Addr
  pub port : ℕ

-- net.TCPAddr
pub record TcpAddr : Type 0 where
  pub ip : Text
  pub port : ℕ
  pub zone : Text

-- *regexp.Regexp: what the code asks of a compiled pattern.
pub record Regexp : Type 0 where
  pub match_string : Text → Bool
