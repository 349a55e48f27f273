-- ===== src/Resolve.antt =====
-- LookupAddr, ResolveAddrWithContext, Resolve and resolveToAddrPort of routine.go.
pub mod Families
pub mod Preference
use wireproxy_homerun.Address.{AddressPort}
use wireproxy_homerun.Net.{Addr, is4, is6, AddrPort, no_addr, v4, v6}
use wireproxy_homerun.Prelude.{if◌then◌else◌, Bool, List, [], ◌∷◌, ◌++◌, ℕ, zero, suc, ◌/◌, ◌%◌}
use wireproxy_homerun.Std.{new_error, Result, ok, err, Text, codes, text_eq, ◌>>=◌}

-- What lies outside: the two resolvers, the address syntax, and the draws of `rand.Shuffle`.
pub record Resolver : Type 0 where
  pub system_lookup : Text → Result (List Text)
  pub tunnel_lookup : Text → Result (List Text)
  pub parse_addr : Text → Result Addr
  pub shuffle_v4 : List Addr → List Addr
  pub shuffle_v6 : List Addr → List Addr

unfoldable pub lookup_addr : Resolver → Bool → Text → Result (List Text)
lookup_addr r system_dns name = if system_dns then r.system_lookup name else r.tunnel_lookup name

-- Where one answer goes; what does not parse is skipped.
classify : Result Addr → List Addr × List Addr → List Addr × List Addr
classify (ok addr) (a4, a6) =
    if is4 addr then (addr ∷ a4, a6) else if is6 addr then (a4, addr ∷ a6) else (a4, a6)
classify (err e) rest = rest

-- The IPv4 and the IPv6 addresses among the answers, in their order.
unfoldable pub families : (Text → Result Addr) → List Text → List Addr × List Addr
unfolding classify
families parse [] = ([], [])
families parse (saddr ∷ rest) = classify (parse saddr) (families parse rest)

abbrev pub ipv4 : Text
ipv4 = codes "ipv4"

abbrev pub ipv6 : Text
ipv6 = codes "ipv6"

by_strategy : Text → List Addr → List Addr → List Addr
by_strategy strategy a4 a6 =
    if text_eq strategy (ipv4) then a4 ++ a6 else if text_eq strategy (ipv6) then a6 ++ a4 else []

first_addr : Text → List Addr → Result Addr
first_addr name [] = err (new_error (codes "no address found for: " ++ name))
first_addr name (a ∷ rest) = ok a

choose : Resolver → Text → Text → List Text → Result Addr
unfolding by_strategy first_addr
choose r strategy name addrs =
    let (a4, a6) = families r.parse_addr addrs in
    first_addr name (by_strategy strategy (r.shuffle_v4 a4) (r.shuffle_v6 a6))

unfoldable pub resolve_addr_with_context : Resolver → Bool → Text → Text → Result Addr
unfolding choose
resolve_addr_with_context r system_dns strategy name = do
  addrs ← lookup_addr r system_dns name
  choose r strategy name addrs

unfoldable pub resolve_to_addr_port : Resolver → Bool → Text → AddressPort → Result AddrPort
resolve_to_addr_port r system_dns strategy endpoint = do
  addr ← resolve_addr_with_context r system_dns strategy endpoint.address
  ok (record { addr = addr; port = endpoint.port })

big_endian : ℕ → ℕ → Text
big_endian zero n = []
big_endian (suc k) n = big_endian k (n / 256) ++ (n % 256 ∷ [])

-- addr.AsSlice(), which has no zone
as_slice : Addr → Text
unfolding big_endian
as_slice no_addr = []
as_slice (v4 n) = big_endian 4 n
as_slice (v6 n zone) = big_endian 16 n

-- Resolve, as the socks5 server calls it: the address as a net.IP, the list of its bytes.
unfoldable pub resolve : Resolver → Bool → Text → Text → Result Text
unfolding as_slice
resolve r system_dns strategy name = do
  addr ← resolve_addr_with_context r system_dns strategy name
  ok (as_slice addr)
