-- ===== src/Address.antt =====
-- parseAddressPort of routine.go and extractPort of cmd/wireproxy/main.go.
pub mod Bounds
use wireproxy_homerun.Prelude.{
  ℤ, pos, negsuc, ltb, if◌then◌else◌, ℕ, ◌-◌, ◌%◌, ◌^◌, Option, none, some,
}
use wireproxy_homerun.Std.{Error, new_error, Result, ok, err, Text, codes, ◌>>=◌}
use wireproxy_homerun.Std.Decimal.{atoi}
use wireproxy_homerun.Std.HostPort.{split_host_port}

pub record AddressPort : Type 0 where
  pub address : Text
  pub port : ℕ

pub port_error : Error
port_error = new_error (codes "dial: port must be numeric")

-- uint16(n) of an int
unfoldable pub uint16 : ℤ → ℕ
uint16 (pos n) = n % 2 ^ 16
uint16 (negsuc n) = (2 ^ 16 - 1) - n % 2 ^ 16

checked_port : Text → Option ℤ → Result AddressPort
unfolding uint16 port_error
checked_port name none = err port_error
checked_port name (some (negsuc n)) = err port_error
checked_port name (some (pos n)) =
    if ltb 65535 n then err port_error else ok (record { address = name; port = uint16 (pos n) })

unfoldable pub parse_address_port : Text → Result AddressPort
unfolding checked_port
parse_address_port endpoint = do
  (name, sport) ← split_host_port endpoint
  checked_port name (atoi sport)

-- `none` is the panic.
unfoldable pub extract_port : Text → Option ℕ
extract_port addr = elim (split_host_port addr) [
  | err e ↦ none
  | ok (host, port) ↦ elim (atoi port) [ none ↦ none | some n ↦ some (uint16 n) ]
]
