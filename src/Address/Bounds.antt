-- ===== src/Address/Bounds.antt =====
-- What a parsed target holds.
use wireproxy_homerun.Std.Decimal.{show_nat, atoi-show_nat}
use wireproxy_homerun.Std.HostPort.{join_host_port, IsHost, split-join, show_nat-IsPort}
use wireproxy_homerun.Address.{AddressPort, parse_address_port, port_error}
use wireproxy_homerun.Prelude.{◌^◌, ◌<◌, ◌≡◌, arith, ℕ, ◌≤◌}
use wireproxy_homerun.Std.{ok, Text, err}

parse_address_port-lt :
    (endpoint : Text) (a : AddressPort) → parse_address_port endpoint ≡ ok a → a.port < 2 ^ 16
unfolding parse_address_port
parse_address_port-lt endpoint a h = ground arith

-- A target that joins a host to a port number in decimal parses to just those, without loss, for
-- every port of 16 bits.
pub parse_address_port-join :
    (host : Text) (port : ℕ)
    → IsHost host
    → port < 2 ^ 16
    → parse_address_port (join_host_port host (show_nat port))
      ≡ ok (record { address = host; port = port })
unfolding parse_address_port
parse_address_port-join host port h b =
    rw (split-join host (show_nat port) h (show_nat-IsPort port), atoi-show_nat port (omega arith))
      (ground arith)

-- A port above 65535, written in decimal, is an error, also where it would fit once wrapped.
parse_address_port_large :
    (host : Text) (port : ℕ)
    → IsHost host
    → 2 ^ 16 ≤ port
    → port < 2 ^ 63
    → parse_address_port (join_host_port host (show_nat port)) ≡ err port_error
unfolding parse_address_port
parse_address_port_large host port h l b =
    rw (split-join host (show_nat port) h (show_nat-IsPort port), atoi-show_nat port b)
      (ground arith)
