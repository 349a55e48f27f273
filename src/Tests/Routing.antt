-- ===== src/Tests/Routing.antt =====
-- Router and Address at concrete inputs.
use wireproxy_homerun.Std.Unicode.{to_lower}
use wireproxy_homerun.Address.{parse_address_port}
use wireproxy_homerun.Address.Bounds.{parse_address_port-join}
use wireproxy_homerun.Prelude.{if◌then◌else◌, ◌≡◌, refl, ◌↔◌, true, some, arith}
use wireproxy_homerun.Router.{should_tunnel, routed_dial, routed_socks5_dial}
use wireproxy_homerun.Router.Decision.{Whitelisted, should_tunnel_iff, qualified}
use wireproxy_homerun.Router.Dialing.{routed_dial-join, routed_socks5_dial_lem}
use wireproxy_homerun.Std.{ok, Text, codes, is_empty, lower_byte}
use wireproxy_homerun.Std.Decimal.{show_nat}
use wireproxy_homerun.Std.HostPort.{join_host_port}
use wireproxy_homerun.Tests.Fixtures.{unicode, router, dialers}

abbrev host : Text
host = codes "Intranet.Example."

should_tunnel_iff_example :
    (should_tunnel unicode (some router) host ≡ true)
    ↔ Whitelisted (codes "intranet.example") router.patterns
unfolding codes to_lower lower_byte
should_tunnel_iff_example =
    should_tunnel_iff unicode router host (codes "intranet.example") (λ e. cc)
      (qualified (codes "Intranet.Example") refl refl)

routed_dial-join_example :
    routed_dial unicode dialers
      (some router)
      (codes "tcp")
      (join_host_port (codes "other.example") (codes "443"))
    ≡ (if should_tunnel unicode (some router) (codes "other.example")
        then dialers.tunnel_dial
            (codes "tcp")
            (join_host_port (codes "other.example") (codes "443"))
        else dialers.direct_dial
            (codes "tcp")
            (join_host_port (codes "other.example") (codes "443")))
unfolding codes
routed_dial-join_example =
    routed_dial-join unicode dialers (some router) (codes "tcp") (codes "other.example")
      (codes "443") (refl, refl) ((refl, refl), refl)

routed_socks5_dial_lem_example :
    routed_socks5_dial unicode dialers
      (some router)
      host
      (codes "tcp")
      (join_host_port (codes "10.0.0.2") (codes "80"))
    ≡ (if should_tunnel unicode (some router) (if is_empty host then codes "10.0.0.2" else host)
        then dialers.tunnel_dial (codes "tcp") (join_host_port (codes "10.0.0.2") (codes "80"))
        else dialers.direct_dial (codes "tcp") (join_host_port (codes "10.0.0.2") (codes "80")))
unfolding codes
routed_socks5_dial_lem_example =
    routed_socks5_dial_lem unicode dialers (some router) host (codes "tcp") (codes "10.0.0.2")
      (codes "80") (refl, refl) ((refl, refl), refl)

parse_address_port-join_example :
    parse_address_port (join_host_port (codes "fd00::2") (show_nat 65535))
    ≡ ok (record { address = codes "fd00::2"; port = 65535 })
unfolding codes
parse_address_port-join_example =
    parse_address_port-join (codes "fd00::2") 65535 (refl, refl) (omega arith)
