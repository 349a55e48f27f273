-- ===== src/Router/Dialing.antt =====
-- Which network a proxied connection is dialed on.
use wireproxy_homerun.Std.Unicode.{Unicode}
use wireproxy_homerun.Prelude.{◌≡◌, if◌then◌else◌, Option, refl, none, some, [], ◌∷◌}
use wireproxy_homerun.Router.{
  host_from_addr, DomainRouter, should_tunnel, Dialers, routed_dial, route, routed_socks5_dial,
}
use wireproxy_homerun.Std.{Text, is_empty}
use wireproxy_homerun.Std.HostPort.{join_host_port, IsHost, IsPort, split-join}

-- The address that `net.JoinHostPort` builds from a host is routed by that host.
host_from_addr-join :
    (host port : Text)
    → IsHost host
    → IsPort port
    → host_from_addr (join_host_port host port) ≡ host
unfolding host_from_addr
host_from_addr-join host port h p = rw (split-join host port h p, host_from_addr)

-- Logging does not change the decision.
route-decision :
    (u : Unicode) (router : Option DomainRouter) (host : Text)
    → (route u router host).0 ≡ should_tunnel u router host
unfolding route
route-decision u none host = refl
route-decision u (some r) host = refl

module _ {Conn : Type 0} (u : Unicode) (d : Dialers Conn) (router : Option DomainRouter) where
  -- A connection is dialed through the tunnel exactly when the decision for its host says so, and
  -- directly otherwise, on the network and address that were asked for.
  pub routed_dial-join :
      (network host port : Text)
      → IsHost host
      → IsPort port
      → routed_dial u d router network (join_host_port host port) ≡ (
          if should_tunnel u router host
          then d.tunnel_dial network (join_host_port host port)
          else d.direct_dial network (join_host_port host port))
  unfolding routed_dial
  routed_dial-join network host port h p =
      rw (host_from_addr-join host port h p, routed_dial, route-decision u router host)

  -- A socks5 request with a name is routed by that name, also where the address to dial is
  -- already resolved; a request for a literal address is routed by the host of that address.
  pub routed_socks5_dial_lem :
      (fqdn network host port : Text)
      → IsHost host
      → IsPort port
      → routed_socks5_dial u d router fqdn network (join_host_port host port) ≡ (
          if should_tunnel u router (if is_empty fqdn then host else fqdn)
          then d.tunnel_dial network (join_host_port host port)
          else d.direct_dial network (join_host_port host port))
  unfolding routed_socks5_dial
  routed_socks5_dial_lem [] network host port h p =
      rw (host_from_addr-join host port h p, routed_socks5_dial, route-decision u router host)
  routed_socks5_dial_lem (c ∷ fqdn) network host port h p = rw (route-decision u router (c ∷ fqdn))
