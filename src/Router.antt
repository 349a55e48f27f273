-- ===== src/Router.antt =====
-- router.go, and the dialers of routine.go that go by its decision.
pub mod Decision
pub mod Dialing
use wireproxy_homerun.Net.{Regexp}
use wireproxy_homerun.Prelude.{
  if◌then◌else◌, Bool, true, false, ◌||◌, Option, none, some, List, [], ◌∷◌, ◌++◌,
}
use wireproxy_homerun.Std.{Result, ok, err, Text, codes, is_empty, trim_suffix_byte}
use wireproxy_homerun.Std.HostPort.{split_host_port}
use wireproxy_homerun.Std.Unicode.{Unicode, to_lower}

pub record DomainRouter : Type 0 where
  pub patterns : List Regexp
  pub log_names : Bool

abbrev pub new_domain_router : List Regexp → Bool → DomainRouter
new_domain_router patterns log_names = record { patterns = patterns; log_names = log_names }

-- the loop over the patterns
unfoldable pub matches_any : List Regexp → Text → Bool
matches_any [] host = false
matches_any (p ∷ ps) host = p.match_string host || matches_any ps host

-- the form in which a host is matched
unfoldable pub normalize : Unicode → Text → Text
normalize u host = to_lower u (trim_suffix_byte b'.' host)

decide_host : Unicode → List Regexp → Text → Bool
unfolding matches_any normalize
decide_host u [] host = true
decide_host u (p ∷ ps) host = matches_any (p ∷ ps) (normalize u host)

-- `none` is the nil router.
unfoldable pub should_tunnel : Unicode → Option DomainRouter → Text → Bool
unfolding decide_host
should_tunnel u none host = true
should_tunnel u (some r) host = decide_host u r.patterns host

log_line : Text → Bool → Text
log_line host tunnel =
    codes "route: "
    ++ (host ++ (codes " -> " ++ (if tunnel then codes "TUNNEL" else codes "DIRECT")))

-- The decision, and the lines that were logged.
unfoldable pub route : Unicode → Option DomainRouter → Text → Bool × List Text
unfolding log_line
route u none host = (should_tunnel u none host, [])
route u (some r) host =
    let tunnel = should_tunnel u (some r) host in
    (tunnel, if r.log_names then log_line host tunnel ∷ [] else [])

unfoldable pub host_from_addr : Text → Text
host_from_addr address = elim (split_host_port address) [ ok (host, port) ↦ host | err e ↦ address ]

-- The two ways out: the netstack of the tunnel and the system's own network.
pub record Dialers (Conn : Type 0) : Type 0 where
  pub tunnel_dial : Text → Text → Result Conn
  pub direct_dial : Text → Text → Result Conn

module _ {Conn : Type 0} (u : Unicode) (d : Dialers Conn) (router : Option DomainRouter) where
  unfoldable pub routed_dial : Text → Text → Result Conn
  routed_dial network address =
      if (route u router (host_from_addr address)).0
      then d.tunnel_dial network address
      else d.direct_dial network address

  -- `fqdn` is request.DestAddr.FQDN.
  unfoldable pub routed_socks5_dial : Text → Text → Text → Result Conn
  routed_socks5_dial fqdn network address =
      let host = if is_empty fqdn then host_from_addr address else fqdn in
      if (route u router host).0
      then d.tunnel_dial network address
      else d.direct_dial network address
