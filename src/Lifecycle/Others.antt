-- ===== src/Lifecycle/Others.antt =====
-- Bind of the Socks5 and HTTP proxies, which dispatch on their settings, and the STDIO tunnel, which
-- has no listener.
use wireproxy_homerun.Address.{AddressPort, parse_address_port}
use wireproxy_homerun.Config.Routines.{Socks5Config, HttpConfig}
use wireproxy_homerun.Lifecycle.{Listening, bind_listener}
use wireproxy_homerun.Prelude.{if◌then◌else◌, true, not, ◌&&◌, Option, none, some, [], ◌∷◌, ◌++◌}
use wireproxy_homerun.Router.{DomainRouter, new_domain_router}
use wireproxy_homerun.Shutdown.{closed_by_us}
use wireproxy_homerun.Std.{Error, new_error, errorf, Result, ok, err, Text, codes, is_empty}

unfoldable pub bind_socks5 : Text → Result (Unit {0}) → Listening → Result Listening
unfolding bind_listener
bind_socks5 bind_address listen t =
    bind_listener (codes "socks5: cannot listen on " ++ (bind_address ++ codes ": ")) listen t

-- With a certificate and a key the listener speaks TLS, or there is none. The three results are those
-- of loading the pair, of tls.Listen and of net.Listen.
unfoldable pub bind_http :
    HttpConfig
    → Result (Unit {0})
    → Result (Unit {0})
    → Result (Unit {0})
    → Listening
    → Result Listening
unfolding bind_listener
bind_http config pair tls plain t =
    let prefix = codes "http proxy: cannot listen on " ++ (config.bind_address ++ codes ": ") in
    if not (is_empty config.cert_file) && not (is_empty config.key_file)
    then elim pair [
      | err e ↦ err (errorf (codes "http proxy: cannot load certificate: ") e)
      | ok u ↦ bind_listener prefix tls t
    ]
    else bind_listener prefix plain t

-- The STDIO tunnel keeps its parsed target; `quoted` is the target as the error prints it.
unfoldable pub bind_stdio : Text → Text → Result AddressPort
bind_stdio quoted target = elim (parse_address_port target) [
  | err e ↦ err (errorf (codes "stdio tunnel: bad target " ++ (quoted ++ codes ": ")) e)
  | ok raddr ↦ ok raddr
]

-- What Serve returns, and the target that it starts to forward to.
unfoldable pub serve_stdio : Option AddressPort → Option Error × Option AddressPort
serve_stdio none = (some (new_error (codes "stdio tunnel: Serve called before Bind")), none)
serve_stdio (some raddr) = (none, some raddr)

-- How a socks5 request leaves: everything through the tunnel and its resolver, or by the router, which
-- is asked with the name that the client gave.
pub data Socks5Route : Type 0 where
  all_tunnel : Socks5Route
  by_router : DomainRouter → Socks5Route

unfoldable pub socks5_route : Socks5Config → Socks5Route
socks5_route config = elim config.tunnel_domains [
  | p ∷ ps ↦ by_router (new_domain_router (p ∷ ps) config.log_domains)
  | [] ↦ if config.log_domains then by_router (new_domain_router [] true) else all_tunnel
]

-- The credentials that are asked for, if a user name is set.
unfoldable pub socks5_auth : Socks5Config → Option (Text × Text)
socks5_auth config =
    if is_empty config.username then none else some (config.username, config.password)

-- Serve: `failed` is what the server of go-socks5 returns on the listener.
unfoldable pub serve_socks5 : Listening → Option Error → Option Error
unfolding closed_by_us
serve_socks5 t failed =
    if t.bound
    then elim failed [
      | none ↦ none
      | some e ↦
          if closed_by_us t.shutdown (some e) then none else some (errorf (codes "socks5: ") e)
    ]
    else some (new_error (codes "socks5: Serve called before Bind"))
