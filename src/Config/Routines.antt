-- ===== src/Config/Routines.antt =====
-- The sections of the tunnels and proxies.
pub mod Sections
use wireproxy_homerun.Config.Keys.{
  parse_string, parse_tcp_addr, parse_port, optional, parse_bool_key,
}
use wireproxy_homerun.Config.Lists.{parse_regex_list}
use wireproxy_homerun.Config.Source.{Section, File, Platform}
use wireproxy_homerun.Net.{TcpAddr, Regexp}
use wireproxy_homerun.Prelude.{ℤ, pos, ℕ, Bool, List, [], ◌∷◌, ◌++◌}
use wireproxy_homerun.Std.{Result, ok, err, ◌>>=◌, Text, codes}

pub record TcpClientTunnelConfig : Type 0 where
  pub bind_address : TcpAddr
  pub target : Text

-- Input and Output are the process's own streams.
pub record StdioTunnelConfig : Type 0 where
  pub target : Text

pub record TcpServerTunnelConfig : Type 0 where
  pub listen_port : ℕ
  pub target : Text

pub record Socks5Config : Type 0 where
  pub bind_address : Text
  pub username : Text
  pub password : Text
  pub tunnel_domains : List Regexp
  pub log_domains : Bool

pub record SniConfig : Type 0 where
  pub bind_address : Text
  pub tunnel_domains : List Regexp
  pub log_domains : Bool

pub record HttpConfig : Type 0 where
  pub bind_address : Text
  pub username : Text
  pub password : Text
  pub cert_file : Text
  pub key_file : Text
  pub tunnel_domains : List Regexp
  pub log_domains : Bool

pub record UdpServerTunnelConfig : Type 0 where
  pub listen_port : ℕ
  pub target : Text
  pub inactivity_timeout : ℤ

pub record UdpProxyTunnelConfig : Type 0 where
  pub bind_address : Text
  pub target : Text
  pub inactivity_timeout : ℤ

-- A RoutineSpawner, as the parser makes it.
pub data Routine : Type 0 where
  tcp_client_tunnel : TcpClientTunnelConfig → Routine
  stdio_tunnel : StdioTunnelConfig → Routine
  tcp_server_tunnel : TcpServerTunnelConfig → Routine
  socks5 : Socks5Config → Routine
  http : HttpConfig → Routine
  sni : SniConfig → Routine
  udp_server_tunnel : UdpServerTunnelConfig → Routine
  udp_proxy_tunnel : UdpProxyTunnelConfig → Routine

-- `value, _ := f()`: the zero value where `f` fails
abbrev or_empty : Result Text → Text
or_empty (ok t) = t
or_empty (err e) = []

module _ (p : Platform) where
  unfoldable pub parse_tcp_client_tunnel_config : Section → Result Routine
  parse_tcp_client_tunnel_config section = do
    bind_address ← parse_tcp_addr p section (codes "BindAddress")
    target ← parse_string p section (codes "Target")
    ok (tcp_client_tunnel (record { bind_address = bind_address; target = target }))

  unfoldable pub parse_stdio_tunnel_config : Section → Result Routine
  parse_stdio_tunnel_config section = do
    target ← parse_string p section (codes "Target")
    ok (stdio_tunnel (record { target = target }))

  unfoldable pub parse_tcp_server_tunnel_config : Section → Result Routine
  parse_tcp_server_tunnel_config section = do
    listen_port ← parse_port section (codes "ListenPort")
    target ← parse_string p section (codes "Target")
    ok (tcp_server_tunnel (record { listen_port = listen_port; target = target }))

  unfoldable pub parse_socks5_config : Section → Result Routine
  parse_socks5_config section = do
    bind_address ← parse_string p section (codes "BindAddress")
    tunnel_domains ← parse_regex_list p section (codes "TunnelDomains")
    log_domains ← parse_bool_key section (codes "LogDomains")
    ok (
        socks5 (record {
          bind_address = bind_address;
          username = or_empty (parse_string p section (codes "Username"));
          password = or_empty (parse_string p section (codes "Password"));
          tunnel_domains = tunnel_domains;
          log_domains = log_domains;
        }))

  unfoldable pub parse_sni_config : Section → Result Routine
  parse_sni_config section = do
    bind_address ← parse_string p section (codes "BindAddress")
    tunnel_domains ← parse_regex_list p section (codes "TunnelDomains")
    log_domains ← parse_bool_key section (codes "LogDomains")
    ok (
        sni (record {
          bind_address = bind_address;
          tunnel_domains = tunnel_domains;
          log_domains = log_domains;
        }))

  unfoldable pub parse_http_config : Section → Result Routine
  parse_http_config section = do
    bind_address ← parse_string p section (codes "BindAddress")
    tunnel_domains ← parse_regex_list p section (codes "TunnelDomains")
    log_domains ← parse_bool_key section (codes "LogDomains")
    ok (
        http (record {
          bind_address = bind_address;
          username = or_empty (parse_string p section (codes "Username"));
          password = or_empty (parse_string p section (codes "Password"));
          cert_file = or_empty (parse_string p section (codes "CertFile"));
          key_file = or_empty (parse_string p section (codes "KeyFile"));
          tunnel_domains = tunnel_domains;
          log_domains = log_domains;
        }))

  unfoldable pub parse_udp_server_tunnel_config : Section → Result Routine
  unfolding optional
  parse_udp_server_tunnel_config section = do
    listen_port ← parse_port section (codes "ListenPort")
    target ← parse_string p section (codes "Target")
    timeout ← optional (section.get_key (codes "InactivityTimeout")) (λ key. key.int) (pos 0)
    ok (
        udp_server_tunnel
          (record { listen_port = listen_port; target = target; inactivity_timeout = timeout }))

  unfoldable pub parse_udp_proxy_tunnel_config : Section → Result Routine
  unfolding optional
  parse_udp_proxy_tunnel_config section = do
    bind_address ← parse_string p section (codes "BindAddress")
    target ← parse_string p section (codes "Target")
    timeout ← optional (section.get_key (codes "InactivityTimeout")) (λ key. key.int) (pos 0)
    ok (
        udp_proxy_tunnel
          (record { bind_address = bind_address; target = target; inactivity_timeout = timeout }))

  -- ResolveStrategy
  unfoldable pub parse_resolve_config : Section → Text
  parse_resolve_config section = or_empty (parse_string p section (codes "ResolveStrategy"))

each_section : (Section → Result Routine) → List Section → Result (List Routine)
each_section f [] = ok []
each_section f (s ∷ rest) = do config ← f s; configs ← each_section f rest; ok (config ∷ configs)

-- The routines of the sections of one name, appended to those that there are; a name without
-- sections adds none.
unfoldable pub parse_routines_config :
    List Routine → File → Text → (Section → Result Routine) → Result (List Routine)
unfolding each_section
parse_routines_config routines cfg name f = elim (cfg.sections_by_name name) [
  | err e ↦ ok routines
  | ok sections ↦ each_section f sections >>= λ found. ok (routines ++ found)
]
