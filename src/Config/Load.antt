-- ===== src/Config/Load.antt =====
-- ParseConfig, ParseConfigString and what they share.
pub mod Whole
use wireproxy_homerun.Config.Source.{File, Source, named, content, Platform}
use wireproxy_homerun.Config.Device.{DeviceConfig, parse_interface, parse_peers}
use wireproxy_homerun.Config.Routines.{
  Routine, parse_tcp_client_tunnel_config, parse_stdio_tunnel_config,
  parse_tcp_server_tunnel_config, parse_socks5_config, parse_sni_config, parse_http_config,
  parse_udp_server_tunnel_config, parse_udp_proxy_tunnel_config, parse_resolve_config,
  parse_routines_config,
}
use wireproxy_homerun.Prelude.{pos, if◌then◌else◌, not, ◌&&◌, none, List, []}
use wireproxy_homerun.Std.{new_error, Result, ok, err, ◌>>=◌, Text, codes, text_eq, is_empty}
use wireproxy_homerun.Std.Unicode.{trim_space}

pub record Configuration : Type 0 where
  pub device : DeviceConfig
  pub routines : List Routine
  pub resolve_strategy : Text

abbrev pub new_device : DeviceConfig
new_device = record {
  secret_key = [];
  endpoint = [];
  peers = [];
  dns = [];
  mtu = pos 1420;
  listen_port = none;
  check_alive = [];
  check_alive_interval = pos 0;
}

module _ (p : Platform) where
  -- A bare file name is looked up beside the parent file, if there is one.
  wg_path : Text → Text → Text
  wg_path base_dir path =
      if not (is_empty base_dir) && text_eq (p.base path) path then p.join base_dir path else path

  -- The file with the WireGuard sections: the one that WGConfig names, or the same file.
  wg_file : File → Text → Result File
  unfolding wg_path
  wg_file cfg base_dir = elim (cfg.root.get_key (codes "WGConfig")) [
    | err e ↦ ok cfg
    | ok key ↦ p.load_sources (named (wg_path base_dir key.string))
  ]

  resolve_strategy_of : File → Text
  resolve_strategy_of cfg = elim (cfg.get_section (codes "Resolve")) [
    | err e ↦ codes "auto"
    | ok section ↦ parse_resolve_config p section
  ]

  -- The sections of the eight kinds, each kind in its turn.
  unfoldable pub parse_routines : File → Result (List Routine)
  parse_routines cfg = do
    r₁ ← parse_routines_config [] cfg (codes "TCPClientTunnel") (parse_tcp_client_tunnel_config p)
    r₂ ← parse_routines_config r₁ cfg (codes "STDIOTunnel") (parse_stdio_tunnel_config p)
    r₃ ← parse_routines_config r₂ cfg (codes "TCPServerTunnel") (parse_tcp_server_tunnel_config p)
    r₄ ← parse_routines_config r₃ cfg (codes "Socks5") (parse_socks5_config p)
    r₅ ← parse_routines_config r₄ cfg (codes "http") (parse_http_config p)
    r₆ ← parse_routines_config r₅ cfg (codes "SNI") (parse_sni_config p)
    r₇ ← parse_routines_config r₆ cfg (codes "UDPServerTunnel") (parse_udp_server_tunnel_config p)
    parse_routines_config r₇ cfg (codes "UDPProxyTunnel") (parse_udp_proxy_tunnel_config p)

  unfoldable pub parse_config_source : Source → Text → Result Configuration
  unfolding wg_file resolve_strategy_of
  parse_config_source source base_dir = do
    cfg ← p.load_sources source
    wg_cfg ← wg_file cfg base_dir
    device ← parse_interface p wg_cfg new_device
    peers ← parse_peers p wg_cfg device.peers
    routines ← parse_routines cfg
    ok (record {
      device = record device { peers = peers };
      routines = routines;
      resolve_strategy = resolve_strategy_of cfg;
    })

  unfoldable pub parse_config : Text → Result Configuration
  unfolding parse_config_source
  parse_config file = parse_config_source (named file) (p.dir file)

  unfoldable pub parse_config_string : Text → Result Configuration
  unfolding parse_config_source
  parse_config_string text =
      if is_empty (trim_space p.unicode text)
      then err (new_error (codes "configuration is empty"))
      else parse_config_source (content text) []
