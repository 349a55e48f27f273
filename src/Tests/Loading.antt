-- ===== src/Tests/Loading.antt =====
-- Whole configurations.
use wireproxy_homerun.Command.Serving.{is_serve, IsServing}
use wireproxy_homerun.Address.{extract_port}
use wireproxy_homerun.Std.HostPort.{split_host_port}
use wireproxy_homerun.Command.{Options, World, main}
use wireproxy_homerun.Command.Order.{main-serve}
use wireproxy_homerun.Command.Sandbox.{
  lock_boot, lock_read_config, lock_ready, tls_file_paths, lock_network,
}
use wireproxy_homerun.Config.Routines.Sections.{kind}
use wireproxy_homerun.Config.Keys.{parse_string, parse_base64_key_to_hex, parse_bool_key}
use wireproxy_homerun.Config.Lists.{
  parse_net_ip, parse_cidr_net_ip, parse_allowed_ips, parse_regex_list,
}
use wireproxy_homerun.Config.Load.Whole.{
  parse_config_string-eq-parse_config, kinds, parse_config_source-kinds,
}
use wireproxy_homerun.Config.Routines.{
  Routine, socks5, http, parse_socks5_config, parse_http_config, parse_routines_config,
}
use wireproxy_homerun.Std.Base64.{base64_decode, hex_encode}
use wireproxy_homerun.Std.Decimal.{atoi}
use wireproxy_homerun.Config.Device.{DeviceConfig, parse_interface, parse_peers}
use wireproxy_homerun.Config.Load.{
  new_device, parse_config, parse_config_string, Configuration, parse_config_source, parse_routines,
}
use wireproxy_homerun.Config.Source.{Section, File, named}
use wireproxy_homerun.Net.{v4}
use wireproxy_homerun.Prelude.{pos, ◌≡◌, refl, none, [], ◌∷◌, false, map, any, true}
use wireproxy_homerun.Std.{
  ok, Text, codes, text_eq, lower_byte, has_prefix, split_byte, is_space, trim_left, trim_ascii,
  cut_last,
}
use wireproxy_homerun.Std.Unicode.{to_lower, trim_space}
use wireproxy_homerun.Tests.Fixtures.{section_of, file_of, platform, missing_error}

abbrev key_text : Text
key_text = codes "AAECAwQFBgcICQoLDA0ODxAREhMUFRYXGBkaGxwdHv8="

abbrev interface : Section
interface = section_of (
    (codes "Address", codes "10.0.0.2")
    ∷ (codes "address", [])
    ∷ (codes "privatekey", key_text)
    ∷ (codes "dns", codes "10.0.0.1")
    ∷ (codes "checkalive", codes "10.0.0.1")
    ∷ (codes "checkaliveinterval", codes "7")
    ∷ [])

abbrev peer : Section
peer = section_of ((codes "publickey", key_text) ∷ [])

abbrev server : Section
server = section_of (
    (codes "bindaddress", codes "127.0.0.1:1080")
    ∷ (codes "BindAddress", codes "127.0.0.1:1080")
    ∷ [])

abbrev cfg : File
cfg = file_of (
    (codes "Interface", interface)
    ∷ (codes "Peer", peer)
    ∷ (codes "Socks5", server)
    ∷ (codes "Socks5", server)
    ∷ (codes "http", server)
    ∷ [])

-- The device that the [Interface] section gives.
abbrev device : DeviceConfig
device = record {
  secret_key = codes "000102030405060708090a0b0c0d0e0f101112131415161718191a1b1c1d1eff";
  endpoint = [];
  peers = [];
  dns = v4 7 ∷ [];
  mtu = pos 1420;
  listen_port = none;
  check_alive = v4 7 ∷ [];
  check_alive_interval = pos 7;
}

device-parse_interface : parse_interface (platform cfg) cfg new_device ≡ ok device
unfolding parse_interface codes text_eq to_lower lower_byte parse_cidr_net_ip parse_string
    has_prefix split_byte trim_space trim_ascii parse_base64_key_to_hex base64_decode parse_net_ip
    atoi hex_encode
device-parse_interface = refl

abbrev socks : Routine
socks = socks5 (record {
  bind_address = codes "127.0.0.1:1080";
  username = [];
  password = [];
  tunnel_domains = [];
  log_domains = false;
})

abbrev whole : Configuration
whole = record {
  device = record device {
    peers =
        record {
          public_key = device.secret_key;
          pre_shared_key = codes "0000000000000000000000000000000000000000000000000000000000000000";
          endpoint = none;
          keep_alive = pos 0;
          allowed_ips = [];
        }
        ∷ [];
  };
  routines =
      socks
      ∷ socks
      ∷ http (record {
        bind_address = codes "127.0.0.1:1080";
        username = [];
        password = [];
        cert_file = [];
        key_file = [];
        tunnel_domains = [];
        log_domains = false;
      })
      ∷ [];
  resolve_strategy = codes "auto";
}

whole-parse_config_source :
    parse_config_source (platform cfg) (named (codes "wg.conf")) [] ≡ ok whole
unfolding parse_config_source codes text_eq to_lower lower_byte parse_interface parse_cidr_net_ip
    parse_string has_prefix split_byte trim_space trim_ascii parse_base64_key_to_hex base64_decode
    parse_net_ip atoi parse_peers parse_allowed_ips parse_routines parse_routines_config
    parse_socks5_config parse_http_config parse_regex_list parse_bool_key hex_encode
whole-parse_config_source = refl

parse_config_source-kinds_example :
    (f : File) × ((platform cfg).load_sources (named (codes "wg.conf")) ≡ ok f)
    × (map kind whole.routines ≡ kinds f)
parse_config_source-kinds_example =
    parse_config_source-kinds (platform cfg) (named (codes "wg.conf")) [] whole
      whole-parse_config_source

parse_config_string-eq-parse_config_example :
    parse_config_string (platform cfg) (codes "[Interface]")
    ≡ parse_config (platform cfg) (codes "wg.conf")
unfolding codes trim_space trim_ascii trim_left is_space text_eq
parse_config_string-eq-parse_config_example =
    parse_config_string-eq-parse_config (platform cfg) (codes "wg.conf") (codes "[Interface]") cfg
      missing_error refl refl refl refl

-- The command on this configuration, where all that it asks for is granted.
abbrev options : Options
options = record {
  config = codes "wg.conf";
  silent = true;
  daemon = false;
  info = [];
  print_version = false;
  config_test = false;
}

abbrev world : World
world = record {
  args = codes "wireproxy" ∷ [];
  executable = ok (codes "/bin/wireproxy");
  home = [];
  exists = λ path. false;
  parse_args = λ args. ok options;
  denied = λ r. none;
  platform = platform cfg;
  started = λ conf. none;
  bound = λ r. none;
}

whole-parse_config : parse_config world.platform options.config ≡ ok whole
unfolding parse_config
whole-parse_config = whole-parse_config_source

world-serve : any is_serve (main world) ≡ true
unfolding main lock_boot lock_read_config lock_ready lock_network tls_file_paths codes extract_port
    split_host_port cut_last atoi
world-serve = rw (whole-parse_config) refl

main-serve_example : IsServing world (main world)
main-serve_example = main-serve world world-serve
