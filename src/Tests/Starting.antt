-- ===== src/Tests/Starting.antt =====
-- The start of the device at a concrete configuration.
use wireproxy_homerun.Clientbind.{parse_endpoint}
use wireproxy_homerun.Wireguard.Endpoint.{bind_for_config-parse_endpoint}
use wireproxy_homerun.Config.Device.{PeerConfig, DeviceConfig}
use wireproxy_homerun.Config.Load.{Configuration, new_device}
use wireproxy_homerun.Net.{Addr, v4, v6, Prefix, no_addr, AddrPort}
use wireproxy_homerun.Prelude.{
  pos, ◌≡◌, refl, inl, true, none, some, List, [], ◌∷◌, ◌++◌, map, ◌≢◌, ℤ,
}
use wireproxy_homerun.Resolve.{Resolver, ipv4, resolve_addr_with_context}
use wireproxy_homerun.Std.{ok, err, Text, codes, text_eq, split_byte, cut}
use wireproxy_homerun.Tests.Fixtures.{missing_error, read_addr}
use wireproxy_homerun.Wireguard.{
  create_ipc_request, Bind, client_only, new_client_bind, Backend, VirtualTun, bind_for_config,
  start_wireguard_with_logger,
}
use wireproxy_homerun.Wireguard.Request.{settings, IsLine, create_ipc_request-read}
use wireproxy_homerun.Wireguard.Start.{start_wireguard_with_logger-resolves}
use mathlib.Core.List.{mem-cons_self}
use mathlib.Core.List.Perm

abbrev a_peer : PeerConfig
a_peer = record {
  public_key = codes "0011";
  pre_shared_key = codes "0000";
  endpoint = some (codes "192.0.2.1:51820");
  keep_alive = pos 25;
  allowed_ips = record { addr = v4 0; bits = 0 } ∷ [];
}

abbrev a_device : DeviceConfig
a_device = record new_device {
  secret_key = codes "aabb";
  endpoint = v4 1 ∷ [];
  listen_port = some (pos 51820);
  peers = a_peer ∷ [];
}

abbrev configuration : Configuration
configuration = record { device = a_device; routines = []; resolve_strategy = codes "auto" }

abbrev show_prefix : Prefix → Text
show_prefix ip = codes "10.0.0.0/8"

show_prefix-IsLine : (ip : Prefix) → IsLine (show_prefix ip)
unfolding codes
show_prefix-IsLine ip = refl

-- The netstack is its addresses; the device is the bind that it was given.
abbrev a_backend : Backend (List Addr) Bind ℤ
a_backend = record {
  parse_addr_port = λ t. ok (record { addr = v4 5; port = 51820 });
  show_prefix = show_prefix;
  create_net_tun = λ addrs dns mtu. ok addrs;
  log_level_silent = pos 0;
  new_logger = λ level. level;
  make_device = λ tnet bind logger. bind;
  ipc_set = λ dev request. ok dev;
  up = λ dev. ok dev;
}

abbrev started : VirtualTun (List Addr) Bind
started = record {
  tnet = v4 1 ∷ [];
  dev = client_only (record { addr = v4 5; port = 51820 });
  conf = a_device;
  strategy = ipv4;
  system_dns = true;
}

abbrev names : List Text
names = codes "fd00::5" ∷ []

abbrev a_resolver : Resolver
a_resolver = record {
  system_lookup = λ name. ok names;
  tunnel_lookup = λ name. err missing_error;
  parse_addr = read_addr;
  shuffle_v4 = λ l. l;
  shuffle_v6 = λ l. l;
}

create_ipc_request-read_example :
    map (cut b'=') (split_byte 10 (create_ipc_request show_prefix a_device).ipc_request)
    ≡ map some (settings show_prefix a_device) ++ none ∷ []
unfolding codes
create_ipc_request-read_example =
    create_ipc_request-read show_prefix show_prefix-IsLine a_device refl
      (record { public_key = refl; pre_shared_key = refl; endpoint = refl }, tt)

start_wireguard_with_logger-resolves_example :
    (a : Addr) × (resolve_addr_with_context a_resolver true ipv4 (codes "a.example") ≡ ok a)
unfolding codes text_eq start_wireguard_with_logger new_client_bind
start_wireguard_with_logger-resolves_example =
    start_wireguard_with_logger-resolves a_backend none configuration started a_resolver
      (codes "a.example") (codes "fd00::5") names (v6 0 (codes "d00::5")) refl (inl refl)
      (record { perm_v4 = λ l. Perm.refl l; perm_v6 = λ l. Perm.refl l }) refl mem-cons_self refl
      (λ e. cc)

abbrev a_bind_peer : AddrPort
a_bind_peer = record { addr = v4 5; port = 51820 }

bind_for_config-parse_endpoint_example :
    (p : PeerConfig) × (ep : Text) × (a_peer ∷ [] ≡ p ∷ [])
    × (p.endpoint ≡ some ep)
    × (parse_endpoint a_backend.parse_addr_port a_bind_peer ep ≡ ok a_bind_peer)
    × (a_bind_peer.addr ≢ no_addr)
unfolding bind_for_config new_client_bind
bind_for_config-parse_endpoint_example =
    bind_for_config-parse_endpoint a_backend.parse_addr_port (a_peer ∷ []) a_bind_peer refl
