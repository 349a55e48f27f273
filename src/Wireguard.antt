-- ===== src/Wireguard.antt =====
-- wireguard.go and the constructor of clientbind/clientbind.go: the request that configures the
-- device, the choice of a bind, and the start.
pub mod Request
pub mod Start
pub mod Endpoint
use wireproxy_homerun.Config.Device.{PeerConfig, DeviceConfig}
use wireproxy_homerun.Config.Load.{Configuration}
use wireproxy_homerun.Prelude.{
  ℤ, any, if◌then◌else◌, Bool, true, false, not, ◌&&◌, Option, none, some, List, [], ◌∷◌, ◌++◌,
}
use wireproxy_homerun.Resolve.{ipv4, ipv6}
use wireproxy_homerun.Std.{new_error, Result, ok, err, ◌>>=◌, Text, codes, text_eq}
use wireproxy_homerun.Std.Decimal.{itoa}
use wireproxy_homerun.Net.{Addr, Prefix, AddrPort, is4, is6, no_addr, v4, v6}

-- fmt.Fprintf(&request, "<key>=%s\n", value)
unfoldable pub field : Text → Text → Text
field key value = (key ++ b'=' ∷ value) ++ 10 ∷ []

pub record DeviceSetting : Type 0 where
  pub ipc_request : Text
  pub dns : List Addr
  pub device_addr : List Addr
  pub mtu : ℤ

write_listen_port : Option ℤ → Text
unfolding field itoa
write_listen_port none = []
write_listen_port (some port) = field (codes "listen_port") (itoa port)

write_endpoint : Option Text → Text
unfolding field
write_endpoint none = []
write_endpoint (some endpoint) = field (codes "endpoint") endpoint

-- `show` is netip.Prefix.String.
module _ (show : Prefix → Text) where
  write_ips : List Prefix → Text
  unfolding field
  write_ips [] = []
  write_ips (ip ∷ ips) = field (codes "allowed_ip") (show ip) ++ write_ips ips

  -- Without allowed addresses every address is allowed.
  write_allowed : List Prefix → Text
  unfolding write_ips
  write_allowed [] =
      field (codes "allowed_ip") (codes "0.0.0.0/0") ++ field (codes "allowed_ip") (codes "::0/0")
  write_allowed (ip ∷ ips) = write_ips (ip ∷ ips)

  write_peer : PeerConfig → Text
  unfolding write_endpoint write_allowed
  write_peer peer =
      field (codes "public_key") peer.public_key
      ++ (field (codes "persistent_keepalive_interval") (itoa peer.keep_alive)
          ++ (field (codes "preshared_key") peer.pre_shared_key
              ++ (write_endpoint peer.endpoint ++ write_allowed peer.allowed_ips)))

  write_peers : List PeerConfig → Text
  unfolding write_peer
  write_peers [] = []
  write_peers (peer ∷ peers) = write_peer peer ++ write_peers peers

  -- It returns no error.
  unfoldable pub create_ipc_request : DeviceConfig → DeviceSetting
  unfolding write_listen_port write_peers
  create_ipc_request conf = record {
    ipc_request =
        field (codes "private_key") conf.secret_key
        ++ (write_listen_port conf.listen_port ++ write_peers conf.peers);
    dns = conf.dns;
    device_addr = conf.endpoint;
    mtu = conf.mtu;
  }

-- conn.NewDefaultBind, or a ClientOnlyBind of a peer
pub data Bind : Type 0 where
  default_bind : Bind
  client_only : AddrPort → Bind

-- netip.AddrPort.IsValid
abbrev is_valid : AddrPort → Bool
is_valid a = elim a.addr [ no_addr ↦ false | v4 n ↦ true | v6 n zone ↦ true ]

-- clientbind.New
unfoldable pub new_client_bind : AddrPort → Result Bind
new_client_bind peer =
    if is_valid peer
    then ok (client_only peer)
    else err (new_error (codes "clientbind: invalid peer endpoint"))

or_default : Result Bind → Bind
or_default (ok bind) = bind
or_default (err e) = default_bind

bind_for_endpoint : (Text → Result AddrPort) → Option Text → Bind
unfolding or_default new_client_bind
bind_for_endpoint parse_addr_port none = default_bind
bind_for_endpoint parse_addr_port (some ep) = or_default (parse_addr_port ep >>= new_client_bind)

unfoldable pub bind_for_config : (Text → Result AddrPort) → List PeerConfig → Bind
unfolding bind_for_endpoint
bind_for_config parse_addr_port (peer ∷ []) = bind_for_endpoint parse_addr_port peer.endpoint
bind_for_config parse_addr_port _ = default_bind

-- What wireguard-go and the netstack do; `new_logger` is device.NewLogger with an empty prefix.
pub record Backend (Tnet Dev Logger : Type 0) : Type 0 where
  pub parse_addr_port : Text → Result AddrPort
  pub show_prefix : Prefix → Text
  pub create_net_tun : List Addr → List Addr → ℤ → Result Tnet
  pub log_level_silent : ℤ
  pub new_logger : ℤ → Logger
  pub make_device : Tnet → Bind → Logger → Dev
  pub ipc_set : Dev → Text → Result Dev
  pub up : Dev → Result Dev

pub record VirtualTun (Tnet Dev : Type 0) : Type 0 where
  pub tnet : Tnet
  pub dev : Dev
  pub conf : DeviceConfig
  pub strategy : Text
  pub system_dns : Bool

-- The strategy "auto" goes by the families of the device's own addresses.
unfoldable pub settle_strategy : List Addr → Text → Text
settle_strategy addrs strategy =
    if text_eq strategy (codes "auto")
    then (if any is4 addrs && not (any is6 addrs) then ipv4 else ipv6)
    else strategy

abbrev pub no_servers : List Addr → Bool
no_servers [] = true
no_servers (a ∷ rest) = false

-- Without a logger the device gets that of device.LogLevelSilent.
settle_logger : {Logger : Type 0} → Logger → Option Logger → Logger
settle_logger silent none = silent
settle_logger silent (some logger) = logger

unfoldable pub start_wireguard_with_logger :
    {Tnet Dev Logger : Type 0}
    → Backend Tnet Dev Logger
    → Option Logger
    → Configuration
    → Result (VirtualTun Tnet Dev)
unfolding create_ipc_request bind_for_config settle_strategy settle_logger
start_wireguard_with_logger backend logger conf = do
  let setting = create_ipc_request backend.show_prefix conf.device
  tnet ← backend.create_net_tun setting.device_addr setting.dns setting.mtu
  let bind = bind_for_config backend.parse_addr_port conf.device.peers
  let silent = backend.new_logger backend.log_level_silent
  let made = backend.make_device tnet bind (settle_logger silent logger)
  dev ← backend.ipc_set made setting.ipc_request
  running ← backend.up dev
  ok (record {
    tnet = tnet;
    dev = running;
    conf = conf.device;
    strategy = settle_strategy setting.device_addr conf.resolve_strategy;
    system_dns = no_servers setting.dns;
  })

-- `log_level` is an int.
unfoldable pub start_wireguard :
    {Tnet Dev Logger : Type 0}
    → Backend Tnet Dev Logger
    → Configuration
    → ℤ
    → Result (VirtualTun Tnet Dev)
unfolding start_wireguard_with_logger
start_wireguard backend conf log_level =
    start_wireguard_with_logger backend (some (backend.new_logger log_level)) conf
