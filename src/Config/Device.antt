-- ===== src/Config/Device.antt =====
-- The [Interface] and [Peer] sections.
pub mod Checks
use wireproxy_homerun.Config.Keys.{encode_base64_to_hex, parse_base64_key_to_hex, optional}
use wireproxy_homerun.Config.Lists.{
  parse_net_ip, parse_cidr_net_ip, parse_allowed_ips, resolve_ip_and_port,
}
use wireproxy_homerun.Config.Source.{Key, Section, File, Platform}
use wireproxy_homerun.Net.{Addr, Prefix}
use wireproxy_homerun.Prelude.{ℤ, pos, Option, none, some, List, [], ◌∷◌, ◌++◌}
use wireproxy_homerun.Std.{new_error, Result, ok, err, ◌>>=◌, Text, codes}
use wireproxy_homerun.Std.Unicode.{to_lower}

pub record PeerConfig : Type 0 where
  pub public_key : Text
  pub pre_shared_key : Text
  pub endpoint : Option Text
  pub keep_alive : ℤ
  pub allowed_ips : List Prefix

pub record DeviceConfig : Type 0 where
  pub secret_key : Text
  pub endpoint : List Addr
  pub peers : List PeerConfig
  pub dns : List Addr
  pub mtu : ℤ
  pub listen_port : Option ℤ
  pub check_alive : List Addr
  pub check_alive_interval : ℤ

-- The one section of that name.
only_section : Result (List Section) → Result Section
only_section (ok (s ∷ [])) = ok s
only_section _ = err (new_error (codes "one and only one [Interface] is expected"))

-- CheckAliveInterval, if it is given
alive_interval : List Addr → Key → Result ℤ
alive_interval check_alive key = do
  value ← key.int
  elim check_alive [
    | [] ↦ err (new_error (codes "CheckAliveInterval is only valid when CheckAlive is set"))
    | a ∷ rest ↦ ok value
  ]

module _ (p : Platform) where
  -- Where it fails, the device is not used.
  unfoldable pub parse_interface : File → DeviceConfig → Result DeviceConfig
  unfolding only_section alive_interval optional
  parse_interface cfg device = do
    section ← only_section (cfg.sections_by_name (codes "Interface"))
    address ← parse_cidr_net_ip p section (codes "Address")
    priv_key ← parse_base64_key_to_hex p section (codes "PrivateKey")
    dns ← parse_net_ip p section (codes "DNS")
    mtu ← optional (section.get_key (codes "MTU")) (λ key. key.int) device.mtu
    listen_port ←
        optional (section.get_key (codes "ListenPort"))
          (λ key. key.int >>= λ value. ok (some value)) device.listen_port
    check_alive ← parse_net_ip p section (codes "CheckAlive")
    interval ←
        optional (section.get_key (codes "CheckAliveInterval")) (alive_interval check_alive) (pos 5)
    ok (record device {
      endpoint = address;
      secret_key = priv_key;
      dns = dns;
      mtu = mtu;
      listen_port = listen_port;
      check_alive = check_alive;
      check_alive_interval = interval;
    })

  -- One round of the loop over the [Peer] sections.
  unfoldable pub parse_peer : Section → Result PeerConfig
  unfolding optional
  parse_peer section = do
    public_key ← parse_base64_key_to_hex p section (codes "PublicKey")
    pre_shared_key ←
        optional (section.get_key (codes "PreSharedKey")) (λ key. encode_base64_to_hex key.string)
          (codes "0000000000000000000000000000000000000000000000000000000000000000")
    endpoint ←
        optional (section.get_key (codes "Endpoint"))
          (λ key.
            resolve_ip_and_port p (to_lower p.unicode key.string) >>= λ decoded. ok (some decoded))
          none
    keep_alive ← optional (section.get_key (codes "PersistentKeepalive")) (λ key. key.int) (pos 0)
    allowed_ips ← parse_allowed_ips p section
    ok (record {
      public_key = public_key;
      pre_shared_key = pre_shared_key;
      endpoint = endpoint;
      keep_alive = keep_alive;
      allowed_ips = allowed_ips;
    })

  each_peer : List Section → Result (List PeerConfig)
  unfolding parse_peer
  each_peer [] = ok []
  each_peer (s ∷ rest) = do peer ← parse_peer s; peers ← each_peer rest; ok (peer ∷ peers)

  -- The peers are appended to those that there are.
  unfoldable pub parse_peers : File → List PeerConfig → Result (List PeerConfig)
  unfolding each_peer
  parse_peers cfg peers = elim (cfg.sections_by_name (codes "Peer")) [
    | ok (s ∷ rest) ↦ each_peer (s ∷ rest) >>= λ found. ok (peers ++ found)
    | _ ↦ err (new_error (codes "at least one [Peer] is expected"))
  ]
