-- ===== src/Config/Device/Checks.antt =====
-- What a device holds that was accepted.
use wireproxy_homerun.Config.Device.{DeviceConfig, parse_interface, alive_interval, only_section}
use wireproxy_homerun.Config.Keys.{
  parse_string, encode_base64_to_hex, parse_base64_key_to_hex, optional,
}
use wireproxy_homerun.Config.Keys.Values.{length-encode_base64_to_hex}
use wireproxy_homerun.Config.Lists.{parse_net_ip, parse_cidr_net_ip}
use wireproxy_homerun.Config.Source.{Key, Section, File, Platform}
use wireproxy_homerun.Net.{Addr}
use wireproxy_homerun.Prelude.{
  ℤ, pos, length, ◌≡◌, sym, ap, subst, ◌∙◌, ◌≢◌, ◌⊎◌, some, List, [], ◌∷◌, arith, inl, inr,
}
use wireproxy_homerun.Std.{
  Error, Result, ok, err, ◌>>=◌, >>=-eq-ok, Text, codes, Result-cases, ok-injective,
}

-- How the fields of an accepted device come from its section.
record InterfaceRead (p : Platform) (cfg : File) (before device : DeviceConfig) : Type 0 where
  section : Section
  only : only_section (cfg.sections_by_name (codes "Interface")) ≡ ok section
  address : parse_cidr_net_ip p section (codes "Address") ≡ ok device.endpoint
  priv_key : parse_base64_key_to_hex p section (codes "PrivateKey") ≡ ok device.secret_key
  dns : parse_net_ip p section (codes "DNS") ≡ ok device.dns
  check_alive : parse_net_ip p section (codes "CheckAlive") ≡ ok device.check_alive
  interval :
      optional
        (section.get_key (codes "CheckAliveInterval"))
        (alive_interval device.check_alive)
        (pos 5)
      ≡ ok device.check_alive_interval
  peers : device.peers ≡ before.peers

parse_interface-InterfaceRead :
    (p : Platform) (cfg : File) (before device : DeviceConfig)
    → parse_interface p cfg before ≡ ok device
    → InterfaceRead p cfg before device
unfolding parse_interface
parse_interface-InterfaceRead p cfg before device h =
    let (section, h₀, k₀) =
      >>=-eq-ok (only_section (cfg.sections_by_name (codes "Interface"))) _ h in
    let (address, h₁, k₁) = >>=-eq-ok (parse_cidr_net_ip p section (codes "Address")) _ k₀ in
    let (priv_key, h₂, k₂) =
      >>=-eq-ok (parse_base64_key_to_hex p section (codes "PrivateKey")) _ k₁ in
    let (dns, h₃, k₃) = >>=-eq-ok (parse_net_ip p section (codes "DNS")) _ k₂ in
    let (mtu, h₄, k₄) =
      >>=-eq-ok (optional (section.get_key (codes "MTU")) (λ key. key.int) before.mtu) _ k₃ in
    let (listen, h₅, k₅) =
      >>=-eq-ok
        (optional (section.get_key (codes "ListenPort"))
          (λ key. key.int >>= λ value. ok (some value)) before.listen_port)
        _ k₄ in
    let (alive, h₆, k₆) = >>=-eq-ok (parse_net_ip p section (codes "CheckAlive")) _ k₅ in
    let (interval, h₇, k₇) =
      >>=-eq-ok
        (optional (section.get_key (codes "CheckAliveInterval")) (alive_interval alive) (pos 5)) _
        k₆ in
    let e = ok-injective k₇ in
    record {
      section = section;
      only = h₀;
      address = h₁ ∙ ap (λ (d : DeviceConfig). ok d.endpoint) e;
      priv_key = h₂ ∙ ap (λ (d : DeviceConfig). ok d.secret_key) e;
      dns = h₃ ∙ ap (λ (d : DeviceConfig). ok d.dns) e;
      check_alive = h₆ ∙ ap (λ (d : DeviceConfig). ok d.check_alive) e;
      interval =
          subst
            (λ (d : DeviceConfig).
              optional (section.get_key (codes "CheckAliveInterval")) (alive_interval d.check_alive)
                (pos 5)
              ≡ ok d.check_alive_interval)
            e h₇;
      peers = sym (ap (λ (d : DeviceConfig). d.peers) e);
    }

only_section_lem :
    (r : Result (List Section)) (s : Section) → only_section r ≡ ok s → r ≡ ok (s ∷ [])
unfolding only_section
only_section_lem (ok []) s h = cc
only_section_lem (ok (t ∷ [])) s h = cc
only_section_lem (ok (t ∷ u ∷ rest)) s h = cc
only_section_lem (err e) s h = cc

length-parse_base64_key_to_hex :
    (p : Platform) (section : Section) (name hex : Text)
    → parse_base64_key_to_hex p section name ≡ ok hex
    → length hex ≡ 64
unfolding parse_base64_key_to_hex
length-parse_base64_key_to_hex p section name hex h =
    let (key, _, k) = >>=-eq-ok (parse_string p section name) encode_base64_to_hex h in
    length-encode_base64_to_hex key hex k

alive_interval_lem :
    (check_alive : List Addr) (k : Key) (n : ℤ)
    → alive_interval check_alive k ≡ ok n
    → (check_alive ≢ []) × (k.int ≡ ok n)
unfolding alive_interval
alive_interval_lem [] k n h = elim (Result-cases k.int) [
  | inl (v, e) ↦ absurd (ground arith)
  | inr (v, e) ↦ absurd (ground arith)
]
alive_interval_lem (a ∷ rest) k n h = (λ e. cc, ground arith)

alive_cases :
    (section : Section) (device : DeviceConfig)
    → optional
        (section.get_key (codes "CheckAliveInterval"))
        (alive_interval device.check_alive)
        (pos 5)
      ≡ ok device.check_alive_interval
    → ((k : Key) × (section.get_key (codes "CheckAliveInterval") ≡ ok k)
        × (device.check_alive ≢ [])
        × (k.int ≡ ok device.check_alive_interval))
      ⊎ ((e : Error) × (section.get_key (codes "CheckAliveInterval") ≡ err e)
          × (device.check_alive_interval ≡ pos 5))
unfolding optional
alive_cases section device h = elim (Result-cases (section.get_key (codes "CheckAliveInterval"))) [
  | inl (k, e) ↦
      let (n, v) =
        alive_interval_lem device.check_alive k device.check_alive_interval
          (rw (e, optional) at h) in
      inl (k, e, n, v)
  | inr (x, e) ↦ inr (x, e, sym (ok-injective (rw (e, optional) at h)))
]

module _ (p : Platform) (cfg : File) (before device : DeviceConfig)
    (h : parse_interface p cfg before ≡ ok device) where
  -- An accepted file has exactly one [Interface] section, the device has a private key of 64
  -- hexadecimal digits, and no peer is added.
  parse_interface_one :
      (section : Section) × (cfg.sections_by_name (codes "Interface") ≡ ok (section ∷ []))
      × (length device.secret_key ≡ 64)
      × (device.peers ≡ before.peers)
  parse_interface_one =
      let r = parse_interface-InterfaceRead p cfg before device h in
      (
        r.section,
        only_section_lem _ r.section r.only,
        length-parse_base64_key_to_hex p r.section _ device.secret_key r.priv_key,
        r.peers,
      )

  -- Where the one [Interface] section sets CheckAliveInterval, addresses to check are set too, and
  -- the interval is the value that was set; else it is five seconds.
  parse_interface_alive :
      (section : Section)
      → cfg.sections_by_name (codes "Interface") ≡ ok (section ∷ [])
      → ((k : Key) × (section.get_key (codes "CheckAliveInterval") ≡ ok k)
          × (device.check_alive ≢ [])
          × (k.int ≡ ok device.check_alive_interval))
        ⊎ ((e : Error) × (section.get_key (codes "CheckAliveInterval") ≡ err e)
            × (device.check_alive_interval ≡ pos 5))
  parse_interface_alive section one =
      let r = parse_interface-InterfaceRead p cfg before device h in
      let e : r.section ≡ section = cc (only_section_lem _ r.section r.only, one) in
      alive_cases section device (
        subst
          (λ (s : Section).
            optional (s.get_key (codes "CheckAliveInterval")) (alive_interval device.check_alive)
              (pos 5)
            ≡ ok device.check_alive_interval)
          e r.interval)
