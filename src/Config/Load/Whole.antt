-- ===== src/Config/Load/Whole.antt =====
-- What a whole configuration holds.
use wireproxy_homerun.Config.Device.{parse_interface, parse_peers}
use wireproxy_homerun.Config.Load.{
  Configuration, parse_config_source, parse_config, parse_config_string, wg_file, new_device,
  parse_routines,
}
use wireproxy_homerun.Config.Routines.{Routine, parse_routines_config}
use wireproxy_homerun.Config.Routines.Sections.{
  kind, copies, count, Makes, parse_routines_config-kind, parse_tcp_client_tunnel_config-kind,
  parse_stdio_tunnel_config-kind, parse_tcp_server_tunnel_config-kind, parse_socks5_config-kind,
  parse_http_config-kind, parse_sni_config-kind, parse_udp_server_tunnel_config-kind,
  parse_udp_proxy_tunnel_config-kind,
}
use wireproxy_homerun.Config.Source.{Section, File, Source, named, content, Platform}
use wireproxy_homerun.Prelude.{ℕ, ◌≡◌, refl, sym, ap, ◌∙◌, false, List, [], ◌++◌, map}
use wireproxy_homerun.Std.{
  Error, Result, ok, err, >>=-eq-ok, ok-injective, Text, codes, is_empty, ◌>>=◌,
}
use wireproxy_homerun.Std.Unicode.{trim_space}

abbrev pub kinds : File → List ℕ
kinds cfg =
    copies 0 (count cfg (codes "TCPClientTunnel"))
    ++ copies 1 (count cfg (codes "STDIOTunnel"))
    ++ copies 2 (count cfg (codes "TCPServerTunnel"))
    ++ copies 3 (count cfg (codes "Socks5"))
    ++ copies 4 (count cfg (codes "http"))
    ++ copies 5 (count cfg (codes "SNI"))
    ++ copies 6 (count cfg (codes "UDPServerTunnel"))
    ++ copies 7 (count cfg (codes "UDPProxyTunnel"))

-- The binding of the rest of a chain by one more name of sections.
next_kind :
    {A : Type 0} (rs : List Routine) (l : List ℕ) (cfg : File) (name : Text)
    (f : Section → Result Routine) (k : ℕ) (rest : List Routine → Result A) (c : A)
    → Makes f k
    → map kind rs ≡ l
    → (parse_routines_config rs cfg name f >>= rest) ≡ ok c
    → (rs' : List Routine) × (map kind rs' ≡ l ++ copies k (count cfg name)) × (rest rs' ≡ ok c)
next_kind rs l cfg name f k rest c m e h =
    let (rs', e', h') = >>=-eq-ok (parse_routines_config rs cfg name f) rest h in
    (
      rs',
      parse_routines_config-kind rs cfg name f k rs' m e'
          ∙ ap (λ x. x ++ copies k (count cfg name)) e,
      h',
    )

parse_routines-kinds :
    (p : Platform) (cfg : File) (all : List Routine)
    → parse_routines p cfg ≡ ok all
    → map kind all ≡ kinds cfg
unfolding parse_routines
parse_routines-kinds p cfg all h =
    let (r₁, m₁, h₁) =
      next_kind [] [] cfg _ _ 0 _ all (parse_tcp_client_tunnel_config-kind p) refl h in
    let (r₂, m₂, h₂) = next_kind r₁ _ cfg _ _ 1 _ all (parse_stdio_tunnel_config-kind p) m₁ h₁ in
    let (r₃, m₃, h₃) =
      next_kind r₂ _ cfg _ _ 2 _ all (parse_tcp_server_tunnel_config-kind p) m₂ h₂ in
    let (r₄, m₄, h₄) = next_kind r₃ _ cfg _ _ 3 _ all (parse_socks5_config-kind p) m₃ h₃ in
    let (r₅, m₅, h₅) = next_kind r₄ _ cfg _ _ 4 _ all (parse_http_config-kind p) m₄ h₄ in
    let (r₆, m₆, h₆) = next_kind r₅ _ cfg _ _ 5 _ all (parse_sni_config-kind p) m₅ h₅ in
    let (r₇, m₇, h₇) =
      next_kind r₆ _ cfg _ _ 6 _ all (parse_udp_server_tunnel_config-kind p) m₆ h₆ in
    parse_routines_config-kind r₇ cfg _ _ 7 all (parse_udp_proxy_tunnel_config-kind p) h₇
    ∙ ap (λ x. x ++ copies 7 (count cfg (codes "UDPProxyTunnel"))) m₇

-- An accepted configuration has one tunnel or proxy for every section of the eight kinds, none left
-- out, and in the order of the kinds in which main binds and serves them.
pub parse_config_source-kinds :
    (p : Platform) (source : Source) (base_dir : Text) (conf : Configuration)
    → parse_config_source p source base_dir ≡ ok conf
    → (cfg : File) × (p.load_sources source ≡ ok cfg) × (map kind conf.routines ≡ kinds cfg)
unfolding parse_config_source
parse_config_source-kinds p source base_dir conf h =
    let (cfg, e, h₀) = >>=-eq-ok (p.load_sources source) _ h in
    let (wg, _, h₁) = >>=-eq-ok (wg_file p cfg base_dir) _ h₀ in
    let (device, _, h₂) = >>=-eq-ok (parse_interface p wg new_device) _ h₁ in
    let (peers, _, h₃) = >>=-eq-ok (parse_peers p wg device.peers) _ h₂ in
    let (all, e', h₄) = >>=-eq-ok (parse_routines p cfg) _ h₃ in
    (
      cfg,
      e,
      ap (λ (c : Configuration). map kind c.routines) (sym (ok-injective h₄))
          ∙ parse_routines-kinds p cfg all e',
    )

wg_file_same :
    (p : Platform) (cfg : File) (e : Error) (base_dir : Text)
    → cfg.root.get_key (codes "WGConfig") ≡ err e
    → wg_file p cfg base_dir ≡ ok cfg
unfolding wg_file
wg_file_same p cfg e base_dir r = rw (r, wg_file) refl

-- A configuration in memory means what the same text means as a file, when it names no other file
-- for the WireGuard sections.
pub parse_config_string-eq-parse_config :
    (p : Platform) (file text : Text) (cfg : File) (e : Error)
    → p.load_sources (named file) ≡ ok cfg
    → p.load_sources (content text) ≡ ok cfg
    → is_empty (trim_space p.unicode text) ≡ false
    → cfg.root.get_key (codes "WGConfig") ≡ err e
    → parse_config_string p text ≡ parse_config p file
unfolding parse_config_string parse_config parse_config_source
parse_config_string-eq-parse_config p file text cfg e f c n r =
    rw (f, c, n, wg_file_same p cfg e [] r, wg_file_same p cfg e (p.dir file) r) refl
