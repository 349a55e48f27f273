-- ===== src/Config/Routines/Sections.antt =====
-- What the sections of one name give.
use wireproxy_homerun.Config.Keys.{
  parse_string, parse_tcp_addr, parse_port, optional, parse_bool_key,
}
use wireproxy_homerun.Config.Keys.Values.{parse_string_missing}
use wireproxy_homerun.Config.Lists.{parse_regex_list}
use wireproxy_homerun.Net.{Regexp}
use wireproxy_homerun.Std.Unicode.{to_lower}
use wireproxy_homerun.Config.Routines.{
  Routine, tcp_client_tunnel, stdio_tunnel, tcp_server_tunnel, socks5, http, sni, udp_server_tunnel,
  udp_proxy_tunnel, each_section, parse_tcp_client_tunnel_config, parse_stdio_tunnel_config,
  parse_tcp_server_tunnel_config, parse_socks5_config, parse_sni_config, parse_http_config,
  parse_udp_server_tunnel_config, parse_udp_proxy_tunnel_config, parse_routines_config,
}
use wireproxy_homerun.Config.Source.{Section, File, IsDocumented, Platform}
use wireproxy_homerun.Prelude.{
  ℕ, ◌≡◌, List, [], ◌∷◌, pos, length, zero, suc, refl, sym, ap, subst, ◌∙◌, inl, inr, Bool, ◌++◌,
  map, append-nil,
}
use wireproxy_homerun.Std.{
  Result, ok, >>=-eq-ok, Error, err, ◌>>=◌, Result-cases, ok-injective, Text, codes,
}

-- One routine for each section, in the order of the file.
pub data FromSections (f : Section → Result Routine) : List Section → List Routine → Type 0 where
  none_left : FromSections f [] []
  one_more :
      {s : Section} {c : Routine} {ss : List Section} {cs : List Routine}
      → f s ≡ ok c
      → FromSections f ss cs
      → FromSections f (s ∷ ss) (c ∷ cs)

each_section-FromSections :
    (f : Section → Result Routine) (ss : List Section) (cs : List Routine)
    → each_section f ss ≡ ok cs
    → FromSections f ss cs
unfolding each_section
each_section-FromSections f [] cs h = subst (FromSections f []) (ok-injective h) none_left
each_section-FromSections f (s ∷ ss) cs h =
    let (c, e, k) = >>=-eq-ok (f s) _ h in
    let (rest, e', k') = >>=-eq-ok (each_section f ss) _ k in
    subst (FromSections f (s ∷ ss)) (ok-injective k')
      (one_more e (each_section-FromSections f ss rest e'))

-- The kinds of tunnels and proxies, in the order in which the parser takes them.
pub kind : Routine → ℕ
kind (tcp_client_tunnel c) = 0
kind (stdio_tunnel c) = 1
kind (tcp_server_tunnel c) = 2
kind (socks5 c) = 3
kind (http c) = 4
kind (sni c) = 5
kind (udp_server_tunnel c) = 6
kind (udp_proxy_tunnel c) = 7

pub copies : ℕ → ℕ → List ℕ
copies k zero = []
copies k (suc n) = k ∷ copies k n

-- The number of sections of a name.
pub count : File → Text → ℕ
count cfg name = elim (cfg.sections_by_name name) [ err e ↦ 0 | ok sections ↦ length sections ]

pub Makes : (Section → Result Routine) → ℕ → Type 0
Makes f k = (s : Section) (c : Routine) → f s ≡ ok c → kind c ≡ k

FromSections-kind :
    {f : Section → Result Routine} {ss : List Section} {cs : List Routine} (k : ℕ)
    → Makes f k
    → FromSections f ss cs
    → map kind cs ≡ copies k (length ss)
unfolding Makes copies
FromSections-kind k m none_left = refl
FromSections-kind k m (one_more {s = s} {c = c} e r) = cc (m s c e, FromSections-kind k m r)

map-kind-append : (cs ds : List Routine) → map kind (cs ++ ds) ≡ map kind cs ++ map kind ds
map-kind-append [] ds = refl
map-kind-append (c ∷ cs) ds = ap (◌∷◌ (kind c)) (map-kind-append cs ds)

pub parse_routines_config-kind :
    (routines : List Routine) (cfg : File) (name : Text) (f : Section → Result Routine) (k : ℕ)
    (all : List Routine)
    → Makes f k
    → parse_routines_config routines cfg name f ≡ ok all
    → map kind all ≡ map kind routines ++ copies k (count cfg name)
unfolding parse_routines_config count copies
parse_routines_config-kind routines cfg name f k all m h =
    elim (Result-cases (cfg.sections_by_name name)) [
      | inr (e, q) ↦
          rw (q, count)
            (cc (ok-injective (rw (q, parse_routines_config) at h), append-nil (map kind routines)))
      | inl (ss, q) ↦
          let (found, e, r) =
            >>=-eq-ok (each_section f ss) _ (rw (q, parse_routines_config) at h) in
          rw (q, count)
            (ap (map kind) (sym (ok-injective r))
              ∙ map-kind-append routines found
              ∙ ap (◌++◌ (map kind routines))
                  (FromSections-kind k m (each_section-FromSections f ss found e)))
    ]

module _ (p : Platform) where
  pub parse_tcp_client_tunnel_config-kind : Makes (parse_tcp_client_tunnel_config p) 0
  unfolding Makes parse_tcp_client_tunnel_config kind
  parse_tcp_client_tunnel_config-kind s c h =
      let (a, e, k) = >>=-eq-ok (parse_tcp_addr p s (codes "BindAddress")) _ h in
      let (t, e', k') = >>=-eq-ok (parse_string p s (codes "Target")) _ k in
      ap kind (sym (ok-injective k'))

  pub parse_stdio_tunnel_config-kind : Makes (parse_stdio_tunnel_config p) 1
  unfolding Makes parse_stdio_tunnel_config kind
  parse_stdio_tunnel_config-kind s c h =
      let (t, e, k) = >>=-eq-ok (parse_string p s (codes "Target")) _ h in
      ap kind (sym (ok-injective k))

  pub parse_tcp_server_tunnel_config-kind : Makes (parse_tcp_server_tunnel_config p) 2
  unfolding Makes parse_tcp_server_tunnel_config kind
  parse_tcp_server_tunnel_config-kind s c h =
      let (a, e, k) = >>=-eq-ok (parse_port s (codes "ListenPort")) _ h in
      let (t, e', k') = >>=-eq-ok (parse_string p s (codes "Target")) _ k in
      ap kind (sym (ok-injective k'))

  -- The three proxies begin and end alike.
  proxy-kind :
      (s : Section) (make : Text → List Regexp → Bool → Routine) (k : ℕ) (c : Routine)
      → ((a : Text) (l : List Regexp) (b : Bool) → kind (make a l b) ≡ k)
      → (parse_string p s (codes "BindAddress") >>= λ a.
          parse_regex_list p s (codes "TunnelDomains") >>= λ l.
          parse_bool_key s (codes "LogDomains") >>= λ b. ok (make a l b))
        ≡ ok c
      → kind c ≡ k
  proxy-kind s make k c m h =
      let (a, e, r) = >>=-eq-ok (parse_string p s (codes "BindAddress")) _ h in
      let (l, e', r') = >>=-eq-ok (parse_regex_list p s (codes "TunnelDomains")) _ r in
      let (b, e'', r'') = >>=-eq-ok (parse_bool_key s (codes "LogDomains")) _ r' in
      ap kind (sym (ok-injective r'')) ∙ m a l b

  pub parse_socks5_config-kind : Makes (parse_socks5_config p) 3
  unfolding Makes parse_socks5_config kind
  parse_socks5_config-kind s c h = proxy-kind s _ 3 c (λ a l b. refl) h

  pub parse_http_config-kind : Makes (parse_http_config p) 4
  unfolding Makes parse_http_config kind
  parse_http_config-kind s c h = proxy-kind s _ 4 c (λ a l b. refl) h

  pub parse_sni_config-kind : Makes (parse_sni_config p) 5
  unfolding Makes parse_sni_config kind
  parse_sni_config-kind s c h = proxy-kind s _ 5 c (λ a l b. refl) h

  pub parse_udp_server_tunnel_config-kind : Makes (parse_udp_server_tunnel_config p) 6
  unfolding Makes parse_udp_server_tunnel_config kind
  parse_udp_server_tunnel_config-kind s c h =
      let (a, e, k) = >>=-eq-ok (parse_port s (codes "ListenPort")) _ h in
      let (t, e', k') = >>=-eq-ok (parse_string p s (codes "Target")) _ k in
      let (n, e'', k'') =
        >>=-eq-ok (optional (s.get_key (codes "InactivityTimeout")) (λ key. key.int) (pos 0)) _
          k' in
      ap kind (sym (ok-injective k''))

  pub parse_udp_proxy_tunnel_config-kind : Makes (parse_udp_proxy_tunnel_config p) 7
  unfolding Makes parse_udp_proxy_tunnel_config kind
  parse_udp_proxy_tunnel_config-kind s c h =
      let (a, e, k) = >>=-eq-ok (parse_string p s (codes "BindAddress")) _ h in
      let (t, e', k') = >>=-eq-ok (parse_string p s (codes "Target")) _ k in
      let (n, e'', k'') =
        >>=-eq-ok (optional (s.get_key (codes "InactivityTimeout")) (λ key. key.int) (pos 0)) _
          k' in
      ap kind (sym (ok-injective k''))

  -- A [UDPServerTunnel] section without a Target is accepted, with the empty text for its target.
  parse_udp_server_tunnel_config_missing_target :
      (s : Section) (port : ℕ) (e e' : Error)
      → IsDocumented s
      → parse_port s (codes "ListenPort") ≡ ok port
      → s.get_key (to_lower p.unicode (codes "Target")) ≡ err e
      → s.get_key (codes "InactivityTimeout") ≡ err e'
      → parse_udp_server_tunnel_config p s
        ≡ ok (
            udp_server_tunnel
              (record { listen_port = port; target = []; inactivity_timeout = pos 0 }))
  unfolding parse_udp_server_tunnel_config optional
  parse_udp_server_tunnel_config_missing_target s port e e' d h t i =
      rw (h, parse_string_missing p s (codes "Target") e d t, i)
