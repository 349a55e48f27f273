-- ===== src/Wireguard/Start.antt =====
-- What a started tunnel is, and what it resolves.
use wireproxy_homerun.Config.Load.{Configuration}
use wireproxy_homerun.Net.{Addr, no_addr, is4, is6}
use wireproxy_homerun.Prelude.{
  any, if◌then◌else◌, Bool-cases, ◌≡◌, refl, sym, ap, ◌≢◌, ◌⊎◌, inl, inr, not, ◌&&◌, List, ◌∙◌,
  Option,
}
use wireproxy_homerun.Resolve.{Resolver, ipv4, ipv6, resolve_addr_with_context}
use wireproxy_homerun.Std.{ok, >>=-eq-ok, ok-injective, Text, codes, text_eq_refl, text_eq}
use wireproxy_homerun.Wireguard.{
  create_ipc_request, Backend, VirtualTun, settle_strategy, no_servers, start_wireguard_with_logger,
}
use wireproxy_homerun.Resolve.Preference.{Shuffles, resolve_fallback}
use mathlib.Core.List.{Mem}

-- The three strategies that mean something.
abbrev pub IsStrategy : Text → Type 0
IsStrategy s = (s ≡ codes "auto") ⊎ ((s ≡ ipv4) ⊎ (s ≡ ipv6))

settle_ipv4 : (addrs : List Addr) → settle_strategy addrs ipv4 ≡ ipv4
unfolding settle_strategy codes text_eq
settle_ipv4 addrs = refl

settle_ipv6 : (addrs : List Addr) → settle_strategy addrs ipv6 ≡ ipv6
unfolding settle_strategy codes text_eq
settle_ipv6 addrs = refl

settle_strategy-family :
    (addrs : List Addr) (strategy : Text)
    → IsStrategy strategy
    → (settle_strategy addrs strategy ≡ ipv4) ⊎ (settle_strategy addrs strategy ≡ ipv6)
unfolding settle_strategy
settle_strategy-family addrs strategy (inl a) =
    elim (Bool-cases (any is4 addrs && not (any is6 addrs))) [
      | inl e ↦ inl (rw (a, settle_strategy) (rw (text_eq_refl (codes "auto"), e) refl))
      | inr e ↦ inr (rw (a, settle_strategy) (rw (text_eq_refl (codes "auto"), e) refl))
    ]
settle_strategy-family addrs strategy (inr (inl a)) =
    inl (ap (settle_strategy addrs) a ∙ settle_ipv4 addrs)
settle_strategy-family addrs strategy (inr (inr a)) =
    inr (ap (settle_strategy addrs) a ∙ settle_ipv6 addrs)

-- What the start hands over.
start_wireguard_with_logger-fields :
    {Tnet Dev Logger : Type 0} (backend : Backend Tnet Dev Logger) (logger : Option Logger)
    (conf : Configuration) (vt : VirtualTun Tnet Dev)
    → start_wireguard_with_logger backend logger conf ≡ ok vt
    → (vt.strategy ≡ settle_strategy conf.device.endpoint conf.resolve_strategy)
      × (vt.system_dns ≡ no_servers conf.device.dns)
unfolding start_wireguard_with_logger create_ipc_request
start_wireguard_with_logger-fields backend logger conf vt h =
    let (tnet, a, h₁) = >>=-eq-ok (backend.create_net_tun _ _ _) _ h in
    let (dev, b, h₂) = >>=-eq-ok (backend.ipc_set _ _) _ h₁ in
    let (running, c, h₃) = >>=-eq-ok (backend.up _) _ h₂ in
    (sym (ap (λ v. v.strategy) (ok-injective h₃)), sym (ap (λ v. v.system_dns) (ok-injective h₃)))

-- A tunnel that was started from a configuration with the strategy "auto", "ipv4" or "ipv6" resolves
-- every name for which one valid address is looked up; it asks the system's resolver exactly if the
-- configuration names no DNS server.
pub start_wireguard_with_logger-resolves :
    {Tnet Dev Logger : Type 0} (backend : Backend Tnet Dev Logger) (logger : Option Logger)
    (conf : Configuration) (vt : VirtualTun Tnet Dev) (r : Resolver) (name t : Text)
    (names : List Text) (b : Addr)
    → start_wireguard_with_logger backend logger conf ≡ ok vt
    → IsStrategy conf.resolve_strategy
    → Shuffles r
    → (if no_servers conf.device.dns then r.system_lookup name else r.tunnel_lookup name) ≡ ok names
    → Mem t names
    → r.parse_addr t ≡ ok b
    → b ≢ no_addr
    → (a : Addr) × (resolve_addr_with_context r vt.system_dns vt.strategy name ≡ ok a)
start_wireguard_with_logger-resolves backend logger conf vt r name t names b h i s found m e v =
    let (p, q) = start_wireguard_with_logger-fields backend logger conf vt h in
    rw (p, q)
      (resolve_fallback r s (no_servers conf.device.dns) name names found
        (settle_strategy conf.device.endpoint conf.resolve_strategy) t b
        (settle_strategy-family conf.device.endpoint conf.resolve_strategy i) m e v)
