-- ===== src/Wireguard/Endpoint.antt =====
-- The bind that is chosen takes the endpoint that the device is given.
use wireproxy_homerun.Clientbind.{parse_endpoint}
use wireproxy_homerun.Clientbind.Endpoint.{parse_endpoint_iff}
use wireproxy_homerun.Config.Device.{PeerConfig}
use wireproxy_homerun.Net.{no_addr, AddrPort}
use wireproxy_homerun.Prelude.{
  Bool-cases, Option-cases, ◌≡◌, refl, ◌≢◌, inl, inr, some, List, [], ◌∷◌, arith,
}
use wireproxy_homerun.Std.{Result, ok, Result-cases, ◌>>=◌, Text}
use wireproxy_homerun.Wireguard.{
  client_only, new_client_bind, bind_for_config, bind_for_endpoint, or_default, is_valid,
}

or_default-client_only :
    (parse : Text → Result AddrPort) (ep : Text) (peer : AddrPort)
    → or_default (parse ep >>= new_client_bind) ≡ client_only peer
    → (parse ep ≡ ok peer) × (peer.addr ≢ no_addr)
unfolding or_default new_client_bind
or_default-client_only parse ep peer h = elim (Result-cases (parse ep)) [
  | inr (x, e) ↦ absurd (ground arith)
  | inl (x, e) ↦ elim (Bool-cases (is_valid x)) [
    | inl v ↦ (ground arith, λ n. ground arith)
    | inr v ↦ absurd (ground arith)
  ]
]

-- If the start chooses a ClientOnlyBind, then there is one peer, the bind's peer is valid and is what the
-- endpoint of that peer stands for, and ParseEndpoint of the bind accepts that endpoint.
pub bind_for_config-parse_endpoint :
    (parse : Text → Result AddrPort) (peers : List PeerConfig) (peer : AddrPort)
    → bind_for_config parse peers ≡ client_only peer
    → (p : PeerConfig) × (ep : Text) × (peers ≡ p ∷ [])
      × (p.endpoint ≡ some ep)
      × (parse_endpoint parse peer ep ≡ ok peer)
      × (peer.addr ≢ no_addr)
unfolding bind_for_config bind_for_endpoint
bind_for_config-parse_endpoint parse [] peer h = absurd (ground arith)
bind_for_config-parse_endpoint parse (p ∷ q ∷ rest) peer h = absurd (ground arith)
bind_for_config-parse_endpoint parse (p ∷ []) peer h = elim (Option-cases p.endpoint) [
  | inl e ↦ absurd (ground arith)
  | inr (ep, e) ↦
      let (f, v) = or_default-client_only parse ep peer (rw e at h) in
      (p, ep, refl, e, (parse_endpoint_iff parse peer peer ep).1 (f, refl), v)
]
