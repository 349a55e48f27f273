-- ===== src/Command/Sandbox/Network.antt =====
-- What the network rules of lockNetwork permit, and when there are none.
use wireproxy_homerun.Std.Decimal.{atoi}
use wireproxy_homerun.Std.HostPort.{split_host_port}
use mathlib.Core.Path.{ap₂}
use wireproxy_homerun.Address.{extract_port}
use wireproxy_homerun.Command.Sandbox.{
  Rule, bind_tcp, connect_tcp, lock_network, section_rules, port_rule, one, info_rule, joined_rules,
  network_rule,
}
use wireproxy_homerun.Config.Routines.{
  Routine, tcp_client_tunnel, stdio_tunnel, tcp_server_tunnel, socks5, http, sni, udp_server_tunnel,
  udp_proxy_tunnel,
}
use wireproxy_homerun.Prelude.{
  any, ◌==◌, Option-cases, ℕ, ◌%◌, ◌^◌, ◌≡◌, inl, inr, Bool, false, none, some, List, arith,
  any-append, if◌then◌else◌, refl, sym, ap, ◌∙◌, true, ◌||◌, Option, [], ◌∷◌, ◌++◌, not,
}
use wireproxy_homerun.Std.{Text, is_empty, ok, err, Result-cases}

abbrev pub binds : ℕ → Rule → Bool
binds port (bind_tcp n) = n == port
binds port _ = false

abbrev pub connects : ℕ → Rule → Bool
connects port (connect_tcp n) = n == port
connects port _ = false

-- The address has this port.
abbrev pub has_port : ℕ → Text → Bool
has_port port addr = elim (extract_port addr) [ none ↦ false | some n ↦ n == port ]

-- The address that a routine listens on outside of the tunnel, and the one that it dials there.
abbrev pub listens_on : ℕ → Routine → Bool
listens_on port (http c) = has_port port c.bind_address
listens_on port (socks5 c) = has_port port c.bind_address
listens_on port (sni c) = has_port port c.bind_address
listens_on port (tcp_client_tunnel c) = (c.bind_address.port % 2 ^ 16) == port
listens_on port _ = false

abbrev pub dials_out : ℕ → Routine → Bool
dials_out port (tcp_server_tunnel c) = has_port port c.target
dials_out port _ = false

one_bind :
    (addr : Text) (rules : List Rule) (port : ℕ)
    → one (port_rule bind_tcp addr) ≡ some rules
    → (any (binds port) rules ≡ has_port port addr) × (any (connects port) rules ≡ false)
unfolding port_rule
one_bind addr rules port h = elim (Option-cases (extract_port addr)) [
  | inl e ↦ absurd (ground arith)
  | inr (n, e) ↦ (ground arith, ground arith)
]

one_connect :
    (addr : Text) (rules : List Rule) (port : ℕ)
    → one (port_rule connect_tcp addr) ≡ some rules
    → (any (binds port) rules ≡ false) × (any (connects port) rules ≡ has_port port addr)
unfolding port_rule
one_connect addr rules port h = elim (Option-cases (extract_port addr)) [
  | inl e ↦ absurd (ground arith)
  | inr (n, e) ↦ (ground arith, ground arith)
]

network_rule_lem :
    (r : Routine) (rules : List Rule) (port : ℕ)
    → network_rule r ≡ some rules
    → (any (binds port) rules ≡ listens_on port r) × (any (connects port) rules ≡ dials_out port r)
unfolding network_rule
network_rule_lem (http c) rules port h = one_bind c.bind_address rules port h
network_rule_lem (socks5 c) rules port h = one_bind c.bind_address rules port h
network_rule_lem (sni c) rules port h = one_bind c.bind_address rules port h
network_rule_lem (tcp_client_tunnel c) rules port h = (ground arith, ground arith)
network_rule_lem (tcp_server_tunnel c) rules port h = one_connect c.target rules port h
network_rule_lem (stdio_tunnel c) rules port h = (ground arith, ground arith)
network_rule_lem (udp_server_tunnel c) rules port h = (ground arith, ground arith)
network_rule_lem (udp_proxy_tunnel c) rules port h = (ground arith, ground arith)

joined_rules-some :
    (l m : Option (List Rule)) (rules : List Rule)
    → joined_rules l m ≡ some rules
    → (a : List Rule) × (b : List Rule) × (l ≡ some a) × (m ≡ some b) × (a ++ b ≡ rules)
unfolding joined_rules
joined_rules-some (some a) (some b) rules h = (a, b, refl, refl, ground arith)
joined_rules-some (some a) none rules h = absurd (ground arith)
joined_rules-some none m rules h = absurd (ground arith)

section_rules_lem :
    (routines : List Routine) (rules : List Rule) (port : ℕ)
    → section_rules routines ≡ some rules
    → (any (binds port) rules ≡ any (listens_on port) routines)
      × (any (connects port) rules ≡ any (dials_out port) routines)
unfolding section_rules
section_rules_lem [] rules port h = (ground arith, ground arith)
section_rules_lem (r ∷ routines) rules port h =
    let (a, b, f, g, e) = joined_rules-some (network_rule r) (section_rules routines) rules h in
    let (u, v) = network_rule_lem r a port f in
    let (x, y) = section_rules_lem routines b port g in
    (
      ap (any (binds port)) (sym e) ∙ any-append (binds port) a b ∙ ap₂ ◌||◌ u x,
      ap (any (connects port)) (sym e) ∙ any-append (connects port) a b ∙ ap₂ ◌||◌ v y,
    )

info_rule_lem :
    (info : Text) (rules : List Rule) (port : ℕ)
    → info_rule info ≡ some rules
    → (any (binds port) rules ≡ (if is_empty info then false else has_port port info))
      × (any (connects port) rules ≡ false)
unfolding info_rule
info_rule_lem [] rules port h = (ground arith, ground arith)
info_rule_lem (c ∷ info) rules port h = one_bind (c ∷ info) rules port h

-- Where lockNetwork gives rules, a port may be bound exactly if it is that of the health endpoint or of an
-- address on which a proxy or a TCP client tunnel listens, and may be connected to exactly if it is that of
-- the target of a TCP server tunnel; so without such a tunnel no port may be connected to.
pub lock_network-ports :
    (routines : List Routine) (info : Text) (rules : List Rule) (port : ℕ)
    → lock_network routines info ≡ some rules
    → (any (binds port) rules
        ≡ ((if is_empty info then false else has_port port info) || any (listens_on port) routines))
      × (any (connects port) rules ≡ any (dials_out port) routines)
unfolding lock_network
lock_network-ports routines info rules port h =
    let (a, b, f, g, e) = joined_rules-some (info_rule info) (section_rules routines) rules h in
    let (u, v) = info_rule_lem info a port f in
    let (x, y) = section_rules_lem routines b port g in
    (
      ap (any (binds port)) (sym e) ∙ any-append (binds port) a b ∙ ap₂ ◌||◌ u x,
      ap (any (connects port)) (sym e) ∙ any-append (connects port) a b ∙ ap₂ ◌||◌ v y,
    )

-- The address cannot be split into a host and a port, or its port is not a number.
abbrev pub is_number : Text → Bool
is_number port = elim (atoi port) [ none ↦ false | some n ↦ true ]

abbrev pub lacks_port : Text → Bool
lacks_port addr = elim (split_host_port addr) [
  | err e ↦ true
  | ok (host, port) ↦ not (is_number port)
]

lacks_port-extract_port :
    (addr : Text)
    → lacks_port addr ≡ elim (extract_port addr) as (λ x. Bool) [ none ↦ true | some n ↦ false ]
unfolding extract_port
lacks_port-extract_port addr = elim (Result-cases (split_host_port addr)) [
  | inr (e, p) ↦ ground arith
  | inl ((host, port), p) ↦ elim (Option-cases (atoi port)) [
    | inl q ↦ ground arith
    | inr (n, q) ↦ ground arith
  ]
]

abbrev pub unreadable : Routine → Bool
unreadable (http c) = lacks_port c.bind_address
unreadable (socks5 c) = lacks_port c.bind_address
unreadable (sni c) = lacks_port c.bind_address
unreadable (tcp_server_tunnel c) = lacks_port c.target
unreadable _ = false

abbrev pub has_panicked : Option (List Rule) → Bool
has_panicked none = true
has_panicked (some rules) = false

joined_rules-has_panicked :
    (l m : Option (List Rule))
    → has_panicked (joined_rules l m) ≡ (has_panicked l || has_panicked m)
unfolding joined_rules
joined_rules-has_panicked (some a) (some b) = refl
joined_rules-has_panicked (some a) none = refl
joined_rules-has_panicked none m = refl

one-has_panicked :
    (rule : ℕ → Rule) (addr : Text) → has_panicked (one (port_rule rule addr)) ≡ lacks_port addr
unfolding port_rule
one-has_panicked rule addr = ground (arith, lacks_port-extract_port addr)

network_rule-has_panicked : (r : Routine) → has_panicked (network_rule r) ≡ unreadable r
unfolding network_rule
network_rule-has_panicked (http c) = one-has_panicked bind_tcp c.bind_address
network_rule-has_panicked (socks5 c) = one-has_panicked bind_tcp c.bind_address
network_rule-has_panicked (sni c) = one-has_panicked bind_tcp c.bind_address
network_rule-has_panicked (tcp_server_tunnel c) = one-has_panicked connect_tcp c.target
network_rule-has_panicked (tcp_client_tunnel c) = refl
network_rule-has_panicked (stdio_tunnel c) = refl
network_rule-has_panicked (udp_server_tunnel c) = refl
network_rule-has_panicked (udp_proxy_tunnel c) = refl

section_rules-has_panicked :
    (routines : List Routine) → has_panicked (section_rules routines) ≡ any unreadable routines
unfolding section_rules
section_rules-has_panicked [] = refl
section_rules-has_panicked (r ∷ routines) =
    joined_rules-has_panicked (network_rule r) (section_rules routines)
    ∙ ap₂ ◌||◌ (network_rule-has_panicked r) (section_rules-has_panicked routines)

info_rule-has_panicked :
    (info : Text)
    → has_panicked (info_rule info) ≡ (if is_empty info then false else lacks_port info)
unfolding info_rule
info_rule-has_panicked [] = refl
info_rule-has_panicked (c ∷ info) = one-has_panicked bind_tcp (c ∷ info)

-- lockNetwork panics exactly if the health endpoint, an HTTP, Socks5 or SNI proxy has an address to listen
-- on, or a TCP server tunnel a target, that cannot be split or whose port is not a number.
pub lock_network-has_panicked :
    (routines : List Routine) (info : Text)
    → has_panicked (lock_network routines info)
      ≡ ((if is_empty info then false else lacks_port info) || any unreadable routines)
unfolding lock_network
lock_network-has_panicked routines info =
    joined_rules-has_panicked (info_rule info) (section_rules routines)
    ∙ ap₂ ◌||◌ (info_rule-has_panicked info) (section_rules-has_panicked routines)
