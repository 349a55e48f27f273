-- ===== src/Router/Decision.antt =====
-- Which hosts a router sends through the tunnel.
use wireproxy_homerun.Net.{Regexp}
use wireproxy_homerun.Prelude.{
  Bool-cases, ◌≡◌, refl, ap, ◌≢◌, ◌↔◌, inl, inr, true, some, List, [], ◌∷◌, ◌++◌, arith, Option,
  ltb, ◌==◌, ℕ, sym, none, map, subst, ◌∙◌,
}
use wireproxy_homerun.Router.{DomainRouter, matches_any, normalize, should_tunnel, decide_host}
use wireproxy_homerun.Std.{Text, trim_suffix_byte, is_ascii, lower_byte}
use wireproxy_homerun.Std.Unicode.{Unicode, to_lower}

-- Some pattern of the list matches the host.
pub data Whitelisted (host : Text) : List Regexp → Type 0 where
  here : {p : Regexp} {ps : List Regexp} → p.match_string host ≡ true → Whitelisted host (p ∷ ps)
  there : {p : Regexp} {ps : List Regexp} → Whitelisted host ps → Whitelisted host (p ∷ ps)

matches_any-Whitelisted :
    (ps : List Regexp) (host : Text) → matches_any ps host ≡ true → Whitelisted host ps
unfolding matches_any
matches_any-Whitelisted [] host h = cc
matches_any-Whitelisted (p ∷ ps) host h = elim (Bool-cases (p.match_string host)) [
  | inl e ↦ here e
  | inr e ↦ there (matches_any-Whitelisted ps host (ground arith))
]

Whitelisted-matches_any :
    {host : Text} {ps : List Regexp} → Whitelisted host ps → matches_any ps host ≡ true
unfolding matches_any
Whitelisted-matches_any (here e) = rw e
Whitelisted-matches_any (there w) = ground (arith, Whitelisted-matches_any w)

decide_host_iff :
    (u : Unicode) (ps : List Regexp) (host : Text)
    → ps ≢ []
    → (decide_host u ps host ≡ true) ↔ Whitelisted (normalize u host) ps
unfolding decide_host
decide_host_iff u [] host h = absurd (h refl)
decide_host_iff u (p ∷ ps) host h =
    (matches_any-Whitelisted (p ∷ ps) (normalize u host), Whitelisted-matches_any)

-- A host spells a name: it is the name in any case, with the dot of a fully qualified name or without it.
pub data Spells (u : Unicode) (host name : Text) : Type 0 where
  unqualified : ((s : Text) → host ≢ s ++ b'.' ∷ []) → to_lower u host ≡ name → Spells u host name
  qualified : (s : Text) → host ≡ s ++ b'.' ∷ [] → to_lower u s ≡ name → Spells u host name

trim-dot : (s : Text) → trim_suffix_byte b'.' (s ++ b'.' ∷ []) ≡ s
unfolding trim_suffix_byte
trim-dot [] = refl
trim-dot (c ∷ []) = refl
trim-dot (c ∷ d ∷ s) = ap (◌∷◌ c) (trim-dot (d ∷ s))

cons-dot :
    {c : ℕ} {s : Text} → ((t : Text) → c ∷ s ≢ t ++ b'.' ∷ []) → (t : Text) → s ≢ t ++ b'.' ∷ []
cons-dot {c} h t e = h (c ∷ t) (ap (◌∷◌ c) e)

trim-undotted : (s : Text) → ((t : Text) → s ≢ t ++ b'.' ∷ []) → trim_suffix_byte b'.' s ≡ s
unfolding trim_suffix_byte
trim-undotted [] h = refl
trim-undotted (c ∷ []) h = elim (Bool-cases (c == b'.')) [
  | inl e ↦ absurd (h [] (ground arith))
  | inr e ↦ rw e refl
]
trim-undotted (c ∷ d ∷ s) h = ap (◌∷◌ c) (trim-undotted (d ∷ s) (cons-dot h))

normalize-Spells : (u : Unicode) (host name : Text) → Spells u host name → normalize u host ≡ name
unfolding normalize
normalize-Spells u host name (unqualified h e) = ap (to_lower u) (trim-undotted host h) ∙ e
normalize-Spells u host name (qualified s h e) =
    ap (to_lower u) (ap (trim_suffix_byte b'.') h ∙ trim-dot s) ∙ e

-- A router with patterns tunnels exactly the hosts that spell a name, in any case and with or without the
-- dot of a fully qualified name, which one of its patterns matches.
pub should_tunnel_iff :
    (u : Unicode) (r : DomainRouter) (host name : Text)
    → r.patterns ≢ []
    → Spells u host name
    → (should_tunnel u (some r) host ≡ true) ↔ Whitelisted name r.patterns
unfolding should_tunnel
should_tunnel_iff u r host name h s =
    subst (λ n. (decide_host u r.patterns host ≡ true) ↔ Whitelisted n r.patterns)
      (normalize-Spells u host name s) (decide_host_iff u r.patterns host h)

lower_byte_dot : (c : ℕ) → (lower_byte c == b'.') ≡ (c == b'.')
unfolding lower_byte
lower_byte_dot c = ground arith

lower_byte_idem : (c : ℕ) → lower_byte (lower_byte c) ≡ lower_byte c
unfolding lower_byte
lower_byte_idem c = ground arith

lower_byte_ascii : (c : ℕ) → ltb c 128 ≡ true → ltb (lower_byte c) 128 ≡ true
unfolding lower_byte
lower_byte_ascii c h = ground arith

map-lower_byte_idem : (s : Text) → map lower_byte (map lower_byte s) ≡ map lower_byte s
map-lower_byte_idem [] = refl
map-lower_byte_idem (c ∷ s) = cc (lower_byte_idem c, map-lower_byte_idem s)

map-lower_byte_ascii : (s : Text) → is_ascii s ≡ true → is_ascii (map lower_byte s) ≡ true
map-lower_byte_ascii [] h = refl
map-lower_byte_ascii (c ∷ s) h = ground (arith, lower_byte_ascii c, map-lower_byte_ascii s)

trim-map-lower_byte :
    (s : Text) → trim_suffix_byte b'.' (map lower_byte s) ≡ map lower_byte (trim_suffix_byte b'.' s)
unfolding trim_suffix_byte
trim-map-lower_byte [] = refl
trim-map-lower_byte (c ∷ []) = ground (arith, lower_byte_dot c)
trim-map-lower_byte (c ∷ d ∷ s) = ap (◌∷◌ (lower_byte c)) (trim-map-lower_byte (d ∷ s))

to_lower_ascii : (u : Unicode) (s : Text) → is_ascii s ≡ true → to_lower u s ≡ map lower_byte s
unfolding to_lower
to_lower_ascii u s h = rw h

normalize_canonical :
    (u : Unicode) (host : Text)
    → is_ascii host ≡ true
    → trim_suffix_byte b'.' host ≡ host
    → normalize u (host ++ b'.' ∷ []) ≡ normalize u (map lower_byte host)
unfolding normalize
normalize_canonical u host a t =
    rw (trim-dot host, trim-map-lower_byte host, t)
      (rw
        (
          to_lower_ascii u host a,
          to_lower_ascii u (map lower_byte host) (map-lower_byte_ascii host a),
        )
        (sym (map-lower_byte_idem host)))

decide_host_cong :
    (u : Unicode) (ps : List Regexp) (a b : Text)
    → normalize u a ≡ normalize u b
    → decide_host u ps a ≡ decide_host u ps b
unfolding decide_host
decide_host_cong u [] a b e = refl
decide_host_cong u (p ∷ ps) a b e = ap (matches_any (p ∷ ps)) e

-- An ASCII host in any case, written as a fully qualified name with a dot behind it, gets the
-- decision of its lower-case form without the dot.
should_tunnel_canonical :
    (u : Unicode) (r : Option DomainRouter) (host : Text)
    → is_ascii host ≡ true
    → trim_suffix_byte b'.' host ≡ host
    → should_tunnel u r (host ++ b'.' ∷ []) ≡ should_tunnel u r (map lower_byte host)
unfolding should_tunnel
should_tunnel_canonical u none host a t = refl
should_tunnel_canonical u (some r) host a t =
    decide_host_cong u r.patterns _ _ (normalize_canonical u host a t)
