-- ===== src/Http/Access.antt =====
-- Who may use the HTTP proxy.
use wireproxy_homerun.Std.Base64.Laws.{base64_encode, IsByte, decode-encode}
use wireproxy_homerun.Http.{
  CredentialValidator, valid, HttpServer, HttpRequest, authenticate, check_pair, check_decoded,
  check_header, target_address, Effect, dial_to, requested_with, by_method, handle,
  established_with, handle_conn, serve, admit,
}
use wireproxy_homerun.Prelude.{
  Option-cases, ◌≡◌, sym, ◌∙◌, ◌↔◌, inl, inr, true, false, none, some, ◌∷◌, ◌++◌, arith, ℕ, ap,
  subst, ◌≢◌, [], Each, Bool-cases, refl, ◌⊎◌, Bool, List,
}
use wireproxy_homerun.Std.{
  Text, codes, text_eq_iff, trim_prefix, has_byte, cut, cut-eq-some, text_eq_refl, cut-append,
  Result, ok, err, text_eq,
}
use wireproxy_homerun.Std.Base64.{base64_decode}
use mathlib.Core.Path.{ap₂}

-- What a client with these credentials sends, before it is encoded.
abbrev pub user_pass : CredentialValidator → Text
user_pass c = c.username ++ b':' ∷ c.password

valid_lem :
    (c : CredentialValidator) (u w : Text)
    → check_pair c (some (u, w)) ≡ none
    → (c.username ≡ u) × (c.password ≡ w)
unfolding check_pair valid
valid_lem c u w p =
    (ground (arith, text_eq_iff c.username u), ground (arith, text_eq_iff c.password w))

check_pair_iff :
    (c : CredentialValidator) (str : Text)
    → has_byte b':' c.username ≡ false
    → (check_pair c (cut b':' str) ≡ none) ↔ (str ≡ user_pass c)
unfolding check_pair valid
check_pair_iff c str h = (
  λ p. elim (Option-cases (cut b':' str)) [
    | inl e ↦ absurd (ground arith)
    | inr ((u, w), e) ↦
        let (a, b) = cut-eq-some b':' str u w e in
        let (f, g) = valid_lem c u w (subst (λ q. check_pair c q ≡ none) e p) in
        a ∙ ap₂ (λ x y. x ++ b':' ∷ y) (sym f) (sym g)
  ],
  λ e.
      ap (λ t. check_pair c (cut b':' t)) e
      ∙ ap (check_pair c) (cut-append b':' c.username c.password h)
      ∙ ground (arith, text_eq_refl c.username, text_eq_refl c.password),
)

nonempty : (u v : Text) (b : ℕ) → u ++ b ∷ v ≢ []
nonempty [] v b e = cc
nonempty (c ∷ u) v b e = cc

no_header : base64_decode (trim_prefix [] (codes "Basic ")) ≡ some []
unfolding codes trim_prefix base64_decode
no_header = refl

check_header_iff :
    (c : CredentialValidator) (header : Text)
    → has_byte b':' c.username ≡ false
    → (check_header c header ≡ none)
      ↔ (base64_decode (trim_prefix header (codes "Basic ")) ≡ some (user_pass c))
unfolding check_header check_decoded
check_header_iff c [] h =
    (λ p. cc, λ e. absurd (nonempty c.username c.password b':' (cc (no_header, e))))
check_header_iff c (a ∷ rest) h =
    elim (Option-cases (base64_decode (trim_prefix (a ∷ rest) (codes "Basic ")))) [
      | inl e ↦ rw (e, check_decoded) (λ p. cc, λ q. cc)
      | inr (str, e) ↦
          let (f, g) = check_pair_iff c str h in
          rw (e, check_decoded) (λ p. ap some (f p), λ q. g (ground arith))
    ]

-- A proxy that requires credentials lets a request pass exactly if its header, without the word
-- "Basic" and a blank in front, is the base64 form of its user name, a colon and its password; a user
-- name with a colon in it is left out.
pub authenticate_iff :
    (s : HttpServer) (req : HttpRequest)
    → s.auth_required ≡ true
    → has_byte b':' s.auth.username ≡ false
    → (authenticate s req ≡ none) ↔ (
        base64_decode (trim_prefix req.proxy_authorization (codes "Basic "))
        ≡ some (user_pass s.auth))
unfolding authenticate
authenticate_iff s req a h =
    rw (a, authenticate) (check_header_iff s.auth req.proxy_authorization h)

trim_prefix-basic : (t : Text) → trim_prefix (codes "Basic " ++ t) (codes "Basic ") ≡ t
unfolding codes trim_prefix
trim_prefix-basic t = refl

-- The header that a client with the right credentials sends, "Basic" with a blank and their base64
-- form, is accepted, whatever bytes the password holds; a user name with a colon in it is left out.
pub authenticate_basic :
    (s : HttpServer) (req : HttpRequest)
    → has_byte b':' s.auth.username ≡ false
    → Each IsByte (user_pass s.auth)
    → req.proxy_authorization ≡ codes "Basic " ++ base64_encode (user_pass s.auth)
    → authenticate s req ≡ none
unfolding authenticate
authenticate_basic s req h b e = elim (Bool-cases s.auth_required) [
  | inl a ↦ (authenticate_iff s req a h).1 (
      ap (λ t. base64_decode (trim_prefix t (codes "Basic "))) e
      ∙ ap base64_decode (trim_prefix-basic (base64_encode (user_pass s.auth)))
      ∙ decode-encode (user_pass s.auth) b)
  | inr a ↦ rw (a, authenticate) refl
]

-- How a request is dialed for.
abbrev pub IsDialed : HttpRequest → Text → Type 0
IsDialed req addr =
    ((req.method ≡ codes "CONNECT") × (addr ≡ target_address (codes "443") req.host))
    ⊎ ((req.method ≡ codes "GET") × (addr ≡ target_address (codes "80") req.host))

module _ {Conn : Type 0} where
  -- The addresses that were dialed.
  abbrev pub dials : List (Effect Conn) → List Text
  dials [] = []
  dials (dial_to addr ∷ rest) = addr ∷ dials rest
  dials (_ ∷ rest) = dials rest

module _ {Conn : Type 0} (dial : Text → Result Conn) (written : Bool) where
  established_with-dials : (r : Result Conn) → dials (established_with dial written r) ≡ []
  unfolding established_with
  established_with-dials (err e) = refl
  established_with-dials (ok peer) = elim (Bool-cases written) [
    | inl e ↦ rw e refl
    | inr e ↦ rw e refl
  ]

  requested_with-dials : (r : Result Conn) → dials (requested_with dial written r) ≡ []
  unfolding requested_with
  requested_with-dials (err e) = refl
  requested_with-dials (ok peer) = elim (Bool-cases written) [
    | inl e ↦ rw e refl
    | inr e ↦ rw e refl
  ]

  handle_conn-dials :
      (req : HttpRequest)
      → dials (handle_conn dial written req) ≡ target_address (codes "443") req.host ∷ []
  unfolding handle_conn
  handle_conn-dials req =
      ap (◌∷◌ (target_address (codes "443") req.host)) (established_with-dials _)

  handle-dials :
      (req : HttpRequest)
      → dials (handle dial written req) ≡ target_address (codes "80") req.host ∷ []
  unfolding handle
  handle-dials req = ap (◌∷◌ (target_address (codes "80") req.host)) (requested_with-dials _)

  by_method-dials :
      (req : HttpRequest) (addr : Text) (rest : List Text)
      → dials (by_method dial written req) ≡ addr ∷ rest
      → IsDialed req addr × (rest ≡ [])
  unfolding by_method
  by_method-dials req addr rest h = elim (Bool-cases (text_eq req.method (codes "CONNECT"))) [
    | inl c ↦
        let k : target_address (codes "443") req.host ∷ [] ≡ addr ∷ rest =
          sym (handle_conn-dials req) ∙ (rw (c, by_method) at h) in
        (inl ((text_eq_iff req.method (codes "CONNECT")).0 c, cc k), cc k)
    | inr c ↦ elim (Bool-cases (text_eq req.method (codes "GET"))) [
      | inl g ↦
          let k : target_address (codes "80") req.host ∷ [] ≡ addr ∷ rest =
            sym (handle-dials req) ∙ (rw (c, g, by_method) at h) in
          (inr ((text_eq_iff req.method (codes "GET")).0 g, cc k), cc k)
      | inr g ↦ absurd (cc (rw (c, g, by_method) at h))
    ]
  ]

  -- A proxy that requires credentials dials for a request only if its header holds them, and then
  -- once: for CONNECT, with port 443 where the host names none, or for GET, with port 80.
  pub serve-dials :
      (s : HttpServer) (req : HttpRequest) (addr : Text) (rest : List Text)
      → s.auth_required ≡ true
      → has_byte b':' s.auth.username ≡ false
      → dials (serve dial written s (ok req)) ≡ addr ∷ rest
      → (base64_decode (trim_prefix req.proxy_authorization (codes "Basic "))
          ≡ some (user_pass s.auth))
        × IsDialed req addr
        × (rest ≡ [])
  unfolding serve admit
  serve-dials s req addr rest a n h = elim (Option-cases (authenticate s req)) [
    | inl e ↦
        let (d, r) = by_method-dials req addr rest (rw (e, serve) at h) in
        ((authenticate_iff s req a n).0 e, d, r)
    | inr (code, e) ↦ absurd (cc (rw (e, serve) at h))
  ]
