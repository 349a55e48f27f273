-- ===== src/Config/Keys/Values.antt =====
-- What a key reads as.
use wireproxy_homerun.Config.Keys.{
  parse_string, parse_port, encode_base64_to_hex, unset_variable, check_port, expand,
}
use wireproxy_homerun.Config.Source.{Key, Section, IsDocumented, Platform}
use wireproxy_homerun.Prelude.{
  pos, length, Each, if◌then◌else◌, Option-cases, ℕ, ◌<◌, ◌≡◌, ◌↔◌, inl, inr, false, none, some,
  List, [], ◌++◌, arith, ℤ, ◌==◌, Bool-cases, refl, ap, ◌∙◌, ◌∷◌, negsuc, ==_iff, subst,
}
use wireproxy_homerun.Std.{
  Error, ok, err, Text, codes, has_prefix, replace_first, Result, ◌>>=◌, trim_prefix,
}
use wireproxy_homerun.Std.Base64.{base64_decode, hex_encode}
use wireproxy_homerun.Std.Base64.Laws.{length-hex, base64_encode, IsByte, decode-encode}
use wireproxy_homerun.Std.Unicode.{to_lower}

-- The value of a text in a configuration, with a leading dollar escaped.
unfoldable pub escape : Text → Text
escape t = if has_prefix t (codes "$") then codes "$" ++ t else t

expand-escape : (p : Platform) (name t : Text) → expand p name (escape t) ≡ ok t
unfolding expand escape has_prefix trim_prefix replace_first codes
expand-escape p name [] = refl
expand-escape p name (c ∷ t) = elim (Bool-cases (b'$' == c)) [
  | inl e ↦ subst (λ d. expand p name (escape (d ∷ t)) ≡ ok (d ∷ t)) ((==_iff b'$' c).0 e) refl
  | inr e ↦ ground arith
]

expand_variable :
    (p : Platform) (name variable : Text)
    → has_prefix variable (codes "$") ≡ false
    → expand p name (codes "$" ++ variable) ≡ elim (p.lookup_env variable) [
      | none ↦ err (unset_variable p name (codes "$" ++ variable))
      | some value ↦ ok value
    ]
unfolding expand has_prefix trim_prefix codes
expand_variable p name [] d = refl
expand_variable p name (c ∷ variable) d = ground arith

parse_string_lem :
    (p : Platform) (section : Section) (name : Text) (key : Key) (value : Text)
    → section.key (to_lower p.unicode name) ≡ some key
    → key.string ≡ value
    → parse_string p section name ≡ expand p name value
unfolding parse_string
parse_string_lem p section name key value found e = rw (found, parse_string) (ap (expand p name) e)

expand_plain :
    (p : Platform) (name value : Text)
    → has_prefix value (codes "$") ≡ false
    → expand p name value ≡ ok value
unfolding expand
expand_plain p name value d = rw d

pub parse_string_plain :
    (p : Platform) (section : Section) (name : Text) (key : Key) (value : Text)
    → section.key (to_lower p.unicode name) ≡ some key
    → key.string ≡ value
    → has_prefix value (codes "$") ≡ false
    → parse_string p section name ≡ ok value
parse_string_plain p section name key value found e d =
    parse_string_lem p section name key value found e ∙ expand_plain p name value d

module _ (p : Platform) (section : Section) (name : Text) (key : Key)
    (found : section.key (to_lower p.unicode name) ≡ some key) where
  -- Every text can be written as the value of a key: with a leading dollar doubled it reads as itself.
  parse_string-escape : (t : Text) → key.string ≡ escape t → parse_string p section name ≡ ok t
  parse_string-escape t e =
      parse_string_lem p section name key (escape t) found e ∙ expand-escape p name t

  -- A value that is a dollar and a name, which does not begin with a dollar itself, reads as the
  -- environment variable of that name, and is an error if that is not set.
  pub parse_string_variable :
      (variable : Text)
      → key.string ≡ codes "$" ++ variable
      → has_prefix variable (codes "$") ≡ false
      → parse_string p section name ≡ elim (p.lookup_env variable) [
        | none ↦ err (unset_variable p name (codes "$" ++ variable))
        | some value ↦ ok value
      ]
  parse_string_variable variable e d =
      parse_string_lem p section name key (codes "$" ++ variable) found e
      ∙ expand_variable p name variable d

-- A key that is absent reads as the empty text: the error "should not be empty" is never returned.
pub parse_string_missing :
    (p : Platform) (section : Section) (name : Text) (e : Error)
    → IsDocumented section
    → section.get_key (to_lower p.unicode name) ≡ err e
    → parse_string p section name ≡ ok []
unfolding escape expand has_prefix codes
parse_string_missing p section name e d a =
    let (key, k, z) = d.missing (to_lower p.unicode name) e a in
    parse_string_lem p section name key [] k z ∙ expand-escape p name []

port_value : (r : Result ℤ) (n : ℕ) → ((r >>= check_port) ≡ ok n) ↔ ((r ≡ ok (pos n)) × (n < 65536))
unfolding check_port
port_value (ok (pos m)) n = (λ h. ground arith, λ h. ground arith)
port_value (ok (negsuc m)) n = (λ h. ground arith, λ h. ground arith)
port_value (err e) n = (λ h. ground arith, λ h. ground arith)

-- A port is accepted exactly if the value is an integer from 0 to 65535, and is that integer.
pub parse_port_iff :
    (section : Section) (name : Text) (key : Key) (n : ℕ)
    → section.key name ≡ some key
    → (parse_port section name ≡ ok n) ↔ ((key.int ≡ ok (pos n)) × (n < 65536))
unfolding parse_port
parse_port_iff section name key n k = rw (k, parse_port) (port_value key.int n)

-- A key of 32 bytes, in base64, is taken over in hexadecimal.
pub encode_base64_to_hex-encode :
    (bytes : List ℕ)
    → Each IsByte bytes
    → length bytes ≡ 32
    → encode_base64_to_hex (base64_encode bytes) ≡ ok (hex_encode bytes)
unfolding encode_base64_to_hex
encode_base64_to_hex-encode bytes b l = rw (decode-encode bytes b) (ground arith)

-- A key that is accepted has 64 hexadecimal digits.
pub length-encode_base64_to_hex :
    (key hex : Text) → encode_base64_to_hex key ≡ ok hex → length hex ≡ 64
unfolding encode_base64_to_hex
length-encode_base64_to_hex key hex h = elim (Option-cases (base64_decode key)) [
  | inl e ↦ absurd (ground arith)
  | inr (decoded, e) ↦ ground (arith, length-hex decoded)
]
