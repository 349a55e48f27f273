-- ===== src/Config/Keys.antt =====
-- The readers of single keys.
pub mod Values
use wireproxy_homerun.Config.Source.{Key, Section, Platform}
use wireproxy_homerun.Net.{TcpAddr}
use wireproxy_homerun.Prelude.{
  ℤ, pos, negsuc, length, leb, ◌==◌, if◌then◌else◌, ℕ, Bool, false, Option, none, some, List, ◌++◌,
}
use wireproxy_homerun.Std.{
  Error, new_error, Result, ok, err, ◌>>=◌, Text, codes, has_prefix, trim_prefix, replace_first,
}
use wireproxy_homerun.Std.Base64.{base64_decode, hex_encode}
use wireproxy_homerun.Std.Unicode.{to_lower}

-- the last test of parsePort
check_port : ℤ → Result ℕ
check_port (negsuc n) = err (new_error (codes "port should be >= 0 and < 65536"))
check_port (pos n) =
    if leb 65536 n then err (new_error (codes "port should be >= 0 and < 65536")) else ok n

module _ (p : Platform) where
  unfoldable pub unset_variable : Text → Text → Error
  unset_variable key_name value =
      new_error (key_name ++ (codes " references unset environment variable " ++ value))

  -- The value of a key that is there: `$$` escapes a dollar, `$NAME` is an environment variable.
  expand : Text → Text → Result Text
  unfolding unset_variable
  expand key_name value =
      if has_prefix value (codes "$")
      then (if has_prefix value (codes "$$")
          then ok (replace_first (codes "$$") (codes "$") value)
          else elim (p.lookup_env (trim_prefix value (codes "$"))) [
            | none ↦ err (unset_variable key_name value)
            | some v ↦ ok v
          ])
      else ok value

  unfoldable pub parse_string : Section → Text → Result Text
  unfolding expand
  parse_string section key_name = elim (section.key (to_lower p.unicode key_name)) [
    | none ↦ err (new_error (key_name ++ codes " should not be empty"))
    | some key ↦ expand key_name key.string
  ]

  unfoldable pub parse_tcp_addr : Section → Text → Result TcpAddr
  parse_tcp_addr section key_name = do addr ← parse_string section key_name; p.resolve_tcp_addr addr

unfoldable pub parse_port : Section → Text → Result ℕ
unfolding check_port
parse_port section key_name = elim (section.key key_name) [
  | none ↦ err (new_error (key_name ++ codes " should not be empty"))
  | some key ↦ key.int >>= check_port
]

check_key : Text → Option (List ℕ) → Result Text
check_key key none = err (new_error (codes "invalid base64 string: " ++ key))
check_key key (some decoded) =
    if length decoded == 32
    then ok (hex_encode decoded)
    else err (new_error (codes "key should be 32 bytes: " ++ key))

unfoldable pub encode_base64_to_hex : Text → Result Text
unfolding check_key
encode_base64_to_hex key = check_key key (base64_decode key)

unfoldable pub parse_base64_key_to_hex : Platform → Section → Text → Result Text
unfolding encode_base64_to_hex
parse_base64_key_to_hex p section key_name = do
  key ← parse_string p section key_name
  encode_base64_to_hex key

-- The value of an optional key, or what stands if the key is absent.
unfoldable pub optional {ℓ} : {A : Type ℓ} → Result Key → (Key → Result A) → A → Result A
optional (ok key) read absent = read key
optional (err e) read absent = ok absent

unfoldable pub parse_bool_key : Section → Text → Result Bool
unfolding optional
parse_bool_key section key_name = optional (section.get_key key_name) (λ key. key.bool) false
