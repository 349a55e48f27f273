-- ===== src/Tests/Configuring.antt =====
-- The configuration at concrete inputs.
use wireproxy_homerun.Config.Keys.{parse_string, parse_port, encode_base64_to_hex}
use wireproxy_homerun.Config.Keys.Values.{
  parse_string_missing, parse_port_iff, encode_base64_to_hex-encode,
}
use wireproxy_homerun.Config.Lists.{parse_net_ip}
use wireproxy_homerun.Config.Lists.Items.{commas, parse_net_ip_hides_unset}
use wireproxy_homerun.Config.Source.{Section, File}
use wireproxy_homerun.Prelude.{
  pos, all, Each, ltb, ℕ, ◌<◌, ◌≡◌, refl, ◌↔◌, true, List, [], ◌∷◌, ◌++◌, arith,
}
use wireproxy_homerun.Std.{ok, Text, codes, text_eq, strip_prefix, has_prefix, lower_byte}
use wireproxy_homerun.Std.Base64.{hex_encode}
use wireproxy_homerun.Std.Base64.Laws.{base64_encode, IsByte}
use wireproxy_homerun.Std.Unicode.{to_lower}
use wireproxy_homerun.Tests.Fixtures.{
  missing_error, text_key, section_of, section_of-IsDocumented, file_of, platform,
}

abbrev target : Text
target = codes "Target"

-- A section whose Target is the text.
abbrev targeting : Text → Section
targeting t = section_of ((codes "target", t) ∷ [])

abbrev nothing : File
nothing = file_of []

parse_string_missing_example : parse_string (platform nothing) (section_of []) target ≡ ok []
unfolding to_lower codes text_eq lower_byte
parse_string_missing_example =
    parse_string_missing (platform nothing) (section_of []) target missing_error
      (section_of-IsDocumented []) refl

parse_port_iff_example :
    (parse_port (targeting (codes "65535")) target ≡ ok 65535)
    ↔ (((text_key (codes "65535")).int ≡ ok (pos 65535)) × (65535 < 65536))
unfolding codes text_eq lower_byte
parse_port_iff_example =
    parse_port_iff (targeting (codes "65535")) target (text_key (codes "65535")) 65535 refl

abbrev zeros : List ℕ
zeros =
    0 ∷ 1 ∷ 2 ∷ 3 ∷ 4 ∷ 5 ∷ 6 ∷ 7 ∷ 8 ∷ 9 ∷ 10 ∷ 11 ∷ 12 ∷ 13 ∷ 14 ∷ 15 ∷ 16 ∷ 17 ∷ 18 ∷ 19 ∷ 20
    ∷ 21 ∷ 22 ∷ 23 ∷ 24 ∷ 25 ∷ 26 ∷ 27 ∷ 28 ∷ 29 ∷ 30 ∷ 255 ∷ []

-- Every entry passes the test, so every entry is a byte.
bytes_of : (l : List ℕ) → all (λ b. ltb b 256) l ≡ true → Each IsByte l
bytes_of [] h = tt
bytes_of (b ∷ l) h = (ground arith, bytes_of l (ground arith))

encode_base64_to_hex-encode_example :
    encode_base64_to_hex (base64_encode zeros) ≡ ok (hex_encode zeros)
encode_base64_to_hex-encode_example = encode_base64_to_hex-encode zeros (bytes_of zeros refl) refl

abbrev two_addresses : Text
two_addresses = commas (codes "10.0.0.2" ∷ codes "fd00::2" ∷ [])

abbrev odd_variable : Text
odd_variable = codes "$" ++ ([] ++ (codes "should not be empty" ++ []))

parse_net_ip_hides_unset_example :
    parse_net_ip (platform nothing) (targeting odd_variable) target ≡ ok []
unfolding to_lower codes text_eq lower_byte has_prefix strip_prefix
parse_net_ip_hides_unset_example =
    parse_net_ip_hides_unset (platform nothing) (targeting odd_variable) target
      (text_key odd_variable) refl [] [] refl refl refl
