-- ===== src/Std/Base64.antt =====
-- base64.StdEncoding.DecodeString and hex.EncodeToString.
pub mod Laws
use wireproxy_homerun.Prelude.{
  filterb, ltb, leb, ◌==◌, if◌then◌else◌, ℕ, ◌+◌, ◌-◌, ◌*◌, ◌/◌, ◌%◌, Bool, not, ◌&&◌, ◌||◌, Option,
  none, some, List, [], ◌∷◌,
}
use wireproxy_homerun.Std.Strings.{Text}

newline : ℕ → Bool
newline c = c == 10 || c == 13

-- The value of a byte of the alphabet.
unfoldable pub sextet : ℕ → Option ℕ
sextet c =
    if leb b'A' c && leb c b'Z'
    then some (c - b'A')
    else if leb b'a' c && leb c b'z'
    then some (c - b'a' + 26)
    else if leb b'0' c && leb c b'9'
    then some (c - b'0' + 52)
    else if c == b'+'
    then some 62
    else if c == b'/'
    then some 63
    else none

abbrev first_byte : ℕ → ℕ → ℕ
first_byte a b = a * 4 + b / 16

abbrev second_byte : ℕ → ℕ → ℕ
second_byte b c = (b % 16) * 16 + c / 4

abbrev third_byte : ℕ → ℕ → ℕ
third_byte c d = (c % 4) * 64 + d

-- the sextets of a group; the bits that padding leaves over are dropped
full : Option ℕ → Option ℕ → Option ℕ → Option ℕ → Option (List ℕ) → Option (List ℕ)
full (some a) (some b) (some c) (some d) (some rest) =
    some (first_byte a b ∷ second_byte b c ∷ third_byte c d ∷ rest)
full _ _ _ _ _ = none

padded_one : Option ℕ → Option ℕ → Option ℕ → Option (List ℕ)
padded_one (some a) (some b) (some c) = some (first_byte a b ∷ second_byte b c ∷ [])
padded_one _ _ _ = none

padded_two : Option ℕ → Option ℕ → Option (List ℕ)
padded_two (some a) (some b) = some (first_byte a b ∷ [])
padded_two _ _ = none

-- The last group may end in padding, which is '='.
padding : ℕ
padding = b'='

last_group : ℕ → ℕ → ℕ → ℕ → Option (List ℕ)
unfolding padding sextet padded_one padded_two full
last_group a b c d =
    if d == padding
    then (if c == padding
        then padded_two (sextet a) (sextet b)
        else padded_one (sextet a) (sextet b) (sextet c))
    else full (sextet a) (sextet b) (sextet c) (sextet d) (some [])

groups : Text → Option (List ℕ)
unfolding last_group
groups [] = some []
groups (a ∷ []) = none
groups (a ∷ b ∷ []) = none
groups (a ∷ b ∷ c ∷ []) = none
groups (a ∷ b ∷ c ∷ d ∷ []) = last_group a b c d
groups (a ∷ b ∷ c ∷ d ∷ e ∷ s) = full (sextet a) (sextet b) (sextet c) (sextet d) (groups (e ∷ s))

-- `none` is the CorruptInputError.
unfoldable pub base64_decode : Text → Option (List ℕ)
unfolding groups newline
base64_decode s = groups (filterb (λ c. not (newline c)) s)

hex_digit : ℕ → ℕ
hex_digit n = if ltb n 10 then b'0' + n else b'a' + (n - 10)

unfoldable pub hex_encode : List ℕ → Text
unfolding hex_digit
hex_encode [] = []
hex_encode (b ∷ bs) = hex_digit (b / 16) ∷ hex_digit (b % 16) ∷ hex_encode bs
