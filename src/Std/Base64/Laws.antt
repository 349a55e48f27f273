-- ===== src/Std/Base64/Laws.antt =====
-- Decoding gives back what was encoded.
use mathlib.Core.Path.{ap₂}
use wireproxy_homerun.Prelude.{
  length, Each, ltb, ◌==◌, if◌then◌else◌, ℕ, ◌+◌, ◌-◌, ◌*◌, ◌/◌, ◌%◌, ◌<◌, ◌≡◌, false, some, List,
  [], ◌∷◌, arith, refl, ◌∙◌, filterb, ap, not, Option,
}
use wireproxy_homerun.Std.Base64.{
  sextet, base64_decode, hex_encode, padding, newline, last_group, third_byte, full, groups,
  second_byte, first_byte, padded_one, padded_two,
}
use wireproxy_homerun.Std.Strings.{Text}

pub length-hex : (bs : List ℕ) → length (hex_encode bs) ≡ 2 * length bs
unfolding hex_encode
length-hex [] = omega arith
length-hex (b ∷ bs) = omega (arith, length-hex bs)

-- The byte of the alphabet for a value below 64.
symbol : ℕ → ℕ
symbol n =
    if ltb n 26
    then n + b'A'
    else if ltb n 52
    then n - 26 + b'a'
    else if ltb n 62
    then n - 52 + b'0'
    else if n == 62
    then b'+'
    else b'/'

sextet-symbol : (n : ℕ) → n < 64 → sextet (symbol n) ≡ some n
unfolding sextet symbol
sextet-symbol n h = ground arith

symbol-not_newline : (n : ℕ) → n < 64 → newline (symbol n) ≡ false
unfolding newline symbol
symbol-not_newline n h = ground arith

symbol-ne-padding : (n : ℕ) → n < 64 → (symbol n == padding) ≡ false
unfolding symbol padding
symbol-ne-padding n h = ground arith

-- The standard encoding of bytes, with padding.
unfoldable pub base64_encode : List ℕ → Text
unfolding symbol padding
base64_encode [] = []
base64_encode (a ∷ []) = symbol (a / 4) ∷ symbol (a % 4 * 16) ∷ padding ∷ padding ∷ []
base64_encode (a ∷ b ∷ []) =
    symbol (a / 4) ∷ symbol (a % 4 * 16 + b / 16) ∷ symbol (b % 16 * 4) ∷ padding ∷ []
base64_encode (a ∷ b ∷ c ∷ s) =
    symbol (a / 4)
    ∷ symbol (a % 4 * 16 + b / 16)
    ∷ symbol (b % 16 * 4 + c / 64)
    ∷ symbol (c % 64)
    ∷ base64_encode s

abbrev pub IsByte : ℕ → Type 0
IsByte b = b < 256

-- A group of four symbols in front of a text that decodes.
groups-symbols :
    (a b c d : ℕ) (t : Text) (rest : List ℕ)
    → a < 64
    → b < 64
    → c < 64
    → d < 64
    → groups t ≡ some rest
    → groups (symbol a ∷ symbol b ∷ symbol c ∷ symbol d ∷ t)
      ≡ some (first_byte a b ∷ second_byte b c ∷ third_byte c d ∷ rest)
unfolding groups last_group full
groups-symbols a b c d [] rest ha hb hc hd h =
    rw
      (
        symbol-ne-padding d hd,
        sextet-symbol a ha,
        sextet-symbol b hb,
        sextet-symbol c hc,
        sextet-symbol d hd,
      )
      (cc h)
groups-symbols a b c d (e ∷ t) rest ha hb hc hd h =
    rw (h, sextet-symbol a ha, sextet-symbol b hb, sextet-symbol c hc, sextet-symbol d hd)

group_two :
    (a b : ℕ)
    → a < 64
    → b < 64
    → groups (symbol a ∷ symbol b ∷ padding ∷ padding ∷ []) ≡ some (first_byte a b ∷ [])
unfolding groups last_group padded_two
group_two a b ha hb = rw (sextet-symbol a ha, sextet-symbol b hb)

group_three :
    (a b c : ℕ)
    → a < 64
    → b < 64
    → c < 64
    → groups (symbol a ∷ symbol b ∷ symbol c ∷ padding ∷ [])
      ≡ some (first_byte a b ∷ second_byte b c ∷ [])
unfolding groups last_group padded_one
group_three a b c ha hb hc =
    rw (symbol-ne-padding c hc, sextet-symbol a ha, sextet-symbol b hb, sextet-symbol c hc)

some_bytes :
    {x y z x' y' z' : ℕ} (s : List ℕ)
    → x ≡ x'
    → y ≡ y'
    → z ≡ z'
    → ◌≡◌ {A = Option (List ℕ)} (some (x ∷ y ∷ z ∷ s)) (some (x' ∷ y' ∷ z' ∷ s))
some_bytes s p q r = cc

groups-encode : (bs : List ℕ) → Each IsByte bs → groups (base64_encode bs) ≡ some bs
unfolding base64_encode
groups-encode [] h = unfold groups in refl
groups-encode (a ∷ []) (ha, h) =
    group_two (a / 4) (a % 4 * 16) (omega arith) (omega arith)
    ∙ ap (λ x. some (x ∷ [])) (omega arith)
groups-encode (a ∷ b ∷ []) (ha, (hb, h)) =
    group_three (a / 4) (a % 4 * 16 + b / 16) (b % 16 * 4) (omega arith) (omega arith) (omega arith)
    ∙ ap₂ (λ x y. some (x ∷ y ∷ [])) (omega arith) (omega arith)
groups-encode (a ∷ b ∷ c ∷ s) (ha, (hb, (hc, h))) =
    groups-symbols (a / 4) (a % 4 * 16 + b / 16) (b % 16 * 4 + c / 64) (c % 64) (base64_encode s) s
      (omega arith) (omega arith) (omega arith) (omega arith) (groups-encode s h)
    ∙ some_bytes s (omega arith) (omega arith) (omega arith)

-- No line break stands in an encoded text.
filter_cons :
    (c : ℕ) (s : Text)
    → newline c ≡ false
    → filterb (λ x. not (newline x)) s ≡ s
    → filterb (λ x. not (newline x)) (c ∷ s) ≡ c ∷ s
filter_cons c s h k = ground arith

filter-encode :
    (bs : List ℕ)
    → Each IsByte bs
    → filterb (λ x. not (newline x)) (base64_encode bs) ≡ base64_encode bs
unfolding base64_encode
filter-encode [] h = refl
filter-encode (a ∷ []) (ha, h) =
    unfold padding newline in
    filter_cons _ _ (symbol-not_newline (a / 4) (omega arith)) (
      filter_cons _ _ (symbol-not_newline (a % 4 * 16) (omega arith))
        (filter_cons _ _ refl (filter_cons _ _ refl (refl))))
filter-encode (a ∷ b ∷ []) (ha, (hb, h)) =
    unfold padding newline in
    filter_cons _ _ (symbol-not_newline (a / 4) (omega arith)) (
      filter_cons _ _ (symbol-not_newline (a % 4 * 16 + b / 16) (omega arith)) (
        filter_cons _ _ (symbol-not_newline (b % 16 * 4) (omega arith))
          (filter_cons _ _ refl (refl))))
filter-encode (a ∷ b ∷ c ∷ s) (ha, (hb, (hc, h))) =
    filter_cons _ _ (symbol-not_newline (a / 4) (omega arith)) (
      filter_cons _ _ (symbol-not_newline (a % 4 * 16 + b / 16) (omega arith)) (
        filter_cons _ _ (symbol-not_newline (b % 16 * 4 + c / 64) (omega arith))
          (filter_cons _ _ (symbol-not_newline (c % 64) (omega arith)) (filter-encode s h))))

pub decode-encode : (bs : List ℕ) → Each IsByte bs → base64_decode (base64_encode bs) ≡ some bs
unfolding base64_decode
decode-encode bs h = rw (filter-encode bs h) (groups-encode bs h)
