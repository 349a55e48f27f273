-- ===== src/Std/Decimal.antt =====
-- strconv.Atoi and the %d and Itoa of Go's 64-bit `int`.
use wireproxy_homerun.Prelude.{
  ℕ, zero, suc, ◌+◌, ◌-◌, ◌*◌, ◌/◌, ◌%◌, ◌^◌, ◌<◌, ◌≡◌, Bool, true, false, ◌&&◌, [], ◌∷◌, Option,
  none, some, arith, ltb, leb, ◌==◌, if◌then◌else◌, ℤ, pos, negsuc, ◌≤◌, refl, ◌⊎◌,
}
use wireproxy_homerun.Std.Strings.{Text, has_byte}

-- the digits of a number, most significant first; any other byte is a syntax error
unfoldable pub digits_value : ℕ → Text → Option ℕ
digits_value acc [] = some acc
digits_value acc (c ∷ s) =
    let rest = digits_value (acc * 10 + (c - 48)) s in
    if leb b'0' c && leb c b'9' then rest else none

-- one digit at least
unfoldable pub magnitude : Text → Option ℕ
unfolding digits_value
magnitude [] = none
magnitude (c ∷ s) = digits_value 0 (c ∷ s)

negated : ℕ → ℤ
negated zero = pos 0
negated (suc n) = negsuc n

-- A value outside int64 is ErrRange.
in_int64 : Bool → ℕ → Option ℤ
unfolding negated
in_int64 true n = if leb n (2 ^ 63) then some (negated n) else none
in_int64 false n = if ltb n (2 ^ 63) then some (pos n) else none

-- `none` stands for the *NumError that Atoi returns.
unfoldable pub atoi : Text → Option ℤ
unfolding magnitude in_int64
atoi [] = none
atoi (c ∷ s) =
    if c == b'-'
    then elim (magnitude s) [ none ↦ none | some n ↦ in_int64 true n ]
    else if c == b'+'
    then elim (magnitude s) [ none ↦ none | some n ↦ in_int64 false n ]
    else elim (magnitude (c ∷ s)) [ none ↦ none | some n ↦ in_int64 false n ]

-- The digits of `n` in front of `acc`, with fuel above `n`.
show_digits : ℕ → ℕ → Text → Text
show_digits zero n acc = acc
show_digits (suc f) n acc =
    let rest = show_digits f (n / 10) ((48 + n % 10) ∷ acc) in
    if ltb n 10 then (48 + n) ∷ acc else rest

unfoldable pub show_nat : ℕ → Text
unfolding show_digits
show_nat n = show_digits (suc n) n []

-- strconv.Itoa and %d
unfoldable pub itoa : ℤ → Text
unfolding show_nat digits_value
itoa (pos n) = show_nat n
itoa (negsuc n) = b'-' ∷ show_nat (suc n)

-- Reading goes on from the digits that were printed.
digits_value-show :
    (f n : ℕ) (acc : Text) → n < f → digits_value 0 (show_digits f n acc) ≡ digits_value n acc
unfolding digits_value show_digits
digits_value-show zero n acc h = elim h [ ]
digits_value-show (suc f) n acc h =
    ground (arith, digits_value-show f (n / 10) ((48 + n % 10) ∷ acc))

-- A decimal text begins with a digit.
abbrev StartsWithDigit : Text → Type 0
StartsWithDigit [] = ⊥
StartsWithDigit (c ∷ s) = (b'0' ≤ c) × (c ≤ b'9')

show_digits-StartsWithDigit : (f n : ℕ) (acc : Text) → n < f → StartsWithDigit (show_digits f n acc)
unfolding show_digits
show_digits-StartsWithDigit zero n acc h = elim h [ ]
show_digits-StartsWithDigit (suc f) n acc h =
    ground (arith, show_digits-StartsWithDigit f (n / 10) ((48 + n % 10) ∷ acc))

-- What starts with a digit has no sign to strip.
atoi_unsigned :
    (s : Text) (n : ℕ)
    → StartsWithDigit s
    → digits_value 0 s ≡ some n
    → n < 2 ^ 63
    → atoi s ≡ some (pos n)
unfolding atoi magnitude in_int64
atoi_unsigned [] n h e b = elim h [ ]
atoi_unsigned (c ∷ s) n h e b = ground arith

-- Atoi reads back what Itoa printed.
pub atoi-show_nat : (n : ℕ) → n < 2 ^ 63 → atoi (show_nat n) ≡ some (pos n)
unfolding show_nat digits_value
atoi-show_nat n h =
    atoi_unsigned (show_nat n) n (show_digits-StartsWithDigit (suc n) n [] (omega arith))
      (digits_value-show (suc n) n [] (omega arith)) h

-- The digits in front of `acc` are free of the bytes below '0' and above '9'.
show_digits-has_byte :
    (b f n : ℕ) (acc : Text)
    → (b < b'0') ⊎ (b'9' < b)
    → n < f
    → has_byte b acc ≡ false
    → has_byte b (show_digits f n acc) ≡ false
unfolding show_digits
show_digits-has_byte b zero n acc o h e = elim h [ ]
show_digits-has_byte b (suc f) n acc o h e =
    ground (arith, show_digits-has_byte b f (n / 10) ((48 + n % 10) ∷ acc))

pub show_nat-has_byte : (b n : ℕ) → (b < b'0') ⊎ (b'9' < b) → has_byte b (show_nat n) ≡ false
unfolding show_nat
show_nat-has_byte b n o = show_digits-has_byte b (suc n) n [] o (omega arith) refl
