-- ===== src/Std/Strings/Laws.antt =====
-- Laws of the byte-string operations: where a cut falls, what a split joins back to.
use wireproxy_homerun.Prelude.{ℕ, ◌≡◌, refl, true, false, [], ◌∷◌, ◌++◌, none, some, arith, ==_refl}
use wireproxy_homerun.Std.Strings.Defs.{
  split_byte, Text, cut, cut_last, has_byte, strip_prefix, has_prefix, contains,
}

-- The first occurrence is at `b` when nothing before it is a `b`.
pub cut-append : (b : ℕ) (s t : Text) → has_byte b s ≡ false → cut b (s ++ b ∷ t) ≡ some (s, t)
unfolding cut
cut-append b [] t h = rw ==_refl
cut-append b (c ∷ s) t h = ground (arith, cut-append b s t)

-- A text without `b` is not cut.
pub cut-none : (b : ℕ) (s : Text) → has_byte b s ≡ false → cut b s ≡ none
unfolding cut
cut-none b [] h = refl
cut-none b (c ∷ s) h = ground (arith, cut-none b s)

-- The pieces of a cut, and the separator, make up the text.
pub cut-eq-some :
    (b : ℕ) (s x y : Text) → cut b s ≡ some (x, y) → (s ≡ x ++ b ∷ y) × (has_byte b x ≡ false)
unfolding cut
cut-eq-some b [] x y h = cc
cut-eq-some b (c ∷ s) [] y h = ground (arith, cut-eq-some b s)
cut-eq-some b (c ∷ s) (d ∷ x) y h = ground (arith, cut-eq-some b s x y)

pub cut_last-none : (b : ℕ) (s : Text) → has_byte b s ≡ false → cut_last b s ≡ none
unfolding cut_last
cut_last-none b [] h = refl
cut_last-none b (c ∷ s) h = ground (arith, cut_last-none b s)

-- The last occurrence is at `b` when nothing behind it is a `b`.
pub cut_last-append :
    (b : ℕ) (s t : Text) → has_byte b t ≡ false → cut_last b (s ++ b ∷ t) ≡ some (s, t)
unfolding cut_last
cut_last-append b [] t h = rw (cut_last-none b t h, ==_refl b)
cut_last-append b (c ∷ s) t h = rw (cut_last-append b s t h)

pub strip_prefix-append : (p s : Text) → strip_prefix p (p ++ s) ≡ some s
unfolding strip_prefix
strip_prefix-append [] s = refl
strip_prefix-append (c ∷ p) s = rw (strip_prefix-append p s, ==_refl c)

pub has_prefix-append : (p s : Text) → has_prefix (p ++ s) p ≡ true
unfolding has_prefix
has_prefix-append p s = rw (strip_prefix-append p s, has_prefix)

pub contains-prefix : (p s : Text) → contains (p ++ s) p ≡ true
unfolding contains
contains-prefix [] [] = has_prefix-append [] []
contains-prefix [] (c ∷ s) = rw (has_prefix-append [] (c ∷ s))
contains-prefix (c ∷ p) s = rw (has_prefix-append (c ∷ p) s)

pub contains-under : (x s p : Text) → contains s p ≡ true → contains (x ++ s) p ≡ true
unfolding contains
contains-under [] s p h = h
contains-under (c ∷ x) s p h = rw (contains-under x s p h) (ground arith)

-- A text is contained wherever it stands.
pub contains-append : (q p s : Text) → contains (q ++ (p ++ s)) p ≡ true
contains-append q p s = contains-under q (p ++ s) p (contains-prefix p s)

-- A piece without the separator is the first piece of a split.
pub split_byte-cons :
    (b : ℕ) (t s : Text) → has_byte b t ≡ false → split_byte b (t ++ b ∷ s) ≡ t ∷ split_byte b s
unfolding split_byte
split_byte-cons b [] s h = rw ==_refl
split_byte-cons b (c ∷ t) s h = ground (arith, split_byte-cons b t s)

pub split_byte-whole : (b : ℕ) (t : Text) → has_byte b t ≡ false → split_byte b t ≡ t ∷ []
unfolding split_byte
split_byte-whole b [] h = refl
split_byte-whole b (c ∷ t) h = ground (arith, split_byte-whole b t)
