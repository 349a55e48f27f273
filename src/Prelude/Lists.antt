-- ===== src/Prelude/Lists.antt =====
-- Lists measured by native numbers, and tests over their entries.
use Prim.Native.Nat.{ℕ, suc, ◌+◌}
use mathlib.Core.Path.{◌≡◌, refl}
use mathlib.Core.Bool.{Bool, true, false, ◌&&◌, ◌||◌}
use mathlib.Core.List.{List, [], ◌∷◌, ◌++◌}
use mathlib.Core.Logic.{◌⊎◌, inl, inr}
use native.Mathlib.Omega.{arith}

module _ {ℓ} {A : Type ℓ} where
  abbrev pub length : List A → ℕ
  length [] = 0
  length (x ∷ xs) = suc (length xs)

  abbrev pub any : (A → Bool) → List A → Bool
  any p [] = false
  any p (x ∷ xs) = p x || any p xs

  abbrev pub all : (A → Bool) → List A → Bool
  all p [] = true
  all p (x ∷ xs) = p x && all p xs

  abbrev pub filterb : (A → Bool) → List A → List A
  filterb p [] = []
  filterb p (x ∷ xs) = let rest = filterb p xs in elim (p x) [ true ↦ x ∷ rest | false ↦ rest ]

  -- A predicate at every entry.
  abbrev pub Each {κ} : (A → Type κ) → List A → Type κ
  Each P [] = Unit
  Each P (x ∷ xs) = P x × Each P xs

  -- A predicate at one entry or more.
  abbrev pub Some : (A → Type 0) → List A → Type 0
  Some P [] = ⊥
  Some P (x ∷ xs) = P x ⊎ Some P xs

  pub Each-map : {P Q : A → Type 0} → ((x : A) → P x → Q x) → (l : List A) → Each P l → Each Q l
  Each-map f [] h = record {}
  Each-map f (x ∷ l) (p, h) = (f x p, Each-map f l h)

  pub Each-both : (P Q : A → Type 0) (l : List A) → Each P l → Each Q l → Each (λ x. P x × Q x) l
  Each-both P Q [] h k = record {}
  Each-both P Q (x ∷ l) (p, h) (q, k) = ((p, q), Each-both P Q l h k)

  pub Some-map : {P Q : A → Type 0} → ((x : A) → P x → Q x) → (l : List A) → Some P l → Some Q l
  Some-map f [] h = absurd h
  Some-map f (x ∷ l) (inl p) = inl (f x p)
  Some-map f (x ∷ l) (inr h) = inr (Some-map f l h)

  pub Some-Each : (P Q : A → Type 0) (l : List A) → Each P l → Some Q l → (x : A) × P x × Q x
  Some-Each P Q [] h k = absurd k
  Some-Each P Q (x ∷ l) (p, h) (inl q) = (x, p, q)
  Some-Each P Q (x ∷ l) (p, h) (inr k) = Some-Each P Q l h k

  pub length-append : (xs ys : List A) → length (xs ++ ys) ≡ length xs + length ys
  length-append [] ys = omega arith
  length-append (x ∷ xs) ys = omega (arith, length-append xs ys)

  pub any-append : (p : A → Bool) (xs ys : List A) → any p (xs ++ ys) ≡ (any p xs || any p ys)
  any-append p [] ys = refl
  any-append p (x ∷ xs) ys = ground (arith, any-append p xs ys)
