-- ===== src/Health/Pings/Record.antt =====
-- The record of the pings as a map from addresses to seconds.
use wireproxy_homerun.Health.{PingRecord}
use wireproxy_homerun.Health.Pings.{set_record}
use wireproxy_homerun.Prelude.{
  Each, if◌then◌else◌, Bool-cases, ℕ, ◌≡◌, refl, sym, subst, ◌∙◌, inl, inr, Option, none, some, [],
  ◌∷◌, arith,
}
use wireproxy_homerun.Std.{Text, text_eq, text_eq_iff, text_eq_refl}

pub some-injective : {x y : ℕ} → some x ≡ some y → x ≡ y
some-injective e = cc

unfoldable pub find : Text → PingRecord → Option ℕ
find key [] = none
find key ((k, t) ∷ rest) = let other = find key rest in if text_eq key k then some t else other

pub set_record-find :
    (other key : Text) (second : ℕ) (m : PingRecord)
    → find other (set_record key second m)
      ≡ (if text_eq other key then some second else find other m)
unfolding find set_record
set_record-find other key second [] = ground arith
set_record-find other key second ((k, t) ∷ m) = elim (Bool-cases (text_eq key k)) [
  | inl e ↦ rw (e, sym ((text_eq_iff key k).0 e)) (ground arith)
  | inr e ↦ elim (Bool-cases (text_eq other k)) [
    | inl f ↦
        rw (e, f, find)
          (ground (arith, text_eq_iff other k, text_eq_iff other key, text_eq_iff key k))
    | inr f ↦ rw (e, find, f) (set_record-find other key second m)
  ]
]

-- No key twice.
abbrev pub IsMap : PingRecord → Type 0
IsMap [] = Unit {0}
IsMap ((k, t) ∷ m) = (find k m ≡ none) × IsMap m

pub set_record-IsMap :
    (key : Text) (second : ℕ) (m : PingRecord) → IsMap m → IsMap (set_record key second m)
unfolding set_record find
set_record-IsMap key second [] h = (refl, h)
set_record-IsMap key second ((k, t) ∷ m) (n, h) = elim (Bool-cases (text_eq key k)) [
  | inl e ↦ rw e (rw ((text_eq_iff key k).0 e) n, h)
  | inr e ↦ rw e (
    set_record-find k key second m
        ∙ ground (arith, text_eq_iff k key, text_eq_iff key k, text_eq_refl k),
    set_record-IsMap key second m h,
  )
]

pub Each-find :
    (P : Text × ℕ → Type 0) (m : PingRecord) (key : Text) (t : ℕ)
    → Each P m
    → find key m ≡ some t
    → P (key, t)
unfolding find
Each-find P [] key t h e = absurd (ground arith)
Each-find P ((k, s) ∷ m) key t (p, h) e = elim (Bool-cases (text_eq key k)) [
  | inl f ↦ subst P (ground (arith, text_eq_iff key k)) p
  | inr f ↦ Each-find P m key t h (ground arith)
]

pub find-Each :
    (P : Text × ℕ → Type 0) (m : PingRecord)
    → IsMap m
    → ((key : Text) (t : ℕ) → find key m ≡ some t → P (key, t))
    → Each P m
unfolding find
find-Each P [] h g = record {}
find-Each P ((k, s) ∷ m) (n, h) g = (
  g k s (ground (arith, text_eq_refl k)),
  find-Each P m h (λ key t e. g key t (ground (arith, text_eq_iff key k))),
)
