-- ===== src/Resolve/Families.antt =====
-- The sorting of the looked-up texts into the two families.
use wireproxy_homerun.Net.{Addr, no_addr, v4, v6, is4, is6}
use wireproxy_homerun.Prelude.{◌≡◌, sym, ap, ◌∙◌, true, List, [], ◌∷◌, arith}
use wireproxy_homerun.Resolve.{families, classify}
use wireproxy_homerun.Std.{Result, ok, err, Text}
use mathlib.Core.List.{Mem, mem-cons, mem-cons_self, mem-cons_of_mem, not-mem-nil, Mem-prop}
use mathlib.Core.Logic.{◌∨₁◌, ∥∥₁_map, ∥∥₁_prop}
use mathlib.Core.Logic.Or
use mathlib.Core.HLevel.{×_prop}
use mathlib.Core.Bool.{Bool-set}

-- `a` is what some looked-up text parses to.
abbrev pub Parsed : (Text → Result Addr) → List Text → Addr → Type 0
Parsed parse names a = ∥ ((s : Text) × Mem s names × (parse s ≡ ok a)) ∥₁

Parsed-here :
    {parse : Text → Result Addr} {names : List Text} {a : Addr} {s : Text}
    → parse s ≡ ok a
    → Parsed parse (s ∷ names) a
Parsed-here {s} e = ∣ (s, mem-cons_self, e) ∣₁

Parsed-there :
    {parse : Text → Result Addr} {names : List Text} {a : Addr} (s : Text)
    → Parsed parse names a
    → Parsed parse (s ∷ names) a
Parsed-there s p = ∥∥₁_map p λ (t, m, e). (t, mem-cons_of_mem s m, e)

-- An entry of either list is the new address, of that family, or was there.
mem-classify_v4 :
    (r : Result Addr) (p : List Addr × List Addr) (a : Addr)
    → Mem a (classify r p).0
    → ((r ≡ ok a) × (is4 a ≡ true)) ∨₁ Mem a p.0
unfolding classify
mem-classify_v4 (ok no_addr) p a m = Or.inr m
mem-classify_v4 (ok (v4 n)) p a m = Or.imp (λ e. (cc, cc)) (λ k. k) (mem-cons.0 m)
mem-classify_v4 (ok (v6 n z)) p a m = Or.inr m
mem-classify_v4 (err e) p a m = Or.inr m

mem-classify_v6 :
    (r : Result Addr) (p : List Addr × List Addr) (a : Addr)
    → Mem a (classify r p).1
    → ((r ≡ ok a) × (is6 a ≡ true)) ∨₁ Mem a p.1
unfolding classify
mem-classify_v6 (ok no_addr) p a m = Or.inr m
mem-classify_v6 (ok (v4 n)) p a m = Or.inr m
mem-classify_v6 (ok (v6 n z)) p a m = Or.imp (λ e. (cc, cc)) (λ k. k) (mem-cons.0 m)
mem-classify_v6 (err e) p a m = Or.inr m

-- What the lists hold was looked up, and belongs to the family.
pub families-v4 :
    (parse : Text → Result Addr) (names : List Text) (a : Addr)
    → Mem a (families parse names).0
    → Parsed parse names a × (is4 a ≡ true)
unfolding families
families-v4 parse [] a m = absurd (not-mem-nil m)
families-v4 parse (s ∷ names) a m =
    Or.elim (×_prop ∥∥₁_prop (Bool-set _ _)) (mem-classify_v4 (parse s) (families parse names) a m)
      (λ (e, k). (Parsed-here e, k))
      (λ k. let (q, t) = families-v4 parse names a k in (Parsed-there s q, t))

pub families-v6 :
    (parse : Text → Result Addr) (names : List Text) (a : Addr)
    → Mem a (families parse names).1
    → Parsed parse names a × (is6 a ≡ true)
unfolding families
families-v6 parse [] a m = absurd (not-mem-nil m)
families-v6 parse (s ∷ names) a m =
    Or.elim (×_prop ∥∥₁_prop (Bool-set _ _)) (mem-classify_v6 (parse s) (families parse names) a m)
      (λ (e, k). (Parsed-here e, k))
      (λ k. let (q, t) = families-v6 parse names a k in (Parsed-there s q, t))

-- The lists miss no address of their family.
classify-v4 :
    (r : Result Addr) (p : List Addr × List Addr) (a : Addr)
    → (r ≡ ok a) ∨₁ Mem a p.0
    → is4 a ≡ true
    → Mem a (classify r p).0
unfolding classify
classify-v4 (ok no_addr) p a m t = Or.elim Mem-prop m (λ e. absurd (ground arith)) (λ k. k)
classify-v4 (ok (v4 n)) p a m t = mem-cons.1 (Or.imp (λ e. cc) (λ k. k) m)
classify-v4 (ok (v6 n z)) p a m t = Or.elim Mem-prop m (λ e. absurd (ground arith)) (λ k. k)
classify-v4 (err e) p a m t = Or.elim Mem-prop m (λ q. absurd cc) (λ k. k)

classify-v6 :
    (r : Result Addr) (p : List Addr × List Addr) (a : Addr)
    → (r ≡ ok a) ∨₁ Mem a p.1
    → is6 a ≡ true
    → Mem a (classify r p).1
unfolding classify
classify-v6 (ok no_addr) p a m t = Or.elim Mem-prop m (λ e. absurd (ground arith)) (λ k. k)
classify-v6 (ok (v4 n)) p a m t = Or.elim Mem-prop m (λ e. absurd (ground arith)) (λ k. k)
classify-v6 (ok (v6 n z)) p a m t = mem-cons.1 (Or.imp (λ e. cc) (λ k. k) m)
classify-v6 (err e) p a m t = Or.elim Mem-prop m (λ q. absurd cc) (λ k. k)

pub mem-families_v4 :
    (parse : Text → Result Addr) (names : List Text) (s : Text) (a : Addr)
    → Mem s names
    → parse s ≡ ok a
    → is4 a ≡ true
    → Mem a (families parse names).0
unfolding families
mem-families_v4 parse [] s a m e t = absurd (not-mem-nil m)
mem-families_v4 parse (x ∷ names) s a m e t =
    classify-v4 (parse x) (families parse names) a
      (Or.imp (λ q. ap parse (sym q) ∙ e) (λ k. mem-families_v4 parse names s a k e t)
        (mem-cons.0 m))
      t

pub mem-families_v6 :
    (parse : Text → Result Addr) (names : List Text) (s : Text) (a : Addr)
    → Mem s names
    → parse s ≡ ok a
    → is6 a ≡ true
    → Mem a (families parse names).1
unfolding families
mem-families_v6 parse [] s a m e t = absurd (not-mem-nil m)
mem-families_v6 parse (x ∷ names) s a m e t =
    classify-v6 (parse x) (families parse names) a
      (Or.imp (λ q. ap parse (sym q) ∙ e) (λ k. mem-families_v6 parse names s a k e t)
        (mem-cons.0 m))
      t
