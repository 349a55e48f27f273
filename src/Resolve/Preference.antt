-- ===== src/Resolve/Preference.antt =====
-- Which address a name resolves to. The draws of `rand.Shuffle` are permutations.
use wireproxy_homerun.Net.{Addr, is4, is6, no_addr, v4, v6}
use wireproxy_homerun.Prelude.{
  ◌≡◌, refl, subst, ◌⊎◌, inl, inr, true, List, [], ◌∷◌, ◌++◌, Bool-cases, sym, ◌∙◌, Bool,
  if◌then◌else◌, ◌≢◌, false, arith,
}
use wireproxy_homerun.Resolve.{
  Resolver, families, ipv4, choose, first_addr, ipv6, by_strategy, lookup_addr,
  resolve_addr_with_context,
}
use wireproxy_homerun.Resolve.Families.{
  Parsed, families-v4, mem-families_v4, families-v6, mem-families_v6,
}
use wireproxy_homerun.Std.{
  ok, Text, codes, text_eq, Error, err, >>=-eq-ok, new_error, Result-cases, text_ne,
}
use mathlib.Core.List.{Mem, Perm, mem-cons_self, not-mem-nil}
use mathlib.Core.List.{mem-append_left, mem-append_right}
use mathlib.Core.List.Perm

pub record Shuffles (r : Resolver) : Type 0 where
  pub perm_v4 : (l : List Addr) → Perm (r.shuffle_v4 l) l
  pub perm_v6 : (l : List Addr) → Perm (r.shuffle_v6 l) l

-- The first address of the two families, one after the other.
first_of_families-mem :
    (name : Text) (x y : List Addr) (a : Addr)
    → first_addr name (x ++ y) ≡ ok a
    → (Mem a x) ⊎ ((x ≡ []) × Mem a y)
unfolding first_addr
first_of_families-mem name [] [] a h = cc
first_of_families-mem name [] (b ∷ y) a h =
    inr (refl, subst (λ c. Mem c (b ∷ y)) (cc) mem-cons_self)
first_of_families-mem name (b ∷ x) y a h = inl (subst (λ c. Mem c (b ∷ x)) (cc) mem-cons_self)

first_addr_total :
    (name : Text) (l : List Addr) (a : Addr) → Mem a l → (b : Addr) × (first_addr name l ≡ ok b)
unfolding first_addr
first_addr_total name [] a m = absurd (not-mem-nil m)
first_addr_total name (b ∷ l) a m = (b, refl)

module _ (r : Resolver) (s : Shuffles r) (name : Text) (names : List Text) where
  all_v4 : List Addr
  all_v4 = (families r.parse_addr names).0

  all_v6 : List Addr
  all_v6 = (families r.parse_addr names).1

  shuffled-v4 :
      (a : Addr) → Mem a (r.shuffle_v4 all_v4) → Parsed r.parse_addr names a × (is4 a ≡ true)
  unfolding all_v4
  shuffled-v4 a m = families-v4 r.parse_addr names a ((Perm.mem_iff (s.perm_v4 all_v4)).0 m)

  shuffled-v6 :
      (a : Addr) → Mem a (r.shuffle_v6 all_v6) → Parsed r.parse_addr names a × (is6 a ≡ true)
  unfolding all_v6
  shuffled-v6 a m = families-v6 r.parse_addr names a ((Perm.mem_iff (s.perm_v6 all_v6)).0 m)

  mem-shuffled_v4 :
      (t : Text) (b : Addr)
      → Mem t names
      → r.parse_addr t ≡ ok b
      → is4 b ≡ true
      → Mem b (r.shuffle_v4 all_v4)
  unfolding all_v4
  mem-shuffled_v4 t b m e k =
      (Perm.mem_iff (s.perm_v4 all_v4)).1 (mem-families_v4 r.parse_addr names t b m e k)

  mem-shuffled_v6 :
      (t : Text) (b : Addr)
      → Mem t names
      → r.parse_addr t ≡ ok b
      → is6 b ≡ true
      → Mem b (r.shuffle_v6 all_v6)
  unfolding all_v6
  mem-shuffled_v6 t b m e k =
      (Perm.mem_iff (s.perm_v6 all_v6)).1 (mem-families_v6 r.parse_addr names t b m e k)

  choose_lem :
      (strategy : Text)
      → choose r strategy name names
        ≡ first_addr name (by_strategy strategy (r.shuffle_v4 all_v4) (r.shuffle_v6 all_v6))
  unfolding choose all_v4 all_v6
  choose_lem strategy = refl

  from_v4_first :
      (a : Addr)
      → first_addr name (r.shuffle_v4 all_v4 ++ r.shuffle_v6 all_v6) ≡ ok a
      → Parsed r.parse_addr names a
  from_v4_first a h = elim (first_of_families-mem name _ _ a h) [
    | inl m ↦ (shuffled-v4 a m).0
    | inr (z, m) ↦ (shuffled-v6 a m).0
  ]

  from_v6_first :
      (a : Addr)
      → first_addr name (r.shuffle_v6 all_v6 ++ r.shuffle_v4 all_v4) ≡ ok a
      → Parsed r.parse_addr names a
  from_v6_first a h = elim (first_of_families-mem name _ _ a h) [
    | inl m ↦ (shuffled-v6 a m).0
    | inr (z, m) ↦ (shuffled-v4 a m).0
  ]

  choose-Parsed :
      (strategy : Text) (a : Addr)
      → choose r strategy name names ≡ ok a
      → Parsed r.parse_addr names a
  unfolding by_strategy first_addr
  choose-Parsed strategy a h = elim (Bool-cases (text_eq strategy ipv4)) [
    | inl e ↦ from_v4_first a (rw (e, by_strategy) at (sym (choose_lem strategy) ∙ h))
    | inr e ↦ elim (Bool-cases (text_eq strategy ipv6)) [
      | inl e' ↦ from_v6_first a (rw (e, e', by_strategy) at (sym (choose_lem strategy) ∙ h))
      | inr e' ↦ absurd (cc (e, e', choose_lem strategy, h))
    ]
  ]

  -- The chosen address is of the preferred family whenever one of that family was looked up.
  choose-ipv4 :
      (a : Addr) (t : Text) (b : Addr)
      → choose r ipv4 name names ≡ ok a
      → Mem t names
      → r.parse_addr t ≡ ok b
      → is4 b ≡ true
      → is4 a ≡ true
  unfolding by_strategy text_eq codes
  choose-ipv4 a t b h m e k = elim (first_of_families-mem name _ _ a (sym (choose_lem ipv4) ∙ h)) [
    | inl q ↦ (shuffled-v4 a q).1
    | inr (z, _) ↦ absurd (not-mem-nil (subst (Mem b) z (mem-shuffled_v4 t b m e k)))
  ]

  choose-ipv6 :
      (a : Addr) (t : Text) (b : Addr)
      → choose r ipv6 name names ≡ ok a
      → Mem t names
      → r.parse_addr t ≡ ok b
      → is6 b ≡ true
      → is6 a ≡ true
  unfolding by_strategy text_eq codes
  choose-ipv6 a t b h m e k = elim (first_of_families-mem name _ _ a (sym (choose_lem ipv6) ∙ h)) [
    | inl q ↦ (shuffled-v6 a q).1
    | inr (z, _) ↦ absurd (not-mem-nil (subst (Mem b) z (mem-shuffled_v6 t b m e k)))
  ]

  first_total :
      (x y : List Addr) (b : Addr)
      → (Mem b x) ⊎ (Mem b y)
      → (a : Addr) × (first_addr name (x ++ y) ≡ ok a)
  first_total x y b (inl m) = first_addr_total name (x ++ y) b (mem-append_left y m)
  first_total x y b (inr m) = first_addr_total name (x ++ y) b (mem-append_right x m)

  -- one of the two families holds the address
  in_family :
      (t : Text) (b : Addr)
      → Mem t names
      → r.parse_addr t ≡ ok b
      → b ≢ no_addr
      → Mem b (r.shuffle_v4 all_v4) ⊎ Mem b (r.shuffle_v6 all_v6)
  in_family t no_addr m e k = absurd (k refl)
  in_family t (v4 n) m e k = inl (mem-shuffled_v4 t (v4 n) m e refl)
  in_family t (v6 n z) m e k = inr (mem-shuffled_v6 t (v6 n z) m e refl)

  choose_total_ipv4 :
      (t : Text) (b : Addr)
      → Mem t names
      → r.parse_addr t ≡ ok b
      → b ≢ no_addr
      → (a : Addr) × (choose r ipv4 name names ≡ ok a)
  unfolding by_strategy text_eq codes
  choose_total_ipv4 t b m e k =
      let (a, q) =
        first_total (r.shuffle_v4 all_v4) (r.shuffle_v6 all_v6) b (in_family t b m e k) in
      (a, choose_lem ipv4 ∙ q)

  choose_total_ipv6 :
      (t : Text) (b : Addr)
      → Mem t names
      → r.parse_addr t ≡ ok b
      → b ≢ no_addr
      → (a : Addr) × (choose r ipv6 name names ≡ ok a)
  unfolding by_strategy text_eq codes
  choose_total_ipv6 t b m e k =
      let (a, q) =
        first_total (r.shuffle_v6 all_v6) (r.shuffle_v4 all_v4) b
          (elim (in_family t b m e k) [ inl x ↦ inr x | inr x ↦ inl x ]) in
      (a, choose_lem ipv6 ∙ q)

  choose_unknown :
      (strategy : Text)
      → text_eq strategy ipv4 ≡ false
      → text_eq strategy ipv6 ≡ false
      → choose r strategy name names ≡ first_addr name []
  unfolding by_strategy
  choose_unknown strategy e e' = choose_lem strategy ∙ rw (e, e', by_strategy)

module _ (r : Resolver) (s : Shuffles r) (system_dns : Bool) (name : Text) where
  -- What a name resolves to was looked up for it, on the system's resolver if the device has no
  -- DNS server and through the tunnel otherwise, and not made up.
  pub resolve-Parsed :
      (strategy : Text) (a : Addr)
      → resolve_addr_with_context r system_dns strategy name ≡ ok a
      → (names : List Text) × ((if system_dns then r.system_lookup name else r.tunnel_lookup name)
          ≡ ok names)
        × Parsed r.parse_addr names a
  unfolding resolve_addr_with_context lookup_addr
  resolve-Parsed strategy a h =
      let (names, l, c) = >>=-eq-ok (lookup_addr r system_dns name) (choose r strategy name) h in
      (names, l, choose-Parsed r s name names strategy a c)

  module _ (names : List Text)
      (found : (if system_dns then r.system_lookup name else r.tunnel_lookup name) ≡ ok names) where
    resolve_found :
        (strategy : Text)
        → resolve_addr_with_context r system_dns strategy name ≡ choose r strategy name names
    unfolding resolve_addr_with_context lookup_addr
    resolve_found strategy = rw (found, resolve_addr_with_context)

    -- With the strategy "ipv4", if an IPv4 address is among those looked up, the name resolves,
    -- and to an IPv4 address.
    pub resolve_ipv4 :
        (t : Text) (b : Addr)
        → Mem t names
        → r.parse_addr t ≡ ok b
        → is4 b ≡ true
        → (a : Addr) × (resolve_addr_with_context r system_dns ipv4 name ≡ ok a) × (is4 a ≡ true)
    resolve_ipv4 t b m e k =
        let (a, q) = choose_total_ipv4 r s name names t b m e (λ z. ground arith) in
        (a, resolve_found ipv4 ∙ q, choose-ipv4 r s name names a t b q m e k)

    -- With the strategy "ipv6", if an IPv6 address is among those looked up, the name resolves,
    -- and to an IPv6 address.
    resolve_ipv6 :
        (t : Text) (b : Addr)
        → Mem t names
        → r.parse_addr t ≡ ok b
        → is6 b ≡ true
        → (a : Addr) × (resolve_addr_with_context r system_dns ipv6 name ≡ ok a) × (is6 a ≡ true)
    resolve_ipv6 t b m e k =
        let (a, q) = choose_total_ipv6 r s name names t b m e (λ z. ground arith) in
        (a, resolve_found ipv6 ∙ q, choose-ipv6 r s name names a t b q m e k)

    -- With either strategy an address of the other family serves where there is none of the
    -- preferred one: one valid address among those looked up is enough to resolve.
    pub resolve_fallback :
        (strategy t : Text) (b : Addr)
        → (strategy ≡ ipv4) ⊎ (strategy ≡ ipv6)
        → Mem t names
        → r.parse_addr t ≡ ok b
        → b ≢ no_addr
        → (a : Addr) × (resolve_addr_with_context r system_dns strategy name ≡ ok a)
    resolve_fallback strategy t b (inl z) m e k =
        let (a, q) = choose_total_ipv4 r s name names t b m e k in
        (a, rw z (resolve_found ipv4 ∙ q))
    resolve_fallback strategy t b (inr z) m e k =
        let (a, q) = choose_total_ipv6 r s name names t b m e k in
        (a, rw z (resolve_found ipv6 ∙ q))

  -- With any other strategy no name resolves, whatever addresses the lookup returns.
  pub resolve_unknown_strategy :
      (strategy : Text)
      → strategy ≢ ipv4
      → strategy ≢ ipv6
      → (e : Error) × (resolve_addr_with_context r system_dns strategy name ≡ err e)
  unfolding resolve_addr_with_context first_addr
  resolve_unknown_strategy strategy n4 n6 = elim (Result-cases (lookup_addr r system_dns name)) [
    | inr (e, q) ↦ (e, rw (q, resolve_addr_with_context))
    | inl (names, q) ↦ (
      new_error (codes "no address found for: " ++ name),
      rw (q, resolve_addr_with_context)
          (choose_unknown r s name names strategy (text_ne strategy ipv4 n4)
            (text_ne strategy ipv6 n6)),
    )
  ]
