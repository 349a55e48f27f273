-- ===== src/Health/Pings/Last.antt =====
-- What the record holds after any pings: the last pong of each address.
use wireproxy_homerun.Health.Pings.Record.{
  some-injective, find, set_record-find, IsMap, set_record-IsMap, Each-find, find-Each,
}
use wireproxy_homerun.Health.Pings.Alive.{Each-Some}
use wireproxy_homerun.Health.Ready.{IsFresh, serve_http-ready}
use wireproxy_homerun.Std.Paths.{clean}
use wireproxy_homerun.Net.{Addr}
use wireproxy_homerun.Health.{PingRecord, Backends, serve_http}
use wireproxy_homerun.Health.Pings.{
  set_record, Body, ping, stores, Ended, start_ping_ips, after_pings,
}
use wireproxy_homerun.Prelude.{
  Each, if◌then◌else◌, Bool-cases, ℕ, ◌≡◌, refl, sym, subst, ◌∙◌, inl, inr, none, some, [], ◌∷◌,
  arith, any, Each-map, ◌&&◌, List, pos, Some, Some-map, ◌+◌, ◌*◌, ◌^◌, ◌≤◌, ◌<◌, ap, ◌↔◌, true,
  Some-Each,
}
use wireproxy_homerun.Std.{Text, text_eq, text_eq_iff, Result, ok, codes}

module _ (show_addr : Addr → Text) (parse : Text → Result Body) where
  -- The second of the last pong of an address, or `t`.
  abbrev pub last_pong : Text → ℕ → List Ended → ℕ
  last_pong key t [] = t
  last_pong key t (p ∷ pings) =
      last_pong key
        (if stores (ping parse p.addr p.attempt) && text_eq key (show_addr p.addr)
          then p.second
          else t)
        pings

  abbrev IsKey : PingRecord → Text → Type 0
  IsKey m key = (t : ℕ) × (find key m ≡ some t)

  start-find :
      (key : Text) (l : List Addr) (m : PingRecord)
      → find key (start_ping_ips show_addr l m)
        ≡ (if any (λ a. text_eq key (show_addr a)) l then some 0 else find key m)
  unfolding start_ping_ips
  start-find key [] m = refl
  start-find key (a ∷ l) m =
      start-find key l _ ∙ ground (arith, set_record-find key (show_addr a) 0 m)

  start-IsMap : (l : List Addr) (m : PingRecord) → IsMap m → IsMap (start_ping_ips show_addr l m)
  unfolding start_ping_ips
  start-IsMap [] m h = h
  start-IsMap (a ∷ l) m h = start-IsMap l _ (set_record-IsMap (show_addr a) 0 m h)

  stored : Ended → PingRecord → PingRecord
  stored p m =
      if stores (ping parse p.addr p.attempt) then set_record (show_addr p.addr) p.second m else m

  stored-find :
      (key : Text) (p : Ended) (m : PingRecord) (t : ℕ)
      → find key m ≡ some t
      → find key (stored p m)
        ≡ some (
            if stores (ping parse p.addr p.attempt) && text_eq key (show_addr p.addr)
            then p.second
            else t)
  unfolding stored
  stored-find key p m t h = elim (Bool-cases (stores (ping parse p.addr p.attempt))) [
    | inl e ↦ rw e (set_record-find key (show_addr p.addr) p.second m ∙ ground (arith, h))
    | inr e ↦ rw e h
  ]

  stored-none :
      (key : Text) (p : Ended) (m : PingRecord)
      → IsKey m (show_addr p.addr)
      → find key m ≡ none
      → find key (stored p m) ≡ none
  unfolding stored
  stored-none key p m (t, k) h = elim (Bool-cases (stores (ping parse p.addr p.attempt))) [
    | inl e ↦ rw e (
        set_record-find key (show_addr p.addr) p.second m
        ∙ ground (arith, text_eq_iff key (show_addr p.addr), k, h))
    | inr e ↦ rw e h
  ]

  after-find :
      (key : Text) (pings : List Ended) (m : PingRecord) (t : ℕ)
      → find key m ≡ some t
      → find key (after_pings show_addr parse pings m) ≡ some (last_pong key t pings)
  unfolding after_pings stored
  after-find key [] m t h = h
  after-find key (p ∷ pings) m t h = after-find key pings (stored p m) _ (stored-find key p m t h)

  after-none :
      (key : Text) (pings : List Ended) (m : PingRecord)
      → Each (λ p. IsKey m (show_addr p.addr)) pings
      → find key m ≡ none
      → find key (after_pings show_addr parse pings m) ≡ none
  unfolding after_pings stored
  after-none key [] m k h = h
  after-none key (p ∷ pings) m (k, ks) h =
      after-none key pings (stored p m)
        (Each-map (λ q (t, e). (_, stored-find (show_addr q.addr) p m t e)) pings ks)
        (stored-none key p m k h)

  after-IsMap :
      (pings : List Ended) (m : PingRecord) → IsMap m → IsMap (after_pings show_addr parse pings m)
  unfolding after_pings
  after-IsMap [] m h = h
  after-IsMap (p ∷ pings) m h = elim (Bool-cases (stores (ping parse p.addr p.attempt))) [
    | inl e ↦
        rw (e, after_pings) (after-IsMap pings _ (set_record-IsMap (show_addr p.addr) p.second m h))
    | inr e ↦ rw (e, after_pings) (after-IsMap pings m h)
  ]

  -- The texts of the addresses.
  abbrev pub Shown : List Addr → Text → Type 0
  Shown alive key = Some (λ a. show_addr a ≡ key) alive

  Shown-any :
      (key : Text) (l : List Addr) → Shown l key → any (λ a. text_eq key (show_addr a)) l ≡ true
  Shown-any key [] h = absurd h
  Shown-any key (a ∷ l) (inl e) = rw ((text_eq_iff key (show_addr a)).1 (sym e)) refl
  Shown-any key (a ∷ l) (inr h) = rw (Shown-any key l h) (ground arith)

  any-Shown :
      (key : Text) (l : List Addr) → any (λ a. text_eq key (show_addr a)) l ≡ true → Shown l key
  any-Shown key [] h = absurd (ground arith)
  any-Shown key (a ∷ l) h = elim (Bool-cases (text_eq key (show_addr a))) [
    | inl e ↦ inl (sym ((text_eq_iff key (show_addr a)).0 e))
    | inr e ↦ inr (any-Shown key l (ground arith))
  ]

  start-Shown :
      (alive : List Addr) (key : Text)
      → Shown alive key
      → find key (start_ping_ips show_addr alive []) ≡ some 0
  start-Shown alive key h = rw (start-find key alive [], Shown-any key alive h) refl

  module _ (alive : List Addr) (pings : List Ended)
      (known : Each (λ p. Shown alive (show_addr p.addr)) pings) where
    final-find :
        (key : Text)
        → Shown alive key
        → find key (after_pings show_addr parse pings (start_ping_ips show_addr alive []))
          ≡ some (last_pong key 0 pings)
    final-find key h = after-find key pings _ 0 (start-Shown alive key h)

    final-Shown :
        (key : Text) (t : ℕ)
        → find key (after_pings show_addr parse pings (start_ping_ips show_addr alive [])) ≡ some t
        → Shown alive key
    unfolding find
    final-Shown key t h = elim (Bool-cases (any (λ a. text_eq key (show_addr a)) alive)) [
      | inl e ↦ any-Shown key alive e
      | inr e ↦
          let n : find key (start_ping_ips show_addr alive []) ≡ none =
            rw (start-find key alive [], e) refl in
          let m =
            after-none key pings (start_ping_ips show_addr alive [])
              (Each-map (λ p k. (0, start-Shown alive (show_addr p.addr) k)) pings known) n in
          absurd (ground (arith, m, h))
    ]

    final-IsFresh :
        (n now : ℕ) (key : Text) (t : ℕ)
        → Each (λ a. now ≤ (last_pong (show_addr a) 0 pings + n + 2) * 1_000_000_000) alive
        → find key (after_pings show_addr parse pings (start_ping_ips show_addr alive [])) ≡ some t
        → IsFresh now n (key, t)
    final-IsFresh n now key t g e =
        let (a, p, q) = Some-Each _ _ alive g (final-Shown key t e) in
        let f : some (last_pong key 0 pings) ≡ some t =
          sym (final-find key (final-Shown key t e)) ∙ e in
        subst (λ x. IsFresh now n (key, x)) (some-injective f)
          (subst (λ x. now ≤ (last_pong x 0 pings + n + 2) * 1_000_000_000) q p)

    -- With pings of the addresses to be checked only, that ended in any order, /readyz answers 200 exactly
    -- if the last reply that was accepted from each of them came at most the interval and two seconds ago;
    -- an address without one counts as answered in 1970.
    pub serve_http-last_pong :
        (s : Backends) (n : ℕ) (path : Text) (now : ℕ) (body : Text)
        → clean path ≡ codes "/readyz"
        → s.marshal (after_pings show_addr parse pings (start_ping_ips show_addr alive []))
          ≡ ok body
        → (n + 2) * 1_000_000_000 < 2 ^ 63
        → ((serve_http s
              (pos n)
              path
              now
              (after_pings show_addr parse pings (start_ping_ips show_addr alive []))).status
            ≡ 200)
          ↔ Each (λ a. now ≤ (last_pong (show_addr a) 0 pings + n + 2) * 1_000_000_000) alive
    serve_http-last_pong s n path now body c m h =
        let (to, from) = (serve_http-ready s n path now _ body c m h).0 in
        (
          λ e.
              Each-map
                (λ a k.
                  Each-find (IsFresh now n) _ (show_addr a) (last_pong (show_addr a) 0 pings) (to e)
                    (final-find (show_addr a) k))
                alive
                (Each-map (λ a k. Some-map (λ b q. ap show_addr q) alive k) alive
                  (Each-Some alive)),
          λ g. from (
              find-Each (IsFresh now n) _ (after-IsMap pings _ (start-IsMap alive [] (record {})))
                (λ key t e. final-IsFresh n now key t g e)),
        )
