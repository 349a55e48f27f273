-- ===== src/Health/Pings/Alive.antt =====
-- Which addresses answered, as /readyz sees it.
-- A reply that pingIPs accepts: to an IPv4 address the echo with the request's number and data, to an
-- IPv6 address a body of two bytes, the number in two bytes and the data.
use wireproxy_homerun.Health.Ready.{IsFresh, serve_http-ready}
use wireproxy_homerun.Std.Paths.{clean}
use wireproxy_homerun.Health.{PingRecord, Backends, serve_http}
use wireproxy_homerun.Health.Pings.{
  Body, matches, check_reply, Attempt, ping, set_record, stores, send, await_reply, is_valid_addr,
  Ended, start_ping_ips, after_pings,
}
use wireproxy_homerun.Net.{Addr}
use wireproxy_homerun.Prelude.{
  any, Each, Bool-cases, ℕ, ◌≡◌, sym, subst, inl, inr, true, [], ◌∷◌, arith, Some, Each-map,
  Some-map, refl, ◌⊎◌, List, pos, ◌+◌, ◌*◌, ◌^◌, ◌≤◌, ◌<◌, Each-both,
}
use wireproxy_homerun.Std.{
  Result, ok, Text, text_eq, text_eq_iff, text_eq_refl, Result-cases, codes,
}

abbrev pub IsPong : (Text → Result Body) → Addr → Attempt → Type 0
IsPong parse addr a =
    (bytes : Text) × (body : Body) × (a.read ≡ ok bytes)
    × (parse bytes ≡ ok body)
    × (check_reply addr a.request body ≡ matches)
    × (is_valid_addr addr ≡ true)

-- What stores a second in the record.
ping-IsPong :
    (parse : Text → Result Body) (addr : Addr) (a : Attempt)
    → stores (ping parse addr a) ≡ true
    → IsPong parse addr a
unfolding ping send await_reply
ping-IsPong parse addr a h = elim (Result-cases a.read) [
  | inr (e, r) ↦ absurd (ground arith)
  | inl (bytes, r) ↦ elim (Result-cases (parse bytes)) [
    | inr (e, q) ↦ absurd (ground arith)
    | inl (body, q) ↦ (bytes, body, r, q, ground arith, ground arith)
  ]
]

HasKey : Text → PingRecord → Type 0
HasKey key m = any (λ r. text_eq key r.0) m ≡ true

set_record-HasKey_self :
    (key : Text) (second : ℕ) (m : PingRecord) → HasKey key (set_record key second m)
unfolding HasKey set_record
set_record-HasKey_self key second [] = ground (arith, text_eq_refl key)
set_record-HasKey_self key second ((k, t) ∷ m) =
    ground (arith, text_eq_refl key, set_record-HasKey_self key second m)

set_record-HasKey :
    (other key : Text) (second : ℕ) (m : PingRecord)
    → HasKey other m
    → HasKey other (set_record key second m)
unfolding HasKey set_record
set_record-HasKey other key second [] h = absurd (ground arith)
set_record-HasKey other key second ((k, t) ∷ m) h = elim (Bool-cases (text_eq key k)) [
  | inl e ↦ rw (e, (text_eq_iff key k).0 e) h
  | inr e ↦ elim (Bool-cases (text_eq other k)) [
    | inl f ↦ ground arith
    | inr f ↦ ground (arith, set_record-HasKey other key second m)
  ]
]

set_record-Each :
    (P : Text × ℕ → Type 0) (key : Text) (second : ℕ) (m : PingRecord)
    → P (key, second)
    → Each P m
    → Each P (set_record key second m)
unfolding set_record
set_record-Each P key second [] p h = (p, record {})
set_record-Each P key second ((k, t) ∷ m) p (q, h) = elim (Bool-cases (text_eq key k)) [
  | inl e ↦ rw e (p, h)
  | inr e ↦ rw e (q, set_record-Each P key second m p h)
]

Each-HasKey :
    (P : Text × ℕ → Type 0) (key : Text) (m : PingRecord)
    → Each P m
    → HasKey key m
    → (t : ℕ) × P (key, t)
unfolding HasKey
Each-HasKey P key [] u h = absurd (ground arith)
Each-HasKey P key ((k, t) ∷ m) (p, ps) h = elim (Bool-cases (text_eq key k)) [
  | inl e ↦ (t, subst (λ x. P (x, t)) (sym ((text_eq_iff key k).0 e)) p)
  | inr e ↦ Each-HasKey P key m ps (ground arith)
]

pub Each-Some : {A : Type 0} (l : List A) → Each (λ x. Some (λ y. y ≡ x) l) l
Each-Some [] = record {}
Each-Some (x ∷ l) = (inl refl, Each-map (λ y h. inr h) l (Each-Some l))

module _ (show_addr : Addr → Text) where
  start-HasKey :
      (key : Text) (l : List Addr) (m : PingRecord)
      → HasKey key m
      → HasKey key (start_ping_ips show_addr l m)
  unfolding start_ping_ips
  start-HasKey key [] m h = h
  start-HasKey key (a ∷ l) m h = start-HasKey key l _ (set_record-HasKey key (show_addr a) 0 m h)

  start-Each :
      (l : List Addr) (m : PingRecord)
      → Each (λ a. HasKey (show_addr a) (start_ping_ips show_addr l m)) l
  unfolding start_ping_ips
  start-Each [] m = record {}
  start-Each (a ∷ l) m =
      (start-HasKey (show_addr a) l _ (set_record-HasKey_self (show_addr a) 0 m), start-Each l _)

  start-zero :
      (l : List Addr) (m : PingRecord)
      → Each (λ r. r.1 ≡ 0) m
      → Each (λ r. r.1 ≡ 0) (start_ping_ips show_addr l m)
  unfolding start_ping_ips
  start-zero [] m h = h
  start-zero (a ∷ l) m h = start-zero l _ (set_record-Each (λ r. r.1 ≡ 0) (show_addr a) 0 m refl h)

  module _ (parse : Text → Result Body) where
    after_pings-HasKey :
        (key : Text) (l : List Ended) (m : PingRecord)
        → HasKey key m
        → HasKey key (after_pings show_addr parse l m)
    unfolding after_pings
    after_pings-HasKey key [] m h = h
    after_pings-HasKey key (p ∷ l) m h = elim (Bool-cases (stores (ping parse p.addr p.attempt))) [
      | inl e ↦
          rw (e, after_pings)
            (after_pings-HasKey key l _ (set_record-HasKey key (show_addr p.addr) p.second m h))
      | inr e ↦ rw (e, after_pings) (after_pings-HasKey key l m h)
    ]

    after_pings-Each :
        (P : Text × ℕ → Type 0) (l : List Ended) (m : PingRecord)
        → Each (λ p. IsPong parse p.addr p.attempt → P (show_addr p.addr, p.second)) l
        → Each P m
        → Each P (after_pings show_addr parse l m)
    unfolding after_pings
    after_pings-Each P [] m g h = h
    after_pings-Each P (p ∷ l) m (g, gs) h =
        elim (Bool-cases (stores (ping parse p.addr p.attempt))) [
          | inl e ↦
              rw (e, after_pings)
                (after_pings-Each P l _ gs (
                  set_record-Each P (show_addr p.addr) p.second m
                    (g (ping-IsPong parse p.addr p.attempt e)) h))
          | inr e ↦ rw (e, after_pings) (after_pings-Each P l m gs h)
        ]

    -- A pong of this address at this second.
    abbrev pub IsPongOf : Text → ℕ → Ended → Type 0
    IsPongOf key second p =
        (show_addr p.addr ≡ key) × (p.second ≡ second) × IsPong parse p.addr p.attempt

    after_pings-source :
        (alive : List Addr) (pings : List Ended)
        → Each
            (λ r. (r.1 ≡ 0) ⊎ Some (IsPongOf r.0 r.1) pings)
            (after_pings show_addr parse pings (start_ping_ips show_addr alive []))
    after_pings-source alive pings =
        after_pings-Each (λ r. (r.1 ≡ 0) ⊎ Some (IsPongOf r.0 r.1) pings) pings _
          (Each-map
            (λ p s g. inr (
              Some-map
                (λ q e. subst (λ x. IsPongOf (show_addr p.addr) p.second x) (sym e) (refl, refl, g))
                pings s))
            pings (Each-Some pings))
          (Each-map (λ r h. inl h) _ (start-zero alive [] (record {})))

    IsFresh-IsPong :
        (n now : ℕ) (pings : List Ended) (key : Text)
        → (n + 2) * 1_000_000_000 < now
        → (t : ℕ) × (IsFresh now n (key, t) × ((t ≡ 0) ⊎ Some (IsPongOf key t) pings))
        → Some
            (λ p.
              (show_addr p.addr ≡ key)
              × IsPong parse p.addr p.attempt
              × (now ≤ (p.second + n + 2) * 1_000_000_000))
            pings
    IsFresh-IsPong n now pings key w (t, (f, inl e)) = absurd (omega arith)
    IsFresh-IsPong n now pings key w (t, (f, inr s)) =
        Some-map (λ p (a, b, c). (a, c, rw b f)) pings s

    -- If /readyz answers 200, at a moment later than two seconds past the interval since 1970, then every
    -- address to be checked has a ping with a reply that was accepted, which ended at most the interval and
    -- two seconds ago; the pings may have ended in any order.
    pub serve_http-IsPong :
        (s : Backends) (n : ℕ) (path : Text) (now : ℕ) (alive : List Addr) (pings : List Ended)
        (body : Text)
        → let records = after_pings show_addr parse pings (start_ping_ips show_addr alive []) in
          clean path ≡ codes "/readyz"
          → s.marshal records ≡ ok body
          → (n + 2) * 1_000_000_000 < 2 ^ 63
          → (n + 2) * 1_000_000_000 < now
          → (serve_http s (pos n) path now records).status ≡ 200
          → Each
              (λ a.
                Some
                  (λ p.
                    (show_addr p.addr ≡ show_addr a)
                    × IsPong parse p.addr p.attempt
                    × (now ≤ (p.second + n + 2) * 1_000_000_000))
                  pings)
              alive
    serve_http-IsPong s n path now alive pings body c m h w q =
        let records : PingRecord =
          after_pings show_addr parse pings (start_ping_ips show_addr alive []) in
        let fresh = (serve_http-ready s n path now records body c m h).0.0 q in
        let known =
          Each-both (IsFresh now n) (λ r. (r.1 ≡ 0) ⊎ Some (IsPongOf r.0 r.1) pings) records fresh
            (after_pings-source alive pings) in
        Each-map
          (λ a k. IsFresh-IsPong n now pings (show_addr a) w (
            Each-HasKey (λ r. IsFresh now n r × ((r.1 ≡ 0) ⊎ Some (IsPongOf r.0 r.1) pings))
              (show_addr a) records known (after_pings-HasKey (show_addr a) pings _ k)))
          alive (start-Each alive [])
