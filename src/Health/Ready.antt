-- ===== src/Health/Ready.antt =====
-- What /readyz says of the records.
-- No record is older than the interval and two seconds.
use wireproxy_homerun.Std.Duration.{int64}
use wireproxy_homerun.Health.{
  PingRecord, patience, is_stale, ready_status, Backends, serve_http, serve_ready,
}
use wireproxy_homerun.Prelude.{
  pos, Each, ℕ, ◌+◌, ◌*◌, ◌^◌, ◌≤◌, ◌<◌, ◌≡◌, ◌↔◌, [], ◌∷◌, ◌++◌, arith, ℤ, refl, ◌⊎◌, inl,
}
use wireproxy_homerun.Std.{ok, Text, codes, text_eq}
use wireproxy_homerun.Std.Paths.{clean}

abbrev pub IsFresh : ℕ → ℕ → Text × ℕ → Type 0
IsFresh now n (key, time) = now ≤ (time + n + 2) * 1_000_000_000

patience-pos :
    (n : ℕ) → (n + 2) * 1_000_000_000 < 2 ^ 63 → patience (pos n) ≡ pos ((n + 2) * 1_000_000_000)
unfolding patience int64
patience-pos n h = ground arith

ready_status-IsFresh :
    (now n : ℕ) (records : PingRecord)
    → (ready_status now (pos ((n + 2) * 1_000_000_000)) records ≡ 200)
      ↔ Each (IsFresh now n) records
unfolding ready_status is_stale
ready_status-IsFresh now n [] = ((λ e. record {}), (λ u. refl))
ready_status-IsFresh now n ((k, t) ∷ l) = ground (arith, ready_status-IsFresh now n l)

ready_status-two :
    (now : ℕ) (limit : ℤ) (records : PingRecord)
    → (ready_status now limit records ≡ 200) ⊎ (ready_status now limit records ≡ 503)
unfolding ready_status
ready_status-two now limit [] = inl refl
ready_status-two now limit ((k, t) ∷ l) = ground (arith, ready_status-two now limit l)

-- For a path that stands for /readyz, if the records can be encoded, the answer is 200 exactly if the last
-- pong of every address is at most the interval and two seconds old, else 503, and its body is the encoded
-- records and a newline; provided that the interval is not negative and fits the nanoseconds of a Duration.
pub serve_http-ready :
    (s : Backends) (n : ℕ) (path : Text) (now : ℕ) (records : PingRecord) (body : Text)
    → clean path ≡ codes "/readyz"
    → s.marshal records ≡ ok body
    → (n + 2) * 1_000_000_000 < 2 ^ 63
    → (((serve_http s (pos n) path now records).status ≡ 200) ↔ Each (IsFresh now n) records)
      × (((serve_http s (pos n) path now records).status ≡ 200)
          ⊎ ((serve_http s (pos n) path now records).status ≡ 503))
      × ((serve_http s (pos n) path now records).body ≡ body ++ 10 ∷ [])
unfolding serve_http serve_ready codes text_eq
serve_http-ready s n path now records body c m h =
    rw (c, serve_ready, m, patience-pos n h)
      (
        ready_status-IsFresh now n records,
        ready_status-two now (pos ((n + 2) * 1_000_000_000)) records,
        refl,
      )
