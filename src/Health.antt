-- ===== src/Health.antt =====
-- The health endpoint and the pings of routine.go: ServeHTTP, pingIPs and StartPingIPs.
pub mod Pings
pub mod Ready
pub mod Metrics
use wireproxy_homerun.Std.Duration.{int64}
use wireproxy_homerun.Std.Paths.{clean}
use wireproxy_homerun.Prelude.{
  ℤ, pos, negsuc, ltb, if◌then◌else◌, ℕ, zero, suc, ◌+◌, ◌-◌, ◌*◌, ◌%◌, ◌^◌, Bool, ◌||◌, Option,
  none, some, List, [], ◌∷◌, ◌++◌,
}
use wireproxy_homerun.Std.{Result, ok, err, Text, codes, text_eq, split_byte, cut}

-- map[string]uint64: the second of the last pong of each address that is pinged
abbrev pub PingRecord : Type 0
PingRecord = List (Text × ℕ)

pub record Response : Type 0 where
  pub status : ℕ
  pub body : Text

-- time.Duration(CheckAliveInterval+2) * time.Second, which wraps around in 64 bits
unfoldable pub patience : ℤ → ℤ
unfolding int64
patience (pos n) = int64 ((n + 2) * 1_000_000_000 % 2 ^ 64)
patience (negsuc zero) = pos 1_000_000_000
patience (negsuc (suc zero)) = pos 0
patience (negsuc (suc (suc n))) = int64 ((2 ^ 64 - suc n * 1_000_000_000 % 2 ^ 64) % 2 ^ 64)

-- time.Since(time.Unix(record, 0)) > patience, with `now` in nanoseconds; a record may lie ahead
unfoldable pub is_stale : ℕ → ℤ → ℕ → Bool
is_stale now (pos t) record_time = ltb (record_time * 1_000_000_000 + t) now
is_stale now (negsuc t) record_time = ltb (record_time * 1_000_000_000) (now + suc t)

-- the loop over the records, which ends at the first that is stale
unfoldable pub ready_status : ℕ → ℤ → PingRecord → ℕ
unfolding is_stale
ready_status now limit [] = 200
ready_status now limit ((addr, time) ∷ rest) =
    let others = ready_status now limit rest in if is_stale now limit time then 503 else others

-- One line of the device's answer.
redact_pair : Text → Option (Text × Text) → Text
redact_pair line none = line
redact_pair line (some (key, value)) =
    let shown =
      (if text_eq key (codes "private_key") || text_eq key (codes "preshared_key")
        then codes "REDACTED"
        else value) in
    key ++ (codes "=" ++ (shown ++ 10 ∷ []))

redact_lines : List Text → Text
unfolding redact_pair
redact_lines [] = []
redact_lines (line ∷ rest) = redact_pair line (cut b'=' line) ++ redact_lines rest

unfoldable pub redact : Text → Text
unfolding redact_lines
redact get = redact_lines (split_byte 10 get)

-- What the endpoint asks of the rest: the encoding of the record as JSON, and the device's IpcGet.
pub record Backends : Type 0 where
  pub marshal : PingRecord → Result Text
  pub ipc_get : Result Text

module _ (s : Backends) (interval : ℤ) where
  serve_ready : ℕ → PingRecord → Response
  unfolding patience ready_status
  serve_ready now records = elim (s.marshal records) [
    | err e ↦ record { status = 500; body = [] }
    | ok body ↦ record {
      status = ready_status now (patience interval) records;
      body = body ++ 10 ∷ [];
    }
  ]

  serve_metrics : Response
  unfolding redact
  serve_metrics = elim s.ipc_get [
    | err e ↦ record { status = 500; body = [] }
    | ok get ↦ record { status = 200; body = redact get }
  ]

  -- ServeHTTP, for the path of the request.
  unfoldable pub serve_http : Text → ℕ → PingRecord → Response
  unfolding serve_ready serve_metrics
  serve_http path now records =
      if text_eq (clean path) (codes "/readyz")
      then serve_ready now records
      else (if text_eq (clean path) (codes "/metrics")
          then serve_metrics
          else record { status = 404; body = [] })
