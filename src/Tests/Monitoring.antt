-- ===== src/Tests/Monitoring.antt =====
-- The health endpoint and the pings at concrete inputs.
use wireproxy_homerun.Std.Duration.{int64}
use wireproxy_homerun.Health.Pings.Last.{last_pong, serve_http-last_pong}
use wireproxy_homerun.Health.{patience, is_stale, ready_status, Backends, serve_http}
use wireproxy_homerun.Health.Metrics.{hide, serve_http-metrics}
use wireproxy_homerun.Health.Pings.{
  Echo, Body, echo_body, raw_body, matches, check_reply, Attempt, ping, set_record, stores, Ended,
  start_ping_ips, after_pings,
}
use wireproxy_homerun.Health.Pings.Alive.{IsPong, serve_http-IsPong}
use wireproxy_homerun.Health.Pings.Replies.{IsRawEcho, check_reply_v6, ping-closes, closes}
use wireproxy_homerun.Net.{Addr, no_addr, v4, v6}
use wireproxy_homerun.Prelude.{
  pos, Each, Some, ◌==◌, if◌then◌else◌, ℕ, ◌+◌, ◌*◌, ◌≤◌, ◌≡◌, refl, ◌↔◌, List, [], ◌∷◌, map, arith,
  inl, inr,
}
use wireproxy_homerun.Std.{Result, ok, err, Text, codes, text_eq, split_byte}
use wireproxy_homerun.Std.Paths.{clean}
use wireproxy_homerun.Tests.Fixtures.{missing_error}
use wireproxy_homerun.Wireguard.Request.{printed}

abbrev router_addr : Addr
router_addr = v4 1

abbrev far_addr : Addr
far_addr = v6 9 []

abbrev alive : List Addr
alive = router_addr ∷ far_addr ∷ []

abbrev show_addr : Addr → Text
show_addr no_addr = []
show_addr (v4 n) = codes "10.0.0.1"
show_addr (v6 n zone) = codes "fd00::9"

abbrev request : Echo
request = record { seq = 258; payload = 7 ∷ 8 ∷ [] }

-- The first byte tells the two protocols apart.
abbrev parse_message : Text → Result Body
parse_message [] = err missing_error
parse_message (c ∷ rest) = if c == 0 then ok (echo_body request) else ok (raw_body rest)

abbrev near_attempt : Attempt
near_attempt = record {
  dial = ok (record {});
  request = request;
  write = ok (record {});
  read = ok (0 ∷ []);
}

abbrev far_attempt : Attempt
far_attempt = record near_attempt { read = ok (129 ∷ 0 ∷ 0 ∷ 1 ∷ 2 ∷ 7 ∷ 8 ∷ []) }

abbrev pings : List Ended
pings =
    record { addr = far_addr; attempt = far_attempt; second = 1_000 }
    ∷ record { addr = router_addr; attempt = near_attempt; second = 1_001 }
    ∷ []

abbrev keys : List (Text × Text)
keys = (codes "private_key", codes "aa") ∷ (codes "errno", codes "0") ∷ []

abbrev backends : Backends
backends = record { marshal = λ records. ok (codes "{}"); ipc_get = ok (printed keys) }

serve_http-metrics_example :
    serve_http backends (pos 5) (codes "/metrics/") 0 []
    ≡ record { status = 200; body = printed (map hide keys) }
unfolding codes clean split_byte text_eq
serve_http-metrics_example =
    serve_http-metrics backends (pos 5) (codes "/metrics/") 0 [] keys refl refl
      ((refl, refl, refl), ((refl, refl, refl), record {}))

serve_http-IsPong_example :
    Each
      (λ a.
        Some
          (λ p.
            (show_addr p.addr ≡ show_addr a)
            × IsPong parse_message p.addr p.attempt
            × (1_004_000_000_000 ≤ (p.second + 5 + 2) * 1_000_000_000))
          pings)
      alive
unfolding codes clean serve_http split_byte ready_status is_stale patience int64 start_ping_ips
    after_pings ping set_record text_eq check_reply
serve_http-IsPong_example =
    serve_http-IsPong show_addr parse_message backends 5 (codes "/readyz") 1_004_000_000_000 alive
      pings (codes "{}") refl refl (omega arith) (omega arith) refl

check_reply_v6_example :
    (check_reply far_addr request (raw_body (0 ∷ 0 ∷ 1 ∷ 2 ∷ 7 ∷ 8 ∷ [])) ≡ matches) ↔ (
      (bytes : List ℕ) × (raw_body (0 ∷ 0 ∷ 1 ∷ 2 ∷ 7 ∷ 8 ∷ []) ≡ raw_body bytes)
      × IsRawEcho request bytes)
check_reply_v6_example = check_reply_v6 9 [] request (raw_body (0 ∷ 0 ∷ 1 ∷ 2 ∷ 7 ∷ 8 ∷ []))

ping-closes_example :
    closes (ping parse_message router_addr near_attempt)
    ≡ stores (ping parse_message router_addr near_attempt)
ping-closes_example = ping-closes parse_message router_addr near_attempt

serve_http-last_pong_example :
    ((serve_http backends
        (pos 5)
        (codes "/readyz")
        1_004_000_000_000
        (after_pings show_addr parse_message pings (start_ping_ips show_addr alive []))).status
      ≡ 200)
    ↔ Each
        (λ a.
          1_004_000_000_000
          ≤ (last_pong show_addr parse_message (show_addr a) 0 pings + 5 + 2) * 1_000_000_000)
        alive
unfolding codes clean split_byte text_eq
serve_http-last_pong_example =
    serve_http-last_pong show_addr parse_message alive pings (inr (inl refl), (inl refl, record {}))
      backends 5 (codes "/readyz") 1_004_000_000_000 (codes "{}") refl refl (omega arith)
