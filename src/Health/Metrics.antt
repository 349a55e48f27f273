-- ===== src/Health/Metrics.antt =====
-- What /metrics shows of the device's answer.
use wireproxy_homerun.Std.Paths.{clean}
use wireproxy_homerun.Health.{
  PingRecord, redact, Backends, serve_http, redact_lines, redact_pair, serve_metrics,
}
use wireproxy_homerun.Prelude.{
  ℤ, Each, if◌then◌else◌, Bool-cases, ℕ, ◌≡◌, refl, inl, inr, ◌||◌, some, List, [], ◌∷◌, map, sym,
  ◌++◌, ap,
}
use wireproxy_homerun.Std.{ok, Text, codes, text_eq, split_byte, cut, cut-append}
use wireproxy_homerun.Wireguard.{field}
use wireproxy_homerun.Wireguard.Request.{IsSetting, printed, split-printed}
use mathlib.Core.List.{append_assoc}
use mathlib.Core.Path.{ap₂}

-- A setting as the endpoint may show it.
abbrev pub hide : Text × Text → Text × Text
hide (key, value) =
    if text_eq key (codes "private_key") || text_eq key (codes "preshared_key")
    then (key, codes "REDACTED")
    else (key, value)

redact_pair-field :
    (line key value : Text)
    → redact_pair line (some (key, value)) ≡ field (hide (key, value)).0 (hide (key, value)).1
unfolding redact_pair field codes
redact_pair-field line key value =
    elim (Bool-cases (text_eq key (codes "private_key") || text_eq key (codes "preshared_key"))) [
      | inl e ↦ rw e (sym (append_assoc key (codes "=" ++ codes "REDACTED") (10 ∷ [])))
      | inr e ↦ rw e (sym (append_assoc key (codes "=" ++ value) (10 ∷ [])))
    ]

redact_lines-printed :
    (l : List (Text × Text))
    → Each IsSetting l
    → redact_lines (split_byte 10 (printed l)) ≡ printed (map hide l)
unfolding redact_lines printed split_byte redact_pair cut
redact_lines-printed [] h = refl
redact_lines-printed ((k, v) ∷ l) ((q, a, b), r) =
    rw (split-printed k v l (q, a, b), redact_lines)
      (rw (cut-append b'=' k v q)
        (ap₂ ◌++◌ (redact_pair-field (k ++ b'=' ∷ v) k v) (redact_lines-printed l r)))

-- An answer of lines with a key and a value each is shown with all its lines in their order, and the
-- values of private_key and preshared_key, and only these, replaced; so no key of the device is shown,
-- and the response is the same whatever those keys are.
pub serve_http-metrics :
    (s : Backends) (interval : ℤ) (path : Text) (now : ℕ) (records : PingRecord)
    (l : List (Text × Text))
    → clean path ≡ codes "/metrics"
    → s.ipc_get ≡ ok (printed l)
    → Each IsSetting l
    → serve_http s interval path now records ≡ record { status = 200; body = printed (map hide l) }
unfolding serve_http serve_metrics redact codes text_eq
serve_http-metrics s interval path now records l c g h =
    rw (c, g, serve_metrics)
      (ap (λ (t : Text). record { status = 200; body = t }) (redact_lines-printed l h))
