-- ===== src/Tests/Proxying.antt =====
-- The HTTP proxy at concrete requests.
use wireproxy_homerun.Http.Buffered.{
  Parser, takes, finished, buffer_size, serve_conn, serve_conn-Reads, complete,
}
use wireproxy_homerun.Http.{valid, HttpServer, HttpRequest, authenticate, serve}
use wireproxy_homerun.Http.Access.{user_pass, authenticate_iff, IsDialed, serve-dials}
use wireproxy_homerun.Prelude.{◌≡◌, refl, ◌↔◌, true, none, some, [], arith, List, ◌∷◌, inl}
use wireproxy_homerun.Std.{ok, codes, text_eq, trim_prefix, cut, Text}
use wireproxy_homerun.Std.Base64.{base64_decode}
use wireproxy_homerun.Std.HostPort.{join_host_port}

abbrev guarded : HttpServer
guarded = record {
  auth = record { username = codes "bob"; password = codes "a:b" };
  auth_required = true;
}

-- "bob:a:b"
abbrev connect : HttpRequest
connect = record {
  method = codes "CONNECT";
  host = codes "www.example";
  proxy_authorization = codes "Basic Ym9iOmE6Yg==";
}

authenticate_iff_example : (authenticate guarded connect ≡ none) ↔ (
    base64_decode (trim_prefix connect.proxy_authorization (codes "Basic "))
    ≡ some (user_pass guarded.auth))
unfolding codes
authenticate_iff_example = authenticate_iff guarded connect refl refl

abbrev no_more : List Text
no_more = []

serve-dials_example :
    (base64_decode (trim_prefix connect.proxy_authorization (codes "Basic "))
      ≡ some (user_pass guarded.auth))
    × IsDialed connect (codes "www.example:443")
    × (no_more ≡ [])
unfolding codes serve text_eq trim_prefix base64_decode cut valid join_host_port
serve-dials_example =
    serve-dials (λ addr. ok true) true guarded connect (codes "www.example:443") no_more refl refl
      refl

-- A request of two bytes.
abbrev two_bytes : Parser
two_bytes = takes (λ a. takes (λ b. finished (ok (connect, complete))))

serve_conn-Reads_example :
    serve_conn (λ addr. ok true) true guarded two_bytes (ok (7 ∷ 8 ∷ 9 ∷ []) ∷ ok (10 ∷ []) ∷ [])
    ≡ (serve (λ addr. ok true) true guarded (ok connect), ok (10 ∷ []) ∷ [])
unfolding buffer_size
serve_conn-Reads_example =
    serve_conn-Reads (λ addr. ok true) true guarded two_bytes (7 ∷ 8 ∷ []) (9 ∷ []) connect complete
      (ok (10 ∷ []) ∷ []) (inl refl) refl (λ e. absurd (ground arith)) (omega arith)
