-- ===== src/Http/Accepting.antt =====
-- listen, Serve and ListenAndServe of http.go.
use wireproxy_homerun.Lifecycle.Returns.{is_quiet, conns, accept_loop_error}
use wireproxy_homerun.Lifecycle.{Event, Outcome, returned, accept_loop, server_error, accept_error}
use wireproxy_homerun.Prelude.{
  if◌then◌else◌, Bool, false, some, List, [], Each, ◌≡◌, true, ◌∷◌, ◌++◌,
}
use wireproxy_homerun.Std.{errorf, Result, ok, err, codes, Error}

-- The results are those of loading the certificate, of tls.Listen and of net.Listen.
unfoldable pub listen_on_server :
    Bool → Result (Unit {0}) → Result (Unit {0}) → Result (Unit {0}) → Result (Unit {0})
listen_on_server tls_required pair tls plain =
    if tls_required then elim pair [ err e ↦ err e | ok u ↦ tls ] else plain

-- Serve on a listener: a close is one more event, and is seen by the error of Accept only.
unfoldable pub serve_listener : {Conn : Type 0} → List (Event Conn) → Outcome × List Conn
serve_listener es = accept_loop (λ s e. server_error e) (record { closed = false }) es

-- The listener is closed when Serve returns.
unfoldable pub listen_and_serve :
    {Conn : Type 0} → Result (Unit {0}) → List (Event Conn) → Outcome × List Conn
listen_and_serve listened es = elim listened [
  | err e ↦ (returned (some (errorf (codes "listen tcp failed: ") e)), [])
  | ok u ↦ serve_listener es
]

-- ListenAndServe ends at the first error of Accept, with nil exactly if the error is net.ErrClosed, and
-- all connections that were accepted before are served, in their order.
listen_and_serve-returns :
    {Conn : Type 0} (before after : List (Event Conn)) (e : Error)
    → Each (λ x. is_quiet x ≡ true) before
    → listen_and_serve (ok tt) (before ++ accept_error e ∷ after)
      ≡ (returned (server_error e), conns before)
unfolding listen_and_serve serve_listener
listen_and_serve-returns before after e q =
    accept_loop_error (λ s x. server_error x) (record { closed = false }) before after e q
