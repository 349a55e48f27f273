-- ===== src/Lifecycle/Returns.antt =====
-- What Serve returns, and when.
use wireproxy_homerun.Lifecycle.{
  Outcome, Event, accepted, accept_error, close_called, returned, accept_loop, Listening,
  server_error, config_error, serve_listening, serve_tcp_client, serve_tcp_server, serve_sni,
  serve_http, close,
}
use wireproxy_homerun.Prelude.{
  any, Each, ◌≡◌, Bool, true, false, ◌||◌, Option, List, [], ◌∷◌, ◌++◌, if◌then◌else◌, Bool-cases,
  refl, sym, ap, ◌∙◌, inl, inr, none, some, arith,
}
use wireproxy_homerun.Shutdown.{Shutdown, mark_closed, closed_by_us, close_listener}
use wireproxy_homerun.Std.{Error, errorf, Text, codes}

or_false : (b : Bool) → (b || false) ≡ b
or_false true = refl
or_false false = refl

or_true : (b : Bool) → (b || true) ≡ true
or_true true = refl
or_true false = refl

module _ {Conn : Type 0} where
  abbrev pub is_quiet : Event Conn → Bool
  is_quiet (accept_error e) = false
  is_quiet _ = true

  abbrev pub is_close : Event Conn → Bool
  is_close close_called = true
  is_close _ = false

  -- The connections of the events, in their order.
  abbrev pub conns : List (Event Conn) → List Conn
  conns [] = []
  conns (accepted c ∷ es) = c ∷ conns es
  conns (_ ∷ es) = conns es

  pub accept_loop_error :
      (failed : Shutdown → Error → Option Error) (s : Shutdown) (before after : List (Event Conn))
      (e : Error)
      → Each (λ x. is_quiet x ≡ true) before
      → accept_loop failed s (before ++ accept_error e ∷ after)
        ≡ (returned (failed (record { closed = s.closed || any is_close before }) e), conns before)
  unfolding accept_loop mark_closed
  accept_loop_error failed s [] after e q =
      ap (λ b. (returned (failed (record { closed = b }) e), [])) (sym (or_false s.closed))
  accept_loop_error failed s (accepted c ∷ es) after e (q, r) =
      ap (λ (p : Outcome × List Conn). (p.0, c ∷ p.1)) (accept_loop_error failed s es after e r)
  accept_loop_error failed s (close_called ∷ es) after e (q, r) =
      accept_loop_error failed (record { closed = true }) es after e r
      ∙ ap (λ b. (returned (failed (record { closed = b }) e), conns es)) (sym (or_true s.closed))
  accept_loop_error failed s (accept_error x ∷ es) after e (q, r) = cc

-- The wrapping of net.ErrClosed keeps what it wraps, so both looks at the error agree.
http_error_lem :
    (b : Bool) (e : Error)
    → config_error (record { closed = b }) (server_error e) ≡ (
        if b || e.is_closed
        then none
        else some (errorf (codes "http proxy: ") (errorf (codes "accept request failed: ") e)))
unfolding closed_by_us errorf
http_error_lem b e = elim (Bool-cases e.is_closed) [
  | inl c ↦ rw (c, or_true b) refl
  | inr c ↦ rw c refl
]

module _ {Conn : Type 0} where
  served :
      (name : Text) (failed : Shutdown → Error → Option Error) (t : Listening)
      (before after : List (Event Conn)) (e : Error)
      → t.bound ≡ true
      → Each (λ x. is_quiet x ≡ true) before
      → serve_listening name failed t (before ++ accept_error e ∷ after) ≡ (
        returned (failed (record { closed = t.shutdown.closed || any is_close before }) e),
        conns before,
      )
  unfolding serve_listening
  served name failed t before after e b q =
      rw (b, serve_listening) (accept_loop_error failed t.shutdown before after e q)

  -- Serve of a tunnel that was bound ends at the first error of Accept, and returns nil exactly if
  -- Close was called before it, however Close and the connections were interleaved, or if the error is
  -- net.ErrClosed; otherwise it returns the error with the tunnel's name in front. All connections that
  -- were accepted before are served, in their order.
  pub serve-returns :
      (t : Listening) (before after : List (Event Conn)) (e : Error)
      → t.bound ≡ true
      → Each (λ x. is_quiet x ≡ true) before
      → let stopped = (t.shutdown.closed || any is_close before) || e.is_closed in
        let events = before ++ accept_error e ∷ after in
        (serve_tcp_client t events ≡ (
          returned (if stopped then none else some (errorf (codes "tcp client tunnel: ") e)),
          conns before,
        ))
        × (serve_tcp_server t events ≡ (
          returned (if stopped then none else some (errorf (codes "tcp server tunnel: ") e)),
          conns before,
        ))
        × (serve_sni t events ≡ (
          returned (if stopped then none else some (errorf (codes "sni proxy: ") e)),
          conns before,
        ))
        × (serve_http t events ≡ (
          returned (
              if stopped
              then none
              else some
                  (errorf (codes "http proxy: ") (errorf (codes "accept request failed: ") e))),
          conns before,
        ))
  unfolding serve_tcp_client serve_tcp_server serve_sni serve_http closed_by_us
  serve-returns t before after e b q = (
    served _ _ t before after e b q,
    served _ _ t before after e b q,
    served _ _ t before after e b q,
    served _ _ t before after e b q
        ∙ ap (λ x. (returned x, conns before))
            (http_error_lem (t.shutdown.closed || any is_close before) e),
  )

-- Close is idempotent: the second call finds a closed listener, whose close returns net.ErrClosed,
-- changes nothing and returns nil.
close-idempotent :
    (t : Listening) (first : Option Error) (e : Error)
    → e.is_closed ≡ true
    → close (some e) (close first t).0 ≡ ((close first t).0, none)
unfolding close mark_closed close_listener
close-idempotent t first e c = ground arith
