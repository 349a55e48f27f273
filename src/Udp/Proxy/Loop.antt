-- ===== src/Udp/Proxy/Loop.antt =====
-- When the read loop of the proxy ends.
use wireproxy_homerun.Udp.ServerTunnel.{dialed}
use wireproxy_homerun.Udp.Sessions.{Table}
use wireproxy_homerun.Prelude.{
  ℕ, ◌≡◌, Bool, true, false, not, arith, Each, List, [], ◌∷◌, if◌then◌else◌, refl, ◌∙◌, ℤ, ap,
  Option, none, some, ◌++◌,
}
use wireproxy_homerun.Shutdown.{mark_closed, closed_by_us}
use wireproxy_homerun.Std.{Error, Text}
use wireproxy_homerun.Udp.Proxy.{
  send, Proxy, read_failed, close, Event, read_error, read_fault, remote_data, step, datagram,
  timed_out, run, Action, packet, ticker, reaper_done, close_called, receive, serve, tick,
  read_timeout, read_fails,
}

send-flags :
    (now : ℕ) (payload : Text) (p : Proxy) (r : Option ℕ × Table)
    → ((send now payload p r).0.serving ≡ p.serving)
      × ((send now payload p r).0.shutdown ≡ p.shutdown)
unfolding send
send-flags now payload p (none, t) = (refl, refl)
send-flags now payload p (some i, t) = (refl, refl)

-- What can end the loop: Close, and a read error that says that the listener is closed.
abbrev pub is_harmless : Event → Bool
is_harmless close_called = false
is_harmless (read_error e) = not e.is_closed
is_harmless _ = true

-- No event starts the loop again or takes Close back.
record Stays (p q : Proxy) : Type 0 where
  pub off : p.serving ≡ false → q.serving ≡ false
  pub closed : p.shutdown.closed ≡ true → q.shutdown.closed ≡ true

same-Stays : (p q : Proxy) → q.serving ≡ p.serving → q.shutdown ≡ p.shutdown → Stays p q
same-Stays p q s d = record { off = λ h. s ∙ h; closed = λ h. ap (λ x. x.closed) d ∙ h }

guarded-flags :
    (b : Bool) (p : Proxy) (r : Proxy × List Action)
    → (r.0.serving ≡ p.serving) × (r.0.shutdown ≡ p.shutdown)
    → let q = (if b then r else (p, [])).0 in (q.serving ≡ p.serving) × (q.shutdown ≡ p.shutdown)
guarded-flags true p r h = h
guarded-flags false p r h = (refl, refl)

abbrev is_loop_event : Event → Bool
is_loop_event close_called = true
is_loop_event (read_error e) = true
is_loop_event _ = false

step-flags :
    (p : Proxy) (e : Event)
    → is_loop_event e ≡ false
    → ((step p e).0.serving ≡ p.serving) × ((step p e).0.shutdown ≡ p.shutdown)
unfolding step receive tick read_timeout read_fails
step-flags p (packet src payload now dialed) n =
    guarded-flags p.serving p _ (send-flags now payload p _)
step-flags p (ticker now) n = guarded-flags p.reaping p _ (refl, refl)
step-flags p reaper_done n = guarded-flags p.done p _ (refl, refl)
step-flags p (timed_out i) n = guarded-flags (p.heap i).running p _ (refl, refl)
step-flags p (read_fault i) n = guarded-flags (p.heap i).running p _ (refl, refl)
step-flags p (remote_data i payload now true written) n =
    guarded-flags (p.heap i).running p _ (unfold datagram in (refl, refl))
step-flags p (remote_data i payload now false written) n =
    guarded-flags (p.heap i).running p _ (unfold datagram in (refl, refl))
step-flags p (read_error e) n = absurd (ground arith)
step-flags p close_called n = absurd (ground arith)

step-Stays : (p : Proxy) (e : Event) → Stays p (step p e).0
unfolding step read_failed close closed_by_us mark_closed
step-Stays p (read_error e) = record { off = λ h. ground arith; closed = λ h. ground arith }
step-Stays p close_called = record { off = λ h. h; closed = λ h. refl }
step-Stays p e = let (s, d) = step-flags p e refl in same-Stays p (step p e).0 s d

run-Stays : (p : Proxy) (es : List Event) → Stays p (run p es)
unfolding run
run-Stays p [] = record { off = λ h. h; closed = λ h. h }
run-Stays p (e ∷ es) =
    let s = step-Stays p e in
    let r = run-Stays (step p e).0 es in
    record { off = λ h. r.off (s.off h); closed = λ h. r.closed (s.closed h) }

-- The loop is there and Close was not called.
abbrev IsUp : Proxy → Type 0
IsUp p = (p.serving ≡ true) × (p.shutdown.closed ≡ false)

step-IsUp : (p : Proxy) (e : Event) → is_harmless e ≡ true → IsUp p → IsUp (step p e).0
unfolding step read_failed closed_by_us
step-IsUp p (read_error e) n v = (ground arith, ground arith)
step-IsUp p close_called n v = absurd (ground arith)
step-IsUp p e n v = let (s, d) = step-flags p e refl in (s ∙ v.0, ap (λ x. x.closed) d ∙ v.1)

run-IsUp :
    (p : Proxy) (es : List Event) → Each (λ e. is_harmless e ≡ true) es → IsUp p → IsUp (run p es)
unfolding run
run-IsUp p [] n v = v
run-IsUp p (e ∷ es) (n, ns) v = run-IsUp (step p e).0 es ns (step-IsUp p e n v)

run-append : (p : Proxy) (es fs : List Event) → run p (es ++ fs) ≡ run (run p es) fs
unfolding run
run-append p [] fs = refl
run-append p (e ∷ es) fs = run-append (step p e).0 es fs

error_ends :
    (p : Proxy) (e : Error) → p.shutdown.closed ≡ true → (step p (read_error e)).0.serving ≡ false
unfolding step read_failed closed_by_us
error_ends p e h = ground arith

ends_after :
    (p : Proxy) (later after : List Event) (e : Error)
    → (run p (close_called ∷ (later ++ (read_error e ∷ after)))).serving ≡ false
unfolding run
ends_after p later after e =
    let q = (step p close_called).0 in
    let c : q.shutdown.closed ≡ true = unfold step close mark_closed in refl in
    let k = error_ends (run q later) e ((run-Stays q later).closed c) in
    rw (run-append q later (read_error e ∷ after)) ((run-Stays _ after).off k)

-- The read loop goes on through any events, failed reads included, until Close is called or a read fails
-- with net.ErrClosed; and after Close the next read that fails ends it for good, whatever its error is
-- and whatever else happens before and after it.
pub read_error_stops :
    (timeout : ℤ) (quiet later after : List Event) (e : Error)
    → Each (λ x. is_harmless x ≡ true) quiet
    → ((run (serve timeout) quiet).serving ≡ true)
      × ((run (serve timeout) (quiet ++ (close_called ∷ (later ++ (read_error e ∷ after))))).serving
          ≡ false)
unfolding serve
read_error_stops timeout quiet later after e n =
    let p = serve timeout in
    (
      (run-IsUp p quiet n (refl, refl)).0,
      rw (run-append p quiet (close_called ∷ (later ++ (read_error e ∷ after))))
          (ends_after (run p quiet) later after e),
    )
