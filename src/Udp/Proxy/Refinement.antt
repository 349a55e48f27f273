-- ===== src/Udp/Proxy/Refinement.antt =====
-- The proxy does to its sessions what the specification allows, event by event.
use wireproxy_homerun.Std.Duration.{seconds, seconds_in_range}
use wireproxy_homerun.Udp.Sessions.Spec.{unchanged, at_rest, and_then}
use wireproxy_homerun.Udp.Proxy.Invariant.{read_failed-table, step-Inv}
use wireproxy_homerun.Udp.Sessions.{lookup, Table, no_sessions}
use wireproxy_homerun.Udp.Sessions.Spec.Steps.{
  found_twice-Change, added_touched-Change, answered-Change, broken-Change, finished-Change,
  polled-Change, reaped-Change, same-Change, refused-Change,
}
use wireproxy_homerun.Prelude.{
  if◌then◌else◌, ℕ, ◌≡◌, refl, Bool, true, false, List, [], Bool-cases, Option-cases, inl, inr, ◌∷◌,
  arith, ℤ, ◌*◌, subst, Option, none, some, ◌&&◌, pos, ◌^◌, ◌<◌,
}
use wireproxy_homerun.Std.{Text}
use wireproxy_homerun.Udp.Sessions.Invariant.{Inv, no_sessions-Inv}
use wireproxy_homerun.Udp.Sessions.Spec.{
  view, Cause, by_source, by_session, by_clock, by_other, Change, unchanged, Changes,
}
use wireproxy_homerun.Udp.Proxy.{
  Proxy, Event, Action, get_or_create_session, packet, read_error, ticker, reaper_done, timed_out,
  read_fault, remote_data, close_called, step, receive, datagram, close, tick, read_timeout,
  read_fails, run, read_failed, send, serve,
}

-- What an event means for the sessions: nothing, where its goroutine is not there.
abbrev pub cause : Proxy → Event → Cause
cause p (packet src payload now dialed) = if p.serving then by_source src now dialed else by_other
cause p (read_error e) = by_other
cause p (ticker now) = if p.reaping then by_clock now else by_other
cause p reaper_done = by_other
cause p (timed_out i) = by_other
cause p (read_fault i) = if (p.heap i).running then by_session i 0 false else by_other
cause p (remote_data i payload now resolved written) =
    if (p.heap i).running then by_session i now (resolved && written) else by_other
cause p close_called = by_other

abbrev pub causes : Proxy → List Event → List Cause
causes p [] = []
causes p (e ∷ es) = cause p e ∷ causes (step p e).0 es

guarded-Change :
    (b : Bool) (p : Proxy) (c : Cause) (r : Proxy × List Action)
    → Change p.inactivity (view p.table) (view r.0.table) c
    → Change p.inactivity
        (view p.table)
        (view (if b then r else (p, [])).0.table)
        (if b then c else by_other)
guarded-Change true p c r k = k
guarded-Change false p c r k = unchanged refl (λ k. refl)

idle-Change :
    (b : Bool) (p : Proxy) (r : Proxy × List Action)
    → r.0.table ≡ p.table
    → Change p.inactivity (view p.table) (view (if b then r else (p, [])).0.table) by_other
idle-Change true p r h = same-Change p.inactivity p.table r.0.table h
idle-Change false p r h = unchanged refl (λ k. refl)

receive-Change :
    (src payload : Text) (now : ℕ) (dialed : Bool) (p : Proxy)
    → Inv p.table
    → Change p.inactivity
        (view p.table)
        (view (receive src payload now dialed p).0.table)
        (by_source src now dialed)
unfolding receive
receive-Change src payload now dialed p v = elim (Option-cases (lookup src p.sessions)) [
  | inr (i, e) ↦
      rw (e, get_or_create_session) (found_twice-Change p.inactivity p.table v src i now dialed e)
  | inl e ↦ elim (Bool-cases dialed) [
    | inl d ↦
        rw (e, d, get_or_create_session) (added_touched-Change p.inactivity p.table v src now e)
    | inr d ↦ rw (e, d, get_or_create_session) (refused-Change p.inactivity p.table src now e)
  ]
]

datagram-Change :
    (i : ℕ) (payload : Text) (now : ℕ) (resolved written : Bool) (p : Proxy)
    → Inv p.table
    → Change p.inactivity
        (view p.table)
        (view (datagram i payload now resolved written p).0.table)
        (by_session i now (resolved && written))
unfolding datagram
datagram-Change i payload now true true p v = answered-Change p.inactivity p.table v i now
datagram-Change i payload now true false p v = broken-Change p.inactivity p.table v i now
datagram-Change i payload now false written p v = broken-Change p.inactivity p.table v i now

step-Change :
    (p : Proxy) (e : Event)
    → Inv p.table
    → Change p.inactivity (view p.table) (view (step p e).0.table) (cause p e)
unfolding step
step-Change p (packet src payload now dialed) v =
    guarded-Change p.serving p _ _ (receive-Change src payload now dialed p v)
step-Change p (read_error e) v = idle-Change p.serving p _ (read_failed-table e p)
step-Change p (ticker now) v =
    guarded-Change p.reaping p _ (tick now p, [])
      (unfold tick in reaped-Change p.inactivity p.table v now)
step-Change p reaper_done v = idle-Change p.done p _ refl
step-Change p (timed_out i) v = elim (Bool-cases (p.heap i).running) [
  | inl e ↦ rw e (unfold read_timeout in polled-Change p.inactivity p.table v i)
  | inr e ↦ rw e (same-Change p.inactivity p.table p.table refl)
]
step-Change p (read_fault i) v =
    guarded-Change (p.heap i).running p _ (read_fails i p, [])
      (unfold read_fails in finished-Change p.inactivity p.table v i 0)
step-Change p (remote_data i payload now resolved written) v =
    guarded-Change (p.heap i).running p _ _ (datagram-Change i payload now resolved written p v)
step-Change p close_called v = unfold close in same-Change p.inactivity p.table _ refl

send-inactivity :
    (now : ℕ) (payload : Text) (p : Proxy) (r : Option ℕ × Table)
    → (send now payload p r).0.inactivity ≡ p.inactivity
unfolding send
send-inactivity now payload p (none, t) = refl
send-inactivity now payload p (some i, t) = refl

guarded-inactivity :
    (b : Bool) (p : Proxy) (r : Proxy × List Action)
    → r.0.inactivity ≡ p.inactivity
    → (if b then r else (p, [])).0.inactivity ≡ p.inactivity
guarded-inactivity true p r h = h
guarded-inactivity false p r h = refl

datagram-inactivity :
    (i : ℕ) (payload : Text) (now : ℕ) (resolved written : Bool) (p : Proxy)
    → (datagram i payload now resolved written p).0.inactivity ≡ p.inactivity
unfolding datagram
datagram-inactivity i payload now true written p = refl
datagram-inactivity i payload now false written p = refl

-- No step changes the timeout.
step-inactivity : (p : Proxy) (e : Event) → (step p e).0.inactivity ≡ p.inactivity
unfolding step receive read_failed tick read_timeout read_fails close
step-inactivity p (packet src payload now dialed) =
    guarded-inactivity p.serving p _ (send-inactivity now payload p _)
step-inactivity p (read_error e) = guarded-inactivity p.serving p _ (ground arith)
step-inactivity p (ticker now) = guarded-inactivity p.reaping p _ refl
step-inactivity p reaper_done = guarded-inactivity p.done p _ refl
step-inactivity p (timed_out i) = guarded-inactivity (p.heap i).running p _ refl
step-inactivity p (read_fault i) = guarded-inactivity (p.heap i).running p _ refl
step-inactivity p (remote_data i payload now resolved written) =
    guarded-inactivity (p.heap i).running p _ (datagram-inactivity i payload now resolved written p)
step-inactivity p close_called = refl

run-Changes :
    (p : Proxy) (es : List Event)
    → Inv p.table
    → Changes p.inactivity (view p.table) (causes p es) (view (run p es).table)
unfolding run
run-Changes p [] v = at_rest
run-Changes p (e ∷ es) v = and_then (step-Change p e v) (
    subst
      (λ d.
        Changes d (view (step p e).0.table) (causes (step p e).0 es)
          (view (run (step p e).0 es).table))
      (step-inactivity p e) (run-Changes (step p e).0 es (step-Inv p e v)))

-- The same for any timeout, as the duration that it is in 64 bits.
serve-Changes :
    (timeout : ℤ) (es : List Event)
    → Changes
        (seconds timeout)
        (view no_sessions)
        (causes (serve timeout) es)
        (view (run (serve timeout) es).table)
unfolding serve
serve-Changes timeout es = run-Changes (serve timeout) es no_sessions-Inv

-- A proxy that runs through any sequence of events does to its sessions, event by event, what the
-- specification does that starts with none: a packet that is read renews the session of its source, or
-- opens the next one where there is none and the dial succeeds; what a session's connection delivers
-- renews that session only, and what breaks it off ends that session only; the reaper's clock ends
-- exactly those that were inactive for the timeout of the configuration, which is of less than 2 ^ 63
-- nanoseconds; and no other event changes any.
pub run-serve-Changes :
    (n : ℕ) (es : List Event)
    → n * 1_000_000_000 < 2 ^ 63
    → Changes
        (pos (n * 1_000_000_000))
        (view no_sessions)
        (causes (serve (pos n)) es)
        (view (run (serve (pos n)) es).table)
run-serve-Changes n es h =
    subst
      (λ d.
        Changes d (view no_sessions) (causes (serve (pos n)) es)
          (view (run (serve (pos n)) es).table))
      (seconds_in_range n h) (serve-Changes (pos n) es)
