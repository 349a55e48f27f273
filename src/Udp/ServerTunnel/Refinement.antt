-- ===== src/Udp/ServerTunnel/Refinement.antt =====
-- The server tunnel does to its sessions what the specification allows, which it shares with the
-- proxy, although it takes two steps to open one.
use wireproxy_homerun.Std.Duration.{seconds, seconds_in_range}
use wireproxy_homerun.Prelude.{
  ltb, if◌then◌else◌, Option-cases, ℕ, ◌≡◌, refl, inl, inr, Bool, true, false, ◌&&◌, List, [], ◌∷◌,
  ℤ, to_ℕ, ◌*◌, subst, arith, pos, ◌^◌, ◌<◌,
}
use wireproxy_homerun.Std.{Text, Error}
use wireproxy_homerun.Udp.ServerTunnel.Invariant.{IsPending, IsConsistent, step-IsConsistent}
use wireproxy_homerun.Udp.ServerTunnel.Traffic.{on_write_result-table, on_read_error-table}
use wireproxy_homerun.Udp.Sessions.{lookup, no_sessions}
use wireproxy_homerun.Udp.Sessions.Invariant.{Inv, no_sessions-Inv}
use wireproxy_homerun.Udp.Sessions.Spec.{
  view, Cause, by_source, by_session, by_clock, by_other, Change, unchanged, Changes, at_rest,
  and_then,
}
use wireproxy_homerun.Udp.Sessions.Spec.Steps.{
  found-Change, added-Change, answered-Change, broken-Change, finished-Change, polled-Change,
  reaped-Change, same-Change, refused-Change,
}
use wireproxy_homerun.Udp.ServerTunnel.{
  Tunnel, Event, Action, Position, reading, dialing, writing, packet, foreign_address, dial_result,
  write_result, read_error, ticker, reaper_done, timed_out, read_fault, target_data, close_called,
  step, receive, tick, read_timeout, read_fails, response, close, on_packet, on_dial_result, dialed,
  serve, read_failed, run, on_write_result, on_read_error,
}

-- What a step of the main loop means for the sessions, by its position: a packet by itself opens no
-- session, and the result of a dial is for the source that the loop dials for.
abbrev pub packet_cause : Position → Text → ℕ → Cause
packet_cause reading src now = by_source src now false
packet_cause _ src now = by_other

abbrev pub dial_cause : Position → Bool → ℕ → Cause
dial_cause (dialing src payload) result now = by_source src now result
dial_cause _ result now = by_other

-- What an event means for them: nothing, where its goroutine is not there.
abbrev pub cause : Tunnel → Event → Cause
cause s (packet src payload now) = if s.serving then packet_cause s.position src now else by_other
cause s (dial_result result now) = if s.serving then dial_cause s.position result now else by_other
cause s (ticker now) = if s.reaping then by_clock now else by_other
cause s (read_fault i) = if (s.heap i).running then by_session i 0 false else by_other
cause s (target_data i payload now written) =
    if (s.heap i).running then by_session i now written else by_other
cause s _ = by_other

abbrev pub causes : Tunnel → List Event → List Cause
causes s [] = []
causes s (e ∷ es) = cause s e ∷ causes (step s e).0 es

guarded-Change :
    (b : Bool) (s : Tunnel) (c : Cause) (r : Tunnel × List Action)
    → Change s.inactivity (view s.table) (view r.0.table) c
    → Change s.inactivity
        (view s.table)
        (view (if b then r else (s, [])).0.table)
        (if b then c else by_other)
guarded-Change true s c r k = k
guarded-Change false s c r k = unchanged refl (λ k. refl)

idle-Change :
    (b : Bool) (s : Tunnel) (r : Tunnel × List Action)
    → Change s.inactivity (view s.table) (view r.0.table) by_other
    → Change s.inactivity (view s.table) (view (if b then r else (s, [])).0.table) by_other
idle-Change true s r h = h
idle-Change false s r h = unchanged refl (λ k. refl)

on_packet-Change :
    (q : Position) (src payload : Text) (now : ℕ) (s : Tunnel)
    → Inv s.table
    → Change s.inactivity
        (view s.table)
        (view (on_packet q src payload now s).table)
        (packet_cause q src now)
unfolding on_packet
on_packet-Change reading src payload now s v = elim (Option-cases (lookup src s.sessions)) [
  | inr (i, e) ↦ rw (e, receive) (found-Change s.inactivity s.table v src i now false e)
  | inl e ↦ rw (e, receive) (refused-Change s.inactivity s.table src now e)
]
on_packet-Change (dialing k t) src payload now s v = same-Change s.inactivity s.table _ refl
on_packet-Change (writing i t) src payload now s v = same-Change s.inactivity s.table _ refl

on_dial_result-Change :
    (q : Position) (result : Bool) (now : ℕ) (s : Tunnel)
    → Inv s.table
    → IsPending q s.sessions
    → Change s.inactivity
        (view s.table)
        (view (on_dial_result q result now s).table)
        (dial_cause q result now)
unfolding on_dial_result dialed
on_dial_result-Change (dialing src payload) true now s v p =
    added-Change s.inactivity s.table v src now p
on_dial_result-Change (dialing src payload) false now s v p =
    refused-Change s.inactivity s.table src now p
on_dial_result-Change reading result now s v p = same-Change s.inactivity s.table _ refl
on_dial_result-Change (writing i payload) result now s v p = same-Change s.inactivity s.table _ refl

response-Change :
    (i : ℕ) (payload : Text) (now : ℕ) (written : Bool) (s : Tunnel)
    → Inv s.table
    → Change s.inactivity
        (view s.table)
        (view (response i payload now written s).0.table)
        (by_session i now written)
unfolding response
response-Change i payload now true s v = answered-Change s.inactivity s.table v i now
response-Change i payload now false s v = broken-Change s.inactivity s.table v i now

step-Change :
    (s : Tunnel) (e : Event)
    → IsConsistent s
    → Change s.inactivity (view s.table) (view (step s e).0.table) (cause s e)
unfolding step
step-Change s (packet src payload now) v =
    guarded-Change s.serving s _ (on_packet s.position src payload now s, [])
      (on_packet-Change s.position src payload now s v.inv)
step-Change s foreign_address v = same-Change s.inactivity s.table _ refl
step-Change s (dial_result result now) v =
    guarded-Change s.serving s _ (on_dial_result s.position result now s, [])
      (on_dial_result-Change s.position result now s v.inv v.pending)
step-Change s write_result v =
    idle-Change s.serving s _
      (same-Change s.inactivity s.table _ (on_write_result-table s.position s))
step-Change s (read_error e) v =
    idle-Change s.serving s (on_read_error s.position e s, [])
      (same-Change s.inactivity s.table _ (on_read_error-table s.position e s))
step-Change s (ticker now) v =
    guarded-Change s.reaping s _ (tick now s, [])
      (unfold tick in reaped-Change s.inactivity s.table v.inv now)
step-Change s reaper_done v =
    idle-Change s.done s (record s { reaping = false }, [])
      (same-Change s.inactivity s.table _ refl)
step-Change s (timed_out i) v =
    idle-Change ((s.heap i).running && ltb 0 (to_ℕ s.inactivity)) s (read_timeout i s, [])
      (unfold read_timeout in polled-Change s.inactivity s.table v.inv i)
step-Change s (read_fault i) v =
    guarded-Change (s.heap i).running s _ (read_fails i s, [])
      (unfold read_fails in finished-Change s.inactivity s.table v.inv i 0)
step-Change s (target_data i payload now written) v =
    guarded-Change (s.heap i).running s _ _ (response-Change i payload now written s v.inv)
step-Change s close_called v = unfold close in same-Change s.inactivity s.table _ refl

guarded-inactivity :
    (b : Bool) (s : Tunnel) (r : Tunnel × List Action)
    → r.0.inactivity ≡ s.inactivity
    → (if b then r else (s, [])).0.inactivity ≡ s.inactivity
guarded-inactivity true s r h = h
guarded-inactivity false s r h = refl

-- What the main loop does at each of its positions leaves the timeout.
loop-inactivity :
    (q : Position) (src payload : Text) (now : ℕ) (result : Bool) (e : Error) (s : Tunnel)
    → ((on_packet q src payload now s).inactivity ≡ s.inactivity)
      × ((on_dial_result q result now s).inactivity ≡ s.inactivity)
      × ((on_write_result q s).0.inactivity ≡ s.inactivity)
      × ((on_read_error q e s).inactivity ≡ s.inactivity)
unfolding on_packet receive on_dial_result dialed on_write_result on_read_error read_failed
loop-inactivity reading src payload now result e s = (ground arith, refl, refl, ground arith)
loop-inactivity (dialing k t) src payload now true e s = (refl, refl, refl, refl)
loop-inactivity (dialing k t) src payload now false e s = (refl, refl, refl, refl)
loop-inactivity (writing i t) src payload now result e s = (refl, refl, refl, refl)

abbrev no_error : Error
no_error = record { message = []; is_closed = false; is_timeout = false }

step-inactivity : (s : Tunnel) (e : Event) → (step s e).0.inactivity ≡ s.inactivity
unfolding step tick read_timeout read_fails response close
step-inactivity s (packet src payload now) =
    guarded-inactivity s.serving s _ (loop-inactivity s.position src payload now true no_error s).0
step-inactivity s foreign_address = refl
step-inactivity s (dial_result result now) =
    guarded-inactivity s.serving s _ (loop-inactivity s.position [] [] now result no_error s).1
step-inactivity s write_result =
    guarded-inactivity s.serving s _ (loop-inactivity s.position [] [] 0 true no_error s).2
step-inactivity s (read_error e) =
    guarded-inactivity s.serving s _ (loop-inactivity s.position [] [] 0 true e s).3
step-inactivity s (ticker now) = guarded-inactivity s.reaping s _ refl
step-inactivity s reaper_done = guarded-inactivity s.done s _ refl
step-inactivity s (timed_out i) =
    guarded-inactivity ((s.heap i).running && ltb 0 (to_ℕ s.inactivity)) s _ refl
step-inactivity s (read_fault i) = guarded-inactivity (s.heap i).running s _ refl
step-inactivity s (target_data i payload now written) =
    guarded-inactivity (s.heap i).running s _ refl
step-inactivity s close_called = refl

run-Changes :
    (s : Tunnel) (es : List Event)
    → IsConsistent s
    → Changes s.inactivity (view s.table) (causes s es) (view (run s es).table)
unfolding run
run-Changes s [] v = at_rest
run-Changes s (e ∷ es) v = and_then (step-Change s e v) (
    subst
      (λ d.
        Changes d (view (step s e).0.table) (causes (step s e).0 es)
          (view (run (step s e).0 es).table))
      (step-inactivity s e) (run-Changes (step s e).0 es (step-IsConsistent s e v)))

-- The same for any timeout, as the duration that it is in 64 bits.
serve-Changes :
    (timeout : ℤ) (es : List Event)
    → Changes
        (seconds timeout)
        (view no_sessions)
        (causes (serve timeout) es)
        (view (run (serve timeout) es).table)
unfolding serve
serve-Changes timeout es =
    run-Changes (serve timeout) es (record { inv = no_sessions-Inv; pending = tt })

-- The server tunnel, run from the start through any sequence of events, keeps to the same
-- specification as the proxy, although other goroutines may step between its lookup and its entry of a
-- session: a packet renews the session of its source and by itself opens none; the end of a dial opens
-- the next session for the source it was for, exactly if the dial succeeded; what a session's
-- connection delivers renews that session only, and what breaks it off ends that session only; the
-- reaper's clock ends exactly those that were inactive for the timeout of the configuration, which is of
-- less than 2 ^ 63 nanoseconds; and no other event changes any.
pub run-serve-causes-Changes :
    (n : ℕ) (es : List Event)
    → n * 1_000_000_000 < 2 ^ 63
    → Changes
        (pos (n * 1_000_000_000))
        (view no_sessions)
        (causes (serve (pos n)) es)
        (view (run (serve (pos n)) es).table)
run-serve-causes-Changes n es h =
    subst
      (λ d.
        Changes d (view no_sessions) (causes (serve (pos n)) es)
          (view (run (serve (pos n)) es).table))
      (seconds_in_range n h) (serve-Changes (pos n) es)
