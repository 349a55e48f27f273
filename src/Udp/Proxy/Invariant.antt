-- ===== src/Udp/Proxy/Invariant.antt =====
-- The session table stays consistent, whatever the order of the events.
use wireproxy_homerun.Prelude.{
  ℤ, if◌then◌else◌, Bool-cases, Option-cases, ℕ, ◌≡◌, refl, sym, subst, inl, inr, Bool, true, false,
  Option, none, some, List, [], ◌∷◌, arith,
}
use wireproxy_homerun.Std.{Error, Text}
use wireproxy_homerun.Udp.Proxy.{
  Proxy, Action, serve, get_or_create_session, receive, read_failed, tick, read_timeout, read_fails,
  datagram, close, Event, packet, read_error, ticker, reaper_done, timed_out, read_fault,
  remote_data, close_called, step, run, send,
}
use wireproxy_homerun.Udp.Sessions.{lookup, Table}
use wireproxy_homerun.Udp.Sessions.Invariant.{
  Inv, no_sessions-Inv, touch-Inv, add_session-Inv, reap_sessions-Inv, finish-Inv, running-lt,
  poll-Inv, touch_session-running,
}

get_or_create_session-Inv :
    (src : Text) (now : ℕ) (dialed : Bool) (t : Table)
    → Inv t
    → Inv (get_or_create_session src now dialed t).1
unfolding get_or_create_session
get_or_create_session-Inv src now dialed t v = elim (Option-cases (lookup src t.sessions)) [
  | inl e ↦
      rw (e, get_or_create_session)
        (elim (Bool-cases dialed) [ inl d ↦ rw d (add_session-Inv src now t e v) | inr d ↦ rw d v ])
  | inr (i, e) ↦ rw (e, get_or_create_session) (touch-Inv i now t v)
]

send-Inv :
    (now : ℕ) (payload : Text) (p : Proxy) (r : Option ℕ × Table)
    → Inv r.1
    → Inv (send now payload p r).0.table
unfolding send
send-Inv now payload p (none, t) v = v
send-Inv now payload p (some i, t) v = touch-Inv i now t v

pub read_failed-table : (e : Error) (p : Proxy) → (read_failed e p).table ≡ p.table
unfolding read_failed
read_failed-table e p = ground arith

datagram-Inv :
    (i : ℕ) (payload : Text) (now : ℕ) (resolved written : Bool) (p : Proxy)
    → (p.heap i).running ≡ true
    → Inv p.table
    → Inv (datagram i payload now resolved written p).0.table
unfolding datagram
datagram-Inv i payload now true true p r v =
    poll-Inv i _ (touch_session-running i now p.table r) (touch-Inv i now p.table v)
datagram-Inv i payload now true false p r v =
    finish-Inv i _ (running-lt i p.table v r) (touch-Inv i now p.table v)
datagram-Inv i payload now false written p r v =
    finish-Inv i _ (running-lt i p.table v r) (touch-Inv i now p.table v)

-- A step under its guard.
guarded-Inv :
    (b : Bool) (p : Proxy) (r : Proxy × List Action)
    → Inv p.table
    → (b ≡ true → Inv r.0.table)
    → Inv (if b then r else (p, [])).0.table
guarded-Inv true p r v k = k refl
guarded-Inv false p r v k = v

-- Every step of every goroutine keeps the session table consistent.
pub step-Inv : (p : Proxy) (e : Event) → Inv p.table → Inv (step p e).0.table
unfolding step
step-Inv p (packet src payload now dialed) v = guarded-Inv p.serving p _ v λ _.
    unfold receive in send-Inv now payload p _ (get_or_create_session-Inv src now dialed p.table v)
step-Inv p (read_error e) v =
    guarded-Inv p.serving p _ v λ _. subst Inv (sym (read_failed-table e p)) v
step-Inv p (ticker now) v =
    guarded-Inv p.reaping p _ v λ _. unfold tick in reap_sessions-Inv now p.inactivity p.table v
step-Inv p reaper_done v = guarded-Inv p.done p _ v λ _. v
step-Inv p (timed_out i) v =
    guarded-Inv (p.heap i).running p _ v λ r. unfold read_timeout in poll-Inv i p.table r v
step-Inv p (read_fault i) v =
    guarded-Inv (p.heap i).running p _ v
      λ r. unfold read_fails in finish-Inv i p.table (running-lt i p.table v r) v
step-Inv p (remote_data i payload now resolved written) v =
    guarded-Inv (p.heap i).running p _ v λ r. datagram-Inv i payload now resolved written p r v
step-Inv p close_called v = unfold close in v

run-Inv : (p : Proxy) (es : List Event) → Inv p.table → Inv (run p es).table
unfolding run
run-Inv p [] v = v
run-Inv p (e ∷ es) v = run-Inv (step p e).0 es (step-Inv p e v)

-- After any sequence of events from the start, in any order, the session table is consistent: each
-- source is in the map once, with an open session of its own; every open session is the one that
-- the map holds for its source; and a goroutine that has returned closed its connection.
pub run-serve-Inv : (timeout : ℤ) (es : List Event) → Inv (run (serve timeout) es).table
unfolding serve
run-serve-Inv timeout es = run-Inv (serve timeout) es no_sessions-Inv
