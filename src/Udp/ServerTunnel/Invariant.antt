-- ===== src/Udp/ServerTunnel/Invariant.antt =====
-- The session table stays consistent although the main loop looks a source up and enters it in two
-- separate critical sections.
use wireproxy_homerun.Shutdown.{closed_by_us}
use wireproxy_homerun.Prelude.{
  ℤ, ltb, if◌then◌else◌, Bool-cases, Option-cases, ℕ, ◌≡◌, refl, inl, inr, Bool, true, false, ◌&&◌,
  none, some, List, [], ◌∷◌, arith, to_ℕ,
}
use wireproxy_homerun.Std.{Error, Text}
use wireproxy_homerun.Udp.ServerTunnel.{
  Position, reading, dialing, writing, Tunnel, dialed, response, foreign_address, dial_result,
  write_result, target_data, on_packet, on_read_error, on_dial_result, on_write_result, Action,
  serve, receive, read_failed, tick, read_timeout, read_fails, close, Event, packet, read_error,
  ticker, reaper_done, timed_out, read_fault, close_called, step, run,
}
use wireproxy_homerun.Udp.Sessions.{
  Entries, lookup, Table, touch_session, remove_session, reap_sessions, finish, poll,
}
use wireproxy_homerun.Udp.Sessions.Entries.{lookup-delete, lookup-reap}
use wireproxy_homerun.Udp.Sessions.Invariant.{
  Inv, no_sessions-Inv, touch-Inv, add_session-Inv, reap_sessions-Inv, finish-Inv, running-lt,
  poll-Inv, touch_session-running,
}

-- While the loop dials for a source, the map holds no session of that source.
abbrev pub IsPending : Position → Entries → Type 0
IsPending (dialing src payload) m = lookup src m ≡ none
IsPending _ m = Unit {0}

pub record IsConsistent (s : Tunnel) : Type 0 where
  pub inv : Inv s.table
  pub pending : IsPending s.position s.sessions

IsPending-cong :
    (q : Position) (m m' : Entries)
    → ((k : Text) → lookup k m ≡ none → lookup k m' ≡ none)
    → IsPending q m
    → IsPending q m'
IsPending-cong reading m m' k v = tt
IsPending-cong (dialing src payload) m m' k v = k src v
IsPending-cong (writing i payload) m m' k v = tt

-- The operations of the other goroutines add no entry.
remove_session-none :
    (key : Text) (i : ℕ) (t : Table) (k : Text)
    → lookup k t.sessions ≡ none
    → lookup k (remove_session key i t).sessions ≡ none
unfolding remove_session
remove_session-none key i t k h = ground (arith, lookup-delete key k t.sessions)

finish-none :
    (i : ℕ) (t : Table) (k : Text)
    → lookup k t.sessions ≡ none
    → lookup k (finish i t).sessions ≡ none
unfolding finish
finish-none i t k h = remove_session-none (t.heap i).src i t k h

poll-none :
    (i : ℕ) (t : Table) (k : Text)
    → lookup k t.sessions ≡ none
    → lookup k (poll i t).sessions ≡ none
unfolding poll
poll-none i t k h = ground (arith, finish-none i t k)

reap_sessions-none :
    (now : ℕ) (dur : ℤ) (t : Table) (k : Text)
    → Inv t
    → lookup k t.sessions ≡ none
    → lookup k (reap_sessions now dur t).sessions ≡ none
unfolding reap_sessions
reap_sessions-none now dur t k v h = rw (lookup-reap now dur t.sessions t.heap k v.is_map, h)

-- A step on the table that adds no entry, wherever the main loop stands.
table_step :
    (s : Tunnel) (t : Table)
    → IsConsistent s
    → Inv t
    → ((k : Text) → lookup k s.sessions ≡ none → lookup k t.sessions ≡ none)
    → IsConsistent (record s { table = t })
table_step s t v i k = record {
  inv = i;
  pending = IsPending-cong s.position s.sessions t.sessions k v.pending;
}

receive-IsConsistent :
    (src payload : Text) (now : ℕ) (s : Tunnel)
    → IsConsistent s
    → IsConsistent (receive src payload now s)
unfolding receive
receive-IsConsistent src payload now s v = elim (Option-cases (lookup src s.sessions)) [
  | inl e ↦ rw (e, receive) (record { inv = v.inv; pending = e })
  | inr (i, e) ↦ rw (e, receive) (record { inv = touch-Inv i now s.table v.inv; pending = tt })
]

on_packet-IsConsistent :
    (q : Position) (src payload : Text) (now : ℕ) (s : Tunnel)
    → IsConsistent s
    → IsConsistent (on_packet q src payload now s)
unfolding on_packet
on_packet-IsConsistent reading src payload now s v = receive-IsConsistent src payload now s v
on_packet-IsConsistent _ src payload now s v = v

on_dial_result-IsConsistent :
    (q : Position) (result : Bool) (now : ℕ) (s : Tunnel)
    → IsPending q s.sessions
    → IsConsistent s
    → IsConsistent (on_dial_result q result now s)
unfolding on_dial_result dialed
on_dial_result-IsConsistent (dialing src payload) true now s p v = record {
  inv = add_session-Inv src now s.table p v.inv;
  pending = tt;
}
on_dial_result-IsConsistent (dialing src payload) false now s p v = record {
  inv = v.inv;
  pending = tt;
}
on_dial_result-IsConsistent _ result now s p v = v

on_write_result-IsConsistent :
    (q : Position) (s : Tunnel) → IsConsistent s → IsConsistent (on_write_result q s).0
unfolding on_write_result
on_write_result-IsConsistent (writing i payload) s v = record { inv = v.inv; pending = tt }
on_write_result-IsConsistent _ s v = v

on_read_error-IsConsistent :
    (q : Position) (e : Error) (s : Tunnel) → IsConsistent s → IsConsistent (on_read_error q e s)
unfolding on_read_error read_failed
on_read_error-IsConsistent reading e s v = elim (Bool-cases (closed_by_us s.shutdown (some e))) [
  | inl c ↦ rw c (record { inv = v.inv; pending = v.pending })
  | inr c ↦ rw c v
]
on_read_error-IsConsistent _ e s v = v

response-IsConsistent :
    (i : ℕ) (payload : Text) (now : ℕ) (written : Bool) (s : Tunnel)
    → (s.heap i).running ≡ true
    → IsConsistent s
    → IsConsistent (response i payload now written s).0
unfolding response
response-IsConsistent i payload now true s r v =
    table_step s _ v
      (poll-Inv i _ (touch_session-running i now s.table r) (touch-Inv i now s.table v.inv))
      (poll-none i (touch_session i now s.table))
response-IsConsistent i payload now false s r v =
    table_step s _ v (finish-Inv i _ (running-lt i s.table v.inv r) (touch-Inv i now s.table v.inv))
      (finish-none i (touch_session i now s.table))

guarded :
    (b : Bool) (s : Tunnel) (r : Tunnel × List Action)
    → IsConsistent s
    → (b ≡ true → IsConsistent r.0)
    → IsConsistent (if b then r else (s, [])).0
guarded true s r v k = k refl
guarded false s r v k = v

-- Every step of every goroutine keeps the table consistent, and no other goroutine enters a session
-- for a source while the main loop dials for it.
pub step-IsConsistent : (s : Tunnel) (e : Event) → IsConsistent s → IsConsistent (step s e).0
unfolding step
step-IsConsistent s (packet src payload now) v =
    guarded s.serving s _ v λ _. on_packet-IsConsistent s.position src payload now s v
step-IsConsistent s foreign_address v = v
step-IsConsistent s (dial_result result now) v =
    guarded s.serving s _ v λ _. on_dial_result-IsConsistent s.position result now s v.pending v
step-IsConsistent s write_result v =
    guarded s.serving s _ v λ _. on_write_result-IsConsistent s.position s v
step-IsConsistent s (read_error e) v =
    guarded s.serving s _ v λ _. on_read_error-IsConsistent s.position e s v
step-IsConsistent s (ticker now) v = guarded s.reaping s _ v λ _.
    unfold tick in
    table_step s _ v (reap_sessions-Inv now s.inactivity s.table v.inv)
      (λ k h. reap_sessions-none now s.inactivity s.table k v.inv h)
step-IsConsistent s reaper_done v =
    guarded s.done s _ v λ _. record { inv = v.inv; pending = v.pending }
step-IsConsistent s (timed_out i) v =
    guarded ((s.heap i).running && ltb 0 (to_ℕ s.inactivity)) s _ v λ r.
      unfold read_timeout in
      table_step s _ v (poll-Inv i s.table (ground arith) v.inv) (poll-none i s.table)
step-IsConsistent s (read_fault i) v = guarded (s.heap i).running s _ v λ r.
    unfold read_fails in
    table_step s _ v (finish-Inv i s.table (running-lt i s.table v.inv r) v.inv)
      (finish-none i s.table)
step-IsConsistent s (target_data i payload now written) v =
    guarded (s.heap i).running s _ v λ r. response-IsConsistent i payload now written s r v
step-IsConsistent s close_called v = unfold close in record { inv = v.inv; pending = v.pending }

run-IsConsistent : (s : Tunnel) (es : List Event) → IsConsistent s → IsConsistent (run s es)
unfolding run
run-IsConsistent s [] v = v
run-IsConsistent s (e ∷ es) v = run-IsConsistent (step s e).0 es (step-IsConsistent s e v)

-- After any sequence of events from the start the session table is consistent, and while the main
-- loop dials for a source the map holds no session of that source: the session that it enters then
-- replaces none.
pub run-serve-IsConsistent : (timeout : ℤ) (es : List Event) → IsConsistent (run (serve timeout) es)
unfolding serve
run-serve-IsConsistent timeout es =
    run-IsConsistent (serve timeout) es (record { inv = no_sessions-Inv; pending = tt })
