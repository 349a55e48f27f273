-- ===== src/Udp/ServerTunnel/Traffic.antt =====
-- What the tunnel sends, and when it stops.
use wireproxy_homerun.Udp.Sessions.Frame.{
  Keeps, finish-Keeps, poll-Keeps, add_session-Keeps, reap_sessions-Keeps, touch_session-Keeps,
  Keeps-trans, Keeps-refl,
}
use wireproxy_homerun.Prelude.{
  ℕ, ◌≡◌, true, false, none, some, [], ◌∷◌, arith, ltb, if◌then◌else◌, ◌<◌, refl, Bool, ◌&&◌, List,
  to_ℕ,
}
use wireproxy_homerun.Std.{Text, Error, text_eq_refl}
use wireproxy_homerun.Udp.ServerTunnel.{
  reading, Tunnel, to_target, dialed, dial_result, write_result, on_packet, on_dial_result,
  on_write_result, receive, packet, step, Action, read_failed, tick, read_timeout, read_fails,
  close, Event, read_error, ticker, timed_out, read_fault, run, Position, dialing, writing,
  response, target_data, on_read_error,
}
use wireproxy_homerun.Udp.Sessions.{lookup, add_session, touch_session}

-- A packet of a source without a session, through its three steps: if the dial succeeds it is
-- written on the connection of a new session, which the map holds for the source; if the dial fails
-- the packet is dropped and the table is as it was.
new_source :
    (src payload : Text) (now later : ℕ) (s : Tunnel)
    → s.serving ≡ true
    → s.position ≡ reading
    → lookup src s.sessions ≡ none
    → let p = (step s (packet src payload now)).0 in
      let q = (step p (dial_result true later)).0 in
      ((step q write_result).1 ≡ to_target s.next payload ∷ [])
      × (lookup src (step q write_result).0.sessions ≡ some s.next)
      × ((step p (dial_result false later)).0.table ≡ s.table)
      × ((step p (dial_result false later)).0.position ≡ reading)
unfolding step on_packet on_dial_result on_write_result receive dialed add_session lookup
new_source src payload now later s v r e =
    (ground arith, ground (arith, text_eq_refl src), ground arith, ground arith)

-- A packet of a source with a session is written on that session's connection, and counts as its
-- latest activity.
known_source :
    (src payload : Text) (now : ℕ) (s : Tunnel) (i : ℕ)
    → s.serving ≡ true
    → s.position ≡ reading
    → lookup src s.sessions ≡ some i
    → let p = (step s (packet src payload now)).0 in
      ((step p write_result).1 ≡ to_target i payload ∷ []) × ((p.heap i).last_active ≡ now)
unfolding step on_packet on_write_result receive
known_source src payload now s i v r e = (ground arith, ground arith)

-- What a step leaves of the sessions that there were.
on_packet-Keeps :
    (q : Position) (src payload : Text) (now : ℕ) (s : Tunnel) (j : ℕ)
    → Keeps j s.table (on_packet q src payload now s).table
unfolding on_packet receive
on_packet-Keeps reading src payload now s j = record { src = ground arith; next = ground arith }
on_packet-Keeps _ src payload now s j = Keeps-refl j s.table

on_dial_result-Keeps :
    (q : Position) (result : Bool) (now : ℕ) (s : Tunnel) (j : ℕ)
    → j < s.next
    → Keeps j s.table (on_dial_result q result now s).table
unfolding on_dial_result dialed
on_dial_result-Keeps (dialing src payload) true now s j b = add_session-Keeps src now s.table j b
on_dial_result-Keeps (dialing src payload) false now s j b = Keeps-refl j s.table
on_dial_result-Keeps _ result now s j b = Keeps-refl j s.table

pub on_write_result-table : (q : Position) (s : Tunnel) → (on_write_result q s).0.table ≡ s.table
unfolding on_write_result
on_write_result-table (writing i payload) s = refl
on_write_result-table _ s = refl

pub on_read_error-table :
    (q : Position) (e : Error) (s : Tunnel) → (on_read_error q e s).table ≡ s.table
unfolding on_read_error read_failed
on_read_error-table reading e s = ground arith
on_read_error-table _ e s = refl

response-Keeps :
    (i : ℕ) (payload : Text) (now : ℕ) (written : Bool) (s : Tunnel) (j : ℕ)
    → Keeps j s.table (response i payload now written s).0.table
unfolding response
response-Keeps i payload now true s j =
    Keeps-trans (touch_session-Keeps i now s.table j) (poll-Keeps i (touch_session i now s.table) j)
response-Keeps i payload now false s j =
    Keeps-trans (touch_session-Keeps i now s.table j)
      (finish-Keeps i (touch_session i now s.table) j)

guarded-Keeps :
    (j : ℕ) (b : Bool) (s : Tunnel) (r : Tunnel × List Action)
    → Keeps j s.table r.0.table
    → Keeps j s.table (if b then r else (s, [])).0.table
guarded-Keeps j true s r k = k
guarded-Keeps j false s r k = Keeps-refl j s.table

step-Keeps : (s : Tunnel) (e : Event) (j : ℕ) → j < s.next → Keeps j s.table (step s e).0.table
unfolding step close
step-Keeps s (packet src payload now) j b =
    guarded-Keeps j s.serving s _ (on_packet-Keeps s.position src payload now s j)
step-Keeps s (dial_result result now) j b =
    guarded-Keeps j s.serving s _ (on_dial_result-Keeps s.position result now s j b)
step-Keeps s write_result j b =
    guarded-Keeps j s.serving s _ (rw (on_write_result-table s.position s) (Keeps-refl j s.table))
step-Keeps s (read_error e) j b =
    guarded-Keeps j s.serving s _ (rw (on_read_error-table s.position e s) (Keeps-refl j s.table))
step-Keeps s (ticker now) j b =
    guarded-Keeps j s.reaping s _ (unfold tick in reap_sessions-Keeps now s.inactivity s.table j)
step-Keeps s (timed_out i) j b =
    guarded-Keeps j ((s.heap i).running && ltb 0 (to_ℕ s.inactivity)) s _
      (unfold read_timeout in poll-Keeps i s.table j)
step-Keeps s (read_fault i) j b =
    guarded-Keeps j (s.heap i).running s _ (unfold read_fails in finish-Keeps i s.table j)
step-Keeps s (target_data i payload now written) j b =
    guarded-Keeps j (s.heap i).running s _ (response-Keeps i payload now written s j)
step-Keeps s _ j b = record { src = ground arith; next = ground arith }

pub run-Keeps :
    (s : Tunnel) (es : List Event) (j : ℕ) → j < s.next → Keeps j s.table (run s es).table
unfolding run
run-Keeps s [] j b = Keeps-refl j s.table
run-Keeps s (e ∷ es) j b =
    let k = step-Keeps s e j b in
    Keeps-trans k (run-Keeps (step s e).0 es j (omega (arith, k.next)))
