-- ===== src/Udp/ServerTunnel.antt =====
-- udp_server_tunnel.go: the tunnel from the WireGuard interface to a local UDP target. Here the
-- main loop takes the mutex twice for a new source, once to look it up and once to enter it, and
-- dials in between; so its position in the loop body is a part of the state.
pub mod Invariant
pub mod Traffic
pub mod Routing
pub mod Refinement
use wireproxy_homerun.Std.Duration.{seconds}
use wireproxy_homerun.Shutdown.{Shutdown, mark_closed, closed_by_us}
use wireproxy_homerun.Prelude.{
  ℤ, to_ℕ, ltb, if◌then◌else◌, ℕ, Bool, true, false, ◌&&◌, none, some, List, [], ◌∷◌,
}
use wireproxy_homerun.Std.{Error, Text}
use wireproxy_homerun.Udp.Sessions.{
  lookup, Table, no_sessions, touch_session, add_session, remove_session, reap_sessions, finish,
  poll,
}

-- Where the main loop stands: at ReadFrom, at the dial for a source that it did not find, at the
-- write of a packet on a session's connection.
pub data Position : Type 0 where
  reading : Position
  dialing : Text → Text → Position
  writing : ℕ → Text → Position

pub record Tunnel : Type 0 where
  pub table : Table
  pub open table use *
  pub position : Position
  pub inactivity : ℤ
  pub serving : Bool
  pub reaping : Bool
  pub done : Bool
  pub shutdown : Shutdown

-- A write on a session's connection to the target, a write to a WireGuard peer.
pub data Action : Type 0 where
  to_target : ℕ → Text → Action
  to_peer : Text → Text → Action

unfoldable pub serve : ℤ → Tunnel
unfolding seconds
serve timeout = record {
  table = no_sessions;
  position = reading;
  inactivity = seconds timeout;
  serving = true;
  reaping = ltb 0 (to_ℕ timeout);
  done = false;
  shutdown = record { closed = false };
}

-- closeSession
unfoldable pub close_session : Text → ℕ → Tunnel → Tunnel
unfolding remove_session
close_session key i s = record s { table = remove_session key i s.table }

-- A packet is read: the lookup under the mutex.
unfoldable pub receive : Text → Text → ℕ → Tunnel → Tunnel
receive src payload now s = elim (lookup src s.sessions) [
  | some i ↦ record s { table = touch_session i now s.table; position = writing i payload }
  | none ↦ record s { position = dialing src payload }
]

-- The dial returns; a new session is entered under the mutex.
unfoldable pub dialed : Bool → ℕ → Text → Text → Tunnel → Tunnel
unfolding add_session
dialed true now src payload s = record s {
  table = add_session src now s.table;
  position = writing s.next payload;
}
dialed false now src payload s = record s { position = reading }

-- A read that fails: the loop ends if the tunnel was closed, and goes on else.
unfoldable pub read_failed : Error → Tunnel → Tunnel
unfolding closed_by_us
read_failed e s = if closed_by_us s.shutdown (some e) then record s { serving = false } else s

unfoldable pub tick : ℕ → Tunnel → Tunnel
unfolding reap_sessions
tick now s = record s { table = reap_sessions now s.inactivity s.table }

-- The goroutine of a session: a read that times out, one that fails, one that delivers; after a
-- timeout and a delivery the loop looks at closeChan. Its two deferred calls are one step.
unfoldable pub read_timeout : ℕ → Tunnel → Tunnel
unfolding poll
read_timeout i s = record s { table = poll i s.table }

unfoldable pub read_fails : ℕ → Tunnel → Tunnel
unfolding finish
read_fails i s = record s { table = finish i s.table }

unfoldable pub response : ℕ → Text → ℕ → Bool → Tunnel → Tunnel × List Action
unfolding finish poll
response i payload now written s =
    let t = touch_session i now s.table in
    (
      record s { table = if written then poll i t else finish i t },
      to_peer (s.heap i).src payload ∷ [],
    )

-- Close, up to the listener's own close.
unfoldable pub close : Tunnel → Tunnel
unfolding mark_closed
close s = record s { done = true; shutdown = mark_closed s.shutdown }

pub data Event : Type 0 where
  packet : Text → Text → ℕ → Event
  foreign_address : Event
  dial_result : Bool → ℕ → Event
  write_result : Event
  read_error : Error → Event
  ticker : ℕ → Event
  reaper_done : Event
  timed_out : ℕ → Event
  read_fault : ℕ → Event
  target_data : ℕ → Text → ℕ → Bool → Event
  close_called : Event

-- The steps of the main loop, by its position.
on_packet : Position → Text → Text → ℕ → Tunnel → Tunnel
unfolding receive
on_packet reading src payload now s = receive src payload now s
on_packet _ src payload now s = s

on_dial_result : Position → Bool → ℕ → Tunnel → Tunnel
unfolding dialed
on_dial_result (dialing src payload) result now s = dialed result now src payload s
on_dial_result _ result now s = s

pub on_write_result : Position → Tunnel → Tunnel × List Action
on_write_result (writing i payload) s = (record s { position = reading }, to_target i payload ∷ [])
on_write_result _ s = (s, [])

pub on_read_error : Position → Error → Tunnel → Tunnel
unfolding read_failed
on_read_error reading e s = read_failed e s
on_read_error _ e s = s

-- An event of a goroutine that is not there, or not at that position, does not happen. A read of a
-- session times out only under a deadline, which is set for a positive timeout.
unfoldable pub step : Tunnel → Event → Tunnel × List Action
unfolding on_packet on_dial_result on_write_result on_read_error tick read_timeout read_fails
    response close
step s (packet src payload now) =
    if s.serving then (on_packet s.position src payload now s, []) else (s, [])
step s foreign_address = (s, [])
step s (dial_result result now) =
    if s.serving then (on_dial_result s.position result now s, []) else (s, [])
step s write_result = if s.serving then on_write_result s.position s else (s, [])
step s (read_error e) = if s.serving then (on_read_error s.position e s, []) else (s, [])
step s (ticker now) = if s.reaping then (tick now s, []) else (s, [])
step s reaper_done = if s.done then (record s { reaping = false }, []) else (s, [])
step s (timed_out i) =
    if (s.heap i).running && ltb 0 (to_ℕ s.inactivity) then (read_timeout i s, []) else (s, [])
step s (read_fault i) = if (s.heap i).running then (read_fails i s, []) else (s, [])
step s (target_data i payload now written) =
    if (s.heap i).running then response i payload now written s else (s, [])
step s close_called = (close s, [])

unfoldable pub run : Tunnel → List Event → Tunnel
run s [] = s
run s (e ∷ es) = run (step s e).0 es
