-- ===== src/Udp/Proxy.antt =====
-- udp_proxy.go: the tunnel from a local UDP socket to a target behind the WireGuard interface.
-- A step is what one goroutine does between two points where another may run: under the mutex,
-- or from one wait to the next. What a socket, the clock or a dial answers is part of the event.
pub mod Invariant
pub mod Sources
pub mod Expiry
pub mod Stopping
pub mod Loop
pub mod Refinement
use wireproxy_homerun.Std.Duration.{seconds}
use wireproxy_homerun.Udp.ServerTunnel.{dialed}
use wireproxy_homerun.Prelude.{
  ℤ, to_ℕ, ltb, if◌then◌else◌, ℕ, Bool, true, false, Option, none, some, List, [], ◌∷◌,
}
use wireproxy_homerun.Shutdown.{Shutdown, mark_closed, closed_by_us}
use wireproxy_homerun.Std.{Error, Text}
use wireproxy_homerun.Udp.Sessions.{
  lookup, Table, no_sessions, touch_session, add_session, reap_sessions, finish, poll,
}

pub record Proxy : Type 0 where
  pub table : Table
  pub open table use *
  pub inactivity : ℤ
  pub serving : Bool
  pub reaping : Bool
  pub done : Bool
  pub shutdown : Shutdown

-- What leaves the process: a write to a session's remote connection, a write to a local client.
pub data Action : Type 0 where
  forward : ℕ → Text → Action
  reply : Text → Text → Action

-- The state in which Serve enters its loop; the reaper is started for a positive timeout.
unfoldable pub serve : ℤ → Proxy
unfolding seconds
serve timeout = record {
  table = no_sessions;
  inactivity = seconds timeout;
  serving = true;
  reaping = ltb 0 (to_ℕ timeout);
  done = false;
  shutdown = record { closed = false };
}

-- `dialed` is whether the dial to the target succeeds.
unfoldable pub get_or_create_session : Text → ℕ → Bool → Table → Option ℕ × Table
unfolding add_session
get_or_create_session src now dialed t = elim (lookup src t.sessions) [
  | some i ↦ (some i, touch_session i now t)
  | none ↦ if dialed then (some t.next, add_session src now t) else (none, t)
]

send : ℕ → Text → Proxy → Option ℕ × Table → Proxy × List Action
send now payload p (none, t) = (record p { table = t }, [])
send now payload p (some i, t) =
    (record p { table = touch_session i now t }, forward i payload ∷ [])

-- One packet of the main loop.
unfoldable pub receive : Text → Text → ℕ → Bool → Proxy → Proxy × List Action
unfolding send get_or_create_session
receive src payload now dialed p = send now payload p (get_or_create_session src now dialed p.table)

-- A read of the main loop that fails: the loop ends if the tunnel was closed, and goes on else.
unfoldable pub read_failed : Error → Proxy → Proxy
unfolding closed_by_us
read_failed e p = if closed_by_us p.shutdown (some e) then record p { serving = false } else p

-- One tick of the reaper.
unfoldable pub tick : ℕ → Proxy → Proxy
unfolding reap_sessions
tick now p = record p { table = reap_sessions now p.inactivity p.table }

-- A read of handleRemoteToLocal that times out: the loop looks at closeChan and reads again.
unfoldable pub read_timeout : ℕ → Proxy → Proxy
unfolding poll
read_timeout i p = record p { table = poll i p.table }

-- Any other read error ends the goroutine.
unfoldable pub read_fails : ℕ → Proxy → Proxy
unfolding finish
read_fails i p = record p { table = finish i p.table }

-- A datagram from the target; `resolved` and `written` are how the two calls behind it end. After
-- it the loop looks at closeChan.
unfoldable pub datagram : ℕ → Text → ℕ → Bool → Bool → Proxy → Proxy × List Action
unfolding finish poll
datagram i payload now resolved written p =
    let t = touch_session i now p.table in
    if resolved
    then (
      record p { table = if written then poll i t else finish i t },
      reply (p.heap i).src payload ∷ [],
    )
    else (record p { table = finish i t }, [])

-- Close, up to the listener's own close; the guarded close of a closed channel changes nothing.
unfoldable pub close : Proxy → Proxy
unfolding mark_closed
close p = record p { done = true; shutdown = mark_closed p.shutdown }

pub data Event : Type 0 where
  packet : Text → Text → ℕ → Bool → Event
  read_error : Error → Event
  ticker : ℕ → Event
  reaper_done : Event
  timed_out : ℕ → Event
  read_fault : ℕ → Event
  remote_data : ℕ → Text → ℕ → Bool → Bool → Event
  close_called : Event

-- An event of a goroutine that is not there, or of a channel that is not closed, does not happen.
unfoldable pub step : Proxy → Event → Proxy × List Action
unfolding receive read_failed tick read_timeout read_fails datagram close
step p (packet src payload now dialed) =
    if p.serving then receive src payload now dialed p else (p, [])
step p (read_error e) = if p.serving then (read_failed e p, []) else (p, [])
step p (ticker now) = if p.reaping then (tick now p, []) else (p, [])
step p reaper_done = if p.done then (record p { reaping = false }, []) else (p, [])
step p (timed_out i) = if (p.heap i).running then (read_timeout i p, []) else (p, [])
step p (read_fault i) = if (p.heap i).running then (read_fails i p, []) else (p, [])
step p (remote_data i payload now resolved written) =
    if (p.heap i).running then datagram i payload now resolved written p else (p, [])
step p close_called = (close p, [])

unfoldable pub run : Proxy → List Event → Proxy
run p [] = p
run p (e ∷ es) = run (step p e).0 es
