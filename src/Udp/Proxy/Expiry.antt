-- ===== src/Udp/Proxy/Expiry.antt =====
-- When a session ends.
use wireproxy_homerun.Std.Duration.{below_zero}
use wireproxy_homerun.Prelude.{leb, if◌then◌else◌, ℕ, ◌≡◌, ◌≢◌, true, false, none, some, to_ℕ, ◌+◌}
use wireproxy_homerun.Std.{Text}
use wireproxy_homerun.Udp.Proxy.{Proxy, tick, read_timeout, read_fails, timed_out, step}
use wireproxy_homerun.Udp.Sessions.{lookup}
use wireproxy_homerun.Udp.Sessions.Frame.{poll_closed, finish_stale_lem, reap_sessions_expiry}
use wireproxy_homerun.Udp.Sessions.Invariant.{Inv}

-- A tick of the reaper removes the session of a source, and closes its channel, exactly when the time
-- since its last activity is no less than the tunnel's duration, which may be negative; otherwise both
-- stay.
pub tick_expiry :
    (now : ℕ) (p : Proxy) (k : Text) (i : ℕ)
    → Inv p.table
    → lookup k p.sessions ≡ some i
    → (lookup k (tick now p).sessions ≡ (
        if leb ((p.heap i).last_active + to_ℕ p.inactivity) (now + below_zero p.inactivity)
        then none
        else some i))
      × (((tick now p).heap i).chan_closed
          ≡ leb ((p.heap i).last_active + to_ℕ p.inactivity) (now + below_zero p.inactivity))
unfolding tick
tick_expiry now p k i v e = reap_sessions_expiry now p.inactivity p.table k i v e

-- The goroutine of a session whose channel is closed returns at its next read timeout, and closes
-- its connection.
closed_session_ends :
    (i : ℕ) (p : Proxy)
    → (p.heap i).chan_closed ≡ true
    → (p.heap i).running ≡ true
    → (((step p (timed_out i)).0.heap i).running ≡ false)
      × (((step p (timed_out i)).0.heap i).conn_closed ≡ true)
unfolding step read_timeout
closed_session_ends i p c r = rw r (poll_closed i p.table c)

-- A goroutine whose read fails late, when its source already has a newer session, leaves that
-- session in the map and its channel as it was.
read_fails_stale :
    (i j : ℕ) (p : Proxy)
    → lookup (p.heap i).src p.sessions ≡ some j
    → j ≢ i
    → (lookup (p.heap i).src (read_fails i p).sessions ≡ some j)
      × (((read_fails i p).heap j).chan_closed ≡ (p.heap j).chan_closed)
unfolding read_fails
read_fails_stale i j p e n = finish_stale_lem i j p.table e n
