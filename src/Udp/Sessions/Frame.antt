-- ===== src/Udp/Sessions/Frame.antt =====
-- What an operation leaves of the sessions that it does not concern.
use wireproxy_homerun.Std.Duration.{below_zero, at_least-sub_time}
use wireproxy_homerun.Prelude.{
  leb, ◌==◌, if◌then◌else◌, Bool-cases, ℕ, ◌≤◌, ◌<◌, ◌≡◌, refl, ◌∙◌, ◌≢◌, inl, inr, true, false,
  none, some, arith, ℤ, to_ℕ, ◌+◌,
}
use wireproxy_homerun.Std.{Text}
use wireproxy_homerun.Udp.Sessions.{
  lookup, Table, touch_session, add_session, remove_session, reap_sessions, finish, poll,
}
use wireproxy_homerun.Udp.Sessions.Entries.{lookup-holds, reap-chan_closed, lookup-reap, reap-src}
use wireproxy_homerun.Udp.Sessions.Invariant.{Inv}

remove_session-src :
    (src : Text) (i j : ℕ) (t : Table) → ((remove_session src i t).heap j).src ≡ (t.heap j).src
unfolding remove_session
remove_session-src src i j t = ground arith

finish-src : (i j : ℕ) (t : Table) → ((finish i t).heap j).src ≡ (t.heap j).src
unfolding finish
finish-src i j t =
    ground (arith, remove_session-src (t.heap i).src i j t, remove_session-src (t.heap i).src i i t)

pub finish-next : (i : ℕ) (t : Table) → (finish i t).next ≡ t.next
unfolding finish remove_session
finish-next i t = ground arith

pub poll-next : (i : ℕ) (t : Table) → (poll i t).next ≡ t.next
unfolding poll
poll-next i t = ground (arith, finish-next i t)

-- Session `j` keeps its source, and no index is used twice.
pub record Keeps (j : ℕ) (t u : Table) : Type 0 where
  pub src : (u.heap j).src ≡ (t.heap j).src
  pub next : t.next ≤ u.next

pub finish-Keeps : (i : ℕ) (t : Table) (j : ℕ) → Keeps j t (finish i t)
finish-Keeps i t j = record { src = finish-src i j t; next = omega (arith, finish-next i t) }

pub poll-Keeps : (i : ℕ) (t : Table) (j : ℕ) → Keeps j t (poll i t)
unfolding poll
poll-Keeps i t j = record {
  src = ground (arith, finish-src i j t);
  next = ground (arith, finish-next i t);
}

pub add_session-Keeps :
    (src : Text) (now : ℕ) (t : Table) (j : ℕ) → j < t.next → Keeps j t (add_session src now t)
unfolding add_session
add_session-Keeps src now t j b = record { src = ground arith; next = omega arith }

pub reap_sessions-Keeps :
    (now : ℕ) (dur : ℤ) (t : Table) (j : ℕ) → Keeps j t (reap_sessions now dur t)
unfolding reap_sessions
reap_sessions-Keeps now dur t j = record {
  src = reap-src now dur t.sessions t.heap j;
  next = omega arith;
}

pub touch_session-Keeps : (i now : ℕ) (t : Table) (j : ℕ) → Keeps j t (touch_session i now t)
touch_session-Keeps i now t j = record { src = ground arith; next = omega arith }

pub Keeps-trans : {j : ℕ} {t u v : Table} → Keeps j t u → Keeps j u v → Keeps j t v
Keeps-trans k l = record { src = l.src ∙ k.src; next = omega arith }

pub Keeps-refl : (j : ℕ) (t : Table) → Keeps j t t
Keeps-refl j t = record { src = refl; next = omega arith }

-- A session whose goroutine runs, with its channel and its connection open.
pub record IsOpen (i : ℕ) (t : Table) : Type 0 where
  pub runs : (t.heap i).running ≡ true
  pub chan_open : (t.heap i).chan_closed ≡ false
  pub conn_open : (t.heap i).conn_closed ≡ false

-- The end of one session leaves every other open.
pub finish-IsOpen : (i j : ℕ) (t : Table) → (j == i) ≡ false → IsOpen i t → IsOpen i (finish j t)
unfolding finish remove_session
finish-IsOpen i j t n v = ground arith

pub poll-IsOpen : (i j : ℕ) (t : Table) → IsOpen i t → IsOpen i (poll j t)
unfolding poll
poll-IsOpen i j t v = elim (Bool-cases (j == i)) [
  | inl e ↦ ground arith
  | inr n ↦ ground (arith, finish-IsOpen i j t n v)
]

pub touch_session-IsOpen : (i j now : ℕ) (t : Table) → IsOpen i t → IsOpen i (touch_session j now t)
touch_session-IsOpen i j now t v = ground arith

-- A goroutine whose channel is closed returns at its next look at it, and closes its connection.
pub poll_closed :
    (i : ℕ) (t : Table)
    → (t.heap i).chan_closed ≡ true
    → (((poll i t).heap i).running ≡ false) × (((poll i t).heap i).conn_closed ≡ true)
unfolding poll finish
poll_closed i t c = (ground arith, ground arith)

-- A goroutine that returns late, when its source already has a newer session, leaves that session
-- in the map and open.
pub finish_stale_lem :
    (i j : ℕ) (t : Table)
    → lookup (t.heap i).src t.sessions ≡ some j
    → j ≢ i
    → (lookup (t.heap i).src (finish i t).sessions ≡ some j)
      × (((finish i t).heap j).chan_closed ≡ (t.heap j).chan_closed)
unfolding finish remove_session
finish_stale_lem i j t e n = (ground arith, ground arith)

-- A round of the reaper removes the session of a source, and closes its channel, exactly when the
-- session has been inactive for the timeout; otherwise both stay.
pub reap_sessions_expiry :
    (now : ℕ) (dur : ℤ) (t : Table) (k : Text) (i : ℕ)
    → Inv t
    → lookup k t.sessions ≡ some i
    → (lookup k (reap_sessions now dur t).sessions
        ≡ (if leb ((t.heap i).last_active + to_ℕ dur) (now + below_zero dur) then none else some i))
      × (((reap_sessions now dur t).heap i).chan_closed
          ≡ leb ((t.heap i).last_active + to_ℕ dur) (now + below_zero dur))
unfolding reap_sessions
reap_sessions_expiry now dur t k i v e = (
  ground (
    arith,
    at_least-sub_time now (t.heap i).last_active dur,
    lookup-reap now dur t.sessions t.heap k v.is_map,
  ),
  ground (
    arith,
    at_least-sub_time now (t.heap i).last_active dur,
    v.entry k i,
    reap-chan_closed now dur t.sessions t.heap i,
    lookup-holds k i t.sessions,
  ),
)
