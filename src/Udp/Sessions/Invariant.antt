-- ===== src/Udp/Sessions/Invariant.antt =====
-- The session table is consistent, and every operation on it keeps it so.
use wireproxy_homerun.Prelude.{
  ◌==◌, Bool-cases, Option-cases, ℕ, ◌≤◌, ◌<◌, ◌≡◌, refl, inl, inr, true, false, none, some, arith,
  ℤ,
}
use wireproxy_homerun.Std.{Text, text_eq_iff, text_eq_refl}
use wireproxy_homerun.Udp.Sessions.{
  lookup, delete, close_chan, end_session, Table, no_sessions, touch_session, add_session,
  remove_session, reap_sessions, finish, poll,
}
use wireproxy_homerun.Udp.Sessions.Entries.{
  IsMap, lookup-holds, lookup-delete, delete-IsMap, reap-chan_closed, lookup-reap, reap-IsMap,
  reap-src, reap-conn_closed, reap-running,
}

pub record Inv (t : Table) : Type 0 where
  pub is_map : IsMap t.sessions
  -- What the map holds is an open session of that source.
  pub entry :
      (k : Text) (i : ℕ)
      → lookup k t.sessions ≡ some i
      → (i < t.next) × ((t.heap i).src ≡ k) × ((t.heap i).chan_closed ≡ false)
  -- An open session is the one that the map holds for its source.
  pub held :
      (i : ℕ)
      → i < t.next
      → (t.heap i).chan_closed ≡ false
      → lookup (t.heap i).src t.sessions ≡ some i
  -- A goroutine that has returned closed its connection, and its session is closed.
  pub ended :
      (i : ℕ)
      → (t.heap i).running ≡ false
      → ((t.heap i).conn_closed ≡ true) × ((t.heap i).chan_closed ≡ true)
  pub fresh : (i : ℕ) → t.next ≤ i → (t.heap i).running ≡ false

pub no_sessions-Inv : Inv no_sessions
unfolding lookup
no_sessions-Inv = record {
  is_map = tt;
  entry = λ k i e. cc;
  held = λ i b c. cc;
  ended = λ i r. (refl, refl);
  fresh = λ i b. refl;
}

pub touch-Inv : (i now : ℕ) (t : Table) → Inv t → Inv (touch_session i now t)
touch-Inv i now t v = record {
  is_map = v.is_map;
  entry = λ k j e. ground (arith, v.entry k j);
  held = λ j b c. ground (arith, v.held j);
  ended = λ j r. ground (arith, v.ended j);
  fresh = λ j b. ground (arith, v.fresh j);
}

pub add_session-Inv :
    (src : Text) (now : ℕ) (t : Table)
    → lookup src t.sessions ≡ none
    → Inv t
    → Inv (add_session src now t)
unfolding add_session lookup
add_session-Inv src now t new v = record {
  is_map = (new, v.is_map);
  entry = λ k j e. ground (arith, v.entry k j, text_eq_iff src k);
  held = λ j b c. ground (arith, v.held j, text_eq_iff src (t.heap j).src, text_eq_refl src);
  ended = λ j r. ground (arith, v.ended j);
  fresh = λ j b. ground (arith, v.fresh j);
}

-- The removal of the session that the map holds for `src`.
drop-Inv :
    (src : Text) (i : ℕ) (t : Table)
    → lookup src t.sessions ≡ some i
    → Inv t
    → Inv (record t { heap = close_chan t.heap i; sessions = delete src t.sessions })
drop-Inv src i t h v = record {
  is_map = delete-IsMap src t.sessions v.is_map;
  entry = λ k j e.
      ground (arith, v.entry k j, v.entry src i, lookup-delete src k t.sessions, text_eq_iff src k);
  held = λ j b c. ground (
    arith,
    v.held j,
    v.entry src i,
    lookup-delete src (t.heap j).src t.sessions,
    text_eq_iff src (t.heap j).src,
  );
  ended = λ j r. ground (arith, v.ended j);
  fresh = λ j b. ground (arith, v.fresh j);
}

remove_session-Inv : (src : Text) (i : ℕ) (t : Table) → Inv t → Inv (remove_session src i t)
unfolding remove_session
remove_session-Inv src i t v = elim (Option-cases (lookup src t.sessions)) [
  | inl e ↦ rw (e, remove_session) v
  | inr (j, e) ↦
      rw (e, remove_session)
        (elim (Bool-cases (j == i)) [ inl q ↦ rw q (drop-Inv src j t e v) | inr q ↦ rw q v ])
]

pub reap_sessions-Inv : (now : ℕ) (dur : ℤ) (t : Table) → Inv t → Inv (reap_sessions now dur t)
unfolding reap_sessions
reap_sessions-Inv now dur t v =
    let m = t.sessions in
    let h = t.heap in
    record {
      is_map = reap-IsMap now dur m h v.is_map;
      entry = λ k i e. ground (
        arith,
        v.entry k i,
        lookup-reap now dur m h k v.is_map,
        reap-src now dur m h i,
        reap-chan_closed now dur m h i,
      );
      held = λ i b c. ground (
        arith,
        v.held i,
        lookup-reap now dur m h (h i).src v.is_map,
        reap-src now dur m h i,
        reap-chan_closed now dur m h i,
        lookup-holds (h i).src i m,
      );
      ended = λ i r. ground (
        arith,
        v.ended i,
        reap-conn_closed now dur m h i,
        reap-running now dur m h i,
        reap-chan_closed now dur m h i,
      );
      fresh = λ i b. ground (arith, v.fresh i, reap-running now dur m h i);
    }

-- After the removal the session is closed.
remove_session-closed :
    (i : ℕ) (t : Table)
    → i < t.next
    → Inv t
    → ((remove_session (t.heap i).src i t).heap i).chan_closed ≡ true
unfolding remove_session
remove_session-closed i t b v = ground (arith, v.held i)

ended-Inv :
    (i : ℕ) (t : Table)
    → (t.heap i).chan_closed ≡ true
    → Inv t
    → Inv (record t { heap = end_session t.heap i })
ended-Inv i t c v = record {
  is_map = v.is_map;
  entry = λ k j e. ground (arith, v.entry k j);
  held = λ j b c. ground (arith, v.held j);
  ended = λ j r. ground (arith, v.ended j);
  fresh = λ j b. ground (arith, v.fresh j);
}

pub finish-Inv : (i : ℕ) (t : Table) → i < t.next → Inv t → Inv (finish i t)
unfolding finish
finish-Inv i t b v =
    ended-Inv i _ (remove_session-closed i t b v) (remove_session-Inv (t.heap i).src i t v)

pub touch_session-running :
    (i now : ℕ) (t : Table)
    → (t.heap i).running ≡ true
    → ((touch_session i now t).heap i).running ≡ true
touch_session-running i now t r = ground arith

-- A goroutine that runs was started.
pub running-lt : (i : ℕ) (t : Table) → Inv t → (t.heap i).running ≡ true → i < t.next
running-lt i t v r = ground (arith, v.fresh i)

pub poll-Inv : (i : ℕ) (t : Table) → (t.heap i).running ≡ true → Inv t → Inv (poll i t)
unfolding poll
poll-Inv i t r v = elim (Bool-cases (t.heap i).chan_closed) [
  | inl c ↦ rw c (finish-Inv i t (running-lt i t v r) v)
  | inr c ↦ rw c v
]
