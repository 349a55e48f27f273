-- ===== src/Udp/Sessions/Spec.antt =====
-- What a forwarder promises of its sessions, whatever stands in its heap: for each source the number
-- of its session and the time of its last activity, if it has one.
pub mod Steps
use wireproxy_homerun.Std.Duration.{below_zero, at_least-sub_time}
use wireproxy_homerun.Prelude.{
  leb, ◌==◌, if◌then◌else◌, Option-cases, ℕ, suc, ◌≡◌, refl, inl, inr, Option, none, some, arith,
  Bool-cases, ◌∙◌, true, List, [], ◌∷◌, Bool, false, ℤ, to_ℕ, ◌+◌,
}
use wireproxy_homerun.Std.{Text, text_eq, text_eq_iff}
use wireproxy_homerun.Udp.Sessions.{
  Heap, lookup, Table, touch_session, add_session, remove_session, reap_sessions, finish, poll,
}
use wireproxy_homerun.Udp.Sessions.Entries.{lookup-delete, lookup-reap, reap-last_active}
use wireproxy_homerun.Udp.Sessions.Invariant.{Inv}

pub record View : Type 0 where
  pub made : ℕ
  pub at : Text → Option (ℕ × ℕ)

entry_of : Heap → Option ℕ → Option (ℕ × ℕ)
entry_of h none = none
entry_of h (some i) = some (i, (h i).last_active)

unfoldable pub view : Table → View
unfolding entry_of
view t = record { made = t.next; at = λ k. entry_of t.heap (lookup k t.sessions) }

abbrev pub refresh : ℕ → ℕ → Option (ℕ × ℕ) → Option (ℕ × ℕ)
refresh i now none = none
refresh i now (some (j, a)) = some (j, if j == i then now else a)

abbrev pub drop : ℕ → Option (ℕ × ℕ) → Option (ℕ × ℕ)
drop i none = none
drop i (some (j, a)) = if j == i then none else some (j, a)

abbrev pub recent : ℕ → ℤ → Option (ℕ × ℕ) → Option (ℕ × ℕ)
recent now dur none = none
recent now dur (some (j, a)) =
    if leb (a + to_ℕ dur) (now + below_zero dur) then none else some (j, a)

-- What brought a step about: a packet of a source, with whether a connection for it can be had; a
-- session's own goroutine, with whether it goes on; the reaper's clock; or nothing that concerns
-- sessions.
pub data Cause : Type 0 where
  by_source : Text → ℕ → Bool → Cause
  by_session : ℕ → ℕ → Bool → Cause
  by_clock : ℕ → Cause
  by_other : Cause

-- What each cause does, with the timeout `dur`; it does nothing only where a source without a session
-- gets no connection, and where nothing concerns sessions.
pub data Change (dur : ℤ) (v w : View) : Cause → Type 0 where
  unchanged : w.made ≡ v.made → ((k : Text) → w.at k ≡ v.at k) → Change dur v w by_other
  refused :
      {src : Text} {now : ℕ}
      → v.at src ≡ none
      → w.made ≡ v.made
      → ((k : Text) → w.at k ≡ v.at k)
      → Change dur v w (by_source src now false)
  renewed :
      {src : Text} {now : ℕ} {dialed : Bool} (i a : ℕ)
      → v.at src ≡ some (i, a)
      → w.made ≡ v.made
      → ((k : Text) → w.at k ≡ refresh i now (v.at k))
      → Change dur v w (by_source src now dialed)
  opened :
      {src : Text} {now : ℕ}
      → v.at src ≡ none
      → w.made ≡ suc v.made
      → ((k : Text) → w.at k ≡ (if text_eq src k then some (v.made, now) else v.at k))
      → Change dur v w (by_source src now true)
  answered :
      {i now : ℕ}
      → w.made ≡ v.made
      → ((k : Text) → w.at k ≡ refresh i now (v.at k))
      → Change dur v w (by_session i now true)
  broken_off :
      {i now : ℕ}
      → w.made ≡ v.made
      → ((k : Text) → w.at k ≡ drop i (v.at k))
      → Change dur v w (by_session i now false)
  swept :
      {now : ℕ}
      → w.made ≡ v.made
      → ((k : Text) → w.at k ≡ recent now dur (v.at k))
      → Change dur v w (by_clock now)

-- A run of the specification: one change for each of the causes, in their order.
pub data Changes (dur : ℤ) : View → List Cause → View → Type 0 where
  at_rest : {v : View} → Changes dur v [] v
  and_then :
      {v w x : View} {c : Cause} {cs : List Cause}
      → Change dur v w c
      → Changes dur w cs x
      → Changes dur v (c ∷ cs) x

pub view-touch_session :
    (i now : ℕ) (t : Table) (k : Text)
    → (view (touch_session i now t)).at k ≡ refresh i now ((view t).at k)
unfolding view
view-touch_session i now t k = elim (Option-cases (lookup k t.sessions)) [
  | inl e ↦ rw e refl
  | inr (j, e) ↦ rw e (ground arith)
]

pub view-add_session :
    (src : Text) (now : ℕ) (t : Table) (k : Text)
    → Inv t
    → (view (add_session src now t)).at k
      ≡ (if text_eq src k then some (t.next, now) else (view t).at k)
unfolding view add_session lookup
view-add_session src now t k v = elim (Option-cases (lookup k t.sessions)) [
  | inl e ↦ ground arith
  | inr (j, e) ↦ ground (arith, v.entry k j)
]

pub view-finish :
    (i : ℕ) (t : Table) (k : Text) → Inv t → (view (finish i t)).at k ≡ drop i ((view t).at k)
unfolding view finish remove_session
view-finish i t k v = elim (Option-cases (lookup k t.sessions)) [
  | inl e ↦ ground (arith, lookup-delete (t.heap i).src k t.sessions)
  | inr (j, e) ↦
      ground (
        arith,
        v.entry k j,
        lookup-delete (t.heap i).src k t.sessions,
        text_eq_iff (t.heap i).src k,
      )
]

-- A session whose channel is closed is not in the map.
drop_closed :
    (i : ℕ) (t : Table) (k : Text)
    → Inv t
    → (t.heap i).chan_closed ≡ true
    → drop i ((view t).at k) ≡ (view t).at k
unfolding view
drop_closed i t k v c = elim (Option-cases (lookup k t.sessions)) [
  | inl e ↦ rw e refl
  | inr (j, e) ↦ ground (arith, v.entry k j)
]

pub view-poll : (i : ℕ) (t : Table) (k : Text) → Inv t → (view (poll i t)).at k ≡ (view t).at k
unfolding poll
view-poll i t k v = elim (Bool-cases (t.heap i).chan_closed) [
  | inl c ↦ rw (c, poll) (view-finish i t k v ∙ drop_closed i t k v c)
  | inr c ↦ rw (c, poll) refl
]

pub view-reap_sessions :
    (now : ℕ) (dur : ℤ) (t : Table) (k : Text)
    → Inv t
    → (view (reap_sessions now dur t)).at k ≡ recent now dur ((view t).at k)
unfolding view reap_sessions
view-reap_sessions now dur t k v = elim (Option-cases (lookup k t.sessions)) [
  | inl e ↦ ground (arith, lookup-reap now dur t.sessions t.heap k v.is_map)
  | inr (j, e) ↦ ground (
    arith,
    at_least-sub_time now (t.heap j).last_active dur,
    lookup-reap now dur t.sessions t.heap k v.is_map,
    reap-last_active now dur t.sessions t.heap j,
  )
]
