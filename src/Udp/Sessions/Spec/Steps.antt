-- ===== src/Udp/Sessions/Spec/Steps.antt =====
-- Each operation on the table is a change of the specification.
use wireproxy_homerun.Prelude.{
  Option-cases, ℕ, ◌≡◌, refl, ap, ◌∙◌, inl, inr, Option, none, some, arith, Bool, true, false, ℤ,
}
use wireproxy_homerun.Std.{Text}
use wireproxy_homerun.Udp.Sessions.{
  lookup, Table, touch_session, add_session, reap_sessions, finish, poll,
}
use wireproxy_homerun.Udp.Sessions.Frame.{finish-next, poll-next}
use wireproxy_homerun.Udp.Sessions.Invariant.{Inv, touch-Inv}
use wireproxy_homerun.Udp.Sessions.Spec.{
  unchanged, renewed, opened, answered, broken_off, swept, view, refresh, drop, by_source,
  by_session, by_clock, Change, view-touch_session, view-add_session, view-finish, view-poll,
  view-reap_sessions, refused, by_other,
}

refresh_twice : (i now : ℕ) (x : Option (ℕ × ℕ)) → refresh i now (refresh i now x) ≡ refresh i now x
refresh_twice i now none = refl
refresh_twice i now (some (j, a)) = ground arith

drop_refreshed : (i now : ℕ) (x : Option (ℕ × ℕ)) → drop i (refresh i now x) ≡ drop i x
drop_refreshed i now none = refl
drop_refreshed i now (some (j, a)) = ground arith

module _ (dur : ℤ) (t : Table) (v : Inv t) where
  -- The session of a source is found, and one packet counts as its activity, once or twice.
  pub found-Change :
      (src : Text) (i now : ℕ) (dialed : Bool)
      → lookup src t.sessions ≡ some i
      → Change dur (view t) (view (touch_session i now t)) (by_source src now dialed)
  unfolding view
  found-Change src i now dialed e =
      renewed i ((t.heap i).last_active) (rw e refl) refl (λ k. view-touch_session i now t k)

  pub found_twice-Change :
      (src : Text) (i now : ℕ) (dialed : Bool)
      → lookup src t.sessions ≡ some i
      → Change dur
          (view t)
          (view (touch_session i now (touch_session i now t)))
          (by_source src now dialed)
  unfolding view
  found_twice-Change src i now dialed e = renewed i ((t.heap i).last_active) (rw e refl) refl (λ k.
      view-touch_session i now (touch_session i now t) k
      ∙ ap (refresh i now) (view-touch_session i now t k)
      ∙ refresh_twice i now ((view t).at k))

  pub added-Change :
      (src : Text) (now : ℕ)
      → lookup src t.sessions ≡ none
      → Change dur (view t) (view (add_session src now t)) (by_source src now true)
  unfolding view add_session
  added-Change src now e = opened (rw e refl) refl (λ k. view-add_session src now t k v)

  pub added_touched-Change :
      (src : Text) (now : ℕ)
      → lookup src t.sessions ≡ none
      → Change dur
          (view t)
          (view (touch_session t.next now (add_session src now t)))
          (by_source src now true)
  unfolding view add_session lookup
  added_touched-Change src now e = opened (rw e refl) refl (λ k.
      elim (Option-cases (lookup k t.sessions)) [
        | inl n ↦ ground arith
        | inr (j, n) ↦ ground (arith, v.entry k j)
      ])

  pub answered-Change :
      (i now : ℕ)
      → Change dur (view t) (view (poll i (touch_session i now t))) (by_session i now true)
  unfolding view
  answered-Change i now = answered (poll-next i (touch_session i now t)) (λ k.
      view-poll i (touch_session i now t) k (touch-Inv i now t v) ∙ view-touch_session i now t k)

  pub broken-Change :
      (i now : ℕ)
      → Change dur (view t) (view (finish i (touch_session i now t))) (by_session i now false)
  unfolding view
  broken-Change i now = broken_off (finish-next i (touch_session i now t)) (λ k.
      view-finish i (touch_session i now t) k (touch-Inv i now t v)
      ∙ ap (drop i) (view-touch_session i now t k)
      ∙ drop_refreshed i now ((view t).at k))

  pub finished-Change :
      (i now : ℕ) → Change dur (view t) (view (finish i t)) (by_session i now false)
  unfolding view
  finished-Change i now = broken_off (finish-next i t) (λ k. view-finish i t k v)

  pub polled-Change : (i : ℕ) → Change dur (view t) (view (poll i t)) by_other
  unfolding view
  polled-Change i = unchanged (poll-next i t) (λ k. view-poll i t k v)

  pub reaped-Change :
      (now : ℕ) → Change dur (view t) (view (reap_sessions now dur t)) (by_clock now)
  unfolding view reap_sessions
  reaped-Change now = swept refl (λ k. view-reap_sessions now dur t k v)

pub same-Change : (dur : ℤ) (t u : Table) → u ≡ t → Change dur (view t) (view u) by_other
same-Change dur t u e =
    unchanged (ap (λ (x : Table). (view x).made) e) (λ k. ap (λ (x : Table). (view x).at k) e)

-- A source that has no session gets none.
pub refused-Change :
    (dur : ℤ) (t : Table) (src : Text) (now : ℕ)
    → lookup src t.sessions ≡ none
    → Change dur (view t) (view t) (by_source src now false)
unfolding view
refused-Change dur t src now e = refused (rw e refl) refl (λ k. refl)
