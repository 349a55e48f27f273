-- ===== src/Udp/Sessions/Entries.antt =====
-- Laws of the session map, and what the reaper does to it.
use wireproxy_homerun.Prelude.{
  any, ◌==◌, if◌then◌else◌, ℕ, ◌≡◌, Bool, true, none, some, [], ◌∷◌, arith, refl, ◌&&◌, ◌||◌,
  Bool-cases, ◌∙◌, inl, inr, Option-cases, Option, ℤ,
}
use wireproxy_homerun.Std.{Text, text_eq, text_eq_iff}
use wireproxy_homerun.Udp.Sessions.{
  Entries, lookup, delete, Heap, close_chan, expired, reap, Session,
}

-- No source address is in the map twice.
abbrev pub IsMap : Entries → Type 0
IsMap [] = Unit {0}
IsMap ((k, i) ∷ m) = (lookup k m ≡ none) × IsMap m

abbrev pub holds : ℕ → Entries → Bool
holds i m = any (λ e. e.1 == i) m

pub lookup-holds : (k : Text) (i : ℕ) (m : Entries) → lookup k m ≡ some i → holds i m ≡ true
unfolding lookup
lookup-holds k i [] h = cc
lookup-holds k i ((j, n) ∷ m) h = ground (arith, lookup-holds k i m)

pub lookup-delete :
    (k j : Text) (m : Entries) → lookup j (delete k m) ≡ (if text_eq k j then none else lookup j m)
unfolding lookup delete
lookup-delete k j [] = ground arith
lookup-delete k j ((n, i) ∷ m) =
    ground (arith, lookup-delete k j m, text_eq_iff k j, text_eq_iff n k, text_eq_iff n j)

pub delete-IsMap : (k : Text) (m : Entries) → IsMap m → IsMap (delete k m)
unfolding delete
delete-IsMap k [] h = tt
delete-IsMap k ((j, i) ∷ m) h =
    ground (arith, delete-IsMap k m h.1, lookup-delete k j m, text_eq_iff k j, text_eq_iff j k)

-- The entries that a round of the reaper leaves, read off the heap as it was before the round.
live : ℕ → ℤ → Heap → Entries → Entries
live now dur h [] = []
live now dur h ((k, i) ∷ m) =
    let rest = live now dur h m in if expired now dur (h i) then rest else (k, i) ∷ rest

live_close :
    (now : ℕ) (dur : ℤ) (i : ℕ) (h : Heap) (m : Entries)
    → live now dur (close_chan h i) m ≡ live now dur h m
unfolding live
live_close now dur i h [] = refl
live_close now dur i h ((k, j) ∷ m) = ground (arith, live_close now dur i h m)

reap-live : (now : ℕ) (dur : ℤ) (m : Entries) (h : Heap) → (reap now dur m h).0 ≡ live now dur h m
unfolding reap live
reap-live now dur [] h = refl
reap-live now dur ((k, i) ∷ m) h =
    ground
      (arith, reap-live now dur m (close_chan h i), reap-live now dur m h, live_close now dur i h m)

lookup-live-none :
    (now : ℕ) (dur : ℤ) (h : Heap) (m : Entries) (k : Text)
    → lookup k m ≡ none
    → lookup k (live now dur h m) ≡ none
unfolding live lookup
lookup-live-none now dur h [] k e = refl
lookup-live-none now dur h ((j, n) ∷ m) k e = ground (arith, lookup-live-none now dur h m k)

-- A source keeps its session through a round exactly when that session was active recently.
lookup-live :
    (now : ℕ) (dur : ℤ) (h : Heap) (m : Entries) (k : Text) (i : ℕ)
    → IsMap m
    → lookup k m ≡ some i
    → lookup k (live now dur h m) ≡ (if expired now dur (h i) then none else some i)
unfolding live lookup
lookup-live now dur h [] k i v e = cc
lookup-live now dur h ((j, n) ∷ m) k i v e =
    ground (arith, lookup-live now dur h m k i v.1, lookup-live-none now dur h m k, text_eq_iff j k)

abbrev pub unexpired : ℕ → ℤ → Heap → Option ℕ → Option ℕ
unexpired now dur h none = none
unexpired now dur h (some i) = if expired now dur (h i) then none else some i

live-IsMap : (now : ℕ) (dur : ℤ) (h : Heap) (m : Entries) → IsMap m → IsMap (live now dur h m)
unfolding live
live-IsMap now dur h [] v = tt
live-IsMap now dur h ((j, n) ∷ m) v =
    ground (arith, live-IsMap now dur h m v.1, lookup-live-none now dur h m j v.0)

-- A round closes the channels of the expired sessions in the map, and changes nothing else.
pub reap-chan_closed :
    (now : ℕ) (dur : ℤ) (m : Entries) (h : Heap) (j : ℕ)
    → ((reap now dur m h).1 j).chan_closed
      ≡ ((h j).chan_closed || (holds j m && expired now dur (h j)))
unfolding reap
reap-chan_closed now dur [] h j = ground arith
reap-chan_closed now dur ((k, i) ∷ m) h j = elim (Bool-cases (expired now dur (h i))) [
  | inl e ↦ rw (e, reap) (ground (arith, reap-chan_closed now dur m (close_chan h i) j))
  | inr e ↦ rw (e, reap) (ground (arith, reap-chan_closed now dur m h j))
]

module _ {A : Type 0} (field : Session → A)
    (kept : (h : Heap) (i j : ℕ) → field (close_chan h i j) ≡ field (h j)) where
  reap-field :
      (now : ℕ) (dur : ℤ) (m : Entries) (h : Heap) (j : ℕ)
      → field ((reap now dur m h).1 j) ≡ field (h j)
  unfolding reap
  reap-field now dur [] h j = refl
  reap-field now dur ((k, i) ∷ m) h j = elim (Bool-cases (expired now dur (h i))) [
    | inl e ↦ rw (e, reap) (reap-field now dur m (close_chan h i) j ∙ kept h i j)
    | inr e ↦ rw (e, reap) (reap-field now dur m h j)
  ]

pub lookup-reap :
    (now : ℕ) (dur : ℤ) (m : Entries) (h : Heap) (k : Text)
    → IsMap m
    → lookup k (reap now dur m h).0 ≡ unexpired now dur h (lookup k m)
lookup-reap now dur m h k v = elim (Option-cases (lookup k m)) [
  | inl e ↦ rw (reap-live now dur m h, e) (lookup-live-none now dur h m k e)
  | inr (i, e) ↦ rw (reap-live now dur m h, e) (lookup-live now dur h m k i v e)
]

pub reap-IsMap : (now : ℕ) (dur : ℤ) (m : Entries) (h : Heap) → IsMap m → IsMap (reap now dur m h).0
reap-IsMap now dur m h v = rw (reap-live now dur m h) (live-IsMap now dur h m v)

pub reap-src :
    (now : ℕ) (dur : ℤ) (m : Entries) (h : Heap) (j : ℕ) → ((reap now dur m h).1 j).src ≡ (h j).src
reap-src = reap-field (λ s. s.src) (λ h i j. ground arith)

pub reap-last_active :
    (now : ℕ) (dur : ℤ) (m : Entries) (h : Heap) (j : ℕ)
    → ((reap now dur m h).1 j).last_active ≡ (h j).last_active
reap-last_active = reap-field (λ s. s.last_active) (λ h i j. ground arith)

pub reap-conn_closed :
    (now : ℕ) (dur : ℤ) (m : Entries) (h : Heap) (j : ℕ)
    → ((reap now dur m h).1 j).conn_closed ≡ (h j).conn_closed
reap-conn_closed = reap-field (λ s. s.conn_closed) (λ h i j. ground arith)

pub reap-running :
    (now : ℕ) (dur : ℤ) (m : Entries) (h : Heap) (j : ℕ)
    → ((reap now dur m h).1 j).running ≡ (h j).running
reap-running = reap-field (λ s. s.running) (λ h i j. ground arith)
