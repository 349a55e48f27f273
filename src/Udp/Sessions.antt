-- ===== src/Udp/Sessions.antt =====
-- What the two forwarders share: sessions behind pointers, a map from source addresses to them, and
-- one goroutine for each session. A pointer is an index below `next`; the heap is a function.
pub mod Entries
pub mod Invariant
pub mod Frame
pub mod Spec
use wireproxy_homerun.Std.Duration.{sub_time, at_least}
use wireproxy_homerun.Prelude.{
  ◌==◌, if◌then◌else◌, ℕ, Bool, true, false, Option, none, some, List, [], ◌∷◌, suc, ℤ,
}
use wireproxy_homerun.Std.{Text, text_eq}

-- `src` and `running` stand for the goroutine that was started with the session: the source
-- address that it was given, and whether it has not returned.
pub record Session : Type 0 where
  pub src : Text
  pub last_active : ℕ
  pub chan_closed : Bool
  pub conn_closed : Bool
  pub running : Bool

abbrev pub Heap : Type 0
Heap = ℕ → Session

-- map[string]*udpSession
abbrev pub Entries : Type 0
Entries = List (Text × ℕ)

abbrev pub update : Heap → ℕ → Session → Heap
update h i s = λ j. if j == i then s else h j

unfoldable pub lookup : Text → Entries → Option ℕ
lookup k [] = none
lookup k ((j, i) ∷ m) = if text_eq j k then some i else lookup k m

-- delete(sessions, k)
unfoldable pub delete : Text → Entries → Entries
delete k [] = []
delete k ((j, i) ∷ m) =
    let rest = delete k m in elim (text_eq j k) [ true ↦ rest | false ↦ (j, i) ∷ rest ]

-- lastActive = now
abbrev pub touch : Heap → ℕ → ℕ → Heap
touch h i now = update h i (record (h i) { last_active = now })

-- The guarded close of a channel: a channel that is closed stays closed.
abbrev pub close_chan : Heap → ℕ → Heap
close_chan h i = update h i (record (h i) { chan_closed = true })

-- The session's connection is closed and its goroutine returns.
abbrev pub end_session : Heap → ℕ → Heap
end_session h i = update h i (record (h i) { conn_closed = true; running = false })

-- now.Sub(sess.lastActive) >= inactivityDur; a session touched after `now` was read has a negative
-- age.
abbrev pub expired : ℕ → ℤ → Session → Bool
expired now dur s = at_least (sub_time now s.last_active) dur

-- The reaper's loop over the map, its deletions included.
unfoldable pub reap : ℕ → ℤ → Entries → Heap → Entries × Heap
reap now dur [] h = ([], h)
reap now dur ((k, i) ∷ rest) h =
    let gone = expired now dur (h i) in
    let (kept, h') = reap now dur rest (if gone then close_chan h i else h) in
    (if gone then kept else (k, i) ∷ kept, h')

-- The sessions that were made, and the map.
pub record Table : Type 0 where
  pub next : ℕ
  pub heap : Heap
  pub sessions : Entries

abbrev pub new_session : Text → ℕ → Session
new_session src now = record {
  src = src;
  last_active = now;
  chan_closed = false;
  conn_closed = false;
  running = true;
}

-- No session yet; the heap holds nothing that runs.
abbrev pub no_sessions : Table
no_sessions = record {
  next = 0;
  heap = λ i. record {
    src = [];
    last_active = 0;
    chan_closed = true;
    conn_closed = true;
    running = false;
  };
  sessions = [];
}

-- sess.lastActive = time.Now()
abbrev pub touch_session : ℕ → ℕ → Table → Table
touch_session i now t = record t { heap = touch t.heap i now }

-- The new session is entered in the map, and its goroutine started.
unfoldable pub add_session : Text → ℕ → Table → Table
add_session src now t = record {
  next = suc t.next;
  heap = update t.heap t.next (new_session src now);
  sessions = (src, t.next) ∷ t.sessions;
}

-- Under the mutex: the session is closed and deleted if it still is the one of its source.
unfoldable pub remove_session : Text → ℕ → Table → Table
remove_session src i t = elim (lookup src t.sessions) [
  | none ↦ t
  | some current ↦
      if current == i
      then record t { heap = close_chan t.heap current; sessions = delete src t.sessions }
      else t
]

unfoldable pub reap_sessions : ℕ → ℤ → Table → Table
reap_sessions now dur t =
    let (kept, h) = reap now dur t.sessions t.heap in record t { heap = h; sessions = kept }

-- The deferred calls of a session's goroutine.
unfoldable pub finish : ℕ → Table → Table
finish i t = let u = remove_session (t.heap i).src i t in record u { heap = end_session u.heap i }

-- The select on closeChan.
unfoldable pub poll : ℕ → Table → Table
poll i t = if (t.heap i).chan_closed then finish i t else t
