-- ===== src/Udp/Proxy/Sources.antt =====
-- Each source address has its own session, and traffic stays within it.
use wireproxy_homerun.Udp.Proxy.Invariant.{run-serve-Inv}
use wireproxy_homerun.Udp.Sessions.Invariant.{Inv}
use wireproxy_homerun.Udp.Sessions.Frame.{
  Keeps, finish-Keeps, poll-Keeps, reap_sessions-Keeps, touch_session-Keeps, Keeps-trans,
  Keeps-refl,
}
use wireproxy_homerun.Prelude.{
  ℕ, ◌≡◌, Bool, true, false, none, some, [], ◌∷◌, Option-cases, ◌<◌, refl, ◌∙◌, inl, inr, List,
  arith, if◌then◌else◌, ℤ, Bool-cases, ◌&&◌,
}
use wireproxy_homerun.Std.{Text, text_eq_refl}
use wireproxy_homerun.Udp.Proxy.{
  Proxy, Action, forward, receive, reply, read_failed, tick, datagram, close, Event, packet, ticker,
  timed_out, read_fault, remote_data, step, run, read_timeout, read_fails, serve,
}
use wireproxy_homerun.Udp.Sessions.{lookup, touch_session}

-- A packet goes out on the connection of a session of its own source; nothing goes to a client.
receive-source :
    (src payload : Text) (now : ℕ) (dialed : Bool) (p : Proxy) (a : Action)
    → Inv p.table
    → (receive src payload now dialed p).1 ≡ a ∷ []
    → (i : ℕ) × (a ≡ forward i payload)
      × (i < (receive src payload now dialed p).0.next)
      × (((receive src payload now dialed p).0.heap i).src ≡ src)
unfolding receive
receive-source src payload now dialed p a v h = elim (Option-cases (lookup src p.sessions)) [
  | inr (i, e) ↦ (
    i,
    ground (arith, v.entry src i),
    ground (arith, v.entry src i),
    ground (arith, v.entry src i),
  )
  | inl e ↦ (p.next, ground arith, ground arith, ground arith)
]

-- While a source has a session, its packets go out on that session's connection, whatever a dial
-- would answer, and no session is made for it.
receive_known :
    (src payload : Text) (now : ℕ) (dialed : Bool) (p : Proxy) (i : ℕ)
    → lookup src p.sessions ≡ some i
    → ((receive src payload now dialed p).1 ≡ forward i payload ∷ [])
      × ((receive src payload now dialed p).0.next ≡ p.next)
      × (((receive src payload now dialed p).0.heap i).last_active ≡ now)
unfolding receive
receive_known src payload now dialed p i h = (ground arith, ground arith, ground arith)

-- The first packet of a source makes the next session and goes out on its connection; if the dial
-- fails the packet is dropped and nothing changes.
receive_new :
    (src payload : Text) (now : ℕ) (p : Proxy)
    → lookup src p.sessions ≡ none
    → ((receive src payload now true p).1 ≡ forward p.next payload ∷ [])
      × (lookup src (receive src payload now true p).0.sessions ≡ some p.next)
      × ((receive src payload now false p) ≡ (p, []))
unfolding receive lookup
receive_new src payload now p h = (ground arith, ground (arith, text_eq_refl src), ground arith)

receive-Keeps :
    (src payload : Text) (now : ℕ) (dialed : Bool) (p : Proxy) (j : ℕ)
    → j < p.next
    → Keeps j p.table (receive src payload now dialed p).0.table
unfolding receive
receive-Keeps src payload now dialed p j b = record { src = ground arith; next = ground arith }

datagram-Keeps :
    (i : ℕ) (payload : Text) (now : ℕ) (resolved written : Bool) (p : Proxy) (j : ℕ)
    → Keeps j p.table (datagram i payload now resolved written p).0.table
unfolding datagram
datagram-Keeps i payload now true true p j =
    Keeps-trans (touch_session-Keeps i now p.table j) (poll-Keeps i (touch_session i now p.table) j)
datagram-Keeps i payload now true false p j =
    Keeps-trans (touch_session-Keeps i now p.table j)
      (finish-Keeps i (touch_session i now p.table) j)
datagram-Keeps i payload now false written p j =
    Keeps-trans (touch_session-Keeps i now p.table j)
      (finish-Keeps i (touch_session i now p.table) j)

guarded-Keeps :
    (j : ℕ) (b : Bool) (p : Proxy) (r : Proxy × List Action)
    → Keeps j p.table r.0.table
    → Keeps j p.table (if b then r else (p, [])).0.table
guarded-Keeps j true p r k = k
guarded-Keeps j false p r k = Keeps-refl j p.table

step-Keeps : (p : Proxy) (e : Event) (j : ℕ) → j < p.next → Keeps j p.table (step p e).0.table
unfolding step read_failed close
step-Keeps p (packet src payload now dialed) j b =
    guarded-Keeps j p.serving p _ (receive-Keeps src payload now dialed p j b)
step-Keeps p (ticker now) j b =
    guarded-Keeps j p.reaping p _ (unfold tick in reap_sessions-Keeps now p.inactivity p.table j)
step-Keeps p (timed_out i) j b =
    guarded-Keeps j (p.heap i).running p _ (unfold read_timeout in poll-Keeps i p.table j)
step-Keeps p (read_fault i) j b =
    guarded-Keeps j (p.heap i).running p _ (unfold read_fails in finish-Keeps i p.table j)
step-Keeps p (remote_data i payload now resolved written) j b =
    guarded-Keeps j (p.heap i).running p _ (datagram-Keeps i payload now resolved written p j)
step-Keeps p _ j b = record { src = ground arith; next = ground arith }

run-Keeps :
    (p : Proxy) (es : List Event) (j : ℕ) → j < p.next → ((run p es).heap j).src ≡ (p.heap j).src
unfolding run
run-Keeps p [] j b = refl
run-Keeps p (e ∷ es) j b =
    let k = step-Keeps p e j b in run-Keeps (step p e).0 es j (omega (arith, k.next)) ∙ k.src

-- What a session's goroutine sends is for the address that it was started with.
datagram-sends :
    (i : ℕ) (payload : Text) (now : ℕ) (resolved written : Bool) (p : Proxy)
    → (datagram i payload now resolved written p).1
      ≡ (if resolved then reply (p.heap i).src payload ∷ [] else [])
unfolding datagram
datagram-sends i payload now true written p = refl
datagram-sends i payload now false written p = refl

forward-inj : {i j : ℕ} {a b : Text} → forward i a ∷ [] ≡ forward j b ∷ [] → i ≡ j
forward-inj h = cc

forwarded :
    (src payload : Text) (now : ℕ) (dialed : Bool) (p : Proxy) (i : ℕ)
    → Inv p.table
    → (step p (packet src payload now dialed)).1 ≡ forward i payload ∷ []
    → let q = (step p (packet src payload now dialed)).0 in (i < q.next) × ((q.heap i).src ≡ src)
unfolding step
forwarded src payload now dialed p i v h = elim (Bool-cases p.serving) [
  | inr e ↦ absurd (ground arith)
  | inl e ↦
      let g : (receive src payload now dialed p).1 ≡ forward i payload ∷ [] = ground arith in
      let (j, f, b, k) = receive-source src payload now dialed p (forward i payload) v g in
      ground arith
]

-- Whenever a packet of a source goes out on a connection, all that this connection ever delivers, after
-- any further events, is sent to that source and to no other: a datagram makes exactly one reply if the
-- session's goroutine still runs and the source's address resolves, and none else.
pub reply-source :
    (timeout : ℤ) (before after : List Event) (src payload answer : Text) (now later i : ℕ)
    (dialed resolved written : Bool)
    → (step (run (serve timeout) before) (packet src payload now dialed)).1 ≡ forward i payload ∷ []
    → let q = run (step (run (serve timeout) before) (packet src payload now dialed)).0 after in
      (step q (remote_data i answer later resolved written)).1
      ≡ (if (q.heap i).running && resolved then reply src answer ∷ [] else [])
unfolding step
reply-source timeout before after src payload answer now later i dialed resolved written h =
    let p = run (serve timeout) before in
    let (b, k) = forwarded src payload now dialed p i (run-serve-Inv timeout before) h in
    let q = (step p (packet src payload now dialed)).0 in
    let e : ((run q after).heap i).src ≡ src = run-Keeps q after i b ∙ k in
    ground (arith, datagram-sends i answer later resolved written (run q after))
