-- ===== src/Udp/Proxy/Stopping.antt =====
-- What Close leaves over.
use wireproxy_homerun.Udp.ServerTunnel.{dialed}
use wireproxy_homerun.Udp.Sessions.Frame.{IsOpen, finish-IsOpen, poll-IsOpen, touch_session-IsOpen}
use wireproxy_homerun.Udp.Sessions.{touch_session}
use wireproxy_homerun.Prelude.{
  ◌==◌, ℕ, ◌≡◌, Bool, true, false, Each, List, [], ◌∷◌, if◌then◌else◌, refl, ◌∙◌,
}
use wireproxy_homerun.Std.{Text}
use wireproxy_homerun.Udp.Proxy.{
  Proxy, close, Event, read_error, read_fault, remote_data, step, datagram, timed_out, run, Action,
  packet, ticker, reaper_done, close_called,
}

-- The events in which session `i` reads something other than a timeout.
abbrev pub concerns : ℕ → Event → Bool
concerns i (read_fault j) = j == i
concerns i (remote_data j payload now resolved written) = j == i
concerns i _ = false

-- A session's goroutine is left over when both loops have ended and its channel is open.
pub record IsLeftOver (i : ℕ) (p : Proxy) : Type 0 where
  pub no_loop : p.serving ≡ false
  pub no_reaper : p.reaping ≡ false
  pub is_open : IsOpen i p.table

datagram-IsOpen :
    (i j : ℕ) (payload : Text) (now : ℕ) (resolved written : Bool) (p : Proxy)
    → (j == i) ≡ false
    → IsOpen i p.table
    → IsOpen i (datagram j payload now resolved written p).0.table
unfolding datagram
datagram-IsOpen i j payload now true true p n v =
    poll-IsOpen i j (touch_session j now p.table) (touch_session-IsOpen i j now p.table v)
datagram-IsOpen i j payload now true false p n v =
    finish-IsOpen i j (touch_session j now p.table) n (touch_session-IsOpen i j now p.table v)
datagram-IsOpen i j payload now false written p n v =
    finish-IsOpen i j (touch_session j now p.table) n (touch_session-IsOpen i j now p.table v)

datagram-flags :
    (j : ℕ) (payload : Text) (now : ℕ) (resolved written : Bool) (p : Proxy)
    → let q = (datagram j payload now resolved written p).0 in
      (q.serving ≡ p.serving) × (q.reaping ≡ p.reaping)
unfolding datagram
datagram-flags j payload now true written p = (refl, refl)
datagram-flags j payload now false written p = (refl, refl)

guarded-IsLeftOver :
    (i : ℕ) (b : Bool) (p : Proxy) (r : Proxy × List Action)
    → IsLeftOver i p
    → (b ≡ true → IsLeftOver i r.0)
    → IsLeftOver i (if b then r else (p, [])).0
guarded-IsLeftOver i true p r v k = k refl
guarded-IsLeftOver i false p r v k = v

step-IsLeftOver :
    (i : ℕ) (p : Proxy) (e : Event)
    → concerns i e ≡ false
    → IsLeftOver i p
    → IsLeftOver i (step p e).0
unfolding step close
step-IsLeftOver i p (timed_out j) n v = guarded-IsLeftOver i (p.heap j).running p _ v λ _. record {
  no_loop = v.no_loop;
  no_reaper = v.no_reaper;
  is_open = poll-IsOpen i j p.table v.is_open;
}
step-IsLeftOver i p (read_fault j) n v = guarded-IsLeftOver i (p.heap j).running p _ v λ _. record {
  no_loop = v.no_loop;
  no_reaper = v.no_reaper;
  is_open = finish-IsOpen i j p.table n v.is_open;
}
step-IsLeftOver i p (remote_data j payload now resolved written) n v =
    guarded-IsLeftOver i (p.heap j).running p _ v λ _.
      let (s, r) = datagram-flags j payload now resolved written p in
      record {
        no_loop = s ∙ v.no_loop;
        no_reaper = r ∙ v.no_reaper;
        is_open = datagram-IsOpen i j payload now resolved written p n v.is_open;
      }
step-IsLeftOver i p reaper_done n v =
    guarded-IsLeftOver i p.done p _ v
      λ _. record { no_loop = v.no_loop; no_reaper = refl; is_open = v.is_open }
step-IsLeftOver i p close_called n v = record {
  no_loop = v.no_loop;
  no_reaper = v.no_reaper;
  is_open = v.is_open;
}
step-IsLeftOver i p (ticker now) n v =
    guarded-IsLeftOver i p.reaping p _ v λ b. absurd (cc (b, v.no_reaper))
step-IsLeftOver i p (packet src payload now dialed) n v =
    guarded-IsLeftOver i p.serving p _ v λ b. absurd (cc (b, v.no_loop))
step-IsLeftOver i p (read_error e) n v =
    guarded-IsLeftOver i p.serving p _ v λ b. absurd (cc (b, v.no_loop))

-- A session with an open channel outlives Close: once the read loop and the reaper have ended, its
-- goroutine and its connection stay through any events but a datagram or a read fault on that very
-- connection, any number of read timeouts and calls of Close included.
pub run-IsLeftOver :
    (i : ℕ) (p : Proxy) (es : List Event)
    → Each (λ e. concerns i e ≡ false) es
    → IsLeftOver i p
    → IsLeftOver i (run p es)
unfolding run
run-IsLeftOver i p [] n v = v
run-IsLeftOver i p (e ∷ es) (n, ns) v =
    run-IsLeftOver i (step p e).0 es ns (step-IsLeftOver i p e n v)
