-- ===== src/Tests/Forwarding.antt =====
-- The UDP proxy at concrete inputs.
use wireproxy_homerun.Std.Duration.{below_zero}
use wireproxy_homerun.Udp.Proxy.Refinement.{run-serve-Changes, causes}
use wireproxy_homerun.Udp.Sessions.Spec.{view, Changes}
use wireproxy_homerun.Prelude.{
  pos, leb, if◌then◌else◌, ◌≡◌, refl, true, false, none, some, List, [], ◌∷◌, arith, to_ℕ, ◌*◌, ◌+◌,
  ◌&&◌, ◌++◌,
}
use wireproxy_homerun.Shutdown.{mark_closed, closed_by_us}
use wireproxy_homerun.Std.{Text, codes, text_eq}
use wireproxy_homerun.Tests.Fixtures.{missing_error}
use wireproxy_homerun.Udp.Proxy.Expiry.{tick_expiry}
use wireproxy_homerun.Udp.Proxy.Invariant.{run-serve-Inv}
use wireproxy_homerun.Udp.Proxy.Sources.{reply-source}
use wireproxy_homerun.Udp.Proxy.Loop.{read_error_stops}
use wireproxy_homerun.Udp.Proxy.Stopping.{IsLeftOver, run-IsLeftOver}
use wireproxy_homerun.Udp.Sessions.{lookup, add_session, no_sessions}
use wireproxy_homerun.Udp.Sessions.Invariant.{Inv}
use wireproxy_homerun.Udp.Proxy.{
  Proxy, Event, serve, receive, step, run, tick, close, packet, ticker, timed_out, read_error,
  close_called, reaper_done, reply, get_or_create_session, read_failed, remote_data,
}

abbrev alice : Text
alice = codes "10.1.1.1:5353"

abbrev bob : Text
bob = codes "10.1.1.2:5353"

abbrev ping : Text
ping = codes "ping"

-- Two sources send, the first one twice; the timeout is one second.
abbrev traffic : List Event
traffic =
    packet alice ping 10 true ∷ packet bob ping 12 true ∷ packet alice ping 500_000_000 true ∷ []

abbrev busy : Proxy
busy = run (serve (pos 1)) traffic

-- The reaper has removed the second source.
abbrev reaped : Proxy
reaped = run busy (ticker 1_100_000_000 ∷ [])

-- Then that source sends again: its old goroutine has not ended yet.
abbrev renewed : Proxy
renewed = run reaped (packet bob ping 1_200_000_000 true ∷ [])

-- Close is called and both loops end.
abbrev closed : Proxy
closed = run busy (close_called ∷ reaper_done ∷ read_error missing_error ∷ [])

busy-Inv : Inv busy.table
busy-Inv = run-serve-Inv (pos 1) traffic

run-serve-Inv_example : Inv (run (serve (pos 1)) traffic).table
run-serve-Inv_example = run-serve-Inv (pos 1) traffic

-- Bob's session is ended by the reaper, and he has a newer one, when the first one's connection delivers.
reply-source_example :
    let q =
      run
        (step busy (packet bob ping 13 true)).0
        (ticker 1_100_000_000 ∷ packet bob ping 1_200_000_000 true ∷ []) in
    (step q (remote_data 1 ping 1_300_000_000 true true)).1
    ≡ (if (q.heap 1).running && true then reply bob ping ∷ [] else [])
unfolding run step serve receive get_or_create_session add_session lookup text_eq codes
reply-source_example =
    reply-source (pos 1) traffic (ticker 1_100_000_000 ∷ packet bob ping 1_200_000_000 true ∷ [])
      bob ping ping 13 1_300_000_000 1 true true true refl

tick_expiry_example :
    (lookup bob (tick 1_100_000_000 busy).sessions ≡ (
      if leb
        ((busy.heap 1).last_active + to_ℕ busy.inactivity)
        (1_100_000_000 + below_zero busy.inactivity)
      then none
      else some 1))
    × (((tick 1_100_000_000 busy).heap 1).chan_closed
        ≡ leb
            ((busy.heap 1).last_active + to_ℕ busy.inactivity)
            (1_100_000_000 + below_zero busy.inactivity))
unfolding run step serve receive get_or_create_session add_session lookup text_eq codes
tick_expiry_example = tick_expiry 1_100_000_000 busy bob 1 busy-Inv refl

-- A read fails without Close, and the loop goes on; it ends at the first error after Close.
read_error_stops_example :
    ((run (serve (pos 1)) (packet alice ping 10 true ∷ read_error missing_error ∷ [])).serving
      ≡ true)
    × ((run (serve (pos 1)) (
          (packet alice ping 10 true ∷ read_error missing_error ∷ [])
          ++ (close_called
              ∷ ((ticker 900 ∷ [])
                  ++ (read_error missing_error ∷ packet bob ping 1_000 true ∷ []))))).serving
        ≡ false)
read_error_stops_example =
    read_error_stops (pos 1) (packet alice ping 10 true ∷ read_error missing_error ∷ [])
      (ticker 900 ∷ []) (packet bob ping 1_000 true ∷ []) missing_error (refl, (refl, tt))

run-IsLeftOver_example : IsLeftOver 1 (run closed (timed_out 1 ∷ timed_out 1 ∷ close_called ∷ []))
unfolding run step serve receive get_or_create_session add_session lookup text_eq codes close
    read_failed closed_by_us mark_closed
run-IsLeftOver_example =
    run-IsLeftOver 1 closed (timed_out 1 ∷ timed_out 1 ∷ close_called ∷ [])
      (refl, (refl, (refl, tt)))
      (record {
        no_loop = refl;
        no_reaper = refl;
        is_open = record { runs = refl; chan_open = refl; conn_open = refl };
      })

run-serve-Changes_example :
    Changes
      (pos (1 * 1_000_000_000))
      (view no_sessions)
      (causes (serve (pos 1)) traffic)
      (view (run (serve (pos 1)) traffic).table)
run-serve-Changes_example = run-serve-Changes 1 traffic (omega arith)
