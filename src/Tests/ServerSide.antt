-- ===== src/Tests/ServerSide.antt =====
-- The UDP server tunnel at concrete inputs.
use wireproxy_homerun.Udp.ServerTunnel.Refinement.{causes, run-serve-causes-Changes}
use wireproxy_homerun.Udp.Sessions.Spec.{view, Changes}
use wireproxy_homerun.Prelude.{pos, true, List, [], ◌∷◌, arith, ◌*◌}
use wireproxy_homerun.Std.{Text, codes}
use wireproxy_homerun.Udp.ServerTunnel.Invariant.{IsConsistent, run-serve-IsConsistent}
use wireproxy_homerun.Udp.Sessions.{no_sessions}
use wireproxy_homerun.Udp.ServerTunnel.{
  Tunnel, Event, serve, run, packet, dial_result, write_result,
}

abbrev peer : Text
peer = codes "10.2.0.2:4000"

abbrev other : Text
other = codes "10.2.0.3:4000"

abbrev query : Text
query = codes "query"

abbrev history : List Event
history = packet peer query 10 ∷ dial_result true 20 ∷ write_result ∷ []

abbrev tunnel : Tunnel
tunnel = run (serve (pos 1)) history

run-serve-IsConsistent_example : IsConsistent (run (serve (pos 1)) history)
run-serve-IsConsistent_example = run-serve-IsConsistent (pos 1) history

run-serve-causes-Changes_example :
    Changes
      (pos (1 * 1_000_000_000))
      (view no_sessions)
      (causes (serve (pos 1)) history)
      (view (run (serve (pos 1)) history).table)
run-serve-causes-Changes_example = run-serve-causes-Changes 1 history (omega arith)
