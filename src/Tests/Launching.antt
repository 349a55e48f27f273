-- ===== src/Tests/Launching.antt =====
-- The start of the command, the bind of the device and the SNI proxy at concrete inputs.
use wireproxy_homerun.Std.Unicode.{to_lower}
use wireproxy_homerun.Address.{extract_port, uint16}
use wireproxy_homerun.Clientbind.{ClientOnlyBind, Call, call_open, call_close, run_calls}
use wireproxy_homerun.Clientbind.Sockets.{in_turn, left_open, run_calls-in_turn}
use wireproxy_homerun.Command.Sandbox.{bind_tcp, connect_tcp, lock_network}
use wireproxy_homerun.Command.Sandbox.Network.{
  binds, connects, has_port, listens_on, dials_out, lock_network-ports, lacks_port, unreadable,
  has_panicked, lock_network-has_panicked,
}
use wireproxy_homerun.Config.Routines.{Routine, tcp_server_tunnel, http}
use wireproxy_homerun.Net.{v4, AddrPort}
use wireproxy_homerun.Prelude.{
  any, if◌then◌else◌, ℕ, ◌≡◌, refl, ◌≢◌, true, false, ◌||◌, none, some, List, [], ◌∷◌, ◌++◌,
}
use wireproxy_homerun.Router.{should_tunnel, routed_dial, route, host_from_addr}
use wireproxy_homerun.Sni.{Handshake, reads, writes, says_hello, finishes, sni_serve}
use wireproxy_homerun.Sni.Forwarding.{copied, left_after, sni_serve-forwarded}
use wireproxy_homerun.Std.{
  ok, Text, codes, is_empty, cut_last, text_eq, trim_suffix_byte, lower_byte,
}
use wireproxy_homerun.Std.Decimal.{atoi}
use wireproxy_homerun.Std.HostPort.{split_host_port, join_host_port}
use wireproxy_homerun.Std.Streams.{Stream, contents}
use wireproxy_homerun.Std.Streams.Laws.{remaining}
use wireproxy_homerun.Tests.Fixtures.{unicode, router, dialers}

abbrev a_proxy : Routine
a_proxy = http (record {
  bind_address = codes "127.0.0.1:8080";
  username = [];
  password = [];
  cert_file = [];
  key_file = [];
  tunnel_domains = [];
  log_domains = false;
})

abbrev a_server : Routine
a_server = tcp_server_tunnel (record { listen_port = 80; target = codes "localhost:3000" })

abbrev routines : List Routine
routines = a_proxy ∷ a_server ∷ []

lock_network-ports_example :
    let rules = bind_tcp 9080 ∷ bind_tcp 8080 ∷ connect_tcp 3000 ∷ [] in
    (any (binds 8080) rules ≡ (
      (if is_empty (codes ":9080") then false else has_port 8080 (codes ":9080"))
      || any (listens_on 8080) routines))
    × (any (connects 8080) rules ≡ any (dials_out 8080) routines)
unfolding codes lock_network extract_port split_host_port atoi cut_last uint16
lock_network-ports_example =
    lock_network-ports routines (codes ":9080")
      (bind_tcp 9080 ∷ bind_tcp 8080 ∷ connect_tcp 3000 ∷ []) 8080 refl

lock_network-has_panicked_example : has_panicked (lock_network routines (codes ":http")) ≡ (
    (if is_empty (codes ":http") then false else lacks_port (codes ":http"))
    || any unreadable routines)
lock_network-has_panicked_example = lock_network-has_panicked routines (codes ":http")

abbrev peer : AddrPort
peer = record { addr = v4 5; port = 51820 }

abbrev bind : ClientOnlyBind
bind = record { peer = peer; conn = none }

abbrev calls : List Call
calls =
    call_open (λ network to. ok (record { id = 3; local_port = 40000 }))
    ∷ call_open (λ network to. ok (record { id = 4; local_port = 40001 }))
    ∷ call_close (λ i. none)
    ∷ call_close (λ i. none)
    ∷ call_open (λ network to. ok (record { id = 5; local_port = 40002 }))
    ∷ []

run_calls-in_turn_example :
    (is : List ℕ) × (left_open none ++ (run_calls calls bind).1
      ≡ in_turn is ++ left_open (run_calls calls bind).0.conn)
run_calls-in_turn_example = run_calls-in_turn calls bind

-- A handshake that reads twice and sees the name of the router's tests.
abbrev handshake : Handshake
handshake = reads 2 (λ a.
    reads 9
      (λ b. says_hello (codes "intranet.example") (writes (codes "hi") (λ e. finishes (some e)))))

abbrev sent : Stream
sent = ok (codes "hello") ∷ ok (codes " world") ∷ []

abbrev client : Text × Stream
client = (codes "hello", ok (codes " world") ∷ [])

sni_serve-forwarded_example :
    ((if should_tunnel unicode (some router) (codes "intranet.example")
        then dialers.tunnel_dial (codes "tcp") (codes "intranet.example:443")
        else dialers.direct_dial (codes "tcp") (codes "intranet.example:443"))
      ≡ ok true)
    × (codes "intranet.example" ≢ [])
    × (copied (3 ∷ 9 ∷ []) client ++ remaining (left_after (3 ∷ 9 ∷ []) client) ≡ contents sent)
unfolding codes sni_serve routed_dial join_host_port route should_tunnel text_eq to_lower
    trim_suffix_byte host_from_addr split_host_port cut_last lower_byte
sni_serve-forwarded_example =
    sni_serve-forwarded unicode dialers (some router) handshake none none sent client true
      (3 ∷ 9 ∷ []) (refl, refl) refl
