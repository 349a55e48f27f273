-- ===== src/Tests/Serving.antt =====
-- The accept loops at concrete events.
use wireproxy_homerun.Std.Decimal.{show_nat, atoi}
use wireproxy_homerun.Std.HostPort.{join_host_port, split_host_port}
use wireproxy_homerun.Address.{AddressPort, parse_address_port}
use wireproxy_homerun.Lifecycle.Forwarding.{
  tcp_client_forward, tcp_server_forward, both_ways, bind_tcp-forward,
}
use wireproxy_homerun.Net.{v4}
use wireproxy_homerun.Resolve.{Resolver, ipv4, resolve_addr_with_context, lookup_addr, families}
use wireproxy_homerun.Tests.Fixtures.{read_addr}
use wireproxy_homerun.Lifecycle.Returns.{is_close, conns, serve-returns}
use wireproxy_homerun.Prelude.{
  any, if◌then◌else◌, ℕ, ◌≡◌, refl, true, false, ◌||◌, none, some, List, [], ◌∷◌, ◌++◌, arith,
}
use wireproxy_homerun.Std.{Error, errorf, codes, ok, text_eq, cut_last}
use wireproxy_homerun.Lifecycle.{
  Event, accepted, accept_error, close_called, Listening, returned, serve_tcp_client,
  serve_tcp_server, serve_sni, serve_http, bind_tcp_client, bind_tcp_server,
}

abbrev bound : Listening
bound = record { bound = true; raddr = none; shutdown = record { closed = false } }

-- "endpoint is in invalid state", as the netstack reports a closed listener
abbrev invalid_state : Error
invalid_state = record {
  message = codes "endpoint is in invalid state";
  is_closed = false;
  is_timeout = false;
}

abbrev net_closed : Error
net_closed = record { message = []; is_closed = true; is_timeout = false }

abbrev visit : List (Event ℕ)
visit = accepted 1 ∷ accepted 2 ∷ close_called ∷ accepted 3 ∷ []

serve-returns_example :
    let stopped = (bound.shutdown.closed || any is_close visit) || invalid_state.is_closed in
    let events = visit ++ accept_error invalid_state ∷ [] in
    (serve_tcp_client bound events ≡ (
      returned
          (if stopped then none else some (errorf (codes "tcp client tunnel: ") invalid_state)),
      conns visit,
    ))
    × (serve_tcp_server bound events ≡ (
      returned
          (if stopped then none else some (errorf (codes "tcp server tunnel: ") invalid_state)),
      conns visit,
    ))
    × (serve_sni bound events ≡ (
      returned (if stopped then none else some (errorf (codes "sni proxy: ") invalid_state)),
      conns visit,
    ))
    × (serve_http bound events ≡ (
      returned (
          if stopped
          then none
          else some (
              errorf
                (codes "http proxy: ")
                (errorf (codes "accept request failed: ") invalid_state))),
      conns visit,
    ))
serve-returns_example =
    serve-returns bound visit [] invalid_state refl (refl, (refl, (refl, (refl, tt))))

abbrev unbound : Listening
unbound = record { bound = false; raddr = none; shutdown = record { closed = false } }

abbrev target : AddressPort
target = record { address = codes "10.0.0.5"; port = 80 }

abbrev ready : Listening
ready = record unbound { bound = true; raddr = some target }

-- Names are addresses, and a connection is the port that was dialed.
abbrev literal_resolver : Resolver
literal_resolver = record {
  system_lookup = λ name. ok (name ∷ []);
  tunnel_lookup = λ name. ok (name ∷ []);
  parse_addr = read_addr;
  shuffle_v4 = λ l. l;
  shuffle_v6 = λ l. l;
}

bind_tcp-forward_example :
    (raddr : AddressPort) × (ready.raddr ≡ some raddr)
    × (ready.raddr ≡ some raddr)
    × (tcp_client_forward literal_resolver true ipv4 (λ a. ok a.port) raddr 7 ≡ both_ways 7 80)
    × (tcp_server_forward literal_resolver true ipv4 (λ a. ok a.port) raddr 7 ≡ both_ways 7 80)
unfolding codes bind_tcp_client bind_tcp_server resolve_addr_with_context split_host_port cut_last
    atoi lookup_addr text_eq families parse_address_port join_host_port show_nat
bind_tcp-forward_example =
    bind_tcp-forward literal_resolver true ipv4 (λ a. ok a.port) (codes "q") (codes "10.0.0.5") 80
      90 unbound ready ready (v4 7) 7 80 (refl, refl) (omega arith) refl refl refl refl
