-- ===== src/Lifecycle/Forwarding.antt =====
-- What becomes of one connection of the TCP tunnels and of the STDIO tunnel: tcpClientForward,
-- tcpServerForward, STDIOTcpForward and connForward of routine.go.
use wireproxy_homerun.Address.Bounds.{parse_address_port-join}
use wireproxy_homerun.Lifecycle.{
  bind_tcp, Listening, bind_tcp_client, bind_tcp_server, bind_listener,
}
use wireproxy_homerun.Std.Decimal.{show_nat}
use wireproxy_homerun.Std.HostPort.{join_host_port, IsHost}
use wireproxy_homerun.Address.{AddressPort}
use wireproxy_homerun.Net.{AddrPort, Addr}
use wireproxy_homerun.Prelude.{
  Bool, List, [], ◌∷◌, ℕ, ◌^◌, ◌<◌, ◌≡◌, some, refl, ◌⊎◌, inl, inr, sym, ap, ◌++◌,
}
use wireproxy_homerun.Resolve.{Resolver, resolve_to_addr_port, resolve_addr_with_context}
use wireproxy_homerun.Std.{Result, ok, err, Text, Error, ok-injective, codes}

-- connForward: it copies one way, then closes the destination and the source.
pub data Effect (Conn : Type 0) : Type 0 where
  copy : Conn → Conn → Effect Conn
  close_conn : Conn → Effect Conn

module _ {Conn : Type 0} where
  unfoldable pub conn_forward : Conn → Conn → List (Effect Conn)
  conn_forward from to = copy from to ∷ close_conn to ∷ close_conn from ∷ []

  -- The goroutines that are started, each as its list of effects. `dial` is DialTCP, on the network of the
  -- tunnel or on that of the system.
  forward_between :
      Conn → Conn → (AddrPort → Result Conn) → Result AddrPort → List (List (Effect Conn))
  unfolding conn_forward
  forward_between input output dial (err e) = []
  forward_between input output dial (ok target) = elim (dial target) [
    | err e ↦ []
    | ok sconn ↦ conn_forward sconn output ∷ conn_forward input sconn ∷ []
  ]

  module _ (r : Resolver) (system_dns : Bool) (strategy : Text)
      (dial : AddrPort → Result Conn) where
    unfoldable pub tcp_client_forward : AddressPort → Conn → List (List (Effect Conn))
    unfolding forward_between
    tcp_client_forward raddr conn =
        forward_between conn conn dial (resolve_to_addr_port r system_dns strategy raddr)

    unfoldable pub tcp_server_forward : AddressPort → Conn → List (List (Effect Conn))
    unfolding forward_between
    tcp_server_forward raddr conn =
        forward_between conn conn dial (resolve_to_addr_port r system_dns strategy raddr)

    unfoldable pub stdio_tcp_forward : AddressPort → Conn → Conn → List (List (Effect Conn))
    unfolding forward_between
    stdio_tcp_forward raddr input output =
        forward_between input output dial (resolve_to_addr_port r system_dns strategy raddr)

-- The two ways that copy between a connection and its peer.
abbrev pub both_ways : {Conn : Type 0} → Conn → Conn → List (List (Effect Conn))
both_ways conn sconn =
    (copy sconn conn ∷ close_conn conn ∷ close_conn sconn ∷ [])
    ∷ (copy conn sconn ∷ close_conn sconn ∷ close_conn conn ∷ [])
    ∷ []

bind_tcp-raddr :
    (name quoted place host : Text) (port : ℕ) (t bound : Listening)
    → IsHost host
    → port < 2 ^ 16
    → bind_tcp name quoted place (join_host_port host (show_nat port)) (ok (record {})) t ≡ ok bound
    → bound.raddr ≡ some (record { address = host; port = port })
unfolding bind_tcp bind_listener
bind_tcp-raddr name quoted place host port t bound h b e =
    ap (λ (x : Listening). x.raddr)
      (sym (ok-injective (rw (bind_tcp, parse_address_port-join host port h b) at e)))

module _ {Conn : Type 0} (r : Resolver) (system_dns : Bool) (strategy : Text)
    (dial : AddrPort → Result Conn) where
  forward_between-both_ways :
      (host : Text) (port : ℕ) (a : Addr) (conn sconn : Conn)
      → resolve_addr_with_context r system_dns strategy host ≡ ok a
      → dial (record { addr = a; port = port }) ≡ ok sconn
      → forward_between conn conn dial
          (resolve_to_addr_port r system_dns strategy (record { address = host; port = port }))
        ≡ both_ways conn sconn
  unfolding forward_between resolve_to_addr_port conn_forward
  forward_between-both_ways host port a conn sconn e d = rw (e, forward_between, d) refl

  -- A TCP client tunnel and a TCP server tunnel that were bound with the target host:port join a connection to the
  -- address that the host resolves to, on that port, where the dial there succeeds: two goroutines copy, one
  -- each way, and each closes both connections when its copying ends.
  pub bind_tcp-forward :
      (quoted host : Text) (port listen_port : ℕ) (t client server : Listening) (a : Addr)
      (conn sconn : Conn)
      → IsHost host
      → port < 2 ^ 16
      → bind_tcp_client quoted host (join_host_port host (show_nat port)) (ok (record {})) t
        ≡ ok client
      → bind_tcp_server quoted listen_port (join_host_port host (show_nat port)) (ok (record {})) t
        ≡ ok server
      → resolve_addr_with_context r system_dns strategy host ≡ ok a
      → dial (record { addr = a; port = port }) ≡ ok sconn
      → (raddr : AddressPort) × (client.raddr ≡ some raddr)
        × (server.raddr ≡ some raddr)
        × (tcp_client_forward r system_dns strategy dial raddr conn ≡ both_ways conn sconn)
        × (tcp_server_forward r system_dns strategy dial raddr conn ≡ both_ways conn sconn)
  unfolding tcp_client_forward tcp_server_forward bind_tcp_client bind_tcp_server
  bind_tcp-forward quoted host port listen_port t client server a conn sconn h b e f q d = (
    record { address = host; port = port },
    bind_tcp-raddr _ quoted host host port t client h b e,
    bind_tcp-raddr _ quoted (codes "WireGuard port " ++ show_nat listen_port) host port t server h b
        f,
    forward_between-both_ways host port a conn sconn q d,
    forward_between-both_ways host port a conn sconn q d,
  )

  -- Where the target does not resolve, or the dial to it fails, neither tunnel starts anything: the connection that
  -- was accepted is not copied from and not closed.
  forward_failed :
      (raddr : AddressPort) (conn : Conn)
      → ((e : Error) × (resolve_addr_with_context r system_dns strategy raddr.address ≡ err e))
        ⊎ ((a : Addr) × (e : Error) × (resolve_addr_with_context r system_dns strategy raddr.address
              ≡ ok a)
            × (dial (record { addr = a; port = raddr.port }) ≡ err e))
      → (tcp_client_forward r system_dns strategy dial raddr conn ≡ [])
        × (tcp_server_forward r system_dns strategy dial raddr conn ≡ [])
  unfolding tcp_client_forward tcp_server_forward resolve_to_addr_port forward_between
  forward_failed raddr conn (inl (e, q)) =
      (rw (q, forward_between) refl, rw (q, forward_between) refl)
  forward_failed raddr conn (inr (a, e, q, d)) =
      (rw (q, forward_between, d) refl, rw (q, forward_between, d) refl)
