-- ===== src/Lifecycle.antt =====
-- Bind, Serve and Close of the tunnels and proxies of routine.go that listen: the TCP client and
-- server tunnels, the SNI proxy, the HTTP proxy.
pub mod Returns
pub mod Others
pub mod Forwarding
pub mod Datagram
use wireproxy_homerun.Address.{AddressPort, parse_address_port}
use wireproxy_homerun.Prelude.{
  if◌then◌else◌, ℕ, Bool, true, Option, none, some, List, [], ◌∷◌, ◌++◌,
}
use wireproxy_homerun.Shutdown.{Shutdown, mark_closed, closed_by_us, close_listener}
use wireproxy_homerun.Std.{Error, new_error, errorf, Result, ok, err, Text, codes}
use wireproxy_homerun.Std.Decimal.{show_nat}

-- What a tunnel holds from Bind until Close, and whether Close was asked for.
pub record Listening : Type 0 where
  pub bound : Bool
  pub raddr : Option AddressPort
  pub shutdown : Shutdown

-- `listen` is what listening on the address returns.
bind_listener : Text → Result (Unit {0}) → Listening → Result Listening
bind_listener prefix (ok l) t = ok (record t { bound = true })
bind_listener prefix (err e) t = err (errorf prefix e)

-- The SNI proxy.
unfoldable pub bind_sni : Text → Result (Unit {0}) → Listening → Result Listening
unfolding bind_listener
bind_sni bind_address listen t =
    bind_listener (codes "sni proxy: cannot listen on " ++ (bind_address ++ codes ": ")) listen t

-- The two TCP tunnels: the target is parsed first, and nothing is listened on if it is bad. `quoted`
-- is the target and `place` the address as the error prints them.
bind_tcp : Text → Text → Text → Text → Result (Unit {0}) → Listening → Result Listening
unfolding bind_listener
bind_tcp name quoted place target listen t = elim (parse_address_port target) [
  | err e ↦ err (errorf (name ++ (codes ": bad target " ++ (quoted ++ codes ": "))) e)
  | ok raddr ↦
      bind_listener (name ++ (codes ": cannot listen on " ++ (place ++ codes ": "))) listen
        (record t { raddr = some raddr })
]

unfoldable pub bind_tcp_client :
    Text → Text → Text → Result (Unit {0}) → Listening → Result Listening
unfolding bind_tcp
bind_tcp_client quoted place target listen t =
    bind_tcp (codes "tcp client tunnel") quoted place target listen t

unfoldable pub bind_tcp_server : Text → ℕ → Text → Result (Unit {0}) → Listening → Result Listening
unfolding bind_tcp
bind_tcp_server quoted listen_port target listen t =
    bind_tcp (codes "tcp server tunnel") quoted (codes "WireGuard port " ++ show_nat listen_port)
      target listen t

-- What happens while Serve runs: a connection is accepted, Accept fails, another goroutine calls
-- Close.
pub data Event (Conn : Type 0) : Type 0 where
  accepted : Conn → Event Conn
  accept_error : Error → Event Conn
  close_called : Event Conn

-- Serve waits in Accept, or has returned Go's error, `none` for nil.
pub data Outcome : Type 0 where
  accepting : Outcome
  returned : Option Error → Outcome

module _ {Conn : Type 0} where
  -- The loop over Accept, with the connections that were handed to a goroutine of their own. `failed`
  -- is what the loop returns for an error.
  unfoldable pub accept_loop :
      (Shutdown → Error → Option Error) → Shutdown → List (Event Conn) → Outcome × List Conn
  accept_loop failed s [] = (accepting, [])
  accept_loop failed s (accepted c ∷ es) = let (o, cs) = accept_loop failed s es in (o, c ∷ cs)
  accept_loop failed s (close_called ∷ es) = accept_loop failed (mark_closed s) es
  accept_loop failed s (accept_error e ∷ es) = (returned (failed s e), [])

-- if conf.closedByUs(err) { return nil }; return fmt.Errorf("<prefix>%w", err)
abbrev pub wrapped : Text → Shutdown → Error → Option Error
wrapped prefix s e = if closed_by_us s (some e) then none else some (errorf prefix e)

-- HTTPServer.Serve has no shutdown record, and takes net.ErrClosed alone for a stop; HTTPConfig.Serve
-- looks at what it returns.
abbrev pub server_error : Error → Option Error
server_error e = if e.is_closed then none else some (errorf (codes "accept request failed: ") e)

abbrev pub config_error : Shutdown → Option Error → Option Error
config_error s none = none
config_error s (some e) = wrapped (codes "http proxy: ") s e

module _ {Conn : Type 0} where
  unfoldable pub serve_listening :
      Text → (Shutdown → Error → Option Error) → Listening → List (Event Conn) → Outcome × List Conn
  unfolding accept_loop
  serve_listening name failed t es =
      if t.bound
      then accept_loop failed t.shutdown es
      else (returned (some (new_error (name ++ codes ": Serve called before Bind"))), [])

  unfoldable pub serve_tcp_client : Listening → List (Event Conn) → Outcome × List Conn
  unfolding serve_listening
  serve_tcp_client t es =
      serve_listening (codes "tcp client tunnel") (wrapped (codes "tcp client tunnel: ")) t es

  unfoldable pub serve_tcp_server : Listening → List (Event Conn) → Outcome × List Conn
  unfolding serve_listening
  serve_tcp_server t es =
      serve_listening (codes "tcp server tunnel") (wrapped (codes "tcp server tunnel: ")) t es

  unfoldable pub serve_sni : Listening → List (Event Conn) → Outcome × List Conn
  unfolding serve_listening
  serve_sni t es = serve_listening (codes "sni proxy") (wrapped (codes "sni proxy: ")) t es

  unfoldable pub serve_http : Listening → List (Event Conn) → Outcome × List Conn
  unfolding serve_listening
  serve_http t es =
      serve_listening (codes "http proxy") (λ s e. config_error s (server_error e)) t es

-- Close: `closing` is what closing the listener returns.
unfoldable pub close : Option Error → Listening → Listening × Option Error
unfolding mark_closed close_listener
close closing t = (
  record t { shutdown = mark_closed t.shutdown },
  close_listener (if t.bound then some closing else none),
)
