-- ===== src/Lifecycle/Datagram.antt =====
-- Bind and Close of the two UDP tunnels, and what Serve checks before its loop (udp_proxy.go and
-- udp_server_tunnel.go). The loops are in Udp/Proxy and Udp/ServerTunnel.
use mathlib.Core.Path.{ap₂}
use wireproxy_homerun.Prelude.{
  if◌then◌else◌, ℕ, ◌+◌, ◌≡◌, refl, Bool, true, false, Option, none, some, List, [], ◌∷◌, ◌++◌, ap,
  ◌∙◌,
}
use wireproxy_homerun.Shutdown.{Shutdown, mark_closed, close_listener}
use wireproxy_homerun.Std.{Error, new_error, errorf, Result, ok, err, Text, codes}
use wireproxy_homerun.Std.Decimal.{show_nat}

-- `done` is the channel, with whether it is closed; `target_addr` is that of the server tunnel.
pub record UdpListening (UdpAddr : Type 0) : Type 0 where
  pub bound : Bool
  pub done : Option Bool
  pub target_addr : Option UdpAddr
  pub shutdown : Shutdown

-- The channel is closed only if it is there and open; the number says how often close(done) is called.
close_done : Option Bool → Option Bool × ℕ
close_done none = (none, 0)
close_done (some true) = (some true, 0)
close_done (some false) = (some true, 1)

module _ {UdpAddr : Type 0} where
  listened : Text → Result (Unit {0}) → UdpListening UdpAddr → Result (UdpListening UdpAddr)
  listened prefix (ok u) t = ok (record t { bound = true; done = some false })
  listened prefix (err e) t = err (errorf prefix e)

  -- The address to listen on is resolved first; `listen` is net.ListenUDP.
  unfoldable pub bind_udp_proxy :
      Text
      → Result UdpAddr
      → (UdpAddr → Result (Unit {0}))
      → UdpListening UdpAddr
      → Result (UdpListening UdpAddr)
  unfolding listened
  bind_udp_proxy bind_address resolved listen t = elim resolved [
    | err e ↦ err (
        errorf (codes "udp proxy: could not resolve bind address " ++ (bind_address ++ codes ": "))
          e)
    | ok addr ↦
        listened (codes "udp proxy: could not listen on " ++ (bind_address ++ codes ": "))
          (listen addr) t
  ]

  -- Here it is the target that is resolved, and a port of the tunnel that is listened on.
  unfoldable pub bind_udp_server :
      Text
      → ℕ
      → Result UdpAddr
      → Result (Unit {0})
      → UdpListening UdpAddr
      → Result (UdpListening UdpAddr)
  unfolding listened
  bind_udp_server target listen_port resolved listen t = elim resolved [
    | err e ↦
        err (errorf (codes "udp server tunnel: cannot resolve target " ++ (target ++ codes ": ")) e)
    | ok addr ↦
        listened
          (codes "udp server tunnel: cannot listen on WireGuard port "
            ++ (show_nat listen_port ++ codes ": "))
          listen (record t { target_addr = some addr })
  ]

  -- Serve of either, up to its loop: the error for a tunnel that is not bound.
  unfoldable pub serve_check : Text → UdpListening UdpAddr → Option Error
  serve_check name t =
      if t.bound then none else some (new_error (name ++ codes ": Serve called before Bind"))

  closed_with :
      Option (Option Error) → UdpListening UdpAddr → UdpListening UdpAddr × Option Error × ℕ
  unfolding close_done mark_closed close_listener
  closed_with listener t = (
    record t { done = (close_done t.done).0; shutdown = mark_closed t.shutdown },
    close_listener listener,
    (close_done t.done).1,
  )

  -- Close of the server tunnel.
  unfoldable pub close_udp_server :
      Option Error → UdpListening UdpAddr → UdpListening UdpAddr × Option Error × ℕ
  unfolding closed_with
  close_udp_server closing t = closed_with (if t.bound then some closing else none) t

  -- Close of the proxy tunnel: the listener is a pointer and so never a nil interface; `closing` is also what
  -- Close of the nil pointer returns before Bind.
  unfoldable pub close_udp_proxy :
      Option Error → UdpListening UdpAddr → UdpListening UdpAddr × Option Error × ℕ
  unfolding closed_with
  close_udp_proxy closing t = closed_with (some closing) t

  -- Close of either: `of_proxy` tells the two tunnels apart.
  unfoldable pub close_udp :
      Bool → Option Error → UdpListening UdpAddr → UdpListening UdpAddr × Option Error × ℕ
  unfolding close_udp_server close_udp_proxy
  close_udp true closing t = close_udp_proxy closing t
  close_udp false closing t = close_udp_server closing t

  -- Calls of Close, each with what closing the listener returns, and how often close(done) is called.
  unfoldable pub close_calls :
      Bool → List (Option Error) → UdpListening UdpAddr → UdpListening UdpAddr × ℕ
  unfolding close_udp
  close_calls of_proxy [] t = (t, 0)
  close_calls of_proxy (closing ∷ rest) t =
      let (u, e, n) = close_udp of_proxy closing t in
      let (v, m) = close_calls of_proxy rest u in (v, n + m)

  close_udp-close_done :
      (of_proxy : Bool) (c : Option Error) (t : UdpListening UdpAddr)
      → ((close_udp of_proxy c t).0.done ≡ (close_done t.done).0)
        × ((close_udp of_proxy c t).2 ≡ (close_done t.done).1)
        × ((close_udp of_proxy c t).0.shutdown.closed ≡ true)
  unfolding close_udp close_udp_server close_udp_proxy closed_with mark_closed
  close_udp-close_done true c t = (refl, refl, refl)
  close_udp-close_done false c t = (refl, refl, refl)

  closes_done :
      (of_proxy : Bool) (calls : List (Option Error)) (t : UdpListening UdpAddr)
      → t.done ≡ some true
      → t.shutdown.closed ≡ true
      → ((close_calls of_proxy calls t).0.done ≡ some true)
        × ((close_calls of_proxy calls t).1 ≡ 0)
        × ((close_calls of_proxy calls t).0.shutdown.closed ≡ true)
  unfolding close_calls close_done
  closes_done of_proxy [] t h k = (h, refl, k)
  closes_done of_proxy (c ∷ calls) t h k =
      let (d, n, s) = close_udp-close_done of_proxy c t in
      let (x, y, z) =
        closes_done of_proxy calls (close_udp of_proxy c t).0 (d ∙ ap (λ o. (close_done o).0) h)
          s in
      (x, ap₂ ◌+◌ (n ∙ ap (λ o. (close_done o).1) h) y, z)

  -- Of any calls of Close on a bound tunnel of either kind the first close_calls the tunnel's channel and no other
  -- does, so none close_calls a closed channel, which would panic; after them the tunnel counts as closed.
  closes_once :
      (of_proxy : Bool) (first : Option Error) (calls : List (Option Error))
      (t : UdpListening UdpAddr)
      → t.done ≡ some false
      → ((close_calls of_proxy (first ∷ calls) t).0.done ≡ some true)
        × ((close_calls of_proxy (first ∷ calls) t).1 ≡ 1)
        × ((close_calls of_proxy (first ∷ calls) t).0.shutdown.closed ≡ true)
  unfolding close_calls close_done
  closes_once of_proxy first calls t h =
      let (d, n, s) = close_udp-close_done of_proxy first t in
      let (x, y, z) =
        closes_done of_proxy calls (close_udp of_proxy first t).0 (d ∙ ap (λ o. (close_done o).0) h)
          s in
      (x, ap₂ ◌+◌ (n ∙ ap (λ o. (close_done o).1) h) y, z)
