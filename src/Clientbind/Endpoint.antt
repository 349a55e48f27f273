-- ===== src/Clientbind/Endpoint.antt =====
-- Which endpoint the bind takes, and what goes out.
use wireproxy_homerun.Clientbind.{
  ClientOnlyBind, closed_error, send, close, addr_eq, addr_port_eq, parse_endpoint, matching,
  write_all,
}
use wireproxy_homerun.Net.{Addr, no_addr, v4, v6, AddrPort}
use wireproxy_homerun.Prelude.{
  Each, ==_refl, ℕ, ◌≡◌, ◌↔◌, inl, inr, true, Option, none, some, List, [], ◌∷◌, ◌++◌, arith,
  Bool-cases, refl,
}
use wireproxy_homerun.Std.{Error, Result, ok, Result-cases, Text, text_eq_iff}

addr_eq_iff : (a b : Addr) → (addr_eq a b ≡ true) ↔ (a ≡ b)
unfolding addr_eq
addr_eq_iff no_addr no_addr = ground arith
addr_eq_iff no_addr (v4 m) = ground arith
addr_eq_iff no_addr (v6 m z) = ground arith
addr_eq_iff (v4 n) no_addr = ground arith
addr_eq_iff (v4 n) (v4 m) = ground arith
addr_eq_iff (v4 n) (v6 m z) = ground arith
addr_eq_iff (v6 n y) no_addr = ground arith
addr_eq_iff (v6 n y) (v4 m) = ground arith
addr_eq_iff (v6 n y) (v6 m z) = ground (arith, text_eq_iff y z)

addr_port_eq_iff : (a b : AddrPort) → (addr_port_eq a b ≡ true) ↔ (a ≡ b)
unfolding addr_port_eq
addr_port_eq_iff a b = (
  λ h. ground (arith, addr_eq_iff a.addr b.addr),
  λ e. rw e (ground (arith, addr_eq_iff b.addr b.addr, ==_refl b.port)),
)

matching_iff : (peer x ap : AddrPort) → (matching peer x ≡ ok ap) ↔ ((x ≡ peer) × (ap ≡ peer))
unfolding matching
matching_iff peer x ap = elim (Bool-cases (addr_port_eq x peer)) [
  | inl e ↦
      (λ h. let f = (addr_port_eq_iff x peer).0 e in (f, ground (arith, f)), λ (f, g). ground arith)
  | inr e ↦
      (λ h. absurd (ground arith), λ (f, g). absurd (ground (arith, (addr_port_eq_iff x peer).1 f)))
]

-- ParseEndpoint returns an endpoint exactly for a text that stands for the configured peer, and then it is
-- that peer.
pub parse_endpoint_iff :
    (parse : Text → Result AddrPort) (peer ap : AddrPort) (s : Text)
    → (parse_endpoint parse peer s ≡ ok ap) ↔ ((parse s ≡ ok peer) × (ap ≡ peer))
unfolding parse_endpoint matching
parse_endpoint_iff parse peer ap s = elim (Result-cases (parse s)) [
  | inl (x, e) ↦ (
    λ h. let (f, g) = (matching_iff peer x ap).0 (rw e at h) in (ground arith, g),
    λ (f, g). rw (e, parse_endpoint) ((matching_iff peer x ap).1 (ground arith, g)),
  )
  | inr (x, e) ↦ ground arith
]

write_all-written :
    (write : Text → Option Error) (sent : List Text)
    → Each (λ x. write x ≡ none) sent
    → write_all write sent ≡ (none, sent)
unfolding write_all
write_all-written write [] h = refl
write_all-written write (p ∷ sent) (q, h) = rw (q, write_all, write_all-written write sent h) refl

write_all-failed :
    (write : Text → Option Error) (sent : List Text) (p : Text) (bufs : List Text) (e : Error)
    → Each (λ x. write x ≡ none) sent
    → write p ≡ some e
    → write_all write (sent ++ p ∷ bufs) ≡ (some e, sent ++ p ∷ [])
unfolding write_all
write_all-failed write [] p bufs e h f = rw (f, write_all) refl
write_all-failed write (x ∷ sent) p bufs e (q, h) f =
    rw (q, write_all, write_all-failed write sent p bufs e h f) refl

-- Send writes the buffers in their order up to the first that fails, on the socket that is open, and returns
-- that failure; on a bind that is not open it writes nothing and returns net.ErrClosed.
send_lem :
    (write : ℕ → Text → Option Error) (sent : List Text) (p : Text) (bufs : List Text) (e : Error)
    (b : ClientOnlyBind) (c : ℕ)
    → b.conn ≡ some c
    → Each (λ x. write c x ≡ none) sent
    → write c p ≡ some e
    → (send write sent b ≡ (none, sent))
      × (send write (sent ++ p ∷ bufs) b ≡ (some e, sent ++ p ∷ []))
      × (send write (sent ++ p ∷ bufs) (close (λ i. none) b).0 ≡ (some closed_error, []))
unfolding send close
send_lem write sent p bufs e b c k h f = (
  rw (k, send) (write_all-written (write c) sent h),
  rw (k, send) (write_all-failed (write c) sent p bufs e h f),
  rw (k, close) refl,
)
