-- ===== src/Sni/Forwarding.antt =====
-- What reaches the backend, and which backend.
use wireproxy_homerun.Router.Dialing.{routed_dial-join}
use wireproxy_homerun.Router.{DomainRouter, should_tunnel, Dialers, routed_dial}
use wireproxy_homerun.Std.HostPort.{join_host_port, IsHost}
use wireproxy_homerun.Std.Unicode.{Unicode}
use wireproxy_homerun.Std.Streams.{Stream, tee_read, bytes_of, multi_read, contents}
use wireproxy_homerun.Std.Streams.Laws.{remaining, tee_read-remaining, multi_read-remaining}
use wireproxy_homerun.Prelude.{
  ◌≡◌, refl, ◌∙◌, Option, some, if◌then◌else◌, Option-cases, ℕ, ap, ◌≢◌, inl, inr, none, List, [],
  ◌∷◌, ◌++◌, append_assoc, sym, arith,
}
use wireproxy_homerun.Sni.{
  Handshake, reads, writes, says_hello, finishes, closed_pipe, shake_hands, peek_client_hello,
  forwarded, sni_serve, unless, dial_backend, hello_of, Peeked, Served,
}
use wireproxy_homerun.Std.{Text, Error, ok, codes, Result, Result-cases}

shake_hands-remaining :
    (h : Handshake) (hello : Option Text) (p : Text × Stream)
    → remaining (shake_hands h hello p).reader ≡ remaining p
unfolding shake_hands
shake_hands-remaining (reads n next) hello p =
    shake_hands-remaining (next (tee_read n p).0) hello (tee_read n p).1 ∙ tee_read-remaining n p
shake_hands-remaining (writes s next) hello p = shake_hands-remaining (next closed_pipe) hello p
shake_hands-remaining (says_hello name next) hello p = shake_hands-remaining next (some name) p
shake_hands-remaining (finishes e) hello p = refl

hello_of-client : (p : Peeked) → (hello_of p).client ≡ p.reader
unfolding hello_of
hello_of-client p = elim (Option-cases p.hello) [
  | inl e ↦ rw (e, hello_of) refl
  | inr (name, e) ↦ rw (e, hello_of) refl
]

-- Whatever the handshake reads, the reader that it leaves has all that the client sends, from the first byte.
peek-remaining :
    (h : Handshake) (conn : Stream) → remaining (peek_client_hello h conn).client ≡ contents conn
unfolding peek_client_hello
peek-remaining h conn =
    ap remaining (hello_of-client (shake_hands h none ([], conn)))
    ∙ shake_hands-remaining h none ([], conn)

-- The reads that copy from the client to the backend, and what they give.
abbrev pub copied : List ℕ → Text × Stream → Text
copied [] p = []
copied (n ∷ ns) p = bytes_of (multi_read n p).0 ++ copied ns (multi_read n p).1

abbrev pub left_after : List ℕ → Text × Stream → Text × Stream
left_after [] p = p
left_after (n ∷ ns) p = left_after ns (multi_read n p).1

copied-remaining :
    (ns : List ℕ) (p : Text × Stream) → copied ns p ++ remaining (left_after ns p) ≡ remaining p
copied-remaining [] p = refl
copied-remaining (n ∷ ns) p =
    append_assoc (bytes_of (multi_read n p).0) (copied ns (multi_read n p).1) _
    ∙ ap (λ x. bytes_of (multi_read n p).0 ++ x) (copied-remaining ns (multi_read n p).1)
    ∙ multi_read-remaining n p

unless-forwarded :
    {Conn : Type 0} (prefix : Text) (e : Option Error) (next : Served Conn) (client : Text × Stream)
    (backend : Conn)
    → unless prefix e next ≡ forwarded client backend
    → next ≡ forwarded client backend
unfolding unless
unless-forwarded prefix none next client backend h = h
unless-forwarded prefix (some e) next client backend h = absurd (ground arith)

dial_backend-forwarded :
    {Conn : Type 0} (dial : Text → Text → Result Conn) (handshake : Handshake)
    (set clear : Option Error) (name : Text) (reader client : Text × Stream) (backend : Conn)
    → dial_backend dial handshake set clear name reader ≡ forwarded client backend
    → (dial (codes "tcp") (join_host_port name (codes "443")) ≡ ok backend)
      × (name ≢ [])
      × (reader ≡ client)
unfolding dial_backend
dial_backend-forwarded dial handshake set clear [] reader client backend h = absurd (ground arith)
dial_backend-forwarded dial handshake set clear (c ∷ name) reader client backend h =
    elim (Result-cases (dial (codes "tcp") (join_host_port (c ∷ name) (codes "443")))) [
      | inl (x, e) ↦ (ground arith, λ n. ground arith, ground arith)
      | inr (x, e) ↦ absurd (ground arith)
    ]

module _ {Conn : Type 0} (u : Unicode) (d : Dialers Conn) (router : Option DomainRouter)
    (handshake : Handshake) (set clear : Option Error) (conn : Stream) where
  -- A connection is forwarded only to a backend that was dialed for the server name of the ClientHello on port
  -- 443, through the tunnel exactly if the decision for that name says so; and after any reads the backend has
  -- got the bytes that the client sent, from the first one on, with none lost or repeated, for all that the
  -- handshake read before.
  pub sni_serve-forwarded :
      (client : Text × Stream) (backend : Conn) (ns : List ℕ)
      → IsHost (peek_client_hello handshake conn).server_name
      → sni_serve (routed_dial u d router) handshake set clear conn ≡ forwarded client backend
      → let name = (peek_client_hello handshake conn).server_name in
        let address = join_host_port name (codes "443") in
        ((if should_tunnel u router name
            then d.tunnel_dial (codes "tcp") address
            else d.direct_dial (codes "tcp") address)
          ≡ ok backend)
        × (name ≢ [])
        × (copied ns client ++ remaining (left_after ns client) ≡ contents conn)
  unfolding sni_serve codes
  sni_serve-forwarded client backend ns i h =
      let k = peek_client_hello handshake conn in
      let (e, n, q) =
        dial_backend-forwarded (routed_dial u d router) handshake set clear k.server_name k.client
          client backend
          (unless-forwarded _ clear _ client backend (
            unless-forwarded _ k.failed _ client backend
              (unless-forwarded _ set _ client backend h))) in
      (
        sym (
              routed_dial-join u d router (codes "tcp") k.server_name (codes "443") i
                ((refl, refl), refl))
            ∙ e,
        n,
        copied-remaining ns client ∙ ap remaining (sym q) ∙ peek-remaining handshake conn,
      )
