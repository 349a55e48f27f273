-- ===== src/Sni.antt =====
-- The SNI proxy of sni.go.
pub mod Forwarding
use wireproxy_homerun.Std.Streams.{Stream, tee_read}
use wireproxy_homerun.Prelude.{ℕ, Option, none, some, [], ◌∷◌}
use wireproxy_homerun.Std.{Error, new_error, errorf, Result, ok, err, Text, codes}
use wireproxy_homerun.Std.HostPort.{join_host_port}

-- What tls.Server(...).Handshake() does with its connection, which is a readOnlyConn: it reads, it tries to
-- write, it calls GetConfigForClient with the server name of a ClientHello, and it returns.
pub data Handshake : Type 0 where
  reads : ℕ → (Result Text → Handshake) → Handshake
  writes : Text → (Error → Handshake) → Handshake
  says_hello : Text → Handshake → Handshake
  finishes : Option Error → Handshake

-- readOnlyConn.Write returns io.ErrClosedPipe.
unfoldable pub closed_pipe : Error
closed_pipe = new_error (codes "io: read/write on closed pipe")

-- The last hello, the error, and what was peeked with what is left of the connection.
pub record Peeked : Type 0 where
  pub hello : Option Text
  pub failed : Option Error
  pub reader : Text × Stream

-- The handshake on a readOnlyConn over a TeeReader.
unfoldable pub shake_hands : Handshake → Option Text → Text × Stream → Peeked
unfolding tee_read closed_pipe
shake_hands (reads n next) hello p = let (r, rest) = tee_read n p in shake_hands (next r) hello rest
shake_hands (writes s next) hello p = shake_hands (next closed_pipe) hello p
shake_hands (says_hello name next) hello p = shake_hands next (some name) p
shake_hands (finishes e) hello p = record { hello = hello; failed = e; reader = p }

-- peekClientHello: the server name, the MultiReader, and the error.
pub record Hello : Type 0 where
  pub server_name : Text
  pub client : Text × Stream
  pub failed : Option Error

hello_of : Peeked → Hello
hello_of p = elim p.hello [
  | none ↦ record { server_name = []; client = p.reader; failed = p.failed }
  | some name ↦ record { server_name = name; client = p.reader; failed = none }
]

unfoldable pub peek_client_hello : Handshake → Stream → Hello
unfolding shake_hands hello_of
peek_client_hello handshake conn = hello_of (shake_hands handshake none ([], conn))

-- What is done with a connection: it is copied both ways between the client, read through the MultiReader, and
-- the backend, or it is closed.
pub data Served (Conn : Type 0) : Type 0 where
  forwarded : Text × Stream → Conn → Served Conn
  closed_client : Error → Served Conn

unless : {Conn : Type 0} → Text → Option Error → Served Conn → Served Conn
unless prefix none next = next
unless prefix (some e) next = closed_client (errorf prefix e)

-- `set` and `clear` are what setting and clearing the read deadline of five seconds return.
module _ {Conn : Type 0} (dial : Text → Text → Result Conn) (handshake : Handshake)
    (set clear : Option Error) where
  dial_backend : Text → Text × Stream → Served Conn
  dial_backend [] client = closed_client (new_error (codes "no SNI hostname in ClientHello"))
  dial_backend (c ∷ name) client =
      elim (dial (codes "tcp") (join_host_port (c ∷ name) (codes "443"))) [
        | err e ↦ closed_client (errorf (codes "tun tcp dial failed: ") e)
        | ok backend ↦ forwarded client backend
      ]

  -- sniServe, with sniProxyForward.
  unfoldable pub sni_serve : Stream → Served Conn
  unfolding peek_client_hello unless dial_backend
  sni_serve conn =
      let h = peek_client_hello handshake conn in
      unless (codes "set read deadline failed: ") set (
        unless (codes "peek client hello failed: ") h.failed (
          unless (codes "clear read deadline failed: ") clear
            (dial_backend h.server_name h.client)))
