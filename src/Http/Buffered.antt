-- ===== src/Http/Buffered.antt =====
-- How serve of http.go reads a request from its connection, and what is left for the copying: the request,
-- and its body when it is written to the peer, are read through a bufio.Reader, the copying reads from the
-- connection.
use wireproxy_homerun.Std.Streams.Laws.{read_conn-whole}
use wireproxy_homerun.Http.{
  Effect, HttpServer, HttpRequest, serve, authenticate, target_address, write_request, by_method,
  admit, handle_conn, established_with,
}
use wireproxy_homerun.Prelude.{
  length, ℕ, ◌≤◌, ◌≡◌, ap, Bool, List, [], ◌∷◌, ◌++◌, refl, ◌≢◌, any, leb, if◌then◌else◌, zero, suc,
  ◌⊎◌, inl, inr, true, false, Option, none, some, arith,
}
use wireproxy_homerun.Std.{Error, new_error, Result, ok, err, Text, codes, text_eq_iff}
use wireproxy_homerun.Std.Streams.{Stream, read_conn, split_at}

-- bufio.Reader over a connection: what was read ahead, and the connection.
pub record BufReader : Type 0 where
  pub buffered : Text
  pub conn : Stream

-- The body of a request: the reads that it makes of the reader, each of at most so many bytes, while
-- req.Write reads it to its end.
pub data Body : Type 0 where
  reads : ℕ → (Result Text → Body) → Body
  complete : Body

-- http.ReadRequest, as it takes the bytes of its reader up to the end of the head.
pub data Parser : Type 0 where
  takes : (Result ℕ → Parser) → Parser
  finished : Result (HttpRequest × Body) → Parser

-- The size of the buffer of bufio.NewReader.
unfoldable pub buffer_size : ℕ
buffer_size = 4096

no_progress : Error
no_progress = new_error (codes "multiple Read calls return no data or error")

filled : Result Text → Stream → Result ℕ × BufReader
unfolding no_progress
filled (err e) conn = (err e, record { buffered = []; conn = conn })
filled (ok []) conn = (err no_progress, record { buffered = []; conn = conn })
filled (ok (c ∷ s)) conn = (ok c, record { buffered = s; conn = conn })

-- One byte; an empty buffer is filled with a read of up to its size.
unfoldable pub take_byte : BufReader → Result ℕ × BufReader
unfolding filled
take_byte r = elim r.buffered [
  | c ∷ s ↦ (ok c, record r { buffered = s })
  | [] ↦ let (got, rest) = read_conn buffer_size r.conn in filled got rest
]

unfoldable pub read_request : Parser → BufReader → Result (HttpRequest × Body) × BufReader
read_request (finished req) r = (req, r)
read_request (takes next) r = let (c, rest) = take_byte r in read_request (next c) rest

refilled : ℕ → Result Text → Stream → Result Text × BufReader
refilled n (err e) conn = (err e, record { buffered = []; conn = conn })
refilled n (ok s) conn = let (a, b) = split_at n s in (ok a, record { buffered = b; conn = conn })

-- A read of up to `n` bytes; one that is not smaller than the buffer passes by an empty one.
read_buffered : ℕ → BufReader → Result Text × BufReader
unfolding refilled
read_buffered zero r = (ok [], r)
read_buffered (suc n) r = elim r.buffered [
  | c ∷ s ↦ let (a, b) = split_at (suc n) (c ∷ s) in (ok a, record r { buffered = b })
  | [] ↦
      if leb buffer_size (suc n)
      then (let (got, rest) = read_conn (suc n) r.conn in (got, record r { conn = rest }))
      else (let (got, rest) = read_conn buffer_size r.conn in refilled (suc n) got rest)
]

-- req.Write, as it reads the body.
unfoldable pub write_body : Body → BufReader → BufReader
unfolding read_buffered
write_body complete r = r
write_body (reads n next) r = let (got, rest) = read_buffered n r in write_body (next got) rest

abbrev pub is_write : {Conn : Type 0} → Effect Conn → Bool
is_write (write_request peer) = true
is_write _ = false

abbrev pub request_of : Result (HttpRequest × Body) → Result HttpRequest
request_of (ok (req, body)) = ok req
request_of (err e) = err e

abbrev pub body_of : Result (HttpRequest × Body) → Body
body_of (ok (req, body)) = body
body_of (err e) = complete

-- serve on a connection: its effects, and the connection that a relay copies to the peer. The body is
-- read where the request is written to the peer.
unfoldable pub serve_conn :
    {Conn : Type 0}
    → (Text → Result Conn)
    → Bool
    → HttpServer
    → Parser
    → Stream
    → List (Effect Conn) × Stream
serve_conn dial written s parser conn =
    let (got, r) = read_request parser (record { buffered = []; conn = conn }) in
    let effects = serve dial written s (request_of got) in
    (effects, (if any is_write effects then write_body (body_of got) r else r).conn)

-- The parser asks for exactly these bytes and then has the request and its body.
abbrev pub Reads : Parser → Text → HttpRequest → Body → Type 0
Reads (finished r) [] req body = r ≡ ok (req, body)
Reads (takes next) (c ∷ s) req body = Reads (next (ok c)) s req body
Reads _ _ req body = ⊥

read_request-Reads :
    (p : Parser) (head early : Text) (req : HttpRequest) (body : Body) (conn : Stream)
    → Reads p head req body
    → read_request p (record { buffered = head ++ early; conn = conn })
      ≡ (ok (req, body), record { buffered = early; conn = conn })
unfolding read_request take_byte
read_request-Reads (finished r) [] early req body conn h =
    ap (λ x. (x, record { buffered = early; conn = conn })) h
read_request-Reads (finished r) (c ∷ s) early req body conn h = absurd h
read_request-Reads (takes next) [] early req body conn h = absurd h
read_request-Reads (takes next) (c ∷ s) early req body conn h =
    read_request-Reads (next (ok c)) s early req body conn h

take_byte-whole :
    (c : ℕ) (s : Text) (rest : Stream)
    → length (c ∷ s) ≤ buffer_size
    → take_byte (record { buffered = []; conn = ok (c ∷ s) ∷ rest })
      ≡ (ok c, record { buffered = s; conn = rest })
unfolding take_byte filled
take_byte-whole c s rest h = rw (read_conn-whole buffer_size (c ∷ s) rest h) refl

read_request-whole :
    (next : Result ℕ → Parser) (c : ℕ) (s : Text) (rest : Stream)
    → length (c ∷ s) ≤ buffer_size
    → read_request (takes next) (record { buffered = []; conn = ok (c ∷ s) ∷ rest })
      ≡ read_request (next (ok c)) (record { buffered = s; conn = rest })
unfolding read_request
read_request-whole next c s rest h =
    ap (λ (x : Result ℕ × BufReader). read_request (next x.0) x.1) (take_byte-whole c s rest h)

-- The request of a CONNECT is not written to the peer.
module _ {Conn : Type 0} (dial : Text → Result Conn) (written : Bool) where
  established_with-is_write :
      (r : Result Conn) → any is_write (established_with dial written r) ≡ false
  unfolding established_with
  established_with-is_write (err e) = refl
  established_with-is_write (ok peer) = ground arith

  admit-is_write :
      (req : HttpRequest) (c : Option ℕ)
      → req.method ≡ codes "CONNECT"
      → any is_write (admit dial written req c) ≡ false
  unfolding admit by_method handle_conn
  admit-is_write req (some code) m = refl
  admit-is_write req none m =
      rw ((text_eq_iff req.method (codes "CONNECT")).1 m)
        (established_with-is_write (dial (target_address (codes "443") req.host)))

  serve-is_write :
      (s : HttpServer) (req : HttpRequest)
      → req.method ≡ codes "CONNECT"
      → any is_write (serve dial written s (ok req)) ≡ false
  unfolding serve
  serve-is_write s req m = admit-is_write req (authenticate s req) m

  -- Nothing of the body is read for a CONNECT or where there is none.
  rest_of :
      (s : HttpServer) (req : HttpRequest) (body : Body) (r : BufReader)
      → (req.method ≡ codes "CONNECT") ⊎ (body ≡ complete)
      → (if any is_write (serve dial written s (ok req)) then write_body body r else r).conn
        ≡ r.conn
  unfolding write_body
  rest_of s req body r (inl m) = rw (serve-is_write s req m) refl
  rest_of s req body r (inr e) = rw (e, write_body) (ground arith)

  -- What a client sends behind the head of its request in the same segment is not copied to the peer, if
  -- the request is a CONNECT or has no body: where the segment is not larger than the buffer, the request is
  -- served as ever, and the copying starts with what comes after the segment.
  pub serve_conn-Reads :
      (s : HttpServer) (p : Parser) (head early : Text) (req : HttpRequest) (body : Body)
      (rest : Stream)
      → (req.method ≡ codes "CONNECT") ⊎ (body ≡ complete)
      → Reads p head req body
      → head ≢ []
      → length (head ++ early) ≤ buffer_size
      → serve_conn dial written s p (ok (head ++ early) ∷ rest)
        ≡ (serve dial written s (ok req), rest)
  unfolding serve_conn
  serve_conn-Reads s (finished r) [] early req body rest m h n l = absurd (n refl)
  serve_conn-Reads s (takes next) [] early req body rest m h n l = absurd h
  serve_conn-Reads s (finished r) (c ∷ head) early req body rest m h n l = absurd h
  serve_conn-Reads s (takes next) (c ∷ head) early req body rest m h n l =
      rw
        (
          read_request-whole next c (head ++ early) rest l,
          read_request-Reads (next (ok c)) head early req body rest h,
        )
        (ap (λ x. (serve dial written s (ok req), x))
          (rest_of s req body (record { buffered = early; conn = rest }) m))
