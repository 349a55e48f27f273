-- ===== src/Http.antt =====
-- http.go, CredentialValidator.Valid, and the server that HTTPConfig.Serve makes (routine.go).
pub mod Access
pub mod Buffered
pub mod Responses
pub mod Accepting
use wireproxy_homerun.Config.Routines.{HttpConfig}
use wireproxy_homerun.Prelude.{
  ◌==◌, if◌then◌else◌, ℕ, Bool, false, not, ◌&&◌, ◌||◌, Option, none, some, List, [], ◌∷◌,
}
use wireproxy_homerun.Std.{
  Result, ok, err, Text, codes, text_eq, is_empty, trim_prefix, has_byte, cut,
}
use wireproxy_homerun.Std.Base64.{base64_decode}
use wireproxy_homerun.Std.HostPort.{join_host_port}

pub record CredentialValidator : Type 0 where
  pub username : Text
  pub password : Text

unfoldable pub valid : CredentialValidator → Text → Text → Bool
valid c username password = text_eq c.username username && text_eq c.password password

pub record HttpServer : Type 0 where
  pub auth : CredentialValidator
  pub auth_required : Bool

-- The server of HTTPConfig.Serve.
unfoldable pub new_server : HttpConfig → HttpServer
new_server config = record {
  auth = record { username = config.username; password = config.password };
  auth_required = not (is_empty config.username) || not (is_empty config.password);
}

-- What the code reads of a request: `proxy_authorization` is the header, or "" without one.
pub record HttpRequest : Type 0 where
  pub method : Text
  pub host : Text
  pub proxy_authorization : Text

check_pair : CredentialValidator → Option (Text × Text) → Option ℕ
unfolding valid
check_pair auth none = some 411
check_pair auth (some (username, password)) =
    if valid auth username password then none else some 401

check_decoded : CredentialValidator → Option (List ℕ) → Option ℕ
unfolding check_pair
check_decoded auth none = some 406
check_decoded auth (some str) = check_pair auth (cut b':' str)

check_header : CredentialValidator → Text → Option ℕ
unfolding check_decoded
check_header auth [] = some 407
check_header auth (c ∷ rest) =
    check_decoded auth (base64_decode (trim_prefix (c ∷ rest) (codes "Basic ")))

-- The status of the refusal, or `none` for a request that may pass.
unfoldable pub authenticate : HttpServer → HttpRequest → Option ℕ
unfolding check_header
authenticate s req =
    if not s.auth_required then none else check_header s.auth req.proxy_authorization

-- The address to dial, with the port that the method implies.
unfoldable pub target_address : Text → Text → Text
target_address port host = if has_byte b':' host then host else join_host_port host port

-- What serving one connection does, in order: a response, whose flag is for the
-- Proxy-Authenticate header; a dial; the answer to CONNECT; the request written to the peer; the
-- peer closed; the copying between the client and the peer.
pub data Effect (Conn : Type 0) : Type 0 where
  respond : ℕ → Bool → Effect Conn
  dial_to : Text → Effect Conn
  established : Effect Conn
  write_request : Conn → Effect Conn
  close_peer : Conn → Effect Conn
  relay : Conn → Effect Conn

-- `dial` answers the dial; `written` is whether the write behind it succeeds.
module _ {Conn : Type 0} (dial : Text → Result Conn) (written : Bool) where
  established_with : Result Conn → List (Effect Conn)
  established_with (err e) = []
  established_with (ok peer) =
      established ∷ (if written then relay peer ∷ [] else close_peer peer ∷ [])

  -- handleConn, and the relaying behind it
  handle_conn : HttpRequest → List (Effect Conn)
  unfolding target_address established_with
  handle_conn req =
      let addr = target_address (codes "443") req.host in
      dial_to addr ∷ established_with (dial addr)

  requested_with : Result Conn → List (Effect Conn)
  requested_with (err e) = []
  requested_with (ok peer) =
      write_request peer ∷ (if written then relay peer ∷ [] else close_peer peer ∷ [])

  -- handle, and the relaying behind it
  handle : HttpRequest → List (Effect Conn)
  unfolding target_address requested_with
  handle req =
      let addr = target_address (codes "80") req.host in dial_to addr ∷ requested_with (dial addr)

  by_method : HttpRequest → List (Effect Conn)
  unfolding handle_conn handle
  by_method req =
      if text_eq req.method (codes "CONNECT")
      then handle_conn req
      else (if text_eq req.method (codes "GET") then handle req else respond 405 false ∷ [])

  admit : HttpRequest → Option ℕ → List (Effect Conn)
  unfolding by_method
  admit req none = by_method req
  admit req (some code) = respond code (code == 407) ∷ []

  -- A connection whose request cannot be read is left alone.
  unfoldable pub serve : HttpServer → Result HttpRequest → List (Effect Conn)
  unfolding admit authenticate
  serve s (err e) = []
  serve s (ok req) = admit req (authenticate s req)
