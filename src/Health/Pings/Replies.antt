-- ===== src/Health/Pings/Replies.antt =====
-- Which replies are accepted, and what becomes of the socket.
use wireproxy_homerun.Health.Pings.{
  Echo, Body, echo_body, raw_body, other_body, matches, check_reply, Attempt, Effect, open_socket,
  close_socket, crash, ping, stores, await_reply, send, same_raw, same_echo, panics,
}
use wireproxy_homerun.Net.{Addr, v4, v6}
use wireproxy_homerun.Prelude.{
  length, any, ℕ, ◌+◌, ◌*◌, ◌<◌, ◌≡◌, ◌↔◌, Bool, true, false, List, [], ◌∷◌, arith, ==_refl, refl,
  ap, subst,
}
use wireproxy_homerun.Std.{Result, ok, Text, text_eq_iff, text_eq_refl}

abbrev is_close : Effect → Bool
is_close close_socket = true
is_close _ = false

abbrev pub closes : List Effect → Bool
closes effects = any is_close effects

same_echo_iff : (request answer : Echo) → (same_echo request answer ≡ matches) ↔ (answer ≡ request)
unfolding same_echo
same_echo_iff request answer = (
  λ h. ground (arith, text_eq_iff answer.payload request.payload),
  λ e. rw e (ground (arith, text_eq_refl request.payload, ==_refl request.seq)),
)

-- The bytes that answer a request.
abbrev pub IsRawEcho : Echo → List ℕ → Type 0
IsRawEcho request bytes =
    (a : ℕ) × (b : ℕ) × (c : ℕ) × (d : ℕ) × (bytes ≡ a ∷ b ∷ c ∷ d ∷ request.payload)
    × (c * 256 + d ≡ request.seq)

same_raw-IsRawEcho :
    (request : Echo) (bytes : List ℕ) → same_raw request bytes ≡ matches → IsRawEcho request bytes
unfolding same_raw
same_raw-IsRawEcho request (a ∷ b ∷ c ∷ d ∷ body) h =
    (a, b, c, d, ground (arith, text_eq_iff body request.payload), ground arith)
same_raw-IsRawEcho request (a ∷ b ∷ c ∷ []) h = absurd (ground arith)
same_raw-IsRawEcho request (a ∷ b ∷ []) h = absurd (ground arith)
same_raw-IsRawEcho request (a ∷ []) h = absurd (ground arith)
same_raw-IsRawEcho request [] h = absurd (ground arith)

IsRawEcho-same_raw :
    (request : Echo) (bytes : List ℕ) → IsRawEcho request bytes → same_raw request bytes ≡ matches
unfolding same_raw
IsRawEcho-same_raw request bytes (a, b, c, d, e, f) =
    rw e (ground (arith, text_eq_refl request.payload, ==_refl request.seq))

-- To an IPv4 address exactly the echo with the number and the data of the request is accepted.
check_reply_v4 :
    (n : ℕ) (request : Echo) (body : Body)
    → (check_reply (v4 n) request body ≡ matches) ↔ (body ≡ echo_body request)
unfolding check_reply
check_reply_v4 n request (echo_body answer) = (
  λ h. ap echo_body ((same_echo_iff request answer).0 h),
  λ e. (same_echo_iff request answer).1 (ground arith),
)
check_reply_v4 n request (raw_body bytes) = ground arith
check_reply_v4 n request other_body = ground arith

-- To an IPv6 address a reply is accepted exactly if its body is raw and holds, after two bytes of any
-- content, the number of the request in two bytes, the higher first, and then its data.
pub check_reply_v6 :
    (n : ℕ) (zone : Text) (request : Echo) (body : Body)
    → (check_reply (v6 n zone) request body ≡ matches)
      ↔ ((bytes : List ℕ) × (body ≡ raw_body bytes) × IsRawEcho request bytes)
unfolding check_reply
check_reply_v6 n zone request (echo_body answer) =
    (λ h. absurd (ground arith), λ (bytes, e, f). absurd (ground arith))
check_reply_v6 n zone request (raw_body bytes) = (
  λ h. (bytes, refl, same_raw-IsRawEcho request bytes h),
  λ (l, e, f). IsRawEcho-same_raw request bytes (subst (IsRawEcho request) (ground arith) f),
)
check_reply_v6 n zone request other_body =
    (λ h. absurd (ground arith), λ (bytes, e, f). absurd (ground arith))

-- The socket of a ping is closed exactly if its pong is stored; so after every failure that comes behind the
-- dial it stays open.
pub ping-closes :
    (parse : Text → Result Body) (addr : Addr) (a : Attempt)
    → closes (ping parse addr a) ≡ stores (ping parse addr a)
unfolding ping send await_reply
ping-closes parse addr a = ground arith

short_panics : (request : Echo) (body : Text) → length body < 4 → same_raw request body ≡ panics
unfolding same_raw
short_panics request (a ∷ b ∷ c ∷ d ∷ body) l = absurd (omega arith)
short_panics request (a ∷ b ∷ c ∷ []) l = refl
short_panics request (a ∷ b ∷ []) l = refl
short_panics request (a ∷ []) l = refl
short_panics request [] l = refl

-- A reply from an IPv6 address whose body has fewer than four bytes ends the process: the slices of the
-- body are taken before anything is compared.
ping_short_reply :
    (parse : Text → Result Body) (n : ℕ) (zone : Text) (a : Attempt) (bytes body : Text)
    → a.dial ≡ ok (record {})
    → a.write ≡ ok (record {})
    → a.read ≡ ok bytes
    → parse bytes ≡ ok (raw_body body)
    → length body < 4
    → ping parse (v6 n zone) a ≡ open_socket ∷ crash ∷ []
unfolding ping send await_reply check_reply same_raw
ping_short_reply parse n zone a bytes body d w r p l =
    rw (d, send, w, await_reply, r, p, check_reply, short_panics a.request body l) refl
