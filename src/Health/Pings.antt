-- ===== src/Health/Pings.antt =====
-- The pings: StartPingIPs, and what pingIPs does with one address.
pub mod Alive
pub mod Record
pub mod Last
pub mod Replies
use wireproxy_homerun.Net.{Addr, no_addr, v4, v6, is4, is6}
use wireproxy_homerun.Prelude.{
  any, ◌==◌, if◌then◌else◌, ℕ, ◌+◌, ◌*◌, Bool, true, false, not, ◌||◌, List, [], ◌∷◌,
}
use wireproxy_homerun.Std.{Result, ok, err, Text, text_eq}
use wireproxy_homerun.Health.{PingRecord}

-- *icmp.Echo
pub record Echo : Type 0 where
  pub seq : ℕ
  pub payload : List ℕ

-- The body of a parsed ICMP message: *icmp.Echo, *icmp.RawBody, or another.
pub data Body : Type 0 where
  echo_body : Echo → Body
  raw_body : List ℕ → Body
  other_body : Body

pub data Verdict : Type 0 where
  matches : Verdict
  refused : Verdict
  panics : Verdict

-- requestPing and the reply to an IPv4 address
same_echo : Echo → Echo → Verdict
same_echo request answer =
    if not (text_eq answer.payload request.payload) || not (answer.seq == request.seq)
    then refused
    else matches

-- The reply to an IPv6 address is read from its bytes: Data[2:4] and Data[4:] panic on fewer than four.
same_raw : Echo → List ℕ → Verdict
same_raw request (a ∷ b ∷ c ∷ d ∷ body) =
    if not (text_eq body request.payload) || not (c * 256 + d == request.seq)
    then refused
    else matches
same_raw request _ = panics

unfoldable pub check_reply : Addr → Echo → Body → Verdict
unfolding same_echo same_raw
check_reply (v4 n) request (echo_body answer) = same_echo request answer
check_reply (v4 n) request _ = refused
check_reply (v6 n zone) request (raw_body bytes) = same_raw request bytes
check_reply (v6 n zone) request _ = refused
check_reply no_addr request _ = matches

-- What the world answers to one ping: the dial, the draw of sequence number and data, the write, and the
-- bytes that are read.
pub record Attempt : Type 0 where
  pub dial : Result (Unit {0})
  pub request : Echo
  pub write : Result (Unit {0})
  pub read : Result Text

pub data Effect : Type 0 where
  open_socket : Effect
  close_socket : Effect
  log_failure : Effect
  store_pong : Effect
  crash : Effect

abbrev after_verdict : Verdict → List Effect
after_verdict matches = store_pong ∷ close_socket ∷ []
after_verdict refused = log_failure ∷ []
after_verdict panics = crash ∷ []

abbrev is_valid_addr : Addr → Bool
is_valid_addr addr = is4 addr || is6 addr

-- `parse_message` is icmp.ParseMessage(1, ...).
module _ (parse_message : Text → Result Body) where
  -- The goroutine that waits for the reply.
  await_reply : Addr → Attempt → List Effect
  unfolding check_reply
  await_reply addr a = elim a.read [
    | err e ↦ log_failure ∷ []
    | ok bytes ↦ elim (parse_message bytes) [
      | err e ↦ log_failure ∷ []
      | ok body ↦ after_verdict (check_reply addr a.request body)
    ]
  ]

  send : Addr → Attempt → List Effect
  unfolding await_reply
  send addr a =
      if is_valid_addr addr
      then elim a.write [ err e ↦ log_failure ∷ [] | ok u ↦ await_reply addr a ]
      else log_failure ∷ []

  unfoldable pub ping : Addr → Attempt → List Effect
  unfolding send
  ping addr a = elim a.dial [ err e ↦ log_failure ∷ [] | ok u ↦ open_socket ∷ send addr a ]

-- d.PingRecord[key] = second
unfoldable pub set_record : Text → ℕ → PingRecord → PingRecord
set_record key second [] = (key, second) ∷ []
set_record key second ((k, t) ∷ rest) =
    let others = set_record key second rest in
    if text_eq key k then (key, second) ∷ rest else (k, t) ∷ others

abbrev pub stores : List Effect → Bool
stores effects = any (λ x. elim x [ store_pong ↦ true | _ ↦ false ]) effects

-- A ping of an address and the second at which its goroutine ends.
pub record Ended : Type 0 where
  pub addr : Addr
  pub attempt : Attempt
  pub second : ℕ

-- `show_addr` is Addr.String.
module _ (show_addr : Addr → Text) where
  unfoldable pub start_ping_ips : List Addr → PingRecord → PingRecord
  unfolding set_record
  start_ping_ips [] records = records
  start_ping_ips (addr ∷ rest) records = start_ping_ips rest (set_record (show_addr addr) 0 records)

  -- The record after the pings, in the order in which their goroutines end.
  unfoldable pub after_pings : (Text → Result Body) → List Ended → PingRecord → PingRecord
  unfolding ping set_record
  after_pings parse_message [] records = records
  after_pings parse_message (p ∷ rest) records = after_pings parse_message rest (
      if stores (ping parse_message p.addr p.attempt)
      then set_record (show_addr p.addr) p.second records
      else records)
