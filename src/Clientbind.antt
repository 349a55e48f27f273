-- ===== src/Clientbind.antt =====
-- The bind of clientbind/clientbind.go: one connected UDP socket to one peer.
pub mod Sockets
pub mod Endpoint
use wireproxy_homerun.Net.{Addr, no_addr, v4, v6, is6, is4_in6, AddrPort}
use wireproxy_homerun.Prelude.{
  ◌==◌, if◌then◌else◌, ℕ, ◌%◌, ◌^◌, ap, Bool, true, false, not, ◌&&◌, Option, none, some, List, [],
  ◌∷◌, ◌++◌,
}
use wireproxy_homerun.Std.{Error, new_error, Result, ok, err, ◌>>=◌, Text, codes, text_eq}

-- ClientOnlyBind: `conn` is the socket while it is open.
pub record ClientOnlyBind : Type 0 where
  pub peer : AddrPort
  pub conn : Option ℕ

-- What net.DialUDP returns: the socket and its local port.
pub record Socket : Type 0 where
  pub id : ℕ
  pub local_port : ℕ

-- What Open returns: the receive function is that of the socket, and names the peer as the source.
pub record Opened : Type 0 where
  pub receive_on : ℕ
  pub source : AddrPort
  pub port : ℕ

pub data Effect : Type 0 where
  opened_socket : ℕ → Effect
  closed_socket : ℕ → Effect

-- conn.ErrBindAlreadyOpen and net.ErrClosed
unfoldable pub already_open : Error
already_open = new_error (codes "bind is already open")

unfoldable pub closed_error : Error
closed_error = record {
  message = codes "use of closed network connection";
  is_closed = true;
  is_timeout = false;
}

unfoldable pub network_of : AddrPort → Text
network_of peer = if is6 peer.addr && not (is4_in6 peer.addr) then codes "udp6" else codes "udp4"

opened_by : ClientOnlyBind → Result Socket → ClientOnlyBind × Result Opened × List Effect
opened_by b (err e) = (b, err e, [])
opened_by b (ok c) = (
  record b { conn = some c.id },
  ok (record { receive_on = c.id; source = b.peer; port = c.local_port % 2 ^ 16 }),
  opened_socket c.id ∷ [],
)

-- Open, with net.DialUDP on a network and to a peer.
unfoldable pub open_bind :
    (Text → AddrPort → Result Socket)
    → ClientOnlyBind
    → ClientOnlyBind × Result Opened × List Effect
unfolding already_open network_of opened_by
open_bind dial b = elim b.conn [
  | some c ↦ (b, err already_open, [])
  | none ↦ opened_by b (dial (network_of b.peer) b.peer)
]

-- The receive function: what reading the socket returns, as the size and the source of one packet.
unfoldable pub receive : Opened → Result ℕ → Result (ℕ × AddrPort)
receive o (err e) = err e
receive o (ok n) = ok (n, o.source)

-- The loop of Send on the socket that it took under the lock: what it returns and what it wrote.
write_all : (Text → Option Error) → List Text → Option Error × List Text
write_all write [] = (none, [])
write_all write (p ∷ bufs) =
    let (failed, written) = write_all write bufs in
    elim (write p) [ none ↦ (failed, p ∷ written) | some e ↦ (some e, p ∷ []) ]

unfoldable pub send :
    (ℕ → Text → Option Error) → List Text → ClientOnlyBind → Option Error × List Text
unfolding write_all closed_error
send write bufs b = elim b.conn [
  | none ↦ (some closed_error, [])
  | some c ↦ write_all (write c) bufs
]

unfoldable pub close :
    (ℕ → Option Error) → ClientOnlyBind → ClientOnlyBind × Option Error × List Effect
close closing b = elim b.conn [
  | none ↦ (b, none, [])
  | some c ↦ (record b { conn = none }, closing c, closed_socket c ∷ [])
]

abbrev pub batch_size : ℕ
batch_size = 1

-- == on netip.Addr and netip.AddrPort
unfoldable pub addr_eq : Addr → Addr → Bool
addr_eq no_addr no_addr = true
addr_eq (v4 n) (v4 m) = n == m
addr_eq (v6 n zone) (v6 m other) = n == m && text_eq zone other
addr_eq _ _ = false

unfoldable pub addr_port_eq : AddrPort → AddrPort → Bool
unfolding addr_eq
addr_port_eq a b = addr_eq a.addr b.addr && a.port == b.port

matching : AddrPort → AddrPort → Result AddrPort
unfolding addr_port_eq
matching peer ap =
    if addr_port_eq ap peer
    then ok ap
    else err (new_error (codes "clientbind: configured peer endpoint mismatch"))

-- ParseEndpoint, over netip.ParseAddrPort.
unfoldable pub parse_endpoint : (Text → Result AddrPort) → AddrPort → Text → Result AddrPort
unfolding matching
parse_endpoint parse peer s = parse s >>= matching peer

-- The calls of the device, with what the system answers, in any order.
pub data Call : Type 0 where
  call_open : (Text → AddrPort → Result Socket) → Call
  call_send : (ℕ → Text → Option Error) → List Text → Call
  call_close : (ℕ → Option Error) → Call

unfoldable pub step_call : Call → ClientOnlyBind → ClientOnlyBind × List Effect
unfolding open_bind close
step_call (call_open dial) b = let (c, r, es) = open_bind dial b in (c, es)
step_call (call_send write bufs) b = (b, [])
step_call (call_close closing) b = let (c, r, es) = close closing b in (c, es)

unfoldable pub run_calls : List Call → ClientOnlyBind → ClientOnlyBind × List Effect
unfolding step_call
run_calls [] b = (b, [])
run_calls (call ∷ calls) b =
    let (c, es) = step_call call b in let (d, fs) = run_calls calls c in (d, es ++ fs)
