-- ===== src/Lib.antt =====
-- wireproxy-homerun is a userspace WireGuard client that offers the tunnel as proxies and port
-- forwards. This library models its configuration parser, its routing decisions, the start of the
-- device, its tunnels and proxies, its health endpoint, and the command that runs them.
--
-- The parts, and where they are modelled:
--
-- The parser, config.go, reads an ini file into a Configuration. The sections and keys that go-ini hands out are
-- records in Config/Source, with the environment, the resolvers and the address and pattern syntax
-- as fields of Platform. Config/Keys has parseString, parsePort and the key encodings; Config/Lists
-- the lists of addresses, prefixes and patterns; Config/Device the [Interface] and [Peer] sections;
-- Config/Routines the eight kinds of tunnels and proxies and parseRoutinesConfig; Config/Load
-- parseConfigSource with ParseConfig and ParseConfigString.
--
-- Router models router.go and the two dialers of routine.go that follow its decision: RoutedDial
-- for the HTTP and SNI proxies, routedSocks5Dial for socks5. What dials is a parameter, Dialers.
-- Address models parseAddressPort of routine.go and extractPort of cmd/wireproxy/main.go. Resolve
-- models LookupAddr, ResolveAddrWithContext, Resolve and resolveToAddrPort; a shuffle is a function
-- that permutes its list. Shutdown models the shutdown record and closeListener.
--
-- Udp/Proxy models udp_proxy.go and Udp/ServerTunnel models udp_server_tunnel.go. What they share,
-- the sessions behind pointers, the map from sources to sessions and the deferred end of a session's
-- goroutine, is Udp/Sessions. A session is an index into a heap; its goroutine is a flag of the
-- session. Each tunnel is a state and a step function on events: a packet, a read error, a tick of
-- the reaper, a timeout or a datagram of one session, a call of Close. What the clock, a dial or a
-- write answers is part of the event, and time is counted in nanoseconds; the timeout is multiplied as
-- in 64 bits, and two times are less than 2 ^ 63 nanoseconds apart (Std/Duration). The events of all
-- goroutines may come in any order; `step` leaves the state alone where the goroutine of the event
-- is not there. The server tunnel's loop takes its mutex twice for a new source and dials in
-- between, so its position in the loop is part of the state. The deferred calls at the end of a
-- session's goroutine are one step. Writes to lastActive are atomic here.
--
-- Wireguard models wireguard.go: the IPC request, the choice between the default bind and the
-- ClientOnlyBind of clientbind, StartWireguard and StartWireguardWithLogger; the netstack and the device are the
-- parameter Backend, and so are the texts of address prefixes.
--
-- Http models http.go for one connection whose request is read: authenticate with Valid of
-- routine.go, handleConn, handle and serve, whose result is the list of what it does in order. The
-- answer of the dial and whether the write behind it succeeds are arguments. Http/Buffered adds the
-- connection: the request is read through a buffer, by any parser that takes its bytes one by one.
-- Http/Responses has responseWith of util.go, over http.StatusText, and Http/Accepting has listen, Serve
-- and ListenAndServe.
--
-- Lifecycle models Bind, Serve and Close of the listening tunnels of routine.go: Serve is a loop over
-- events, each an accepted connection, an error of Accept or a call of Close by another goroutine,
-- and its result is what it returns with the connections that it handed on. Lifecycle/Others has the
-- Socks5 and HTTP binds and the STDIO tunnel; what the go-socks5 server returns is an argument.
--
-- Lifecycle/Forwarding models connForward and what becomes of one connection of the TCP and STDIO
-- tunnels; Lifecycle/Datagram has Bind, Close and the check at the head of Serve of the two UDP tunnels.
--
-- Clientbind models clientbind/clientbind.go: the calls of a device on the bind, with the sockets as
-- numbers and what the system answers as part of each call. Sni models sni.go: the handshake of
-- crypto/tls is any program that reads from its connection and tries to write to it, and what it reads
-- goes through the TeeReader and the MultiReader of Std/Streams, where a connection is the list of what
-- its reads return.
--
-- Health models ServeHTTP of routine.go, the paths /readyz and /metrics; Health/Pings one ping of
-- pingIPs, from its dial to the end of its goroutine, and the record that the pings fill, in the order
-- in which they end. Time is in nanoseconds since 1970, and a record in seconds.
--
-- Command models cmd/wireproxy/main.go: main is the list of what it does, in order, until it returns,
-- waits for a signal or is ended by an error, over the record World of what the flags, the files, the
-- sandbox and the package answer; Command/Sandbox has the stages of lock, tlsFilePaths and lockNetwork.
--
-- Udp/Sessions/Spec is the abstract view of the sessions: how many were opened, and for each source when
-- its session was last active. A step of a tunnel changes it by what caused the step, and
-- Udp/Proxy/Refinement and Udp/ServerTunnel/Refinement relate the two tunnels to it.
--
-- Prelude has numbers, lists and tests; Std has Go's errors and strings, host-port pairs, decimals,
-- base64 and hex, all computed. A text is the list of its bytes; the Unicode tables for texts that
-- are not ASCII are a parameter. Loops are structural recursion; only the printing of a number n
-- in decimal runs on fuel, n + 1 of it, and every step divides by ten.
--
-- Not modelled: the copying of bytes by io.Copy beyond the reads of the SNI proxy, and the calls into
-- landlock of cmd/wireproxy/landlock_*.go. Log lines are modelled only for the router.
mod Prelude
pub mod Std
pub mod Net
pub mod Router
pub mod Address
pub mod Resolve
pub mod Config
pub mod Shutdown
pub mod Udp
pub mod Wireguard
pub mod Http
pub mod Lifecycle
pub mod Clientbind
pub mod Sni
pub mod Command
pub mod Health
mod Tests
