-- ===== src/Udp/ServerTunnel/Routing.antt =====
-- On whose connection a packet goes out, and to whom the answers go.
use wireproxy_homerun.Prelude.{ℕ, ◌≡◌, true, false, [], ◌<◌, Bool}
use wireproxy_homerun.Std.{Text, Error}
use wireproxy_homerun.Udp.ServerTunnel.{
  reading, Tunnel, dial_result, write_result, Event, Position, writing,
}

-- The two events by which the main loop gets on with a packet that it has read.
abbrev pub goes_on : Event → Bool
goes_on (dial_result result now) = true
goes_on write_result = true
goes_on _ = false

abbrev is_busy : Position → Bool
is_busy reading = false
is_busy _ = true

abbrev At : Position → Tunnel → Type 0
At q s = (s.serving ≡ true) × (s.position ≡ q)

abbrev any_error : Error
any_error = record { message = []; is_closed = false; is_timeout = false }

-- The loop is about to write the packet on the connection of a session that was made for the source.
record IsRouted (src payload : Text) (i : ℕ) (s : Tunnel) : Type 0 where
  pub at : At (writing i payload) s
  pub made : i < s.next
  pub source : (s.heap i).src ≡ src
