-- ===== src/Shutdown.antt =====
-- The `shutdown` record of routine.go and closeListener.
use wireproxy_homerun.Prelude.{if◌then◌else◌, Bool, true, ◌||◌, Option, none, some}
use wireproxy_homerun.Std.{Error}

-- `closed` records that Close was asked for.
pub record Shutdown : Type 0 where
  pub closed : Bool

unfoldable pub mark_closed : Shutdown → Shutdown
mark_closed s = record { closed = true }

abbrev pub stopping : Shutdown → Bool
stopping s = s.closed

-- The argument is Go's error, `none` for nil.
unfoldable pub closed_by_us : Shutdown → Option Error → Bool
closed_by_us s none = true
closed_by_us s (some e) = stopping s || e.is_closed

-- The argument is what closing the listener returns, or `none` if there is no listener.
unfoldable pub close_listener : Option (Option Error) → Option Error
close_listener none = none
close_listener (some none) = none
close_listener (some (some e)) = if e.is_closed then none else some e
