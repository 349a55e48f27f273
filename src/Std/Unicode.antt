-- ===== src/Std/Unicode.antt =====
-- strings.ToLower and strings.TrimSpace. On ASCII texts they are computed here, as Go's own fast
-- paths do; on any other text they go by the Unicode tables, which are a parameter.
use wireproxy_homerun.Prelude.{map, if◌then◌else◌}
use wireproxy_homerun.Std.Strings.{Text, is_ascii, lower_byte, trim_ascii}

pub record Unicode : Type 0 where
  pub lower : Text → Text
  pub trim : Text → Text

unfoldable pub to_lower : Unicode → Text → Text
to_lower u s = if is_ascii s then map lower_byte s else u.lower s

unfoldable pub trim_space : Unicode → Text → Text
trim_space u s = if is_ascii s then trim_ascii s else u.trim s
