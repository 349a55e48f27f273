-- ===== src/Config/Source.antt =====
-- What the parser is given: the sections and keys of github.com/go-ini/ini, as far as the code asks
-- for them, and the parsers, resolvers and files of the outside world. Sections are read only:
-- Section.Key enters an empty key for a missing one, but no name that the code reads by Key is also
-- read by GetKey.
use wireproxy_homerun.Net.{Addr, Prefix, TcpAddr, Regexp}
use wireproxy_homerun.Prelude.{ℤ, ◌≡◌, Bool, Option, some, List, []}
use wireproxy_homerun.Std.{Error, Result, ok, err, Text}
use wireproxy_homerun.Std.Unicode.{Unicode}

-- *ini.Key
pub record Key : Type 0 where
  pub string : Text
  pub int : Result ℤ
  pub bool : Result Bool
  pub value_with_shadows : List Text

-- *ini.Section: `key` is Section.Key, with `none` for nil.
pub record Section : Type 0 where
  pub key : Text → Option Key
  pub get_key : Text → Result Key

-- *ini.File: `root` is Section("").
pub record File : Type 0 where
  pub sections_by_name : Text → Result (List Section)
  pub get_section : Text → Result Section
  pub root : Section

-- What go-ini documents of Section.Key: it never returns nil. A missing key is a zero-value key,
-- whose String() is "".
pub record IsDocumented (s : Section) : Type 0 where
  pub present : (name : Text) (k : Key) → s.get_key name ≡ ok k → s.key name ≡ some k
  pub missing :
      (name : Text) (e : Error)
      → s.get_key name ≡ err e
      → (k : Key) × (s.key name ≡ some k) × (k.string ≡ [])

-- The argument of ini.LoadSources: a file name, or raw content.
pub data Source : Type 0 where
  named : Text → Source
  content : Text → Source

pub record Platform : Type 0 where
  pub unicode : Unicode
  pub lookup_env : Text → Option Text
  pub parse_addr : Text → Result Addr
  pub parse_prefix : Text → Result Prefix
  pub resolve_tcp_addr : Text → Result TcpAddr
  pub resolve_ip : Text → Result Text
  pub compile : Text → Result Regexp
  pub load_sources : Source → Result File
  pub base : Text → Text
  pub dir : Text → Text
  pub join : Text → Text → Text
