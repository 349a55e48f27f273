-- ===== src/Tests/Fixtures.antt =====
-- Sections, files, patterns and the world outside, written out for the tests.
use wireproxy_homerun.Config.Source.{Key, Section, File, IsDocumented, Platform}
use wireproxy_homerun.Net.{Addr, v4, v6, Regexp}
use wireproxy_homerun.Prelude.{
  length, ◌==◌, if◌then◌else◌, refl, Bool, true, false, none, some, List, [], ◌∷◌, ◌++◌, ap, Option,
  map,
}
use wireproxy_homerun.Router.{DomainRouter, new_domain_router, Dialers}
use wireproxy_homerun.Std.{Error, Result, ok, err, Text, codes, text_eq, lower_byte}
use wireproxy_homerun.Std.Decimal.{atoi}
use wireproxy_homerun.Std.Unicode.{Unicode}

abbrev pub unicode : Unicode
unicode = record { lower = λ s. s; trim = λ s. s }

abbrev pub missing_error : Error
missing_error = record { message = []; is_closed = false; is_timeout = false }

abbrev pub intranet : Regexp
intranet = record { match_string = λ s. text_eq s (codes "intranet.example") }

abbrev pub router : DomainRouter
router = new_domain_router (intranet ∷ []) true

-- A connection is the way it was dialed.
abbrev pub dialers : Dialers Bool
dialers = record {
  tunnel_dial = λ network address. ok true;
  direct_dial = λ network address. ok false;
}

abbrev pub text_key : Text → Key
text_key t = record {
  string = t;
  int = elim (atoi t) [ none ↦ err missing_error | some n ↦ ok n ];
  bool = err missing_error;
  value_with_shadows = t ∷ [];
}

-- Keys are in lower case, and names are found in any case.
abbrev pub find_key : Text → List (Text × Text) → Result Key
find_key name [] = err missing_error
find_key name ((k, t) ∷ rest) = if text_eq k name then ok (text_key t) else find_key name rest

-- A missing key is an empty one.
abbrev some_key : Result Key → Option Key
some_key (ok k) = some k
some_key (err e) = some (text_key [])

abbrev pub section_of : List (Text × Text) → Section
section_of entries = record {
  get_key = λ name. find_key (map lower_byte name) entries;
  key = λ name. some_key (find_key (map lower_byte name) entries);
}

pub section_of-IsDocumented : (entries : List (Text × Text)) → IsDocumented (section_of entries)
section_of-IsDocumented entries = record {
  present = λ name k h. ap some_key h;
  missing = λ name e h. (text_key [], ap some_key h, refl);
}

abbrev pub sections_named : Text → List (Text × Section) → List Section
sections_named name [] = []
sections_named name ((k, s) ∷ rest) =
    let others = sections_named name rest in if text_eq k name then s ∷ others else others

abbrev pub file_of : List (Text × Section) → File
file_of sections = record {
  sections_by_name = λ name. elim (sections_named name sections) [
    | [] ↦ err missing_error
    | s ∷ rest ↦ ok (s ∷ rest)
  ];
  get_section =
      λ name. elim (sections_named name sections) [ [] ↦ err missing_error | s ∷ rest ↦ ok s ];
  root = section_of [];
}

-- Addresses are told apart by their first byte.
abbrev pub read_addr : Text → Result Addr
read_addr [] = err missing_error
read_addr (c ∷ rest) =
    if c == b'1'
    then ok (v4 (length rest))
    else if c == b'f'
    then ok (v6 0 rest)
    else err missing_error

abbrev pub platform : File → Platform
platform cfg = record {
  unicode = unicode;
  lookup_env = λ name. if text_eq name (codes "HOST") then some (codes "10.0.0.9") else none;
  parse_addr = read_addr;
  parse_prefix = λ t. err missing_error;
  resolve_tcp_addr = λ t. ok (record { ip = t; port = 80; zone = [] });
  resolve_ip = λ t. ok t;
  compile = λ t. err missing_error;
  load_sources = λ source. ok cfg;
  base = λ t. t;
  dir = λ t. [];
  join = λ d t. d ++ t;
}
