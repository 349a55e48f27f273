-- ===== src/Command/Sandbox.antt =====
-- The sandbox: lock, tlsFilePaths and lockNetwork of cmd/wireproxy/main.go.
pub mod Network
-- landlock.Rule; the rules for files are for those that exist.
use wireproxy_homerun.Address.{extract_port}
use wireproxy_homerun.Config.Routines.{
  Routine, tcp_client_tunnel, tcp_server_tunnel, socks5, http, sni,
}
use wireproxy_homerun.Prelude.{ℕ, ◌%◌, ◌^◌, Option, none, some, List, [], ◌∷◌, ◌++◌, map}
use wireproxy_homerun.Std.{Text, codes}

pub data Rule : Type 0 where
  ro_dirs : Text → Rule
  ro_files : Text → Rule
  rw_files : Text → Rule
  bind_tcp : ℕ → Rule
  connect_tcp : ℕ → Rule

-- A call of protect or landlock, or the choice of Go's own resolver.
pub data Restriction : Type 0 where
  unveil : Text → Text → Restriction
  pledge : Text → Restriction
  restrict_paths : List Rule → Restriction
  prefer_go_resolver : Restriction
  restrict_net : List Rule → Restriction

-- lock("boot"); lock("boot-daemon") does nothing
unfoldable pub lock_boot : Text → List Restriction
lock_boot exe_path =
    unveil (codes "/") (codes "r")
    ∷ unveil exe_path (codes "x")
    ∷ pledge (codes "stdio rpath inet dns proc exec")
    ∷ restrict_paths (ro_dirs (codes "/") ∷ rw_files (codes "/dev/null") ∷ [])
    ∷ []

-- lock("read-config")
unfoldable pub lock_read_config : List Restriction
lock_read_config = pledge (codes "stdio rpath inet dns") ∷ []

static_rules : List Rule
static_rules =
    ro_files (codes "/etc/resolv.conf")
    ∷ ro_files (codes "/dev/fd")
    ∷ ro_files (codes "/dev/zero")
    ∷ ro_files (codes "/dev/urandom")
    ∷ ro_files (codes "/etc/localtime")
    ∷ ro_files (codes "/proc/self/stat")
    ∷ ro_files (codes "/proc/self/status")
    ∷ ro_files (codes "/usr/share/locale")
    ∷ ro_files (codes "/proc/self/cmdline")
    ∷ ro_files (codes "/usr/share/zoneinfo")
    ∷ ro_files (codes "/proc/sys/kernel/version")
    ∷ ro_files (codes "/proc/sys/kernel/ngroups_max")
    ∷ ro_files (codes "/proc/sys/kernel/cap_last_cap")
    ∷ ro_files (codes "/proc/sys/vm/overcommit_memory")
    ∷ rw_files (codes "/dev/log")
    ∷ rw_files (codes "/dev/null")
    ∷ rw_files (codes "/dev/full")
    ∷ rw_files (codes "/proc/self/fd")
    ∷ []

unfoldable pub ready_rules : List Text → List Rule
unfolding static_rules
ready_rules ro_paths = static_rules ++ map ro_files ro_paths

-- lock("ready", roFiles...)
unfoldable pub lock_ready : List Text → List Restriction
unfolding ready_rules
lock_ready ro_paths =
    pledge (codes "stdio inet dns")
    ∷ prefer_go_resolver
    ∷ restrict_paths (ready_rules ro_paths)
    ∷ []

when_given : Text → List Text → List Text
when_given [] rest = rest
when_given (c ∷ path) rest = (c ∷ path) ∷ rest

tls_files : Routine → List Text → List Text
unfolding when_given
tls_files (http config) rest = when_given config.cert_file (when_given config.key_file rest)
tls_files _ rest = rest

unfoldable pub tls_file_paths : List Routine → List Text
unfolding tls_files
tls_file_paths [] = []
tls_file_paths (routine ∷ rest) = tls_files routine (tls_file_paths rest)

-- The rule with the port of an address; `none` is the panic of extractPort.
port_rule : (ℕ → Rule) → Text → Option Rule
port_rule rule addr = elim (extract_port addr) [ none ↦ none | some port ↦ some (rule port) ]

abbrev one : Option Rule → Option (List Rule)
one none = none
one (some rule) = some (rule ∷ [])

-- The rules of one section, at most one.
network_rule : Routine → Option (List Rule)
unfolding port_rule
network_rule (tcp_server_tunnel config) = one (port_rule connect_tcp config.target)
network_rule (http config) = one (port_rule bind_tcp config.bind_address)
network_rule (tcp_client_tunnel config) = some (bind_tcp (config.bind_address.port % 2 ^ 16) ∷ [])
network_rule (socks5 config) = one (port_rule bind_tcp config.bind_address)
network_rule (sni config) = one (port_rule bind_tcp config.bind_address)
network_rule _ = some []

info_rule : Text → Option (List Rule)
unfolding port_rule
info_rule [] = some []
info_rule (c ∷ info_addr) = one (port_rule bind_tcp (c ∷ info_addr))

joined_rules : Option (List Rule) → Option (List Rule) → Option (List Rule)
joined_rules (some rules) (some others) = some (rules ++ others)
joined_rules _ _ = none

section_rules : List Routine → Option (List Rule)
unfolding network_rule joined_rules
section_rules [] = some []
section_rules (routine ∷ rest) = joined_rules (network_rule routine) (section_rules rest)

-- The rules of lockNetwork, `none` where it panics.
unfoldable pub lock_network : List Routine → Text → Option (List Rule)
unfolding info_rule section_rules
lock_network sections info_addr = joined_rules (info_rule info_addr) (section_rules sections)
