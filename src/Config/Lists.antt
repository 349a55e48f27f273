-- ===== src/Config/Lists.antt =====
-- The readers of comma-separated lists: addresses, prefixes, and the list of regular expressions.
pub mod Items
use wireproxy_homerun.Config.Source.{Section, Platform}
use wireproxy_homerun.Config.Keys.{parse_string}
use wireproxy_homerun.Net.{Addr, Prefix, Regexp}
use wireproxy_homerun.Prelude.{if◌then◌else◌, Bool, List, [], ◌∷◌, ◌++◌}
use wireproxy_homerun.Std.{
  Error, new_error, Result, ok, err, ◌>>=◌, Text, codes, is_empty, contains, split_byte,
}
use wireproxy_homerun.Std.HostPort.{split_host_port, join_host_port}
use wireproxy_homerun.Std.Unicode.{Unicode, trim_space}

-- The test on the error's text that parseNetIP, parseCIDRNetIP and parseAllowedIPs make.
is_empty_error : Error → Bool
is_empty_error e = contains e.message (codes "should not be empty")

-- The loop over the pieces of a list.
unfoldable pub parse_items {ℓ} :
    {A : Type ℓ} → Unicode → (Text → Result A) → List Text → Result (List A)
parse_items u parse [] = ok []
parse_items u parse (str ∷ rest) =
    let more = parse_items u parse rest in
    let item = trim_space u str in
    if is_empty item then more else (do x ← parse item; xs ← more; ok (x ∷ xs))

-- The common body: an error that says so is an empty list.
items_of {ℓ} : {A : Type ℓ} → Unicode → (Text → Result A) → Result Text → Result (List A)
unfolding is_empty_error parse_items
items_of u parse (ok key) = parse_items u parse (split_byte b',' key)
items_of u parse (err e) = if is_empty_error e then ok [] else err e

module _ (p : Platform) where
  unfoldable pub parse_net_ip : Section → Text → Result (List Addr)
  unfolding items_of
  parse_net_ip section key_name = items_of p.unicode p.parse_addr (parse_string p section key_name)

  -- An address, or else the address of a prefix.
  cidr_addr : Text → Result Addr
  cidr_addr str = elim (p.parse_addr str) [
    | ok addr ↦ ok addr
    | err e ↦ p.parse_prefix str >>= λ prefix. ok prefix.addr
  ]

  unfoldable pub parse_cidr_net_ip : Section → Text → Result (List Addr)
  unfolding items_of cidr_addr
  parse_cidr_net_ip section key_name =
      items_of p.unicode cidr_addr (parse_string p section key_name)

  unfoldable pub parse_allowed_ips : Section → Result (List Prefix)
  unfolding items_of
  parse_allowed_ips section =
      items_of p.unicode p.parse_prefix (parse_string p section (codes "AllowedIPs"))

  -- One occurrence of the key, with the error that names it.
  compile_pattern : Text → Text → Result Regexp
  compile_pattern key_name raw = elim (p.compile raw) [
    | ok re ↦ ok re
    | err e ↦ err (
        new_error (
          codes "invalid "
          ++ (key_name ++ (codes " regex `" ++ (raw ++ (codes "`: " ++ e.message))))))
  ]

  unfoldable pub parse_regex_list : Section → Text → Result (List Regexp)
  unfolding compile_pattern parse_items
  parse_regex_list section key_name = elim (section.get_key key_name) [
    | err e ↦ ok []
    | ok key ↦ parse_items p.unicode (compile_pattern key_name) key.value_with_shadows
  ]

  unfoldable pub resolve_ip_and_port : Text → Result Text
  resolve_ip_and_port addr = do
    (host, port) ← split_host_port addr
    ip ← p.resolve_ip host
    ok (join_host_port ip port)
