-- ===== src/Tests/Resolving.antt =====
-- Resolve at concrete inputs.
use wireproxy_homerun.Net.{Addr, v4, v6, is4}
use wireproxy_homerun.Resolve.Families.{Parsed}
use mathlib.Core.List.Perm
use mathlib.Core.List.{Mem, mem-cons_self, mem-cons_of_mem}
use wireproxy_homerun.Prelude.{List, [], ◌∷◌, if◌then◌else◌, ◌≡◌, refl, true, false}
use wireproxy_homerun.Resolve.{
  Resolver, lookup_addr, families, ipv4, ipv6, resolve_addr_with_context,
}
use wireproxy_homerun.Resolve.Preference.{
  Shuffles, resolve-Parsed, resolve_ipv4, resolve_unknown_strategy,
}
use wireproxy_homerun.Std.{ok, Text, codes, Error, err, text_eq}
use wireproxy_homerun.Tests.Fixtures.{read_addr}

abbrev answers : List Text
answers = codes "fd00::5" ∷ codes "junk" ∷ codes "10.0.0.5" ∷ []

-- Both lookups give the same answers, and a shuffle changes nothing.
abbrev resolver : Resolver
resolver = record {
  system_lookup = λ name. ok answers;
  tunnel_lookup = λ name. ok answers;
  parse_addr = read_addr;
  shuffle_v4 = λ l. l;
  shuffle_v6 = λ l. l;
}

resolver-Shuffles : Shuffles resolver
resolver-Shuffles = record { perm_v4 = λ l. Perm.refl l; perm_v6 = λ l. Perm.refl l }

last_answer : Mem (codes "10.0.0.5") answers
last_answer = mem-cons_of_mem _ (mem-cons_of_mem _ mem-cons_self)

resolve-Parsed_example :
    (names : List Text) × ((if true
        then resolver.system_lookup (codes "a.example")
        else resolver.tunnel_lookup (codes "a.example"))
      ≡ ok names)
    × Parsed read_addr names (v6 0 (codes "d00::5"))
unfolding resolve_addr_with_context codes lookup_addr families text_eq
resolve-Parsed_example =
    resolve-Parsed resolver resolver-Shuffles true (codes "a.example") ipv6 (v6 0 (codes "d00::5"))
      refl

resolve_ipv4_example :
    (a : Addr) × (resolve_addr_with_context resolver false ipv4 (codes "a.example") ≡ ok a)
    × (is4 a ≡ true)
unfolding codes
resolve_ipv4_example =
    resolve_ipv4 resolver resolver-Shuffles false (codes "a.example") answers refl
      (codes "10.0.0.5") (v4 7) last_answer refl refl

resolve_unknown_strategy_example :
    (e : Error) × (resolve_addr_with_context resolver true [] (codes "a.example") ≡ err e)
unfolding codes
resolve_unknown_strategy_example =
    resolve_unknown_strategy resolver resolver-Shuffles true (codes "a.example") [] (λ e. cc)
      (λ e. cc)
