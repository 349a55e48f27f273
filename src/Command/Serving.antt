-- ===== src/Command/Serving.antt =====
-- What it is for main to be serving, and what comes before it.
use wireproxy_homerun.Command.{
  Options, World, Action, restrict, start_device, bind_routine, serve_routine, start_pings,
  serve_health, wait_for_signal, then_or_fatal, serve_info, discard_output, chosen_config,
  flag_args,
}
use wireproxy_homerun.Command.Sandbox.{
  Rule, Restriction, restrict_paths, restrict_net, ready_rules, tls_file_paths, lock_network,
}
use wireproxy_homerun.Config.Load.{Configuration, parse_config}
use wireproxy_homerun.Prelude.{
  any, any-append, ◌≡◌, refl, sym, ap, ◌∙◌, Bool, true, false, some, List, [], ◌∷◌, ◌++◌, map,
  append_assoc, Option, none, arith, if◌then◌else◌,
}
use wireproxy_homerun.Std.{ok, Text, Error}

abbrev pub is_serve : Action → Bool
is_serve (serve_routine r) = true
is_serve _ = false

-- The actions that start the device or what runs on it.
abbrev pub is_work : Action → Bool
is_work (start_device silent) = true
is_work (bind_routine r) = true
is_work (serve_routine r) = true
is_work start_pings = true
is_work (serve_health info) = true
is_work _ = false

-- What follows the sandbox: the device is started, every routine is bound, and only then is every one
-- served, both in the order of the configuration; the pings and the health endpoint come last.
abbrev pub full_run : Options → Configuration → List Action
full_run o conf =
    start_device o.silent
    ∷ (map bind_routine conf.routines
        ++ (map serve_routine conf.routines
            ++ (start_pings ∷ serve_info o.info (wait_for_signal ∷ []))))

-- The actions `l` end in those of `full_run` for the flags that the process was given and for the
-- configuration that they choose, behind the rules for the network and for the files of that configuration,
-- in this order, and nothing before starts the device or what runs on it.
pub record IsServing (w : World) (l : List Action) : Type 0 where
  pub options : Options
  pub path : Text
  pub conf : Configuration
  pub rules : List Rule
  pub first : List Action
  pub second : List Action
  pub parsed : parse_config w.platform path ≡ ok conf
  pub permitted : lock_network conf.routines options.info ≡ some rules
  pub flags : w.parse_args (flag_args w w.args) ≡ ok options
  pub chosen : chosen_config w options.config ≡ some path
  pub unversioned : options.print_version ≡ false
  pub checked_only : options.config_test ≡ false
  pub actions :
      l
      ≡ first
        ++ (restrict (restrict_net rules)
            ∷ (second
                ++ (restrict (restrict_paths (ready_rules (tls_file_paths conf.routines)))
                    ∷ full_run options conf)))
  pub first_idle : any is_work first ≡ false
  pub second_idle : any is_work second ≡ false

pub any-false-append :
    (p q : List Action)
    → any is_work p ≡ false
    → any is_work q ≡ false
    → any is_work (p ++ q) ≡ false
any-false-append p q a b = rw (any-append is_work p q, a) b

pub IsServing-append :
    {w : World} {l : List Action} (before : List Action)
    → any is_work before ≡ false
    → IsServing w l
    → IsServing w (before ++ l)
IsServing-append before idle s = record {
  options = s.options;
  path = s.path;
  conf = s.conf;
  rules = s.rules;
  first = before ++ s.first;
  second = s.second;
  parsed = s.parsed;
  permitted = s.permitted;
  flags = s.flags;
  chosen = s.chosen;
  unversioned = s.unversioned;
  checked_only = s.checked_only;
  actions = ap (λ x. before ++ x) s.actions ∙ sym (append_assoc before s.first _);
  first_idle = any-false-append before s.first idle s.first_idle;
  second_idle = s.second_idle;
}

pub restrict_idle : (rs : List Restriction) → any is_work (map restrict rs) ≡ false
restrict_idle [] = refl
restrict_idle (r ∷ rs) = restrict_idle rs

pub then_or_fatal-serve :
    (a : Action) (d : Option Error) (rest : List Action)
    → is_serve a ≡ false
    → any is_serve (then_or_fatal a d rest) ≡ true
    → (then_or_fatal a d rest ≡ a ∷ rest) × (any is_serve rest ≡ true)
unfolding then_or_fatal
then_or_fatal-serve a none rest i h = (refl, ground arith)
then_or_fatal-serve a (some e) rest i h = absurd (ground arith)

pub launched :
    (d e : Bool) (spawned : Action) (l : List Action)
    → is_serve spawned ≡ false
    → any is_serve (if d then discard_output ∷ l else (if e then spawned ∷ [] else l)) ≡ true
    → (any is_serve l ≡ true)
      × (before : List Action) × (any is_work before ≡ false)
      × ((if d then discard_output ∷ l else (if e then spawned ∷ [] else l)) ≡ before ++ l)
launched true e spawned l i h = (h, discard_output ∷ [], refl, refl)
launched false true spawned l i h = absurd (ground arith)
launched false false spawned l i h = (h, [], refl, refl)
