-- ===== src/Command.antt =====
-- cmd/wireproxy/main.go: the flow of main, with the sandbox that it enters on the way.
pub mod Sandbox
pub mod Serving
pub mod Order
use wireproxy_homerun.Command.Sandbox.{
  Restriction, restrict_net, lock_boot, lock_read_config, lock_ready, lock_network, tls_file_paths,
}
use wireproxy_homerun.Config.Load.{Configuration, parse_config}
use wireproxy_homerun.Config.Routines.{Routine}
use wireproxy_homerun.Prelude.{
  if◌then◌else◌, Bool, Option, none, some, List, [], ◌∷◌, ◌++◌, false, map,
}
use wireproxy_homerun.Std.{Error, Result, ok, err, Text, codes, text_eq}
use wireproxy_homerun.Config.Source.{Platform}

-- What the flags say.
pub record Options : Type 0 where
  pub config : Text
  pub silent : Bool
  pub daemon : Bool
  pub info : Text
  pub print_version : Bool
  pub config_test : Bool

-- The process and what is outside of it: os.Args, os.Executable, $HOME, whether os.Stat succeeds, argparse,
-- the errors of protect and landlock, and what the calls of the package answer.
pub record World : Type 0 where
  pub args : List Text
  pub executable : Result Text
  pub home : Text
  pub exists : Text → Bool
  pub parse_args : List Text → Result Options
  pub denied : Restriction → Option Error
  pub platform : Platform
  pub started : Configuration → Option Error
  pub bound : Routine → Option Error

pub data Action : Type 0 where
  restrict : Restriction → Action
  show_usage : Action
  show_version : Action
  require_config : Action
  read_config : Text → Action
  report_config_ok : Action
  fatal : Error → Action
  panic : Action
  discard_output : Action
  spawn_daemon : Text → List Text → Action
  redirect_output : Action
  start_device : Bool → Action
  bind_routine : Routine → Action
  serve_routine : Routine → Action
  start_pings : Action
  serve_health : Text → Action
  wait_for_signal : Action

-- An action whose error ends the process, and what follows.
unfoldable pub then_or_fatal : Action → Option Error → List Action → List Action
then_or_fatal a none rest = a ∷ rest
then_or_fatal a (some e) rest = a ∷ fatal e ∷ []

abbrev pub serve_info : Text → List Action → List Action
serve_info [] rest = rest
serve_info (c ∷ info) rest = serve_health (c ∷ info) ∷ rest

module _ (w : World) where
  -- Empty when os.Args is, where the Go program would panic.
  first_arg : List Text → Text
  first_arg [] = []
  first_arg (a ∷ rest) = a

  executable_path : Text
  unfolding first_arg
  executable_path = elim w.executable [ ok path ↦ path | err e ↦ first_arg w.args ]

  first_existing : List Text → Option Text
  first_existing [] = none
  first_existing (path ∷ rest) =
      let others = first_existing rest in if w.exists path then some path else others

  config_file_path : Option Text
  unfolding first_existing
  config_file_path =
      first_existing
        (codes "/etc/wireproxy/wireproxy.conf" ∷ (w.home ++ codes "/.config/wireproxy.conf") ∷ [])

  pub chosen_config : Text → Option Text
  unfolding config_file_path
  chosen_config [] = config_file_path
  chosen_config (c ∷ config) = some (c ∷ config)

  locked : List Restriction → List Action → List Action
  unfolding then_or_fatal
  locked [] rest = rest
  locked (r ∷ rs) rest = then_or_fatal (restrict r) (w.denied r) (locked rs rest)

  bind_all : List Routine → List Action → List Action
  unfolding then_or_fatal
  bind_all [] rest = rest
  bind_all (r ∷ rs) rest = then_or_fatal (bind_routine r) (w.bound r) (bind_all rs rest)

  -- The second argument marks a process that -d started; it is taken out before the flags are read.
  is_daemon_args : List Text → Bool
  is_daemon_args (exe ∷ a ∷ rest) = text_eq a (codes "daemon-process")
  is_daemon_args _ = false

  pub flag_args : List Text → List Text
  unfolding is_daemon_args
  flag_args (exe ∷ a ∷ rest) =
      if is_daemon_args (exe ∷ a ∷ rest) then exe ∷ rest else exe ∷ a ∷ rest
  flag_args args = args

  -- args[0] is replaced for the child.
  daemon_args : List Text → List Text
  daemon_args [] = []
  daemon_args (a ∷ rest) = codes "daemon-process" ∷ rest

  -- The routines are served by goroutines, which are started in this order.
  run_routines : Options → List Routine → List Action
  unfolding bind_all
  run_routines o routines =
      bind_all routines
        (map serve_routine routines ++ (start_pings ∷ serve_info o.info (wait_for_signal ∷ [])))

  in_foreground : Options → Configuration → List Action
  unfolding locked then_or_fatal run_routines
  in_foreground o conf =
      redirect_output
      ∷ locked (lock_ready (tls_file_paths conf.routines))
          (then_or_fatal (start_device o.silent) (w.started conf) (run_routines o conf.routines))

  launch : Options → Configuration → List Action
  unfolding in_foreground is_daemon_args daemon_args flag_args executable_path
  launch o conf =
      if is_daemon_args w.args
      then discard_output ∷ in_foreground o conf
      else (if o.daemon
          then spawn_daemon executable_path (daemon_args (flag_args w.args)) ∷ []
          else in_foreground o conf)

  confine : Options → Configuration → List Action
  unfolding locked launch
  confine o conf = elim (lock_network conf.routines o.info) [
    | none ↦ panic ∷ []
    | some rules ↦ locked (restrict_net rules ∷ []) (launch o conf)
  ]

  load : Options → Text → List Action
  unfolding confine
  load o path = elim (parse_config w.platform path) [
    | err e ↦ read_config path ∷ fatal e ∷ []
    | ok conf ↦ read_config path ∷ (if o.config_test then report_config_ok ∷ [] else confine o conf)
  ]

  with_config : Options → List Action
  unfolding chosen_config load locked
  with_config o = elim (chosen_config o.config) [
    | none ↦ require_config ∷ []
    | some path ↦ if o.daemon then load o path else locked lock_read_config (load o path)
  ]

  after_boot : Result Options → List Action
  unfolding with_config
  after_boot (err e) = show_usage ∷ []
  after_boot (ok o) = if o.print_version then show_version ∷ [] else with_config o

  -- What main does, in order, until it returns, waits for a signal, or ends the process.
  unfoldable pub main : List Action
  unfolding after_boot locked executable_path flag_args
  main = locked (lock_boot executable_path) (after_boot (w.parse_args (flag_args w.args)))
