-- ===== src/Command/Order.antt =====
-- What main has done by the time that a routine is served.
use wireproxy_homerun.Command.Serving.{
  is_serve, is_work, full_run, IsServing, any-false-append, IsServing-append, restrict_idle,
  then_or_fatal-serve, launched,
}
use wireproxy_homerun.Command.{
  Options, World, Action, restrict, start_device, bind_routine, then_or_fatal, locked, bind_all,
  run_routines, redirect_output, in_foreground, launch, spawn_daemon, main, executable_path, load,
  daemon_args, confine, flag_args, is_daemon_args, with_config, read_config, chosen_config,
  after_boot,
}
use wireproxy_homerun.Command.Sandbox.{
  Rule, Restriction, restrict_paths, restrict_net, ready_rules, tls_file_paths, lock_network,
  pledge, prefer_go_resolver, lock_ready, lock_boot, lock_read_config,
}
use wireproxy_homerun.Config.Load.{Configuration, parse_config}
use wireproxy_homerun.Config.Routines.{Routine}
use wireproxy_homerun.Prelude.{
  any, ◌≡◌, refl, sym, ap, ◌∙◌, Bool, true, false, some, List, [], ◌∷◌, ◌++◌, map, append_assoc,
  arith, if◌then◌else◌, Option-cases, inl, inr, Bool-cases, subst,
}
use wireproxy_homerun.Std.{ok, Text, codes, Result, err, Result-cases}

module _ (w : World) where
  locked-serve :
      (rs : List Restriction) (rest : List Action)
      → any is_serve (locked w rs rest) ≡ true
      → (locked w rs rest ≡ map restrict rs ++ rest) × (any is_serve rest ≡ true)
  unfolding locked then_or_fatal
  locked-serve [] rest h = (refl, h)
  locked-serve (r ∷ rs) rest h =
      let (e, k) = then_or_fatal-serve (restrict r) (w.denied r) (locked w rs rest) refl h in
      let (f, l) = locked-serve rs rest k in (e ∙ ap (λ x. restrict r ∷ x) f, l)

  bind_all-serve :
      (rs : List Routine) (rest : List Action)
      → any is_serve (bind_all w rs rest) ≡ true
      → bind_all w rs rest ≡ map bind_routine rs ++ rest
  unfolding bind_all then_or_fatal
  bind_all-serve [] rest h = refl
  bind_all-serve (r ∷ rs) rest h =
      let (e, k) = then_or_fatal-serve (bind_routine r) (w.bound r) (bind_all w rs rest) refl h in
      e ∙ ap (λ x. bind_routine r ∷ x) (bind_all-serve rs rest k)

  run_routines-serve :
      (o : Options) (conf : Configuration)
      → any is_serve
          (then_or_fatal (start_device o.silent) (w.started conf) (run_routines w o conf.routines))
        ≡ true
      → then_or_fatal (start_device o.silent) (w.started conf) (run_routines w o conf.routines)
        ≡ full_run o conf
  unfolding run_routines then_or_fatal
  run_routines-serve o conf h =
      let (e, k) =
        then_or_fatal-serve (start_device o.silent) (w.started conf)
          (run_routines w o conf.routines) refl h in
      e ∙ ap (λ x. start_device o.silent ∷ x) (bind_all-serve conf.routines _ k)

  in_foreground-serve :
      (o : Options) (conf : Configuration)
      → any is_serve (in_foreground w o conf) ≡ true
      → (second : List Action) × (any is_work second ≡ false)
        × (in_foreground w o conf
            ≡ second
              ++ (restrict (restrict_paths (ready_rules (tls_file_paths conf.routines)))
                  ∷ full_run o conf))
  unfolding in_foreground lock_ready
  in_foreground-serve o conf h =
      let (e, k) = locked-serve (lock_ready (tls_file_paths conf.routines)) _ h in
      (
        redirect_output
            ∷ restrict (pledge (codes "stdio inet dns"))
            ∷ restrict prefer_go_resolver
            ∷ [],
        refl,
        ap (λ x. redirect_output ∷ x)
            (e
              ∙ ap (λ x. map restrict (lock_ready (tls_file_paths conf.routines)) ++ x)
                  (run_routines-serve o conf k)),
      )

  launch-serve :
      (o : Options) (conf : Configuration)
      → any is_serve (launch w o conf) ≡ true
      → (second : List Action) × (any is_work second ≡ false)
        × (launch w o conf
            ≡ second
              ++ (restrict (restrict_paths (ready_rules (tls_file_paths conf.routines)))
                  ∷ full_run o conf))
  unfolding launch
  launch-serve o conf h =
      let (k, before, idle, e) =
        launched (is_daemon_args w w.args) o.daemon
          (spawn_daemon (executable_path w) (daemon_args w (flag_args w w.args)))
          (in_foreground w o conf) refl h in
      let (second, f, g) = in_foreground-serve o conf k in
      (
        before ++ second,
        any-false-append before second idle f,
        e ∙ ap (λ x. before ++ x) g ∙ sym (append_assoc before second _),
      )

  confined :
      (o : Options) (conf : Configuration) (rules : List Rule)
      → lock_network conf.routines o.info ≡ some rules
      → confine w o conf ≡ locked w (restrict_net rules ∷ []) (launch w o conf)
  unfolding confine
  confined o conf rules e = rw (e, confine) refl

  confine-serve :
      (o : Options) (path : Text) (conf : Configuration)
      → parse_config w.platform path ≡ ok conf
      → w.parse_args (flag_args w w.args) ≡ ok o
      → chosen_config w o.config ≡ some path
      → o.print_version ≡ false
      → o.config_test ≡ false
      → any is_serve (confine w o conf) ≡ true
      → IsServing w (confine w o conf)
  unfolding confine
  confine-serve o path conf p f c pv t h = elim (Option-cases (lock_network conf.routines o.info)) [
    | inl e ↦ absurd (ground arith)
    | inr (rules, e) ↦
        let k : any is_serve (locked w (restrict_net rules ∷ []) (launch w o conf)) ≡ true =
          subst (λ x. any is_serve x ≡ true) (confined o conf rules e) h in
        let (n, l) = locked-serve (restrict_net rules ∷ []) (launch w o conf) k in
        let (second, idle, g) = launch-serve o conf l in
        record {
          options = o;
          path = path;
          conf = conf;
          rules = rules;
          first = [];
          second = second;
          parsed = p;
          permitted = e;
          flags = f;
          chosen = c;
          unversioned = pv;
          checked_only = t;
          actions = confined o conf rules e ∙ (n ∙ ap (λ x. restrict (restrict_net rules) ∷ x) g);
          first_idle = refl;
          second_idle = idle;
        }
  ]

  load-serve :
      (o : Options) (path : Text)
      → w.parse_args (flag_args w w.args) ≡ ok o
      → chosen_config w o.config ≡ some path
      → o.print_version ≡ false
      → any is_serve (load w o path) ≡ true
      → IsServing w (load w o path)
  unfolding load
  load-serve o path f c pv h = elim (Result-cases (parse_config w.platform path)) [
    | inr (e, p) ↦ absurd (ground arith)
    | inl (conf, p) ↦ elim (Bool-cases o.config_test) [
      | inl t ↦ absurd (ground arith)
      | inr t ↦
          let e : load w o path ≡ read_config path ∷ confine w o conf = rw (p, load, t) refl in
          subst (IsServing w) (sym e) (
            IsServing-append (read_config path ∷ []) refl
              (confine-serve o path conf p f c pv t (subst (λ x. any is_serve x ≡ true) e h)))
    ]
  ]

  -- Restrictions in front.
  locked-IsServing :
      (rs : List Restriction) (rest : List Action)
      → (any is_serve rest ≡ true → IsServing w rest)
      → any is_serve (locked w rs rest) ≡ true
      → IsServing w (locked w rs rest)
  locked-IsServing rs rest g h =
      let (e, k) = locked-serve rs rest h in
      subst (IsServing w) (sym e) (IsServing-append (map restrict rs) (restrict_idle rs) (g k))

  loaded-serve :
      (b : Bool) (rs : List Restriction) (o : Options) (path : Text)
      → w.parse_args (flag_args w w.args) ≡ ok o
      → chosen_config w o.config ≡ some path
      → o.print_version ≡ false
      → any is_serve (if b then load w o path else locked w rs (load w o path)) ≡ true
      → IsServing w (if b then load w o path else locked w rs (load w o path))
  loaded-serve true rs o path f c pv h = load-serve o path f c pv h
  loaded-serve false rs o path f c pv h =
      locked-IsServing rs (load w o path) (load-serve o path f c pv) h

  with_config-serve :
      (o : Options)
      → w.parse_args (flag_args w w.args) ≡ ok o
      → o.print_version ≡ false
      → any is_serve (with_config w o) ≡ true
      → IsServing w (with_config w o)
  unfolding with_config
  with_config-serve o p pv h = elim (Option-cases (chosen_config w o.config)) [
    | inl e ↦ absurd (ground arith)
    | inr (path, e) ↦
        let f : with_config w o
            ≡ (if o.daemon then load w o path else locked w lock_read_config (load w o path)) =
          rw (e, with_config) refl in
        subst (IsServing w) (sym f) (
          loaded-serve o.daemon lock_read_config o path p e pv
            (subst (λ x. any is_serve x ≡ true) f h))
  ]

  after_boot-serve :
      (r : Result Options)
      → w.parse_args (flag_args w w.args) ≡ r
      → any is_serve (after_boot w r) ≡ true
      → IsServing w (after_boot w r)
  unfolding after_boot
  after_boot-serve (err e) p h = absurd (ground arith)
  after_boot-serve (ok o) p h = elim (Bool-cases o.print_version) [
    | inl e ↦ absurd (ground arith)
    | inr e ↦
        let f : after_boot w (ok o) ≡ with_config w o = rw (e, after_boot) refl in
        subst (IsServing w) (sym f)
          (with_config-serve o p e (subst (λ x. any is_serve x ≡ true) f h))
  ]

  -- If main comes to serve a routine, then its flags were read, and ask neither for the version nor only
  -- for a test of the configuration, and it has parsed the configuration that they choose; before the
  -- device is started it has entered the sandbox, with the network rules for that
  -- configuration's ports and then for its files; and it has bound every routine before the first is
  -- served, serving all of them in the order of the configuration.
  pub main-serve : any is_serve (main w) ≡ true → IsServing w (main w)
  unfolding main
  main-serve h =
      locked-IsServing (lock_boot (executable_path w))
        (after_boot w (w.parse_args (flag_args w w.args)))
        (after_boot-serve (w.parse_args (flag_args w w.args)) refl) h
