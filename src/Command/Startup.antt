-- ===== src/Command/Startup.antt =====
-- `main` of cmd/main.go. A step returns the state after it and a value, or the status with which it
-- ends the program. The log, and the format of the version's lines apart from their texts, are left
-- out.
pub mod Tls
mod Steps
pub mod Served
pub mod Started
pub mod Skipping
use fortsa.Base.{
  ℕ, Bytes, codes, Bool, Option, none, some, List, [], ◌∷◌, ◌++◌, is_empty, ◌⊎◌, inl, inr,
  if◌then◌else◌,
}
use fortsa.Platform.{Platform}
use fortsa.Webhook.Call.{Backend}
use fortsa.Controller.{Reconciler}
use fortsa.Controller.Setup.{
  ReconcilerOptions, new_istio_change_reconciler, setup_istio_change_controller,
}
use fortsa.Command.SkipNamespaces.{parse_skip_namespaces}
use fortsa.Command.Host.{
  TlsOption, disable_http2, certificate_of, MetricsOptions, ManagerOptions, Host,
}

-- The variables that the linker sets.
pub record BuildInfo : Type 0 where
  pub version : Bytes
  pub commit : Bytes
  pub build_time : Bytes

-- A step of the program, over the state.
abbrev pub Program : Type 0 → Type 0 → Type 0
Program S A = S → S × (ℕ ⊎ A)

module _ {S : Type 0} where
  abbrev pub continue : {A B : Type 0} → S × (ℕ ⊎ A) → (A → Program S B) → S × (ℕ ⊎ B)
  continue (s, inl status) next = (s, inl status)
  continue (s, inr value) next = next value s

  infixl 5 ◌>>=◌ ◌>>◌
  unfoldable pub ◌>>=◌ : {A B : Type 0} → Program S A → (A → Program S B) → Program S B
  ◌>>=◌ step next s = continue (step s) next

  abbrev pub ◌>>◌ : {A B : Type 0} → Program S A → Program S B → Program S B
  step >> next = step >>= λ _. next

  abbrev pub pure : {A : Type 0} → A → Program S A
  pure value s = (s, inr value)

  abbrev pub obtained : {E A : Type 0} → S × (E ⊎ A) → S × (ℕ ⊎ A)
  obtained (s, inl e) = (s, inl 1)
  obtained (s, inr value) = (s, inr value)

  abbrev pub attempted : {E : Type 0} → S × Option E → S × (ℕ ⊎ Unit {0})
  attempted (s, none) = (s, inr tt)
  attempted (s, some e) = (s, inl 1)

  -- `if err != nil { os.Exit(1) }`, after a call that returns a value or an error, and after one
  -- that returns an error or nil.
  unfoldable pub obtain : {E A : Type 0} → (S → S × (E ⊎ A)) → Program S A
  obtain call s = obtained (call s)

  unfoldable pub attempt : {E : Type 0} → (S → S × Option E) → Program S (Unit {0})
  attempt call s = attempted (call s)

module _ (P : Platform) (B : Backend P) (H : Host P) where
  -- The lines that `--version` prints.
  unfoldable pub print_version : BuildInfo → H.State → H.State
  print_version info s =
      let version = if is_empty info.version then codes "dev" else info.version in
      let named = H.print (codes "fortsa version " ++ version) s in
      let committed =
        if is_empty info.commit then named else H.print (codes "  commit: " ++ info.commit) named in
      if is_empty info.build_time
      then committed
      else H.print (codes "  build time: " ++ info.build_time) committed

  -- `tlsOpts`, with which both servers start.
  abbrev pub tls_opts : List (TlsOption H.Watcher)
  tls_opts = if H.get_bool (codes "enable-http2") then [] else disable_http2 ∷ []

  -- The watcher of a certificate, where its directory is given.
  unfoldable pub watch_certificate : Bytes → Bytes → Bytes → Program H.State (Option H.Watcher)
  watch_certificate path name key = if is_empty path then pure none else do
    watcher ← obtain (H.new_cert_watcher (H.join_path path name) (H.join_path path key))
    pure (some watcher)

  -- The TLS options with the watcher's behind them.
  abbrev pub with_watcher :
      List (TlsOption H.Watcher) → Option H.Watcher → List (TlsOption H.Watcher)
  with_watcher opts none = opts
  with_watcher opts (some watcher) = opts ++ certificate_of watcher ∷ []

  abbrev pub metrics_options : Option H.Watcher → MetricsOptions H.Watcher
  metrics_options metrics_watcher = record {
    bind_address = H.get_string (codes "metrics-bind-address");
    secure_serving = H.get_bool (codes "metrics-secure");
    tls_opts = with_watcher tls_opts metrics_watcher;
    authenticated = H.get_bool (codes "metrics-secure");
  }

  unfoldable pub manager_options : Option H.Watcher → Option H.Watcher → ManagerOptions H.Watcher
  manager_options webhook_watcher metrics_watcher = record {
    metrics = metrics_options metrics_watcher;
    webhook_tls_opts = with_watcher tls_opts webhook_watcher;
    health_probe_bind_address = H.get_string (codes "health-probe-bind-address");
    leader_election = H.get_bool (codes "leader-elect");
    leader_election_id = codes "71f32f9d.fortsa.scaffidi.net";
  }

  abbrev pub reconciler_options : ReconcilerOptions
  reconciler_options = record {
    dry_run = H.get_bool (codes "dry-run");
    compare_hub = H.get_bool (codes "compare-hub");
    restart_delay = H.get_duration (codes "restart-delay");
    istiod_config_read_delay = H.get_duration (codes "istiod-config-read-delay");
    annotation_cooldown = H.get_duration (codes "annotation-cooldown");
    skip_namespaces = parse_skip_namespaces (H.get_string (codes "skip-namespaces"));
    reconcile_period = H.get_duration (codes "reconcile-period");
  }

  unfoldable pub the_reconciler : Reconciler P
  the_reconciler = new_istio_change_reconciler P B reconciler_options

  -- `if watcher != nil { … mgr.Add(watcher) … }`
  unfoldable pub add_watcher : H.Manager → Option H.Watcher → Program H.State (Unit {0})
  add_watcher mgr none = pure tt
  add_watcher mgr (some watcher) = attempt (H.add_cert_watcher mgr watcher)

  -- From the manager on.
  unfoldable pub run_manager :
      H.Manager → Option H.Watcher → Option H.Watcher → Program H.State (Unit {0})
  run_manager mgr webhook_watcher metrics_watcher = do
    attempt (H.complete mgr (setup_istio_change_controller the_reconciler) the_reconciler)
    add_watcher mgr metrics_watcher
    add_watcher mgr webhook_watcher
    attempt (H.add_healthz_check mgr)
    attempt (H.add_readyz_check mgr)
    attempt (H.start mgr)

  -- `main` behind the test of the version flag.
  unfoldable pub serve : Program H.State (Unit {0})
  serve = do
    webhook_watcher ←
        watch_certificate (H.get_string (codes "webhook-cert-path"))
          (H.get_string (codes "webhook-cert-name")) (H.get_string (codes "webhook-cert-key"))
    metrics_watcher ←
        watch_certificate (H.get_string (codes "metrics-cert-path"))
          (H.get_string (codes "metrics-cert-name")) (H.get_string (codes "metrics-cert-key"))
    attempt H.get_config
    mgr ← obtain (H.new_manager (manager_options webhook_watcher metrics_watcher))
    run_manager mgr webhook_watcher metrics_watcher

  unfoldable pub after_flags : BuildInfo → Program H.State (Unit {0})
  after_flags info s =
      if H.get_bool (codes "version") then (print_version info s, inl 0) else serve s

  -- The program ends with the status of a step, and with 0 where `main` returns.
  abbrev pub exit_status : H.State × (ℕ ⊎ Unit {0}) → H.State × ℕ
  exit_status (s, inl status) = (s, status)
  exit_status (s, inr _) = (s, 0)

  unfoldable pub main : BuildInfo → H.State → H.State × ℕ
  main info s =
      exit_status ((attempt H.bind_flags >>= λ _. H.parse_flags >>= λ _. after_flags info) s)
