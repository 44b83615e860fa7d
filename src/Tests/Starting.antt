-- ===== src/Tests/Starting.antt =====
-- A start of the program with flags of its own, and the theorems of the command line there.
use fortsa.Base.{
  inl, ok, false, Bool, ◌≢◌, ap, Option, ℕ, suc, ◌≤◌, Bytes, codes, none, some, List, [], ◌∷◌, ◌++◌,
  All, ◌≡◌, ◌↔◌, ◌⊎◌, inr, refl, ◌==◌, if◌then◌else◌, arith,
}
use fortsa.Base.Int.{Duration, pos}
use fortsa.Command.SkipNamespaces.{parse_skip_namespaces}
use fortsa.Command.SkipNamespaces.Names.{Padded, IsPadded, parse_skip_namespaces-joined}
use fortsa.Command.Flags.{FlagValue, bool, string, duration, flags}
use fortsa.Command.Flags.Defaults.{
  default_in, AnswersDefaults, default_options, default_servers, main_defaults,
}
use fortsa.Base.Trim.{space_width, space_width_back}
use fortsa.Scan.Owner.Chain.{GetsInNamespace}
use fortsa.Scan.Outdated.{scan_outdated_pods}
use fortsa.Controller.{scan_options}
use fortsa.Controller.Setup.{new_istio_change_reconciler, setup_istio_change_controller}
use fortsa.Tests.Sample.{web}
use fortsa.Command.Host.{Host, ManagerOptions}
use fortsa.Command.Startup.{watch_certificate, the_reconciler, BuildInfo, main, manager_options}
use fortsa.Command.Startup.Tls.{TlsConfig, configure, secured, manager_options-secured}
use fortsa.Command.Startup.Skipping.{the_reconciler_skips}
use fortsa.Command.Startup.Started.{Launched, ParsingEnds, main-Launched}
use fortsa.Tests.Restarting.{runs, live_config, cluster, newer}

-- Every call counts, and none fails. The flags name a certificate for the webhook's server.
abbrev started : Host cluster
started = record {
  State = ℕ;
  Err = Bytes;
  Watcher = Bytes;
  Manager = ManagerOptions Bytes;
  get_bool = λ name. name == codes "metrics-secure";
  get_string = λ name.
      if name == codes "skip-namespaces"
      then codes "kube-system, cart"
      else if name == codes "webhook-cert-path"
      then codes "/certs"
      else [];
  get_duration = λ name. pos 0;
  join_path = λ dir name. dir ++ codes "/" ++ name;
  bind_flags = λ s. (suc s, none);
  parse_flags = λ s. (suc s, inr tt);
  print = λ text s. suc s;
  new_cert_watcher = λ cert key s. (suc s, inr cert);
  get_config = λ s. (suc s, none);
  new_manager = λ opts s. (suc s, inr opts);
  complete = λ mgr registration r s. (suc s, none);
  add_cert_watcher = λ mgr watcher s. (suc s, none);
  add_healthz_check = λ mgr s. (suc s, none);
  add_readyz_check = λ mgr s. (suc s, none);
  start = λ mgr s. (suc s, none);
}

abbrev build : BuildInfo
build = record { version = codes "1.0"; commit = []; build_time = [] }

main-Launched_example :
    ((main cluster newer started build 0 ≡ (10, 0)) ↔ Launched cluster newer started build 0 10)
    × (((main cluster newer started build 0).1 ≤ 1)
        ⊎ ParsingEnds cluster newer started 0 (main cluster newer started build 0))
main-Launched_example = main-Launched cluster newer started build 0 10

abbrev plain : TlsConfig Bytes
plain = record { next_protos = []; get_certificate = none }

manager_options-secured_example :
    (configure
        (manager_options cluster newer started
          (some (codes "/certs/tls.crt"))
          none).webhook_tls_opts
        plain
      ≡ secured (started.get_bool (codes "enable-http2")) (some (codes "/certs/tls.crt")) plain)
    × (configure
          (manager_options cluster newer started
            (some (codes "/certs/tls.crt"))
            none).metrics.tls_opts
          plain
        ≡ secured (started.get_bool (codes "enable-http2")) none plain)
manager_options-secured_example =
    manager_options-secured cluster newer started (some (codes "/certs/tls.crt")) none plain

abbrev two_names : List Padded
two_names =
    record { before = []; name = codes "kube-system"; after = [] }
    ∷ record { before = codes " "; name = codes "cart"; after = [] }
    ∷ []

two_names-IsPadded : All IsPadded two_names
two_names-IsPadded = (
  record { before_blank = tt; name_plain = (cc, omega arith); after_blank = tt },
  (record { before_blank = (refl, tt); name_plain = (cc, omega arith); after_blank = tt }, tt),
)

parse_skip_namespaces-joined_example :
    parse_skip_namespaces (codes "kube-system, cart") ≡ codes "kube-system" ∷ codes "cart" ∷ []
parse_skip_namespaces-joined_example = parse_skip_namespaces-joined two_names two_names-IsPadded

cluster-GetsInNamespace : GetsInNamespace cluster 0
cluster-GetsInNamespace = record {
  replica_set = λ nn o e. ground arith;
  controller_revision = λ nn o e. cc;
}

started_scan :
    scan_outdated_pods cluster
      (the_reconciler cluster newer started).webhook_caller
      3
      0
      live_config
      (scan_options cluster (the_reconciler cluster newer started) [])
    ≡ ok (web ∷ [])
unfolding runs the_reconciler parse_skip_namespaces space_width space_width_back
started_scan = refl

the_reconciler_skips_example : All (λ ref. ref.namespace ≢ codes "cart") (web ∷ [])
unfolding ◌==◌
the_reconciler_skips_example =
    the_reconciler_skips cluster newer started two_names
      (record { before = codes " "; name = codes "cart"; after = [] }) 3 0 live_config [] (web ∷ [])
      refl two_names-IsPadded (inr (inl refl)) cluster-GetsInNamespace started_scan

-- The flags' defaults, as values of a kind.
abbrev bool_of : Option FlagValue → Bool
bool_of (some (bool b)) = b
bool_of other = false

abbrev string_of : Option FlagValue → Bytes
string_of (some (string text)) = text
string_of other = []

abbrev duration_of : Option FlagValue → Duration
duration_of (some (duration d)) = d
duration_of other = pos 0

abbrev unset : Host cluster
unset = record started {
  get_bool = λ name. bool_of (default_in name flags);
  get_string = λ name. string_of (default_in name flags);
  get_duration = λ name. duration_of (default_in name flags);
}

unset-AnswersDefaults : AnswersDefaults cluster newer unset
unset-AnswersDefaults = record {
  bools = λ name b e. ap bool_of e;
  strings = λ name text e. ap string_of e;
  durations = λ name d e. ap duration_of e;
}

main_defaults_example :
    (the_reconciler cluster newer unset ≡ new_istio_change_reconciler cluster newer default_options)
    × ((setup_istio_change_controller (the_reconciler cluster newer unset)).source ≡ none)
    × (watch_certificate cluster newer unset
          (unset.get_string (codes "webhook-cert-path"))
          (unset.get_string (codes "webhook-cert-name"))
          (unset.get_string (codes "webhook-cert-key"))
          0
        ≡ (0, inr none))
    × (watch_certificate cluster newer unset
          (unset.get_string (codes "metrics-cert-path"))
          (unset.get_string (codes "metrics-cert-name"))
          (unset.get_string (codes "metrics-cert-key"))
          0
        ≡ (0, inr none))
    × (manager_options cluster newer unset none none ≡ default_servers)
main_defaults_example = main_defaults cluster newer unset unset-AnswersDefaults 0
