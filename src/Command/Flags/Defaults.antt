-- ===== src/Command/Flags/Defaults.antt =====
-- What the program runs with where no flag is given.
use fortsa.Base.{
  ap, inr, arith, Bytes, codes, Bool, true, false, Option, none, some, List, [], ◌∷◌, ◌≡◌, refl,
  ◌==◌, if◌then◌else◌,
}
use fortsa.Base.Int.{Duration, pos}
use fortsa.Platform.{Platform}
use fortsa.Webhook.Call.{Backend}
use fortsa.Controller.Setup.{
  ReconcilerOptions, new_istio_change_reconciler, setup_istio_change_controller,
}
use fortsa.Command.SkipNamespaces.{parse_skip_namespaces}
use fortsa.Command.SkipNamespaces.Names.{Padded, IsPadded, parse_skip_namespaces-joined}
use fortsa.Command.Host.{ManagerOptions, Host, disable_http2}
use fortsa.Command.Flags.{FlagValue, bool, string, duration, Flag, flags, ten_seconds, five_minutes}
use fortsa.Command.Startup.{watch_certificate, manager_options, reconciler_options, the_reconciler}

-- The default of the first flag with a name.
pub default_in : Bytes → List Flag → Option FlagValue
default_in name [] = none
default_in name (flag ∷ more) =
    if flag.name == name then some flag.default else default_in name more

abbrev bare : Bytes → Padded
bare name = record { before = []; name = name; after = [] }

kube_system-IsPadded : IsPadded (bare (codes "kube-system"))
kube_system-IsPadded = record {
  before_blank = tt;
  name_plain = (cc, omega arith);
  after_blank = tt;
}

istio_system-IsPadded : IsPadded (bare (codes "istio-system"))
istio_system-IsPadded = record {
  before_blank = tt;
  name_plain = (cc, omega arith);
  after_blank = tt;
}

abbrev pub default_options : ReconcilerOptions
default_options = record {
  dry_run = false;
  compare_hub = false;
  restart_delay = pos 0;
  istiod_config_read_delay = ten_seconds;
  annotation_cooldown = five_minutes;
  skip_namespaces = codes "kube-system" ∷ codes "istio-system" ∷ [];
  reconcile_period = pos 0;
}

abbrev pub default_servers : {W : Type 0} → ManagerOptions W
default_servers = record {
  metrics = record {
    bind_address = codes ":8080";
    secure_serving = true;
    tls_opts = disable_http2 ∷ [];
    authenticated = true;
  };
  webhook_tls_opts = disable_http2 ∷ [];
  health_probe_bind_address = codes ":8081";
  leader_election = true;
  leader_election_id = codes "71f32f9d.fortsa.scaffidi.net";
}

module _ (P : Platform) (B : Backend P) (H : Host P) where
  -- What viper documents for a flag that is bound and set nowhere: it has its default.
  pub record AnswersDefaults : Type 0 where
    pub bools :
        (name : Bytes) (b : Bool) → default_in name flags ≡ some (bool b) → H.get_bool name ≡ b
    pub strings :
        (name text : Bytes) → default_in name flags ≡ some (string text) → H.get_string name ≡ text
    pub durations :
        (name : Bytes) (d : Duration)
        → default_in name flags ≡ some (duration d)
        → H.get_duration name ≡ d

  default_skip_namespaces :
      parse_skip_namespaces (codes "kube-system,istio-system")
      ≡ codes "kube-system" ∷ codes "istio-system" ∷ []
  default_skip_namespaces =
      parse_skip_namespaces-joined (bare (codes "kube-system") ∷ bare (codes "istio-system") ∷ [])
        (kube_system-IsPadded, (istio_system-IsPadded, tt))

  default_reconciler_options :
      AnswersDefaults
      → reconciler_options P B H ≡ record {
        dry_run = false;
        compare_hub = false;
        restart_delay = pos 0;
        istiod_config_read_delay = ten_seconds;
        annotation_cooldown = five_minutes;
        skip_namespaces = codes "kube-system" ∷ codes "istio-system" ∷ [];
        reconcile_period = pos 0;
      }
  unfolding default_in flags ◌==◌
  default_reconciler_options answers =
      rw
        (
          answers.bools (codes "dry-run") false refl,
          answers.bools (codes "compare-hub") false refl,
          answers.durations (codes "restart-delay") (pos 0) refl,
          answers.durations (codes "istiod-config-read-delay") ten_seconds refl,
          answers.durations (codes "annotation-cooldown") five_minutes refl,
          answers.durations (codes "reconcile-period") (pos 0) refl,
          answers.strings (codes "skip-namespaces") (codes "kube-system,istio-system") refl,
          default_skip_namespaces,
        )
        refl

  default_manager_options :
      AnswersDefaults
      → manager_options P B H none none ≡ record {
        metrics = record {
          bind_address = codes ":8080";
          secure_serving = true;
          tls_opts = disable_http2 ∷ [];
          authenticated = true;
        };
        webhook_tls_opts = disable_http2 ∷ [];
        health_probe_bind_address = codes ":8081";
        leader_election = true;
        leader_election_id = codes "71f32f9d.fortsa.scaffidi.net";
      }
  unfolding default_in flags ◌==◌ manager_options
  default_manager_options answers =
      rw
        (
          answers.bools (codes "metrics-secure") true refl,
          answers.bools (codes "enable-http2") false refl,
          answers.bools (codes "leader-elect") true refl,
          answers.strings (codes "metrics-bind-address") (codes ":8080") refl,
          answers.strings (codes "health-probe-bind-address") (codes ":8081") refl,
        )
        refl

  default_source :
      AnswersDefaults → (setup_istio_change_controller (the_reconciler P B H)).source ≡ none
  unfolding default_in flags ◌==◌ the_reconciler new_istio_change_reconciler
      setup_istio_change_controller
  default_source answers = rw (answers.durations (codes "reconcile-period") (pos 0) refl) refl

  -- Where each flag has its default, the reconciler is no dry run, does not compare registries,
  -- has no delay between restarts, waits ten seconds for istiod, leaves a workload alone for five
  -- minutes, skips kube-system and istio-system, and has no periodic source; no certificate is
  -- watched; and the manager serves metrics at port 8080 and probes at 8081, with TLS and
  -- authentication for the metrics, without HTTP/2 on both of its servers, and elects a leader.
  pub main_defaults :
      AnswersDefaults
      → (s : H.State)
      → (the_reconciler P B H ≡ new_istio_change_reconciler P B default_options)
        × ((setup_istio_change_controller (the_reconciler P B H)).source ≡ none)
        × (watch_certificate P B H
              (H.get_string (codes "webhook-cert-path"))
              (H.get_string (codes "webhook-cert-name"))
              (H.get_string (codes "webhook-cert-key"))
              s
            ≡ (s, inr none))
        × (watch_certificate P B H
              (H.get_string (codes "metrics-cert-path"))
              (H.get_string (codes "metrics-cert-name"))
              (H.get_string (codes "metrics-cert-key"))
              s
            ≡ (s, inr none))
        × (manager_options P B H none none ≡ default_servers)
  unfolding default_in flags ◌==◌ the_reconciler watch_certificate
  main_defaults answers s = (
    ap (new_istio_change_reconciler P B) (default_reconciler_options answers),
    default_source answers,
    rw (answers.strings (codes "webhook-cert-path") [] refl) refl,
    rw (answers.strings (codes "metrics-cert-path") [] refl) refl,
    default_manager_options answers,
  )
