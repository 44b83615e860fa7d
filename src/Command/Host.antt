-- ===== src/Command/Host.antt =====
-- What `main` calls: the flags as viper gives them, the certificate watchers, and the manager of
-- controller-runtime. `State` is what these calls act on.
use fortsa.Base.{ℕ, Bytes, Bool, Option, List, ◌⊎◌}
use fortsa.Base.Int.{Duration}
use fortsa.Platform.{Platform}
use fortsa.Controller.{Reconciler}
use fortsa.Controller.Setup.{Registration}

-- A function on a `tls.Config`: `disableHTTP2`, or one that sets `GetCertificate` to a watcher's.
pub data TlsOption (Watcher : Type 0) : Type 0 where
  disable_http2 : TlsOption Watcher
  certificate_of : Watcher → TlsOption Watcher

-- `metricsserver.Options`; `authenticated` says that there is a `FilterProvider`.
pub record MetricsOptions (Watcher : Type 0) : Type 0 where
  pub bind_address : Bytes
  pub secure_serving : Bool
  pub tls_opts : List (TlsOption Watcher)
  pub authenticated : Bool

-- `ctrl.Options`, with the TLS options of its webhook server.
pub record ManagerOptions (Watcher : Type 0) : Type 0 where
  pub metrics : MetricsOptions Watcher
  pub webhook_tls_opts : List (TlsOption Watcher)
  pub health_probe_bind_address : Bytes
  pub leader_election : Bool
  pub leader_election_id : Bytes

pub record Host (P : Platform) : Type 1 where
  pub State : Type 0
  pub Err : Type 0
  pub Watcher : Type 0
  pub Manager : Type 0
  -- `viper.GetBool`, `viper.GetString` and `viper.GetDuration`, once the flags are parsed
  pub get_bool : Bytes → Bool
  pub get_string : Bytes → Bytes
  pub get_duration : Bytes → Duration
  -- `filepath.Join`
  pub join_path : Bytes → Bytes → Bytes
  pub bind_flags : State → State × Option Err
  -- `pflag.Parse`, which ends the program by itself for a wrong flag and for a request for help
  pub parse_flags : State → State × (ℕ ⊎ Unit {0})
  pub print : Bytes → State → State
  pub new_cert_watcher : Bytes → Bytes → State → State × (Err ⊎ Watcher)
  -- `ctrl.GetConfigOrDie`, whose error ends the program, and `ctrl.NewManager`
  pub get_config : State → State × Option Err
  pub new_manager : ManagerOptions Watcher → State → State × (Err ⊎ Manager)
  -- `b.Complete(reconciler)`, of a builder with the registration
  pub complete : Manager → Registration → Reconciler P → State → State × Option Err
  pub add_cert_watcher : Manager → Watcher → State → State × Option Err
  pub add_healthz_check : Manager → State → State × Option Err
  pub add_readyz_check : Manager → State → State × Option Err
  -- `mgr.Start`, which returns when the manager has stopped
  pub start : Manager → State → State × Option Err
