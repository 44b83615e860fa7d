-- ===== src/Command/Flags.antt =====
-- The flags that `main` of cmd/main.go declares, with their defaults.
pub mod Defaults
use fortsa.Base.{
  Bytes, codes, Bool, true, false, Option, none, some, List, [], ◌∷◌, ◌==◌, if◌then◌else◌,
}
use fortsa.Base.Int.{Duration, pos}

pub data FlagValue : Type 0 where
  bool : Bool → FlagValue
  string : Bytes → FlagValue
  duration : Duration → FlagValue

pub record Flag : Type 0 where
  pub name : Bytes
  pub default : FlagValue

-- `pflag.Bool(name, value, …)` and its like for texts and durations
abbrev bool_flag : Bytes → Bool → Flag
bool_flag name value = record { name = name; default = bool value }

abbrev string_flag : Bytes → Bytes → Flag
string_flag name value = record { name = name; default = string value }

abbrev duration_flag : Bytes → Duration → Flag
duration_flag name value = record { name = name; default = duration value }

-- `10*time.Second` and `5*time.Minute`, in nanoseconds
abbrev pub ten_seconds : Duration
ten_seconds = pos 10000000000

abbrev pub five_minutes : Duration
five_minutes = pos 300000000000

unfoldable pub flags : List Flag
flags =
    bool_flag (codes "version") false
    ∷ string_flag (codes "metrics-bind-address") (codes ":8080")
    ∷ string_flag (codes "health-probe-bind-address") (codes ":8081")
    ∷ bool_flag (codes "leader-elect") true
    ∷ bool_flag (codes "metrics-secure") true
    ∷ string_flag (codes "webhook-cert-path") []
    ∷ string_flag (codes "webhook-cert-name") (codes "tls.crt")
    ∷ string_flag (codes "webhook-cert-key") (codes "tls.key")
    ∷ string_flag (codes "metrics-cert-path") []
    ∷ string_flag (codes "metrics-cert-name") (codes "tls.crt")
    ∷ string_flag (codes "metrics-cert-key") (codes "tls.key")
    ∷ bool_flag (codes "enable-http2") false
    ∷ bool_flag (codes "dry-run") false
    ∷ bool_flag (codes "compare-hub") false
    ∷ duration_flag (codes "restart-delay") (pos 0)
    ∷ duration_flag (codes "istiod-config-read-delay") ten_seconds
    ∷ duration_flag (codes "reconcile-period") (pos 0)
    ∷ duration_flag (codes "annotation-cooldown") five_minutes
    ∷ string_flag (codes "skip-namespaces") (codes "kube-system,istio-system")
    ∷ []
