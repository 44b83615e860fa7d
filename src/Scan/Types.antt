-- ===== src/Scan/Types.antt =====
-- The types of the scanner: `WorkloadRef`, `ScanOptions`, `IstioConfig`, the `WebhookCaller` that
-- it is given, and the reads that its steps share.
use fortsa.Base.{
  Bytes, codes, Bool, Option, none, some, List, ◌==◌, is_empty, ◌⊎◌, Result, if◌then◌else◌,
}
use fortsa.Base.Int.{Time, Duration}
use fortsa.Base.Dict.{Dict, lookup}
use fortsa.Kube.{NamespacedName, Pod, PodTemplate}
use fortsa.Platform.{Platform}

pub record WorkloadRef : Type 0 where
  pub namespaced_name : NamespacedName
  pub open namespaced_name use *
  pub kind : Bytes

pub record ScanOptions : Type 0 where
  pub compare_hub : Bool
  pub istiod_config_read_delay : Duration
  pub skip_namespaces : List Bytes
  pub limit_to_namespaces : List Bytes

pub record IstioConfig : Type 0 where
  pub last_modified_by_revision : Dict Time
  pub tag_to_revision : Dict Bytes
  pub last_modified_by_tag : Dict Time

-- `CallWebhook`, of a pod that may be nil, a revision and `preferDefaultTagWebhook`.
pub record WebhookCaller (P : Platform) : Type 0 where
  pub call_webhook : P.World → Option Pod → Bytes → Bool → Result P.Err Pod

-- `v, ok := m[k]; ok && v != ""`
unfoldable pub nonempty_entry : Bytes → Dict Bytes → Option Bytes
unfolding lookup
nonempty_entry k m = elim (lookup k m) [
  | none ↦ none
  | some v ↦ if is_empty v then none else some v
]

-- The pod template of the workload, by its kind; `none` is a kind that the switch has no case for.
unfoldable pub get_template : (P : Platform) → P.World → WorkloadRef → Option (P.Err ⊎ PodTemplate)
get_template P w ref =
    if ref.kind == codes "Deployment"
    then some (P.get_deployment w ref.namespaced_name)
    else if ref.kind == codes "StatefulSet"
    then some (P.get_stateful_set w ref.namespaced_name)
    else if ref.kind == codes "DaemonSet"
    then some (P.get_daemon_set w ref.namespaced_name)
    else none
