-- ===== src/Scan/Outdated.antt =====
-- `ScanOutdatedPods`
pub mod Names
pub mod Loop
pub mod Results
pub mod Ends
pub mod Order
pub mod Errors
use fortsa.Base.{
  ℕ, Bytes, Bool, false, ◌&&◌, ◌||◌, Option, none, some, List, [], ◌∷◌, ◌++◌, ◌==◌, contains,
  add_keys, Result, ok, ◌>>=◌, if◌then◌else◌,
}
use fortsa.Kube.{NamespacedName, Pod}
use fortsa.Platform.{Platform}
use fortsa.Scan.Types.{WorkloadRef, ScanOptions, IstioConfig, WebhookCaller}
use fortsa.Scan.Pods.{list_pods}
use fortsa.Scan.Process.{process_pod_for_outdated_sidecar}

-- `_, ok := seen[nn]`
unfoldable pub was_seen : List NamespacedName → NamespacedName → Bool
was_seen [] nn = false
was_seen (x ∷ xs) nn = (x.namespace == nn.namespace && x.name == nn.name) || was_seen xs nn

-- The variables of the loop. `seen` is a set, held as the keys in the order in which they came.
pub record Progress : Type 0 where
  pub seen : List NamespacedName
  pub workloads : List WorkloadRef

unfoldable pub add_workload : Option WorkloadRef → Progress → Progress
add_workload none s = s
add_workload (some ref) s =
    if was_seen s.seen ref.namespaced_name
    then s
    else record { seen = ref.namespaced_name ∷ s.seen; workloads = s.workloads ++ ref ∷ [] }

module _ (P : Platform) (caller : WebhookCaller P) (fuel : ℕ) (w : P.World) (cfg : IstioConfig)
    (opts : ScanOptions) where
  -- One round of the loop.
  unfoldable pub scan_pod : List Bytes → Pod → Progress → Result P.Err Progress
  scan_pod skip_set pod s = if contains skip_set pod.meta.namespace then ok s else do
    ref ← process_pod_for_outdated_sidecar P caller w fuel pod cfg opts
    ok (add_workload ref s)

  unfoldable pub scan_pods : List Bytes → List Pod → Progress → Result P.Err Progress
  scan_pods skip_set [] s = ok s
  scan_pods skip_set (pod ∷ pods) s = scan_pod skip_set pod s >>= λ s'. scan_pods skip_set pods s'

  unfoldable pub scan_with_caller : Result P.Err (List WorkloadRef)
  scan_with_caller = do
    pods ← list_pods P w opts
    s ← scan_pods (add_keys [] opts.skip_namespaces) pods (record { seen = []; workloads = [] })
    ok s.workloads

unfoldable pub scan_outdated_pods :
    (P : Platform)
    → Option (WebhookCaller P)
    → ℕ
    → P.World
    → IstioConfig
    → ScanOptions
    → Result P.Err (List WorkloadRef)
scan_outdated_pods P none fuel w cfg opts = ok []
scan_outdated_pods P (some caller) fuel w cfg opts = scan_with_caller P caller fuel w cfg opts
