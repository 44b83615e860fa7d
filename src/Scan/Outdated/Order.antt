-- ===== src/Scan/Outdated/Order.antt =====
-- That the namespaces to which a scan is limited count as a set.
use fortsa.Base.{
  ℕ, Bytes, some, List, [], ◌≡◌, ◌≢◌, ◌↔◌, refl, ◌∙◌, add_keys, ok, All, All-at, Exists,
  Exists-pick, Elem, subst,
}
use fortsa.Kube.{NamespacedName, Pod}
use fortsa.Platform.{Platform}
use fortsa.Scan.Types.{WorkloadRef, ScanOptions, IstioConfig, WebhookCaller}
use fortsa.Scan.Pods.{list_pods}
use fortsa.Scan.Pods.Listed.{RangesOver, ListedIn-same, list_pods-Listed}
use fortsa.Scan.Skip.{should_skip_pod_for_last_modified}
use fortsa.Scan.Process.{
  check_workload, process_workload, process_pod_for_outdated_sidecar, is_outdated,
}
use fortsa.Scan.Outdated.{scan_outdated_pods}
use fortsa.Scan.Outdated.Names.{HasName}
use fortsa.Scan.Outdated.Loop.{Found, scan_pods-HasName}
use fortsa.Scan.Outdated.Results.{start, start-IsProgress, scan_inversion, scan-listed, scan-Found}

module _ (P : Platform) (caller : WebhookCaller P) (fuel : ℕ) (w : P.World)
    (cfg : IstioConfig) where
  -- The verdict on a pod does not look at the limit.
  process_pod-limit :
      (pod : Pod) (opts : ScanOptions) (limit : List Bytes)
      → process_pod_for_outdated_sidecar P caller w fuel pod cfg
          (record opts { limit_to_namespaces = limit })
        ≡ process_pod_for_outdated_sidecar P caller w fuel pod cfg opts
  unfolding process_pod_for_outdated_sidecar process_workload check_workload is_outdated
      should_skip_pod_for_last_modified
  process_pod-limit pod opts limit = refl

  -- A pod of the list leads to a workload of the name.
  LeadsTo : ScanOptions → List Pod → NamespacedName → Type 0
  LeadsTo opts pods nn =
      (pod : Pod) × Elem pod pods
      × ((ref : WorkloadRef) × Found P caller fuel w cfg opts (add_keys [] opts.skip_namespaces) pod
            ref
          × (ref.namespaced_name ≡ nn))

  -- The names of the results are those to which the listed pods lead.
  scan-LeadsTo :
      (opts : ScanOptions) (pods : List Pod) (refs : List WorkloadRef) (nn : NamespacedName)
      → list_pods P w opts ≡ ok pods
      → scan_outdated_pods P (some caller) fuel w cfg opts ≡ ok refs
      → HasName nn refs ↔ LeadsTo opts pods nn
  unfolding LeadsTo
  scan-LeadsTo opts pods refs nn listed h =
      let skip = add_keys [] opts.skip_namespaces in
      let (t, e, same) = scan_inversion P caller fuel w cfg opts pods refs listed h in
      let named = scan_pods-HasName P caller fuel w cfg opts skip pods start t e start-IsProgress in
      (
        λ has.
            let (ref, m, is) = Exists-pick (λ r. r.namespaced_name ≡ nn) refs has in
            let (pod, there, found) =
              Exists-pick (λ pod. Found P caller fuel w cfg opts skip pod ref) pods
                (All-at (λ r. Exists (λ pod. Found P caller fuel w cfg opts skip pod r) pods) refs
                  ref (scan-Found P caller fuel w cfg opts pods refs listed h) m) in
            (pod, there, (ref, found, is)),
        λ (pod, there, (ref, found, is)).
            let has =
              All-at
                (λ p.
                  (r : WorkloadRef)
                  → Found P caller fuel w cfg opts skip p r
                  → HasName r.namespaced_name t.workloads)
                pods pod named there ref found in
            subst (λ n. HasName n refs) is (subst (HasName ref.namespaced_name) same has),
      )

  LeadsTo-limit :
      (opts : ScanOptions) (limit : List Bytes) (pods pods' : List Pod) (nn : NamespacedName)
      → ((pod : Pod) → Elem pod pods → Elem pod pods')
      → LeadsTo opts pods nn
      → LeadsTo (record opts { limit_to_namespaces = limit }) pods' nn
  unfolding LeadsTo
  LeadsTo-limit opts limit pods pods' nn sub (pod, there, (ref, (kept, found), is)) =
      (pod, sub pod there, (ref, (kept, process_pod-limit pod opts limit ∙ found), is))

  listed_under :
      (opts opts' : ScanOptions) (pods pods' : List Pod) (pod : Pod)
      → RangesOver P w
      → opts.limit_to_namespaces ≢ []
      → opts'.limit_to_namespaces ≢ []
      → All (λ ns. ns ≢ []) opts.limit_to_namespaces
      → All (λ ns. ns ≢ []) opts'.limit_to_namespaces
      → ((ns : Bytes) → Elem ns opts.limit_to_namespaces → Elem ns opts'.limit_to_namespaces)
      → list_pods P w opts ≡ ok pods
      → list_pods P w opts' ≡ ok pods'
      → Elem pod pods
      → Elem pod pods'
  listed_under opts opts' pods pods' pod ranges some_limit some_limit' full full' sub listed listed'
        m =
      (list_pods-Listed P w opts' pods' pod some_limit' full' ranges listed').1 (
        ListedIn-same P w opts.limit_to_namespaces opts'.limit_to_namespaces pod sub
          ((list_pods-Listed P w opts pods pod some_limit full ranges listed).0 m))

  -- Two scans of one world that succeed, limited to lists with the same namespaces, find workloads of the same
  -- names: neither the order of the namespaces nor how often one occurs counts, where none of them
  -- is the empty name, neither list is empty, and ranging over a map visits its keys and no others.
  pub scan_limit_set :
      (opts : ScanOptions) (limit : List Bytes) (refs refs' : List WorkloadRef)
      → RangesOver P w
      → opts.limit_to_namespaces ≢ []
      → limit ≢ []
      → All (λ ns. ns ≢ []) opts.limit_to_namespaces
      → All (λ ns. ns ≢ []) limit
      → ((ns : Bytes) → Elem ns opts.limit_to_namespaces ↔ Elem ns limit)
      → scan_outdated_pods P (some caller) fuel w cfg opts ≡ ok refs
      → scan_outdated_pods P (some caller) fuel w cfg (record opts { limit_to_namespaces = limit })
        ≡ ok refs'
      → (nn : NamespacedName) → HasName nn refs ↔ HasName nn refs'
  scan_limit_set opts limit refs refs' ranges some_limit some_limit' full full' same h h' nn =
      let opts' = record opts { limit_to_namespaces = limit } in
      let (pods, listed) = scan-listed P caller fuel w cfg opts refs h in
      let (pods', listed') = scan-listed P caller fuel w cfg opts' refs' h' in
      let one = scan-LeadsTo opts pods refs nn listed h in
      let other = scan-LeadsTo opts' pods' refs' nn listed' h' in
      (
        λ has. other.1 (
            LeadsTo-limit opts limit pods pods' nn
              (λ pod.
                listed_under opts opts' pods pods' pod ranges some_limit some_limit' full full'
                  (λ ns. (same ns).0) listed listed')
              (one.0 has)),
        λ has. one.1 (
            LeadsTo-limit opts' opts.limit_to_namespaces pods' pods nn
              (λ pod.
                listed_under opts' opts pods' pods pod ranges some_limit' some_limit full' full
                  (λ ns. (same ns).1) listed' listed)
              (other.0 has)),
      )
