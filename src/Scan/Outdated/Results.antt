-- ===== src/Scan/Outdated/Results.antt =====
-- What `ScanOutdatedPods` returns.
use fortsa.Base.{
  All-at, ℕ, Bytes, false, some, List, [], ◌≡◌, ◌≢◌, sym, ◌∙◌, contains, add_keys,
  add_keys-contains, Result, ok, >>=-eq-ok, ok_injective, All, All-imp, All-self, Exists,
  Exists-imp, Exists-pick, Elem, subst,
}
use fortsa.Kube.{Pod}
use fortsa.Platform.{Platform}
use fortsa.Scan.Types.{WorkloadRef, ScanOptions, IstioConfig, WebhookCaller}
use fortsa.Scan.Pods.{list_pods}
use fortsa.Scan.Owner.Chain.{Controls, GetsInNamespace, Controls-namespace}
use fortsa.Scan.Process.Verdict.{IsOutdated, process_pod_sound, process_pod_complete}
use fortsa.Scan.Owner.{find_workload_owner}
use fortsa.Scan.Outdated.{was_seen, Progress, scan_pods, scan_with_caller, scan_outdated_pods}
use fortsa.Scan.Outdated.Names.{HasName, Distinct, IsProgress}
use fortsa.Scan.Outdated.Loop.{Found, scan_pods-IsProgress, scan_pods-All, scan_pods-HasName}

abbrev pub start : Progress
start = record { seen = []; workloads = [] }

pub start-IsProgress : IsProgress start
unfolding was_seen
start-IsProgress = record { names = λ nn. (λ h. cc, λ h. absurd h); distinct = tt }

module _ (P : Platform) (caller : WebhookCaller P) (fuel : ℕ) (w : P.World) (cfg : IstioConfig)
    (opts : ScanOptions) where
  abbrev pub skip_set : List Bytes
  skip_set = add_keys [] opts.skip_namespaces

  abbrev pub scan : Result P.Err (List WorkloadRef)
  scan = scan_outdated_pods P (some caller) fuel w cfg opts

  pub scan_inversion :
      (pods : List Pod) (refs : List WorkloadRef)
      → list_pods P w opts ≡ ok pods
      → scan ≡ ok refs
      → (t : Progress) × (scan_pods P caller fuel w cfg opts skip_set pods start ≡ ok t)
        × (t.workloads ≡ refs)
  unfolding scan_outdated_pods scan_with_caller
  scan_inversion pods refs listed h =
      let h' = rw listed at h in
      let (t, e, f) = >>=-eq-ok (scan_pods P caller fuel w cfg opts skip_set pods start) _ h' in
      (t, e, ok_injective f)

  -- A scan that returns has listed the pods.
  pub scan-listed :
      (refs : List WorkloadRef)
      → scan ≡ ok refs
      → (pods : List Pod) × (list_pods P w opts ≡ ok pods)
  unfolding scan_outdated_pods scan_with_caller
  scan-listed refs h = let (pods, e, _) = >>=-eq-ok (list_pods P w opts) _ h in (pods, e)

  -- No two workloads that a scan returns have the same namespace and name.
  pub scan-Distinct :
      (refs : List WorkloadRef)
      → scan_outdated_pods P (some caller) fuel w cfg opts ≡ ok refs
      → Distinct refs
  scan-Distinct refs h =
      let (pods, listed) = scan-listed refs h in
      let (t, e, same) = scan_inversion pods refs listed h in
      subst Distinct same
        (scan_pods-IsProgress P caller fuel w cfg opts skip_set pods start t e
          start-IsProgress).distinct

  pub scan-Found :
      (pods : List Pod) (refs : List WorkloadRef)
      → list_pods P w opts ≡ ok pods
      → scan ≡ ok refs
      → All (λ ref. Exists (λ pod. Found P caller fuel w cfg opts skip_set pod ref) pods) refs
  scan-Found pods refs listed h =
      let (t, e, same) = scan_inversion pods refs listed h in
      let Q = λ (ref : WorkloadRef).
        Exists (λ pod. Found P caller fuel w cfg opts skip_set pod ref) pods in
      subst (All Q) same (
        scan_pods-All P caller fuel w cfg opts skip_set Q pods start t e tt (
          All-imp (λ pod m ref found. Exists-imp (λ x (same : x ≡ pod). rw same found) pods m) pods
            (All-self pods)))

  -- Every workload that a scan returns controls one of the listed pods, whose namespace is not
  -- skipped and whose sidecar is outdated.
  pub scan_sound :
      (pods : List Pod) (refs : List WorkloadRef)
      → list_pods P w opts ≡ ok pods
      → scan_outdated_pods P (some caller) fuel w cfg opts ≡ ok refs
      → All
          (λ ref.
            Exists
              (λ pod.
                (contains (add_keys [] opts.skip_namespaces) pod.meta.namespace ≡ false)
                × Controls P w ref pod.meta
                × IsOutdated P caller w pod cfg opts ref)
              pods)
          refs
  scan_sound pods refs listed h =
      All-imp
        (λ ref.
          Exists-imp
            (λ pod found.
              let (controls, outdated) =
                process_pod_sound P caller w fuel pod cfg opts ref found.1 in
              (found.0, controls, outdated))
            pods)
        refs (scan-Found pods refs listed h)

  -- Every workload that is found for a listed pod with an outdated sidecar outside the skipped
  -- namespaces has its name among the results.
  pub scan_complete :
      (pods : List Pod) (refs : List WorkloadRef) (pod : Pod) (ref : WorkloadRef)
      → list_pods P w opts ≡ ok pods
      → scan_outdated_pods P (some caller) fuel w cfg opts ≡ ok refs
      → Elem pod pods
      → contains (add_keys [] opts.skip_namespaces) pod.meta.namespace ≡ false
      → find_workload_owner P w fuel pod.meta ≡ ok (some ref)
      → IsOutdated P caller w pod cfg opts ref
      → HasName ref.namespaced_name refs
  scan_complete pods refs pod ref listed h there kept owner outdated =
      let (t, e, same) = scan_inversion pods refs listed h in
      let named =
        All-at
          (λ p.
            (r : WorkloadRef)
            → Found P caller fuel w cfg opts skip_set p r
            → HasName r.namespaced_name t.workloads)
          pods pod
          (scan_pods-HasName P caller fuel w cfg opts skip_set pods start t e start-IsProgress)
          there in
      subst (HasName ref.namespaced_name) same
        (named ref (kept, process_pod_complete P caller w fuel pod cfg opts ref owner outdated))

  -- A scan that succeeds returns no workload of a namespace, with a name that is not empty, that it
  -- was told to skip, where objects are read from the namespaces that they are asked for in.
  pub scan_skips :
      GetsInNamespace P w
      → (ns : Bytes) → Elem ns opts.skip_namespaces
      → ns ≢ []
      → (refs : List WorkloadRef) → scan_outdated_pods P (some caller) fuel w cfg opts ≡ ok refs
      → All (λ ref. ref.namespace ≢ ns) refs
  scan_skips gets ns m n refs h =
      let (pods, listed) = scan-listed refs h in
      let skipped = add_keys-contains [] opts.skip_namespaces ns n m in
      All-imp
        (λ ref found same.
          let (pod, _, (kept, controls, _)) = Exists-pick _ pods found in
          let there : pod.meta.namespace ≡ ns = sym (Controls-namespace P w gets controls) ∙ same in
          cc (skipped, kept, there))
        refs (scan_sound pods refs listed h)
