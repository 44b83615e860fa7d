-- ===== src/Scan/Outdated/Ends.antt =====
-- When a scan returns its results: it neither panics nor runs on, and no error of a single pod
-- makes it fail.
use fortsa.Base.{
  ℕ, ◌<◌, Bytes, codes, Bool, false, Option, none, some, List, [], ◌∷◌, ◌≡◌, ◌≢◌, refl, inl, inr,
  contains, add_keys, ◌==◌, Result, ok, err, panic, out_of_fuel, Bool-cases, All, All-imp, arith,
}
use fortsa.Kube.{ObjectMeta, Pod}
use fortsa.Platform.{Platform}
use fortsa.Scan.Types.{WorkloadRef, ScanOptions, IstioConfig, WebhookCaller}
use fortsa.Scan.Pods.{list_pods}
use fortsa.Scan.Owner.{find_workload_owner}
use fortsa.Scan.Owner.Chain.{IsWorkload, find_workload_owner-Controls}
use fortsa.Scan.Owner.Fuel.{Falls, find_workload_owner_ends}
use fortsa.Scan.Owner.Panics.{Controls-IsWorkload, find_workload_owner-ne-panic}
use fortsa.Scan.Revision.{rev_from_namespace, get_istio_rev_from_workload_or_namespace}
use fortsa.Scan.Template.{pod_of_template, build_pod_from_workload}
use fortsa.Scan.Process.{
  resolve_tag, check_workload, process_workload, process_pod_for_outdated_sidecar,
}
use fortsa.Scan.Process.Verdict.{process_pod-ne-err}
use fortsa.Scan.Outdated.{
  Progress, add_workload, scan_pod, scan_pods, scan_with_caller, scan_outdated_pods,
}
use fortsa.Scan.Outdated.Results.{start}

-- A call that returns, with a value or an error.
abbrev pub Returns : {E A : Type 0} → Result E A → Type 0
Returns r = (r ≢ panic) × (r ≢ out_of_fuel)

-- Every call of the webhook with a pod that is not nil returns.
abbrev pub WebhookReturns : (P : Platform) → WebhookCaller P → P.World → Type 0
WebhookReturns P caller w =
    (pod : Pod) (revision : Bytes) (prefer : Bool)
    → Returns (caller.call_webhook w (some pod) revision prefer)

module _ (P : Platform) (caller : WebhookCaller P) (w : P.World)
    (webhook : WebhookReturns P caller w) where
  check_workload-Returns :
      (pod : Pod) (cfg : IstioConfig) (opts : ScanOptions) (ref : WorkloadRef) (rev : Bytes)
      → IsWorkload P w ref
      → Returns (check_workload P caller w pod cfg opts ref rev)
  unfolding check_workload build_pod_from_workload
  check_workload-Returns pod cfg opts ref rev (template, e) =
      let calls =
        webhook (pod_of_template ref template) (resolve_tag cfg rev) (rev == codes "default") in
      ground arith

  get_istio_rev-Returns :
      (ref : WorkloadRef) → Returns (get_istio_rev_from_workload_or_namespace P w ref)
  unfolding get_istio_rev_from_workload_or_namespace rev_from_namespace
  get_istio_rev-Returns ref = ground arith

  process_workload-Returns :
      (pod : Pod) (cfg : IstioConfig) (opts : ScanOptions) (ref : WorkloadRef)
      → IsWorkload P w ref
      → Returns (process_workload P caller w pod cfg opts ref)
  unfolding process_workload
  process_workload-Returns pod cfg opts ref there =
      go (get_istio_rev_from_workload_or_namespace P w ref) refl
    where
      go :
          (reply : Result P.Err Bytes)
          → get_istio_rev_from_workload_or_namespace P w ref ≡ reply
          → Returns (process_workload P caller w pod cfg opts ref)
      go (ok rev) e = ground (arith, check_workload-Returns pod cfg opts ref rev there)
      go (err x) e = ground arith
      go panic e = absurd ((get_istio_rev-Returns ref).0 e)
      go out_of_fuel e = absurd ((get_istio_rev-Returns ref).1 e)

  process_pod-Returns :
      (fuel : ℕ) (pod : Pod) (cfg : IstioConfig) (opts : ScanOptions)
      → find_workload_owner P w fuel pod.meta ≢ out_of_fuel
      → Returns (process_pod_for_outdated_sidecar P caller w fuel pod cfg opts)
  unfolding process_pod_for_outdated_sidecar
  process_pod-Returns fuel pod cfg opts ends = go (find_workload_owner P w fuel pod.meta) refl
    where
      go :
          (reply : Result P.Err (Option WorkloadRef))
          → find_workload_owner P w fuel pod.meta ≡ reply
          → Returns (process_pod_for_outdated_sidecar P caller w fuel pod cfg opts)
      go (ok none) e = rw e ((cc), (cc))
      go (ok (some ref)) e = rw e (
          process_workload-Returns pod cfg opts ref
            (Controls-IsWorkload P w (find_workload_owner-Controls P w fuel pod.meta ref e)))
      go (err x) e = rw e ((cc), (cc))
      go panic e = absurd (find_workload_owner-ne-panic P w fuel pod.meta e)
      go out_of_fuel e = absurd (ends e)

  module _ (fuel : ℕ) (cfg : IstioConfig) (opts : ScanOptions) (skip_set : List Bytes) where
    scan_pod_ends :
        (pod : Pod) (s : Progress)
        → find_workload_owner P w fuel pod.meta ≢ out_of_fuel
        → (t : Progress) × (scan_pod P caller fuel w cfg opts skip_set pod s ≡ ok t)
    unfolding scan_pod
    scan_pod_ends pod s ends = elim (Bool-cases (contains skip_set pod.meta.namespace)) [
      | inl skipped ↦ (s, rw skipped)
      | inr kept ↦ go kept (process_pod_for_outdated_sidecar P caller w fuel pod cfg opts) refl
    ]
      where
        go :
            contains skip_set pod.meta.namespace ≡ false
            → (found : Result P.Err (Option WorkloadRef))
            → process_pod_for_outdated_sidecar P caller w fuel pod cfg opts ≡ found
            → (t : Progress) × (scan_pod P caller fuel w cfg opts skip_set pod s ≡ ok t)
        go kept (ok ref) e = (add_workload ref s, rw (kept, e))
        go kept (err x) e = absurd (process_pod-ne-err P caller w fuel pod cfg opts x e)
        go kept panic e = absurd ((process_pod-Returns fuel pod cfg opts ends).0 e)
        go kept out_of_fuel e = absurd ((process_pod-Returns fuel pod cfg opts ends).1 e)

    scan_pods_end :
        (pods : List Pod) (s : Progress)
        → All (λ pod. find_workload_owner P w fuel pod.meta ≢ out_of_fuel) pods
        → (t : Progress) × (scan_pods P caller fuel w cfg opts skip_set pods s ≡ ok t)
    unfolding scan_pods
    scan_pods_end [] s _ = (s, refl)
    scan_pods_end (pod ∷ pods) s (ends, rest) =
        let (s', e) = scan_pod_ends pod s ends in
        let (t, f) = scan_pods_end pods s' rest in (t, rw e f)

  -- Where the pods can be listed, the owner chains fall, the fuel is above the rank of each listed
  -- pod and the webhook's calls return, the scan returns results: no error or missing object met for
  -- a single pod makes it fail.
  pub scan_ends :
      (fuel : ℕ) (cfg : IstioConfig) (opts : ScanOptions) (pods : List Pod) (rank : ObjectMeta → ℕ)
      → Falls P w rank
      → list_pods P w opts ≡ ok pods
      → All (λ pod. rank pod.meta < fuel) pods
      → (refs : List WorkloadRef) × (scan_outdated_pods P (some caller) fuel w cfg opts ≡ ok refs)
  unfolding scan_outdated_pods scan_with_caller
  scan_ends fuel cfg opts pods rank falls listed enough =
      let (t, e) =
        scan_pods_end fuel cfg opts (add_keys [] opts.skip_namespaces) pods start
          (All-imp (λ pod. find_workload_owner_ends P w rank falls fuel pod.meta) pods enough) in
      (t.workloads, rw (listed, e))
