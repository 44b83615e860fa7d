-- ===== src/Scan/Outdated/Loop.antt =====
-- The loop of `ScanOutdatedPods`: what one round does, and what is kept by each.
use fortsa.Base.{
  ℕ, Bytes, false, Option, none, some, List, [], ◌∷◌, ◌≡◌, sym, ◌⊎◌, inl, inr, contains, ok,
  >>=-eq-ok, ok_injective, subst, Bool-cases, All, All-append,
}
use fortsa.Kube.{NamespacedName, Pod}
use fortsa.Platform.{Platform}
use fortsa.Scan.Types.{WorkloadRef, ScanOptions, IstioConfig, WebhookCaller}
use fortsa.Scan.Process.{process_pod_for_outdated_sidecar}
use fortsa.Scan.Outdated.{was_seen, Progress, add_workload, scan_pod, scan_pods}
use fortsa.Scan.Outdated.Names.{
  HasName, IsProgress, add_workload-IsProgress, add_workload-HasName_self, add_workload-HasName,
}

module _ (P : Platform) (caller : WebhookCaller P) (fuel : ℕ) (w : P.World) (cfg : IstioConfig)
    (opts : ScanOptions) (skip_set : List Bytes) where
  -- The pod is not in a skipped namespace, and its workload is to be restarted.
  abbrev pub Found : Pod → WorkloadRef → Type 0
  Found pod ref =
      (contains skip_set pod.meta.namespace ≡ false)
      × (process_pod_for_outdated_sidecar P caller w fuel pod cfg opts ≡ ok (some ref))

  -- A round that ends adds what was found for the pod, and nothing if nothing was.
  scan_pod_cases :
      (pod : Pod) (s t : Progress)
      → scan_pod P caller fuel w cfg opts skip_set pod s ≡ ok t
      → ((t ≡ s) × ((ref : WorkloadRef) → ¬ Found pod ref))
        ⊎ ((ref : WorkloadRef) × Found pod ref × (t ≡ add_workload (some ref) s))
  unfolding scan_pod
  scan_pod_cases pod s t h = elim (Bool-cases (contains skip_set pod.meta.namespace)) [
    | inl skipped ↦ inl (sym (ok_injective (rw skipped at h)), λ ref found. cc (skipped, found.0))
    | inr kept ↦
        let (found, e, h') =
          >>=-eq-ok (process_pod_for_outdated_sidecar P caller w fuel pod cfg opts) _
            (rw kept at h) in
        go kept found e (sym (ok_injective h'))
  ]
    where
      go :
          contains skip_set pod.meta.namespace ≡ false
          → (found : Option WorkloadRef)
          → process_pod_for_outdated_sidecar P caller w fuel pod cfg opts ≡ ok found
          → t ≡ add_workload found s
          → ((t ≡ s) × ((ref : WorkloadRef) → ¬ Found pod ref))
            ⊎ ((ref : WorkloadRef) × Found pod ref × (t ≡ add_workload (some ref) s))
      go kept none e same = inl (unfold add_workload in same, λ ref (_, f). cc)
      go kept (some ref) e same = inr (ref, (kept, e), same)

  -- What holds of the variables before the loop, and is kept by each round, holds after it.
  scan_pods_inv :
      (Q : Progress → Type 0)
      → ((pod : Pod) (s t : Progress)
          → scan_pod P caller fuel w cfg opts skip_set pod s ≡ ok t
          → Q s
          → Q t)
      → (pods : List Pod) (s t : Progress)
      → scan_pods P caller fuel w cfg opts skip_set pods s ≡ ok t
      → Q s
      → Q t
  unfolding scan_pods
  scan_pods_inv Q keep [] s t h q = subst Q (ok_injective h) q
  scan_pods_inv Q keep (pod ∷ pods) s t h q =
      let (s', e, h') = >>=-eq-ok (scan_pod P caller fuel w cfg opts skip_set pod s) _ h in
      scan_pods_inv Q keep pods s' t h' (keep pod s s' e q)

  pub scan_pod-IsProgress :
      (pod : Pod) (s t : Progress)
      → scan_pod P caller fuel w cfg opts skip_set pod s ≡ ok t
      → IsProgress s
      → IsProgress t
  scan_pod-IsProgress pod s t h p = elim (scan_pod_cases pod s t h) [
    | inl (same, _) ↦ subst IsProgress (sym same) p
    | inr (ref, _, same) ↦ subst IsProgress (sym same) (add_workload-IsProgress (some ref) s p)
  ]

  pub scan_pods-IsProgress :
      (pods : List Pod) (s t : Progress)
      → scan_pods P caller fuel w cfg opts skip_set pods s ≡ ok t
      → IsProgress s
      → IsProgress t
  scan_pods-IsProgress = scan_pods_inv IsProgress scan_pod-IsProgress

  add_workload-All :
      (Q : WorkloadRef → Type 0) (ref : WorkloadRef) (s : Progress)
      → All Q s.workloads
      → Q ref
      → All Q (add_workload (some ref) s).workloads
  unfolding add_workload
  add_workload-All Q ref s all q = elim (Bool-cases (was_seen s.seen ref.namespaced_name)) [
    | inl old ↦ rw old all
    | inr new ↦ rw new (All-append Q s.workloads (ref ∷ []) all (q, tt))
  ]

  -- What holds of every workload that is found for some pod holds of every result.
  pub scan_pods-All :
      (Q : WorkloadRef → Type 0) (pods : List Pod) (s t : Progress)
      → scan_pods P caller fuel w cfg opts skip_set pods s ≡ ok t
      → All Q s.workloads
      → All (λ pod. (ref : WorkloadRef) → Found pod ref → Q ref) pods
      → All Q t.workloads
  unfolding scan_pods
  scan_pods-All Q [] s t h all _ = subst (λ (x : Progress). All Q x.workloads) (ok_injective h) all
  scan_pods-All Q (pod ∷ pods) s t h all (q, qs) =
      let (s', e, h') = >>=-eq-ok (scan_pod P caller fuel w cfg opts skip_set pod s) _ h in
      let kept : All Q s'.workloads = elim (scan_pod_cases pod s s' e) [
        | inl (same, _) ↦ subst (λ (x : Progress). All Q x.workloads) (sym same) all
        | inr (ref, found, same) ↦
            subst (λ (x : Progress). All Q x.workloads) (sym same)
              (add_workload-All Q ref s all (q ref found))
      ] in
      scan_pods-All Q pods s' t h' kept qs

  scan_pod-HasName :
      (nn : NamespacedName) (pod : Pod) (s t : Progress)
      → scan_pod P caller fuel w cfg opts skip_set pod s ≡ ok t
      → HasName nn s.workloads
      → HasName nn t.workloads
  scan_pod-HasName nn pod s t h n = elim (scan_pod_cases pod s t h) [
    | inl (same, _) ↦ subst (λ (x : Progress). HasName nn x.workloads) (sym same) n
    | inr (ref, _, same) ↦
        subst (λ (x : Progress). HasName nn x.workloads) (sym same)
          (add_workload-HasName nn (some ref) s n)
  ]

  -- The name of every workload that is found for a pod is among the results.
  pub scan_pods-HasName :
      (pods : List Pod) (s t : Progress)
      → scan_pods P caller fuel w cfg opts skip_set pods s ≡ ok t
      → IsProgress s
      → All
          (λ pod. (ref : WorkloadRef) → Found pod ref → HasName ref.namespaced_name t.workloads)
          pods
  unfolding scan_pods
  scan_pods-HasName [] s t h p = tt
  scan_pods-HasName (pod ∷ pods) s t h p =
      let (s', e, h') = >>=-eq-ok (scan_pod P caller fuel w cfg opts skip_set pod s) _ h in
      (here s' e h', scan_pods-HasName pods s' t h' (scan_pod-IsProgress pod s s' e p))
    where
      here :
          (s' : Progress)
          → scan_pod P caller fuel w cfg opts skip_set pod s ≡ ok s'
          → scan_pods P caller fuel w cfg opts skip_set pods s' ≡ ok t
          → (ref : WorkloadRef) → Found pod ref
          → HasName ref.namespaced_name t.workloads
      here s' e h' ref found =
          let now : HasName ref.namespaced_name s'.workloads = elim (scan_pod_cases pod s s' e) [
            | inl (_, none_found) ↦ absurd (none_found ref found)
            | inr (other, found', same) ↦
                let one : other ≡ ref = cc (found.1, found'.1) in
                rw (same, one) (add_workload-HasName_self ref s p)
          ] in
          scan_pods_inv (λ x. HasName ref.namespaced_name x.workloads)
            (scan_pod-HasName ref.namespaced_name) pods s' t h' now
