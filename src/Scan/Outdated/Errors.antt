-- ===== src/Scan/Outdated/Errors.antt =====
-- When a scan returns an error.
use fortsa.Base.{
  ap, ◌∙◌, ◌∙◌, ℕ, Bytes, some, List, [], ◌∷◌, ◌≡◌, ◌≢◌, refl, inl, inr, contains, add_keys, Result,
  ok, err, panic, out_of_fuel, Error, ◌>>=◌, Bool-cases,
}
use fortsa.Kube.{Pod}
use fortsa.Platform.{Platform}
use fortsa.Scan.Types.{ScanOptions, IstioConfig, WebhookCaller}
use fortsa.Scan.Pods.{list_pods}
use fortsa.Scan.Process.{process_pod_for_outdated_sidecar}
use fortsa.Scan.Process.Verdict.{process_pod-ne-err}
use fortsa.Scan.Outdated.{Progress, scan_pod, scan_pods, scan_with_caller, scan_outdated_pods}
use fortsa.Scan.Outdated.Results.{start}

-- A chain whose first part meets no error meets one only in its second.
>>=-eq-err :
    {E A C : Type 0} (action : Result E A) (next : A → Result E C) {x : Error E}
    → (action >>= next) ≡ err x
    → ((y : Error E) → action ≢ err y)
    → (value : A) × (action ≡ ok value) × (next value ≡ err x)
>>=-eq-err panic next h calm = cc
>>=-eq-err out_of_fuel next h calm = cc
>>=-eq-err (err e) next h calm = absurd (calm e refl)
>>=-eq-err (ok value) next h calm = (value, refl, h)

module _ (P : Platform) (caller : WebhookCaller P) (fuel : ℕ) (w : P.World) (cfg : IstioConfig)
    (opts : ScanOptions) where
  scan_pod-ne-err :
      (skip_set : List Bytes) (pod : Pod) (s : Progress) (x : Error P.Err)
      → scan_pod P caller fuel w cfg opts skip_set pod s ≢ err x
  unfolding scan_pod
  scan_pod-ne-err skip_set pod s x h = elim (Bool-cases (contains skip_set pod.meta.namespace)) [
    | inl skipped ↦ cc (rw skipped at h)
    | inr kept ↦
        let (ref, _, h') =
          >>=-eq-err (process_pod_for_outdated_sidecar P caller w fuel pod cfg opts) _
            (rw kept at h) (process_pod-ne-err P caller w fuel pod cfg opts) in
        cc
  ]

  scan_pods-ne-err :
      (skip_set : List Bytes) (pods : List Pod) (s : Progress) (x : Error P.Err)
      → scan_pods P caller fuel w cfg opts skip_set pods s ≢ err x
  unfolding scan_pods
  scan_pods-ne-err skip_set [] s x h = cc
  scan_pods-ne-err skip_set (pod ∷ pods) s x h =
      let (s', _, h') =
        >>=-eq-err (scan_pod P caller fuel w cfg opts skip_set pod s) _ h
          (scan_pod-ne-err skip_set pod s) in
      scan_pods-ne-err skip_set pods s' x h'

  -- A scan returns an error only where the pods cannot be listed, and then this one.
  pub scan-listing_failed :
      (x : Error P.Err)
      → scan_outdated_pods P (some caller) fuel w cfg opts ≡ err x
      → list_pods P w opts ≡ err x
  unfolding scan_outdated_pods scan_with_caller
  scan-listing_failed x h = go (list_pods P w opts) refl h
    where
      go :
          (listed : Result P.Err (List Pod))
          → list_pods P w opts ≡ listed
          → (listed >>= λ pods.
              scan_pods P caller fuel w cfg opts (add_keys [] opts.skip_namespaces) pods start
              >>= λ s. ok s.workloads)
            ≡ err x
          → list_pods P w opts ≡ err x
      go (ok pods) e f =
          let (s, _, f') =
            >>=-eq-err
              (scan_pods P caller fuel w cfg opts (add_keys [] opts.skip_namespaces) pods start) _ f
              (scan_pods-ne-err (add_keys [] opts.skip_namespaces) pods start) in
          cc
      go (err y) e f = let same : y ≡ x = cc in e ∙ ap err same
      go panic e f = cc
      go out_of_fuel e f = cc
