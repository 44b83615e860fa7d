-- ===== src/Scan/Process/Verdict.antt =====
-- When a pod is found to have an outdated sidecar.
use fortsa.Base.{
  ℕ, Bytes, codes, Bool, true, false, Option, none, some, [], ◌≡◌, ◌≢◌, ◌↔◌, refl, inl, inr, ◌==◌,
  is_empty, is_empty_iff, not, &&_iff, not_iff, Error, Result, ok, err, panic, out_of_fuel, arith,
  if◌then◌else◌, Bool-cases,
}
use fortsa.Kube.{Pod}
use fortsa.Platform.{Platform}
use fortsa.Image.{images_match}
use fortsa.Image.Matching.{SameImage, images_match_iff}
use fortsa.Scan.Types.{WorkloadRef, ScanOptions, IstioConfig, WebhookCaller}
use fortsa.Scan.Skip.{should_skip_pod_for_last_modified}
use fortsa.Scan.Sidecar.{get_istio_proxy_image}
use fortsa.Scan.Owner.{find_workload_owner}
use fortsa.Scan.Owner.Chain.{Controls, find_workload_owner-Controls}
use fortsa.Scan.Revision.{get_istio_rev_from_workload_or_namespace}
use fortsa.Scan.Template.{build_pod_from_workload}
use fortsa.Scan.Process.{
  ◌>>=◌, resolve_tag, is_outdated, check_workload, process_workload,
  process_pod_for_outdated_sidecar,
}

is_outdated_iff :
    (pod mutated : Pod) (hub : Bool)
    → (is_outdated pod mutated hub ≡ true) ↔ (
        (get_istio_proxy_image mutated ≢ [])
        × (¬ SameImage hub (get_istio_proxy_image pod) (get_istio_proxy_image mutated)))
unfolding is_outdated
is_outdated_iff pod mutated hub =
    let expected = get_istio_proxy_image mutated in
    let current = get_istio_proxy_image pod in
    let tests = &&_iff (not (is_empty expected)) (not (images_match current expected hub)) in
    let nonempty = not_iff (is_empty expected) (is_empty_iff expected) in
    let differs =
      not_iff (images_match current expected hub) (images_match_iff hub current expected) in
    (
      λ h. (nonempty.0 (tests.0 h).0, differs.0 (tests.0 h).1),
      λ (a, b). tests.1 (nonempty.1 a, differs.1 b),
    )

module _ (P : Platform) (caller : WebhookCaller P) (w : P.World) where
  -- The workload's revision is known and not "", the pod is not skipped, and the webhook, called with
  -- the pod of the workload's template, answers with a proxy image that the pod's does not match.
  pub record IsOutdated (pod : Pod) (cfg : IstioConfig) (opts : ScanOptions) (ref : WorkloadRef)
      : Type 0 where
    pub rev_or_tag : Bytes
    pub revision_known : get_istio_rev_from_workload_or_namespace P w ref ≡ ok rev_or_tag
    pub revision_set : rev_or_tag ≢ []
    pub not_skipped :
        should_skip_pod_for_last_modified pod (resolve_tag cfg rev_or_tag) rev_or_tag cfg opts
        ≡ false
    pub template_pod : Option Pod
    pub template_built : build_pod_from_workload P w ref ≡ ok template_pod
    pub mutated : Pod
    pub injected :
        caller.call_webhook w template_pod
          (resolve_tag cfg rev_or_tag)
          (rev_or_tag == codes "default")
        ≡ ok mutated
    pub image_expected : get_istio_proxy_image mutated ≢ []
    pub image_differs :
        ¬ SameImage opts.compare_hub (get_istio_proxy_image pod) (get_istio_proxy_image mutated)

  -- Inversion of a step whose errors are logged.
  bind-eq-some :
      {A B : Type 0} (m : Result P.Err A) (f : A → Result P.Err (Option B)) {b : B}
      → (m >>= f) ≡ ok (some b)
      → (a : A) × (m ≡ ok a) × (f a ≡ ok (some b))
  bind-eq-some (ok a) f h = (a, refl, h)
  bind-eq-some (err e) f h = cc
  bind-eq-some panic f h = cc
  bind-eq-some out_of_fuel f h = cc

  check_workload-eq-some :
      (pod : Pod) (cfg : IstioConfig) (opts : ScanOptions) (ref found : WorkloadRef)
      (rev_or_tag : Bytes)
      → get_istio_rev_from_workload_or_namespace P w ref ≡ ok rev_or_tag
      → rev_or_tag ≢ []
      → check_workload P caller w pod cfg opts ref rev_or_tag ≡ ok (some found)
      → (found ≡ ref) × IsOutdated pod cfg opts ref
  unfolding check_workload
  check_workload-eq-some pod cfg opts ref found rev_or_tag known set h =
      elim (Bool-cases
        (should_skip_pod_for_last_modified pod (resolve_tag cfg rev_or_tag) rev_or_tag cfg opts)) [
          | inl skipped ↦ cc (rw skipped at h)
          | inr kept ↦
              let (template_pod, built, h') =
                bind-eq-some (build_pod_from_workload P w ref) _ (rw kept at h) in
              let (mutated, injected, h'') =
                bind-eq-some
                  (caller.call_webhook w template_pod (resolve_tag cfg rev_or_tag)
                    (rev_or_tag == codes "default"))
                  _ h' in
              elim (Bool-cases (is_outdated pod mutated opts.compare_hub)) [
                | inl outdated ↦
                    let (expected, differs) =
                      (is_outdated_iff pod mutated opts.compare_hub).0 outdated in
                    (
                      ground arith,
                      record {
                        rev_or_tag = rev_or_tag;
                        revision_known = known;
                        revision_set = set;
                        not_skipped = kept;
                        template_pod = template_pod;
                        template_built = built;
                        mutated = mutated;
                        injected = injected;
                        image_expected = expected;
                        image_differs = differs;
                      },
                    )
                | inr current ↦ cc (rw current at h'')
              ]
        ]

  -- A workload that is returned for a pod controls the pod, and the pod's sidecar is outdated.
  pub process_pod_sound :
      (fuel : ℕ) (pod : Pod) (cfg : IstioConfig) (opts : ScanOptions) (ref : WorkloadRef)
      → process_pod_for_outdated_sidecar P caller w fuel pod cfg opts ≡ ok (some ref)
      → Controls P w ref pod.meta × IsOutdated pod cfg opts ref
  unfolding process_pod_for_outdated_sidecar process_workload
  process_pod_sound fuel pod cfg opts ref h =
      let (owner, e, h') = bind-eq-some (find_workload_owner P w fuel pod.meta) _ h in go owner e h'
    where
      with_rev :
          (found : WorkloadRef) (rev_or_tag : Bytes)
          → find_workload_owner P w fuel pod.meta ≡ ok (some found)
          → get_istio_rev_from_workload_or_namespace P w found ≡ ok rev_or_tag
          → (if is_empty rev_or_tag
              then ok none
              else check_workload P caller w pod cfg opts found rev_or_tag)
            ≡ ok (some ref)
          → Controls P w ref pod.meta × IsOutdated pod cfg opts ref
      with_rev found rev_or_tag e known h' = elim (Bool-cases (is_empty rev_or_tag)) [
        | inl empty ↦ cc (rw empty at h')
        | inr full ↦
            let (same, outdated) =
              check_workload-eq-some pod cfg opts found ref rev_or_tag known
                (λ n. cc ((is_empty_iff rev_or_tag).1 n)) (rw full at h') in
            let controls = find_workload_owner-Controls P w fuel pod.meta found e in
            rw same (controls, outdated)
      ]

      go :
          (owner : Option WorkloadRef)
          → find_workload_owner P w fuel pod.meta ≡ ok owner
          → ◌≡◌ {A = Result P.Err (Option WorkloadRef)}
              (elim owner [
                | none ↦ ok none
                | some found ↦ process_workload P caller w pod cfg opts found
              ])
              (ok (some ref))
          → Controls P w ref pod.meta × IsOutdated pod cfg opts ref
      go none e h' = cc
      go (some found) e h' =
          let (rev_or_tag, known, h'') =
            bind-eq-some (get_istio_rev_from_workload_or_namespace P w found) _ h' in
          with_rev found rev_or_tag e known h''

  -- Where the search for the owner finds a workload and the pod's sidecar is outdated, the workload
  -- is returned.
  pub process_pod_complete :
      (fuel : ℕ) (pod : Pod) (cfg : IstioConfig) (opts : ScanOptions) (ref : WorkloadRef)
      → find_workload_owner P w fuel pod.meta ≡ ok (some ref)
      → IsOutdated pod cfg opts ref
      → process_pod_for_outdated_sidecar P caller w fuel pod cfg opts ≡ ok (some ref)
  unfolding process_pod_for_outdated_sidecar process_workload check_workload
  process_pod_complete fuel pod cfg opts ref e o =
      let outdated =
        (is_outdated_iff pod o.mutated opts.compare_hub).1 (o.image_expected, o.image_differs) in
      let full : is_empty o.rev_or_tag ≡ false = elim (Bool-cases (is_empty o.rev_or_tag)) [
        | inl empty ↦ absurd (o.revision_set ((is_empty_iff o.rev_or_tag).0 empty))
        | inr f ↦ f
      ] in
      rw (e, o.revision_known, full, o.not_skipped, o.template_built, o.injected, outdated)

  -- No error of a pod is returned: each is logged, and the pod is passed over.
  pub process_pod-ne-err :
      (fuel : ℕ) (pod : Pod) (cfg : IstioConfig) (opts : ScanOptions) (e : Error P.Err)
      → process_pod_for_outdated_sidecar P caller w fuel pod cfg opts ≢ err e
  unfolding process_pod_for_outdated_sidecar process_workload check_workload
  process_pod-ne-err fuel pod cfg opts e = ground arith
