-- ===== src/Scan/Process.antt =====
-- `processPodForOutdatedSidecar`. An error is logged, and the pod is passed over.
pub mod Verdict
use fortsa.Base.{
  ℕ, Bytes, codes, Bool, not, ◌&&◌, Option, none, some, ◌==◌, is_empty, Result, ok, err, panic,
  out_of_fuel, if◌then◌else◌,
}
use fortsa.Base.Dict.{lookup}
use fortsa.Kube.{Pod}
use fortsa.Platform.{Platform}
use fortsa.Image.{images_match}
use fortsa.Scan.Types.{WorkloadRef, ScanOptions, IstioConfig, WebhookCaller}
use fortsa.Scan.Skip.{should_skip_pod_for_last_modified}
use fortsa.Scan.Sidecar.{get_istio_proxy_image}
use fortsa.Scan.Owner.{find_workload_owner}
use fortsa.Scan.Revision.{get_istio_rev_from_workload_or_namespace}
use fortsa.Scan.Template.{build_pod_from_workload}

-- `if err != nil { logger.Error(…); return nil }`
infixl 5 ◌>>=◌
abbrev pub ◌>>=◌ : {E A B : Type 0} → Result E A → (A → Result E (Option B)) → Result E (Option B)
ok a >>= f = f a
err e >>= f = ok none
panic >>= f = panic
out_of_fuel >>= f = out_of_fuel

-- `revision := revOrTag; if r, ok := cfg.TagToRevision[revOrTag]; ok { revision = r }`
unfoldable pub resolve_tag : IstioConfig → Bytes → Bytes
resolve_tag cfg rev_or_tag = elim (lookup rev_or_tag cfg.tag_to_revision) [
  | none ↦ rev_or_tag
  | some r ↦ r
]

-- The comparison at the end.
unfoldable pub is_outdated : Pod → Pod → Bool → Bool
is_outdated pod mutated compare_hub =
    let expected_image = get_istio_proxy_image mutated in
    let current_image = get_istio_proxy_image pod in
    not (is_empty expected_image) && not (images_match current_image expected_image compare_hub)

module _ (P : Platform) (caller : WebhookCaller P) (w : P.World) where
  -- From the revision on, for a workload that was found.
  unfoldable pub check_workload :
      Pod → IstioConfig → ScanOptions → WorkloadRef → Bytes → Result P.Err (Option WorkloadRef)
  check_workload pod cfg opts ref rev_or_tag =
      let revision = resolve_tag cfg rev_or_tag in
      if should_skip_pod_for_last_modified pod revision rev_or_tag cfg opts then ok none else do
        template_pod ← build_pod_from_workload P w ref
        mutated ← caller.call_webhook w template_pod revision (rev_or_tag == codes "default")
        ok (if is_outdated pod mutated opts.compare_hub then some ref else none)

  unfoldable pub process_workload :
      Pod → IstioConfig → ScanOptions → WorkloadRef → Result P.Err (Option WorkloadRef)
  process_workload pod cfg opts ref = do
    rev_or_tag ← get_istio_rev_from_workload_or_namespace P w ref
    if is_empty rev_or_tag then ok none else check_workload pod cfg opts ref rev_or_tag

  unfoldable pub process_pod_for_outdated_sidecar :
      ℕ → Pod → IstioConfig → ScanOptions → Result P.Err (Option WorkloadRef)
  process_pod_for_outdated_sidecar fuel pod cfg opts = do
    found ← find_workload_owner P w fuel pod.meta
    elim found [ none ↦ ok none | some ref ↦ process_workload pod cfg opts ref ]
