-- ===== src/Tests/Scans.antt =====
-- A scan of the sample cluster, and the scanner's theorems there.
use fortsa.Base.{
  ◌↔◌, ◌⊎◌, ◌<◌, ◌≤◌, take, length, ◌⊎◌, ◌↔◌, ◌≤◌, codes, true, false, some, List, [], ◌∷◌, ◌≡◌,
  ◌≢◌, ◌↔◌, refl, inl, inr, ◌==◌, contains, index, last_index, add_keys, ok, All, Exists, length,
  arith,
}
use fortsa.Base.Int.{Time, pos, ◌+ℤ◌, ◌≤ℤ◌}
use fortsa.Base.Dict.{lookup}
use fortsa.Constants.{label_istio_rev}
use fortsa.Image.{parse_image, images_match}
use fortsa.Kube.{Pod}
use fortsa.Scan.Types.{WorkloadRef, nonempty_entry, get_template}
use fortsa.Scan.Skip.{should_skip_pod_for_last_modified}
use fortsa.Scan.Skip.Rule.{Change, Survives, should_skip_iff}
use fortsa.Scan.Sidecar.{get_istio_proxy_image}
use fortsa.Scan.Pods.{list_namespace, list_namespaces, list_pods_limited, list_pods}
use fortsa.Scan.Owner.{get_intermediate_object, find_workload_owner}
use fortsa.Scan.Owner.Chain.{Controls, GetsInNamespace, find_workload_owner-Controls}
use fortsa.Scan.Revision.{
  namespace_rev, rev_from_namespace, get_istio_rev_from_workload_or_namespace,
}
use fortsa.Scan.Revision.Precedence.{first_choice, injection_choice, get_istio_rev-eq-first}
use fortsa.Scan.Template.{check_pod_name, pod_of_template, build_pod_from_workload}
use fortsa.Scan.Template.Names.{length-check_pod_name-le, check_pod_name_collision}
use fortsa.Scan.Process.{
  resolve_tag, is_outdated, check_workload, process_workload, process_pod_for_outdated_sidecar,
}
use fortsa.Scan.Process.Verdict.{process_pod_sound, IsOutdated}
use fortsa.Scan.Outdated.{
  was_seen, add_workload, scan_pod, scan_pods, scan_with_caller, scan_outdated_pods,
}
use fortsa.Scan.Outdated.Names.{HasName, Distinct}
use fortsa.Scan.Outdated.Results.{scan-Distinct, scan_sound, scan_complete, scan_skips}
use fortsa.Scan.Outdated.Ends.{WebhookReturns, scan_ends}
use fortsa.Annotator.{annotate}
use fortsa.Controller.Answers.{CoolsDown, scan-answers}
use fortsa.Tests.Owners.{rank, sample-Falls}
use fortsa.Tests.Sample.{
  web_rs, web_pod, web_template, shop, sample, injector, web, config, options,
}

-- The line of every test that runs the scanner.
unfoldable pub scans : Unit {0}
unfolding scan_outdated_pods scan_with_caller scan_pods scan_pod add_workload was_seen list_pods
    list_pods_limited list_namespaces list_namespace add_keys contains
    process_pod_for_outdated_sidecar process_workload check_workload is_outdated resolve_tag
    build_pod_from_workload pod_of_template check_pod_name get_istio_rev_from_workload_or_namespace
    rev_from_namespace namespace_rev get_template nonempty_entry find_workload_owner
    get_istio_proxy_image should_skip_pod_for_last_modified get_intermediate_object parse_image
    images_match index last_index lookup ◌==◌ ◌+ℤ◌
scans = tt

owner_found : find_workload_owner sample 0 3 web_pod.meta ≡ ok (some web)
unfolding scans
owner_found = refl

pod_listed : list_pods sample 0 options ≡ ok (web_pod ∷ [])
unfolding scans
pod_listed = refl

web_found : scan_outdated_pods sample (some injector) 3 0 config options ≡ ok (web ∷ [])
unfolding scans
web_found = refl

find_workload_owner-Controls_example : Controls sample 0 web web_pod.meta
find_workload_owner-Controls_example =
    find_workload_owner-Controls sample 0 3 web_pod.meta web owner_found

abbrev late_pod : Pod
late_pod = record web_pod { meta = record (web_rs (codes "shop")) { creation_timestamp = pos 200 } }

late_skipped :
    should_skip_pod_for_last_modified late_pod (codes "1-20") (codes "canary") config options ≡ true
unfolding scans
late_skipped = refl

changed : Change late_pod (codes "1-20") (codes "canary") config options (pos 150)
unfolding scans
changed = (inl refl, λ e. cc)

changes_nonneg :
    (u : Time) → Change web_pod (codes "1-20") (codes "canary") config options u → pos 0 ≤ℤ u
unfolding scans
changes_nonneg u c = ground arith

should_skip_iff_example :
    (should_skip_pod_for_last_modified web_pod (codes "1-20") (codes "canary") config options
      ≡ true)
    ↔ (((t : Time) × Change web_pod (codes "1-20") (codes "canary") config options t)
        × ((t : Time)
            → Change web_pod (codes "1-20") (codes "canary") config options t
            → Survives web_pod (codes "1-20") (codes "canary") config options t))
should_skip_iff_example =
    should_skip_iff web_pod (codes "1-20") (codes "canary") config options changes_nonneg

web_read : get_template sample 0 web ≡ some (inr web_template)
unfolding scans
web_read = refl

get_istio_rev-eq-first_example :
    get_istio_rev_from_workload_or_namespace sample 0 web
    ≡ ok (
        first_choice (
          nonempty_entry label_istio_rev web_template.labels
          ∷ nonempty_entry label_istio_rev shop.labels
          ∷ injection_choice shop.labels
          ∷ []))
get_istio_rev-eq-first_example = get_istio_rev-eq-first sample 0 web web_template shop web_read refl

length-check_pod_name-le_example : length (check_pod_name (codes "web")) ≤ 63
length-check_pod_name-le_example = length-check_pod_name-le (codes "web")

check_pod_name_collision_example : (check_pod_name (codes "web") ≡ check_pod_name (codes "api")) ↔ (
    ((length (codes "web") ≤ 50) × (length (codes "api") ≤ 50))
    ⊎ ((50 < length (codes "web"))
        × (50 < length (codes "api"))
        × (take 50 (codes "web") ≡ take 50 (codes "api"))))
check_pod_name_collision_example = check_pod_name_collision (codes "web") (codes "api") (cc) (cc)

web_processed :
    process_pod_for_outdated_sidecar sample injector 0 3 web_pod config options ≡ ok (some web)
unfolding scans
web_processed = refl

scan-Distinct_example : Distinct (web ∷ [])
scan-Distinct_example = scan-Distinct sample injector 3 0 config options (web ∷ []) web_found

scan_sound_example :
    All
      (λ ref.
        Exists
          (λ pod.
            (contains (add_keys [] options.skip_namespaces) pod.meta.namespace ≡ false)
            × Controls sample 0 ref pod.meta
            × IsOutdated sample injector 0 pod config options ref)
          (web_pod ∷ []))
      (web ∷ [])
scan_sound_example =
    scan_sound sample injector 3 0 config options (web_pod ∷ []) (web ∷ []) pod_listed web_found

scan_complete_example : HasName web.namespaced_name (web ∷ [])
unfolding contains add_keys
scan_complete_example =
    scan_complete sample injector 3 0 config options (web_pod ∷ []) (web ∷ []) web_pod web
      pod_listed web_found (inl refl) (unfold ◌==◌ in refl) owner_found
      (process_pod_sound sample injector 0 3 web_pod config options web web_processed).1

sample-GetsInNamespace : GetsInNamespace sample 0
sample-GetsInNamespace = record {
  replica_set = λ nn o e. ground arith;
  controller_revision = λ nn o e. cc;
}

scan_skips_example : All (λ ref. ref.namespace ≢ codes "kube-system") (web ∷ [])
scan_skips_example =
    scan_skips sample injector 3 0 config options sample-GetsInNamespace (codes "kube-system")
      (inl refl) (cc) (web ∷ []) web_found

injector-WebhookReturns : WebhookReturns sample injector 0
injector-WebhookReturns pod revision prefer = ((cc), (cc))

scan_ends_example :
    (refs : List WorkloadRef) × (scan_outdated_pods sample (some injector) 2 0 config options
      ≡ ok refs)
scan_ends_example =
    scan_ends sample injector 0 injector-WebhookReturns 2 config options (web_pod ∷ []) rank
      sample-Falls pod_listed (unfold ◌==◌ in omega arith)

scan-answers_example :
    All
      (λ ref. ((annotate sample (pos 300) 5 ref).1 ≢ inr false) ⊎ CoolsDown sample (pos 300) 5 ref)
      (web ∷ [])
scan-answers_example =
    scan-answers sample injector 3 0 5 config options (web ∷ []) (pos 300) web_found
