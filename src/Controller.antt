-- ===== src/Controller.antt =====
-- internal/controller/istio_change_reconciler.go: the reconciler's handler and what it calls. A
-- call threads the world: reads see the world of their moment, and waits and patches move it on.
pub mod Routing
pub mod Annotating
pub mod DryRun
pub mod Success
pub mod Pacing
pub mod Restarting
pub mod Answers
pub mod Failure
pub mod Cooling
pub mod Setup
use fortsa.Base.{
  wrapping, ℕ, Bytes, codes, Bool, ◌&&◌, Option, none, some, List, [], ◌∷◌, ◌==◌, is_empty, not,
  outside, wrap, Result, ok, err, panic, out_of_fuel, ◌>>=◌, if◌then◌else◌,
}
use fortsa.Base.Int.{Duration, pos, ltb_ℤ}
use fortsa.Kube.{NamespacedName}
use fortsa.Platform.{Platform}
use fortsa.Annotator.{WorkloadAnnotator}
use fortsa.Scan.Types.{WorkloadRef, ScanOptions, IstioConfig, WebhookCaller}
use fortsa.Scan.Outdated.{scan_outdated_pods}
use fortsa.Triggers.{periodic_request_name}
use fortsa.ConfigMaps
use fortsa.ConfigMaps.Fetch.{build_last_modified_by_revision}
use fortsa.WebhookTags.{fetch_tag_to_revision_and_last_modified}

-- `IstioChangeReconciler`, with the scanner's webhook caller and the annotator as interfaces.
pub record Reconciler (P : Platform) : Type 0 where
  pub webhook_caller : Option (WebhookCaller P)
  pub annotator : WorkloadAnnotator P
  pub dry_run : Bool
  pub compare_hub : Bool
  pub restart_delay : Duration
  pub istiod_config_read_delay : Duration
  pub skip_namespaces : List Bytes
  pub reconcile_period : Duration

-- `d > 0`
abbrev pub is_positive : Duration → Bool
is_positive d = ltb_ℤ (pos 0) d

module _ (P : Platform) (r : Reconciler P) where
  unfoldable pub await_istiod_config_read_delay : P.World → P.World × Option P.Err
  await_istiod_config_read_delay w =
      if is_positive r.istiod_config_read_delay
      then P.wait w r.istiod_config_read_delay
      else (w, none)

  -- A round of the loop after its wait: an error of the annotator is logged, and the loop goes on.
  unfoldable pub annotate_round : P.World → WorkloadRef → P.World
  annotate_round w ref = if r.dry_run then w else (r.annotator.annotate_workload w ref).0

  -- The wait of a round, and what follows where it ran to its end.
  unfoldable pub await_restart_delay : P.World → P.World × Option P.Err
  await_restart_delay w =
      if is_positive r.restart_delay then P.wait w r.restart_delay else (w, none)

  unfoldable pub after_delay : (P.World → P.World) → P.World × Option P.Err → P.World
  after_delay rest (w, none) = rest w
  after_delay rest (w, some e) = w

  -- The rounds after the first, each with its wait.
  unfoldable pub annotate_others : P.World → List WorkloadRef → P.World
  unfolding annotate_round after_delay await_restart_delay
  annotate_others w [] = w
  annotate_others w (ref ∷ refs) =
      after_delay (λ v. annotate_others (annotate_round v ref) refs) (await_restart_delay w)

  unfoldable pub annotate_workloads_with_delay : P.World → List WorkloadRef → P.World
  unfolding annotate_round annotate_others
  annotate_workloads_with_delay w [] = w
  annotate_workloads_with_delay w (ref ∷ refs) = annotate_others (annotate_round w ref) refs

  abbrev pub scan_options : List Bytes → ScanOptions
  scan_options limit_to_namespaces = record {
    compare_hub = r.compare_hub;
    istiod_config_read_delay = r.istiod_config_read_delay;
    skip_namespaces = r.skip_namespaces;
    limit_to_namespaces = limit_to_namespaces;
  }

  -- What the handler does with the workloads that a scan returns.
  unfoldable pub after_scan :
      P.World → Result P.Err (List WorkloadRef) → P.World × Result P.Err (Unit {0})
  unfolding annotate_workloads_with_delay
  after_scan w (ok workloads) = (annotate_workloads_with_delay w workloads, ok tt)
  after_scan w (err e) = (w, err (wrap (codes "scan outdated pods") e))
  after_scan w panic = (w, panic)
  after_scan w out_of_fuel = (w, out_of_fuel)

  module _ (fuel : ℕ) where
    unfoldable pub scan_and_annotate :
        P.World → IstioConfig → List Bytes → P.World × Result P.Err (Unit {0})
    unfolding after_scan
    scan_and_annotate w cfg limit_to_namespaces =
        after_scan w
          (scan_outdated_pods P r.webhook_caller fuel w cfg (scan_options limit_to_namespaces))

    -- The configuration that the scan compares the pods with.
    unfoldable pub read_config : P.World → Result P.Err IstioConfig
    read_config w = do
      last_modified_by_revision ← build_last_modified_by_revision P w
      tags ←
          wrapping (codes "fetch tag-to-revision mapping")
            (fetch_tag_to_revision_and_last_modified P w)
      ok (record {
        last_modified_by_revision = last_modified_by_revision;
        tag_to_revision = tags.tag_to_revision;
        last_modified_by_tag = tags.last_modified_by_tag;
      })

    -- `reconcileAll` from the reads on.
    unfoldable pub after_config :
        P.World → List Bytes → Result P.Err IstioConfig → P.World × Result P.Err (Unit {0})
    unfolding scan_and_annotate
    after_config w limit_to_namespaces (ok cfg) = scan_and_annotate w cfg limit_to_namespaces
    after_config w limit_to_namespaces (err e) = (w, err e)
    after_config w limit_to_namespaces panic = (w, panic)
    after_config w limit_to_namespaces out_of_fuel = (w, out_of_fuel)

    -- `reconcileAll` from the end of the wait on.
    unfoldable pub after_await :
        List Bytes → P.World × Option P.Err → P.World × Result P.Err (Unit {0})
    unfolding after_config read_config
    after_await limit_to_namespaces (w, none) = after_config w limit_to_namespaces (read_config w)
    after_await limit_to_namespaces (w, some e) =
        (w, err (wrap (codes "await istiod config read delay") (outside e)))

    -- A nil list and an empty one both mean all namespaces.
    unfoldable pub reconcile_all : P.World → List Bytes → P.World × Result P.Err (Unit {0})
    unfolding after_await await_istiod_config_read_delay
    reconcile_all w limit_to_namespaces =
        after_await limit_to_namespaces (await_istiod_config_read_delay w)

    unfoldable pub reconcile : P.World → NamespacedName → P.World × Result P.Err (Unit {0})
    unfolding reconcile_all
    reconcile w req =
        if req.name == periodic_request_name
        then reconcile_all w []
        else if req.name == ConfigMaps.Fetch.reconcile_request_name
        then reconcile_all w []
        else if is_empty req.namespace && not (is_empty req.name)
        then reconcile_all w (req.name ∷ [])
        else (w, ok tt)
