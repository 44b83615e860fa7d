-- ===== src/Tests/Reconciling.antt =====
-- Reconciliations of the sample cluster, whose annotator counts its calls, and the controller's
-- theorems there.
use fortsa.Base.{
  Bool, none, Error, wrap, outside, err, All, suc, ◌≤◌, codes, true, false, some, [], ◌∷◌, ◌≡◌, ◌↔◌,
  ◌⊎◌, inr, refl, ok, arith,
}
use fortsa.Base.Int.{pos}
use fortsa.Constants.{label_istio_rev}
use fortsa.Kube.{ObjectMeta}
use fortsa.Triggers.{
  generic, updated, namespace_filter, IsLabelled, namespace_filter_iff, namespace_request,
}
use fortsa.Controller.{
  Reconciler, await_istiod_config_read_delay, await_restart_delay, after_delay, annotate_round,
  annotate_others, annotate_workloads_with_delay, after_scan, scan_and_annotate, read_config,
  after_config, after_await, reconcile_all, reconcile,
}
use fortsa.Controller.Setup.{Watch, setup_istio_change_controller}
use fortsa.Controller.Setup.Handled.{scope, HandlesSource, setup_handles}
use fortsa.Controller.Success.{Succeeded}
use fortsa.Controller.Pacing.{AnnotatesPaced, reconcile_all-Paced}
use fortsa.Platform.{Platform}
use fortsa.Controller.Failure.{Failed, reconcile_all-Failed}
use fortsa.Controller.DryRun.{reconcile_dry_run}
use fortsa.Tests.Sample.{injector, shop}
use fortsa.Tests.Configured.{configured, configurations}
use fortsa.Tests.Scans.{scans}

abbrev counting : Reconciler configured
counting = record {
  webhook_caller = some (record { call_webhook = injector.call_webhook });
  annotator = record { annotate_workload = λ w ref. (suc w, inr true) };
  dry_run = false;
  compare_hub = false;
  restart_delay = pos 0;
  istiod_config_read_delay = pos 10;
  skip_namespaces = [];
  reconcile_period = pos 0;
}

reconciliations : Unit {0}
unfolding scans configurations reconcile reconcile_all after_await after_config read_config
    scan_and_annotate after_scan annotate_workloads_with_delay annotate_others annotate_round
    after_delay await_restart_delay await_istiod_config_read_delay
reconciliations = tt

-- One workload is found, and the annotator is asked once.
one_annotated : reconcile_all configured counting 3 0 [] ≡ (1, ok tt)
unfolding reconciliations
one_annotated = refl

reconcile_all-Paced_example :
    (s : Succeeded configured counting 3 0 [] 1) × AnnotatesPaced configured counting s.u s.refs 1
reconcile_all-Paced_example = reconcile_all-Paced configured counting 3 0 1 [] refl one_annotated

-- Every wait is cancelled, and time goes on.
abbrev cancelling : Platform
cancelling = record configured { wait = λ w d. (suc w, some true) }

abbrev waiting : Reconciler cancelling
waiting = record {
  webhook_caller = none;
  annotator = record { annotate_workload = λ w ref. (w, inr true) };
  dry_run = false;
  compare_hub = false;
  restart_delay = pos 0;
  istiod_config_read_delay = pos 10;
  skip_namespaces = [];
  reconcile_period = pos 0;
}

abbrev was_cancelled : Error Bool
was_cancelled = wrap (codes "await istiod config read delay") (outside true)

wait_cancelled : reconcile_all cancelling waiting 3 0 [] ≡ (1, err was_cancelled)
unfolding reconciliations
wait_cancelled = refl

reconcile_all-Failed_example : Failed cancelling waiting 3 0 [] 1 was_cancelled
reconcile_all-Failed_example =
    reconcile_all-Failed cancelling waiting 3 0 [] 1 was_cancelled wait_cancelled

abbrev dry : Reconciler configured
dry = record counting { dry_run = true }

reconcile_dry_run_example : (reconcile configured dry 3 7 (namespace_request (codes "shop"))).0 ≤ 7
reconcile_dry_run_example =
    reconcile_dry_run configured dry (λ w. w ≤ 7) refl (λ w d is. is) 3 7
      (namespace_request (codes "shop")) (omega arith)

setup_handles_example :
    All
      (λ (watch : Watch).
        All
          (λ req.
            reconcile configured counting 3 0 req
            ≡ reconcile_all configured counting 3 0 (scope configured counting 3 0 watch.kind shop))
          (watch.requests shop))
      (setup_istio_change_controller counting).watches
    × HandlesSource configured counting 3 0 (setup_istio_change_controller counting).source
setup_handles_example = setup_handles configured counting 3 0 shop (cc, cc, cc)

abbrev labelled : ObjectMeta
labelled = record shop { labels = (label_istio_rev, codes "1-20") ∷ [] }

namespace_filter_iff_example : (namespace_filter (updated shop labelled) ≡ true) ↔ (
    ((obj : ObjectMeta) × (updated shop labelled ≡ generic obj))
    ⊎ ((old : ObjectMeta) × (new : ObjectMeta) × (updated shop labelled ≡ updated old new)
        × (IsLabelled old ⊎ IsLabelled new)))
namespace_filter_iff_example = namespace_filter_iff (updated shop labelled)
