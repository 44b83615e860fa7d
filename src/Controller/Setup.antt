-- ===== src/Controller/Setup.antt =====
-- `NewIstioChangeReconciler` and `SetupIstioChangeController`: the reconciler that the program
-- builds, and the sources that the controller is registered with.
pub mod Handled
pub mod Starting
use fortsa.Base.{Bytes, codes, Bool, Option, none, some, List, [], ◌∷◌, if◌then◌else◌}
use fortsa.Base.Int.{Duration}
use fortsa.Kube.{NamespacedName, ObjectMeta}
use fortsa.Platform.{Platform}
use fortsa.Annotator.{new_workload_annotator}
use fortsa.Scan.Types.{WebhookCaller}
use fortsa.Webhook.Call.{Backend, webhook_client}
use fortsa.ConfigMaps
use fortsa.WebhookTags
use fortsa.Triggers.{Event, namespace_filter, namespace_request, periodic_request}
use fortsa.Controller.{Reconciler, is_positive}

pub record ReconcilerOptions : Type 0 where
  pub dry_run : Bool
  pub compare_hub : Bool
  pub restart_delay : Duration
  pub istiod_config_read_delay : Duration
  pub annotation_cooldown : Duration
  pub skip_namespaces : List Bytes
  pub reconcile_period : Duration

-- `NewPodScanner`. The scanner is its webhook caller; its client is the platform's.
abbrev pub new_pod_scanner : (P : Platform) → Backend P → Option (WebhookCaller P)
new_pod_scanner P B = some (webhook_client P B)

unfoldable pub new_istio_change_reconciler :
    (P : Platform) → Backend P → ReconcilerOptions → Reconciler P
unfolding webhook_client new_workload_annotator
new_istio_change_reconciler P B opts = record {
  webhook_caller = new_pod_scanner P B;
  annotator = new_workload_annotator P opts.annotation_cooldown;
  dry_run = opts.dry_run;
  compare_hub = opts.compare_hub;
  restart_delay = opts.restart_delay;
  istiod_config_read_delay = opts.istiod_config_read_delay;
  skip_namespaces = opts.skip_namespaces;
  reconcile_period = opts.reconcile_period;
}

-- The predicate of a watch: `predicate.NewPredicateFuncs` of a test on objects, or a
-- `predicate.Funcs` with a function for each event.
pub data Predicate : Type 0 where
  on_object : (ObjectMeta → Bool) → Predicate
  on_event : (Event → Bool) → Predicate

-- A call of `Watches`: the kind of the objects, what `EnqueueRequestsFromMapFunc` maps an object to,
-- and the predicate.
pub record Watch : Type 0 where
  pub kind : Bytes
  pub requests : ObjectMeta → List NamespacedName
  pub predicate : Predicate

-- `NewReconcileSource`, by its period. The request is the one that each tick puts into the queue.
pub record PeriodicSource : Type 0 where
  pub period : Duration
  pub request : NamespacedName

-- What the controller is registered with.
pub record Registration : Type 0 where
  pub name : Bytes
  pub watches : List Watch
  pub source : Option PeriodicSource

abbrev pub config_map_watch : Watch
config_map_watch = record {
  kind = codes "ConfigMap";
  requests = λ obj. ConfigMaps.Fetch.reconcile_request ∷ [];
  predicate = on_object ConfigMaps.Fetch.filter;
}

abbrev pub webhook_configuration_watch : Watch
webhook_configuration_watch = record {
  kind = codes "MutatingWebhookConfiguration";
  requests = λ obj. WebhookTags.reconcile_request ∷ [];
  predicate = on_object WebhookTags.filter;
}

abbrev pub namespace_watch : Watch
namespace_watch = record {
  kind = codes "Namespace";
  requests = λ obj. namespace_request obj.name ∷ [];
  predicate = on_event namespace_filter;
}

abbrev pub new_reconcile_source : Duration → PeriodicSource
new_reconcile_source period = record { period = period; request = periodic_request }

unfoldable pub setup_istio_change_controller : {P : Platform} → Reconciler P → Registration
setup_istio_change_controller r = record {
  name = codes "istio_change";
  watches = config_map_watch ∷ webhook_configuration_watch ∷ namespace_watch ∷ [];
  source =
      if is_positive r.reconcile_period
      then some (new_reconcile_source r.reconcile_period)
      else none;
}
