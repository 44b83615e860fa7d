-- ===== src/Tests/Restarting.antt =====
-- The reconciler that the program builds, at a cluster whose webhook injects a newer proxy.
use fortsa.Base.{
  contains, add_keys, ℕ, Bytes, codes, true, false, none, some, List, [], ◌∷◌, ◌≡◌, inl, inr, refl,
  ok, ◌==◌, eq_iff, eq_refl, arith,
}
use fortsa.Base.Int.{pos}
use fortsa.Kube.{ObjectMeta, OwnerReference}
use fortsa.Platform.{Platform}
use fortsa.Scan.Types.{WorkloadRef, IstioConfig}
use fortsa.Scan.Pods.{list_pods}
use fortsa.Scan.Owner.{get_intermediate_object, unless_missing, find_workload_owner}
use fortsa.Scan.Owner.Chain.{owner_name}
use fortsa.Scan.Outdated.{scan_outdated_pods}
use fortsa.Scan.Process.{process_pod_for_outdated_sidecar}
use fortsa.Scan.Process.Verdict.{process_pod_sound}
use fortsa.Webhook.Call.{Backend, webhook_client, patched_pod, apply_json_patch}
use fortsa.Controller.{
  Reconciler, await_istiod_config_read_delay, read_config, scan_options, reconcile_all,
}
use fortsa.Controller.Setup.{ReconcilerOptions, new_istio_change_reconciler}
use fortsa.Webhook.Call.Denied.{ExplainsDenials}
use fortsa.Controller.Restarting.{Stands, AnnotatesAll, reconcile_all_restarts}
use fortsa.Tests.Sample.{meta_of, proxy, web, web_pod}
use fortsa.Tests.Owners.{rank, ranked-Falls}
use fortsa.Tests.Configured.{configured, configurations}
use fortsa.Tests.Scans.{scans}
use fortsa.Tests.Webhooks.{certified, calls}

abbrev pub cluster : Platform
cluster = record configured {
  get_webhook_configuration =
      λ w nn. inr (record { meta = meta_of [] nn.name []; webhooks = certified ∷ [] });
}

-- Its patches make the pod one with the newer proxy.
abbrev pub newer_on : (P : Platform) → Backend P
newer_on P = record {
  append_certs_from_pem = λ ca. true;
  marshal_pod = λ pod. inr (codes "pod");
  unmarshal_pod = λ s. inr (record {
    meta = meta_of (codes "shop") (codes "check") [];
    spec = proxy (codes "docker.io/istio/proxyv2:1.20.1");
  });
  marshal_review = λ review. inr review.object;
  Request = Bytes;
  new_request = λ endpoint body. inr body;
  post = λ w endpoint sent. inr (record { status = 200; body = sent });
  decode_review =
      λ s. inr (some (record { allowed = true; status_message = none; patch = codes "add" }));
  JsonPatch = Bytes;
  decode_patch = λ s. inr s;
  apply_patch = λ patch s. inr s;
}

abbrev pub newer : Backend cluster
newer = newer_on cluster

abbrev pub live : ReconcilerOptions
live = record {
  dry_run = false;
  compare_hub = false;
  restart_delay = pos 5;
  istiod_config_read_delay = pos 10;
  annotation_cooldown = pos 300;
  skip_namespaces = [];
  reconcile_period = pos 60;
}

abbrev pub the_live : Reconciler cluster
the_live = new_istio_change_reconciler cluster newer live

unfoldable pub runs : Unit {0}
unfolding scans configurations calls patched_pod apply_json_patch webhook_client
    new_istio_change_reconciler await_istiod_config_read_delay read_config
runs = tt

abbrev pub live_config : IstioConfig
live_config = record {
  last_modified_by_revision = (codes "1-20", pos 150) ∷ [];
  tag_to_revision = (codes "canary", codes "1-20") ∷ [];
  last_modified_by_tag = (codes "canary", pos 100) ∷ [];
}

abbrev at_work : ℕ
at_work = (await_istiod_config_read_delay cluster the_live 0).0

config_read : read_config cluster the_live 3 at_work ≡ ok live_config
unfolding runs
config_read = refl

live_listed : list_pods cluster at_work (scan_options cluster the_live []) ≡ ok (web_pod ∷ [])
unfolding runs
live_listed = refl

live_owner : find_workload_owner cluster at_work 3 web_pod.meta ≡ ok (some web)
unfolding runs
live_owner = refl

live_outdated :
    process_pod_for_outdated_sidecar cluster
      (webhook_client cluster newer)
      at_work
      3
      web_pod
      live_config
      (scan_options cluster the_live [])
    ≡ ok (some web)
unfolding runs
live_outdated = refl

live_rank :
    (obj next : ObjectMeta) (o : OwnerReference)
    → get_intermediate_object cluster at_work (owner_name obj o) o.kind ≡ ok (some next)
    → (rank next ≡ 0) × ((o.kind == codes "Deployment") ≡ false)
unfolding get_intermediate_object unless_missing
live_rank obj next o e = ground (
  arith,
  eq_iff o.kind (codes "Deployment"),
  eq_iff o.kind (codes "ReplicaSet"),
  eq_iff o.kind (codes "ControllerRevision"),
  eq_refl (codes "Deployment"),
)

explained : ExplainsDenials cluster newer at_work
explained pod revision prefer (_, _, _, _, _, (_, _, _, _, _, _, _, decoded), (denied, _)) = cc

reconcile_all_restarts_example :
    (v : ℕ) × (refs : List WorkloadRef) × (reconcile_all cluster the_live 3 0 [] ≡ (v, ok tt))
    × (scan_outdated_pods cluster
          (some (webhook_client cluster newer))
          3
          at_work
          live_config
          (scan_options cluster the_live [])
        ≡ ok refs)
    × AnnotatesAll cluster the_live at_work refs v
    × Stands web refs
unfolding contains add_keys
reconcile_all_restarts_example =
    reconcile_all_restarts cluster newer live 3 0 [] live_config (web_pod ∷ []) rank web_pod web
      refl (λ w d. refl) explained config_read live_listed (ranked-Falls cluster at_work live_rank)
      (unfold ◌==◌ in omega arith) (inl refl) refl live_owner
      (process_pod_sound cluster (webhook_client cluster newer) at_work 3 web_pod live_config
        (scan_options cluster the_live []) web live_outdated).1
