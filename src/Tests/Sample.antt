-- ===== src/Tests/Sample.antt =====
-- A small cluster: a pod of a ReplicaSet of a Deployment in the namespace "shop", and a webhook that
-- injects one image.
use fortsa.Base.{
  ℕ, Bytes, codes, Bool, true, false, none, some, List, [], ◌∷◌, ◌==◌, inl, inr, ok, if◌then◌else◌,
}
use fortsa.Base.Int.{pos}
use fortsa.Kube.{OwnerReference, ObjectMeta, PodSpec, Pod, PodTemplate}
use fortsa.Json.{Fields}
use fortsa.Platform.{Platform}
use fortsa.Scan.Types.{WorkloadRef, ScanOptions, IstioConfig, WebhookCaller}

abbrev pub controlled_by : Bytes → Bytes → OwnerReference
controlled_by kind name = record { kind = kind; name = name; controller = some true }

abbrev pub meta_of : Bytes → Bytes → List OwnerReference → ObjectMeta
meta_of namespace name owners = record {
  namespace = namespace;
  name = name;
  labels = [];
  annotations = [];
  owner_references = owners;
  creation_timestamp = pos 100;
  managed_fields = [];
}

abbrev pub proxy : Bytes → PodSpec
proxy image = record {
  containers = record { name = codes "istio-proxy"; image = image } ∷ [];
  init_containers = [];
}

abbrev pub web_rs : Bytes → ObjectMeta
web_rs namespace =
    meta_of namespace (codes "web-rs") (controlled_by (codes "Deployment") (codes "web") ∷ [])

abbrev pub web_pod : Pod
web_pod = record {
  meta =
      meta_of (codes "shop") (codes "web-1")
        (controlled_by (codes "ReplicaSet") (codes "web-rs") ∷ []);
  spec = proxy (codes "docker.io/istio/proxyv2:1.19.0");
}

abbrev pub web_template : PodTemplate
web_template = record {
  labels = (codes "istio.io/rev", codes "canary") ∷ [];
  annotations = [];
  spec = record { containers = []; init_containers = [] };
}

abbrev pub shop : ObjectMeta
shop = meta_of [] (codes "shop") []

-- The only error that a read can meet here says that the object is not there. A patch fails with a
-- conflict until as many patches have been tried as the world counts.
abbrev pub sample : Platform
sample = record {
  World = ℕ;
  Err = Bool;
  is_not_found = λ e. e;
  is_conflict = λ e. false;
  get_deployment = λ w nn. if nn.name == codes "web" then inr web_template else inl true;
  get_stateful_set = λ w nn. inl true;
  get_daemon_set = λ w nn. inl true;
  get_replica_set =
      λ w nn. if nn.name == codes "web-rs" then inr (web_rs nn.namespace) else inl true;
  get_controller_revision = λ w nn. inl true;
  get_namespace = λ w nn. inr shop;
  get_webhook_configuration = λ w nn. inl true;
  list_pods = λ w ns. inr (web_pod ∷ []);
  list_config_maps = λ w ns. inr [];
  list_webhook_configurations = λ w. inr [];
  patch_deployment = λ w nn patch. (w, none);
  patch_stateful_set = λ w nn patch. (w, none);
  patch_daemon_set = λ w nn patch. (w, none);
  range_order = λ w keys. keys;
  marshal = λ j. inr [];
  unmarshal = λ s. inr Fields.nil;
  format_rfc3339 = λ t. [];
  parse_rfc3339 = λ s. none;
  now = λ w. pos 1000;
  wait = λ w d. (w, none);
}

-- The webhook injects the proxy of the newer version.
abbrev pub injector : WebhookCaller sample
injector = record {
  call_webhook = λ w pod revision prefer. ok (record {
    meta = meta_of (codes "shop") (codes "check") [];
    spec = proxy (codes "docker.io/istio/proxyv2:1.20.1");
  });
}

abbrev pub web : WorkloadRef
web = record {
  namespaced_name = record { namespace = codes "shop"; name = codes "web" };
  kind = codes "Deployment";
}

abbrev pub config : IstioConfig
config = record {
  last_modified_by_revision = (codes "1-20", pos 150) ∷ [];
  tag_to_revision = (codes "canary", codes "1-20") ∷ [];
  last_modified_by_tag = [];
}

abbrev pub options : ScanOptions
options = record {
  compare_hub = false;
  istiod_config_read_delay = pos 10;
  skip_namespaces = codes "kube-system" ∷ codes "istio-system" ∷ [];
  limit_to_namespaces = [];
}
