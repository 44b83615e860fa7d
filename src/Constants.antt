-- ===== src/Constants.antt =====
-- internal/constants/constants.go, and the names that the packages share with it.
use fortsa.Base.{Bytes, codes}

abbrev pub istio_system_namespace : Bytes
istio_system_namespace = codes "istio-system"

abbrev pub config_map_name_prefix : Bytes
config_map_name_prefix = codes "istio-sidecar-injector"

abbrev pub reconcile_trigger_name_istio_change : Bytes
reconcile_trigger_name_istio_change = codes "__istio_change__"

abbrev pub label_istio_rev : Bytes
label_istio_rev = codes "istio.io/rev"

abbrev pub label_istio_tag : Bytes
label_istio_tag = codes "istio.io/tag"

abbrev pub label_istio_injection : Bytes
label_istio_injection = codes "istio-injection"

abbrev pub restarted_at_annotation : Bytes
restarted_at_annotation = codes "fortsa.scaffidi.net/restartedAt"
