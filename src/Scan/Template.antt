-- ===== src/Scan/Template.antt =====
-- `buildPodFromWorkload`
pub mod Names
use fortsa.Base.{
  ℕ, ◌-◌, Bytes, codes, Option, none, some, [], ◌++◌, is_empty, take, length, ltb, Result, ok,
  ◌>>=◌, if◌then◌else◌,
}
use fortsa.Base.Int.{pos}
use fortsa.Kube.{Pod, PodTemplate}
use fortsa.Platform.{Platform, returned}
use fortsa.Scan.Types.{WorkloadRef, get_template}

abbrev pub dns_subdomain_max_len : ℕ
dns_subdomain_max_len = 63

abbrev pub pod_name_suffix : Bytes
pod_name_suffix = codes "-fortsa-check"

unfoldable pub check_pod_name : Bytes → Bytes
check_pod_name workload =
    if is_empty workload
    then codes "fortsa-check"
    else (if ltb (dns_subdomain_max_len - length pod_name_suffix) (length workload)
        then take (dns_subdomain_max_len - length pod_name_suffix) workload
        else codes "fortsa-check")
      ++ pod_name_suffix

-- The pod literal, whose other fields are zero.
unfoldable pub pod_of_template : WorkloadRef → PodTemplate → Pod
pod_of_template ref template = record {
  meta = record {
    namespace = ref.namespace;
    name = check_pod_name ref.name;
    labels = template.labels;
    annotations = template.annotations;
    owner_references = [];
    creation_timestamp = pos 0;
    managed_fields = [];
  };
  spec = template.spec;
}

unfoldable pub build_pod_from_workload :
    (P : Platform) → P.World → WorkloadRef → Result P.Err (Option Pod)
build_pod_from_workload P w ref = elim (get_template P w ref) [
  | none ↦ ok none
  | some reply ↦ do template ← returned reply; ok (some (pod_of_template ref template))
]
