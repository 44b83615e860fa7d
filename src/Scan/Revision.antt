-- ===== src/Scan/Revision.antt =====
-- `getIstioRevFromWorkloadOrNamespace`
pub mod Precedence
use fortsa.Base.{Bytes, codes, none, some, [], ◌==◌, Result, ok, ◌>>=◌, if◌then◌else◌}
use fortsa.Base.Dict.{Dict, lookup}
use fortsa.Constants.{label_istio_rev, label_istio_injection}
use fortsa.Platform.{Platform, returned}
use fortsa.Scan.Types.{WorkloadRef, nonempty_entry, get_template}

-- What the namespace's labels say where the workload's template says nothing.
unfoldable pub namespace_rev : Dict Bytes → Bytes
namespace_rev labels = elim (nonempty_entry label_istio_rev labels) [
  | some v ↦ v
  | none ↦ elim (lookup label_istio_injection labels) [
    | none ↦ []
    | some v ↦ if v == codes "enabled" then codes "default" else []
  ]
]

module _ (P : Platform) (w : P.World) where
  unfoldable pub rev_from_namespace : Bytes → Result P.Err Bytes
  rev_from_namespace namespace = do
    ns ← returned (P.get_namespace w (record { namespace = []; name = namespace }))
    ok (namespace_rev ns.labels)

  unfoldable pub get_istio_rev_from_workload_or_namespace : WorkloadRef → Result P.Err Bytes
  get_istio_rev_from_workload_or_namespace ref = elim (get_template P w ref) [
    | none ↦ ok (codes "default")
    | some reply ↦ do
      template ← returned reply
      elim (nonempty_entry label_istio_rev template.labels) [
        | some v ↦ ok v
        | none ↦ rev_from_namespace ref.namespace
      ]
  ]
