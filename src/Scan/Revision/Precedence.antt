-- ===== src/Scan/Revision/Precedence.antt =====
-- Which label decides the revision.
use fortsa.Base.{
  Bytes, codes, Option, none, some, List, [], ◌∷◌, ◌≡◌, inr, ◌==◌, ok, arith, if◌then◌else◌,
}
use fortsa.Base.Dict.{Dict, lookup}
use fortsa.Constants.{label_istio_rev, label_istio_injection}
use fortsa.Kube.{ObjectMeta, PodTemplate}
use fortsa.Platform.{Platform}
use fortsa.Scan.Types.{WorkloadRef, nonempty_entry, get_template}
use fortsa.Scan.Revision.{
  namespace_rev, rev_from_namespace, get_istio_rev_from_workload_or_namespace,
}

-- The first of a list of choices that is there, or "".
abbrev pub first_choice : List (Option Bytes) → Bytes
first_choice [] = []
first_choice (none ∷ choices) = first_choice choices
first_choice (some v ∷ choices) = v

-- "default", where injection is enabled by the older label.
abbrev pub injection_choice : Dict Bytes → Option Bytes
injection_choice labels = elim (lookup label_istio_injection labels) [
  | none ↦ none
  | some v ↦ if v == codes "enabled" then some (codes "default") else none
]

module _ (P : Platform) (w : P.World) (ref : WorkloadRef) (template : PodTemplate) where
  -- For a workload and a namespace that can be read, the revision is the first that is there of the
  -- template's label, the namespace's label, and "default" by the namespace's injection label; it is
  -- "" where none is.
  pub get_istio_rev-eq-first :
      (ns : ObjectMeta)
      → get_template P w ref ≡ some (inr template)
      → P.get_namespace w (record { namespace = []; name = ref.namespace }) ≡ inr ns
      → get_istio_rev_from_workload_or_namespace P w ref
        ≡ ok (
            first_choice (
              nonempty_entry label_istio_rev template.labels
              ∷ nonempty_entry label_istio_rev ns.labels
              ∷ injection_choice ns.labels
              ∷ []))
  unfolding get_istio_rev_from_workload_or_namespace rev_from_namespace namespace_rev
  get_istio_rev-eq-first ns t n = ground arith
