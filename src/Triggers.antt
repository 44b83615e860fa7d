-- ===== src/Triggers.antt =====
-- internal/namespace/trigger.go and internal/periodic/trigger.go: the events of namespaces that ask
-- for a reconciliation, and the requests of both packages.
pub mod Ticking
use fortsa.Base.{
  refl, inr, inl, Bytes, codes, Bool, true, false, not, ◌||◌, Option, none, some, is_empty, [], ◌≡◌,
  ◌≢◌, ◌↔◌, ◌⊎◌, is_empty_iff, arith,
}
use fortsa.Base.Dict.{lookup}
use fortsa.Constants.{istio_system_namespace, label_istio_rev, label_istio_injection}
use fortsa.Kube.{NamespacedName, ObjectMeta}

-- `_, ok := labels[k]`
abbrev has_key : Option Bytes → Bool
has_key none = false
has_key (some v) = true

-- `v, ok := labels[k]; ok && v != ""`
abbrev has_text : Option Bytes → Bool
has_text none = false
has_text (some v) = not (is_empty v)

unfoldable pub has_istio_labels : ObjectMeta → Bool
has_istio_labels obj =
    has_key (lookup label_istio_rev obj.labels)
    || has_text (lookup label_istio_injection obj.labels)

-- The events of controller-runtime that reach the predicate `Filter`.
pub data Event : Type 0 where
  created : ObjectMeta → Event
  updated : ObjectMeta → ObjectMeta → Event
  deleted : ObjectMeta → Event
  generic : ObjectMeta → Event

-- `GenericFunc` is nil, and `predicate.Funcs` lets an event pass for which it has no function.
unfoldable pub namespace_filter : Event → Bool
unfolding has_istio_labels
namespace_filter (created obj) = false
namespace_filter (updated old new) = has_istio_labels old || has_istio_labels new
namespace_filter (deleted obj) = false
namespace_filter (generic obj) = true

abbrev pub namespace_request : Bytes → NamespacedName
namespace_request name = record { namespace = []; name = name }

abbrev pub periodic_request_name : Bytes
periodic_request_name = codes "__periodic_reconcile__"

abbrev pub periodic_request : NamespacedName
periodic_request = record { namespace = istio_system_namespace; name = periodic_request_name }

-- The namespace has a revision label of any text, or an injection label of a text that is not
-- empty.
abbrev pub IsLabelled : ObjectMeta → Type 0
IsLabelled obj =
    ((v : Bytes) × (lookup label_istio_rev obj.labels ≡ some v))
    ⊎ ((v : Bytes) × (lookup label_istio_injection obj.labels ≡ some v) × (v ≢ []))

has_istio_labels-IsLabelled : (obj : ObjectMeta) → (has_istio_labels obj ≡ true) ↔ IsLabelled obj
unfolding has_istio_labels
has_istio_labels-IsLabelled obj =
    go (lookup label_istio_rev obj.labels) (lookup label_istio_injection obj.labels)
  where
    go :
        (rev injection : Option Bytes)
        → ((has_key rev || has_text injection) ≡ true)
          ↔ (((v : Bytes) × (rev ≡ some v)) ⊎ ((v : Bytes) × (injection ≡ some v) × (v ≢ [])))
    go (some v) injection = (λ _. inl (v, refl), λ _. refl)
    go none none = (λ e. cc, λ e. ground arith)
    go none (some v) =
        (λ e. inr (v, refl, ground (arith, is_empty_iff v)), λ e. ground (arith, is_empty_iff v))

-- An event of a namespace passes the filter exactly where it is a generic one, or an update such that
-- the namespace is labelled before it or after it. Whether the labels change in it does not count.
pub namespace_filter_iff :
    (e : Event)
    → (namespace_filter e ≡ true) ↔ (
        ((obj : ObjectMeta) × (e ≡ generic obj))
        ⊎ ((old : ObjectMeta) × (new : ObjectMeta) × (e ≡ updated old new)
            × (IsLabelled old ⊎ IsLabelled new)))
unfolding namespace_filter
namespace_filter_iff (created obj) = (λ h. cc, λ h. ground arith)
namespace_filter_iff (deleted obj) = (λ h. cc, λ h. ground arith)
namespace_filter_iff (generic obj) = (λ h. inl (obj, refl), λ h. refl)
namespace_filter_iff (updated old new) = (
  λ h. inr (
    old,
    new,
    refl,
    ground (arith, has_istio_labels-IsLabelled old, has_istio_labels-IsLabelled new),
  ),
  λ passed. elim passed [
    | inl (obj, other) ↦ cc
    | inr (x, y, same, labelled) ↦
        let same_old : old ≡ x = cc in
        let same_new : new ≡ y = cc in
        rw (same_old, same_new)
          (ground (arith, has_istio_labels-IsLabelled x, has_istio_labels-IsLabelled y))
  ],
)
