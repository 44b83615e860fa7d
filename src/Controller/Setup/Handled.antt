-- ===== src/Controller/Setup/Handled.antt =====
-- Every request that the controller's sources make is one that the reconciler handles.
use fortsa.Base.{
  codes, ◌==◌, if◌then◌else◌, ℕ, Bytes, Bool, true, false, Option, none, some, List, [], ◌∷◌, ◌≡◌,
  refl, All,
}
use fortsa.Kube.{ObjectMeta}
use fortsa.Platform.{Platform}
use fortsa.Controller.{Reconciler, is_positive, reconcile, reconcile_all}
use fortsa.Controller.Routing.{IsNamespaceName, reconcile_routes}
use fortsa.Controller.Setup.{
  new_reconcile_source, Watch, PeriodicSource, setup_istio_change_controller,
}

module _ (P : Platform) (r : Reconciler P) (fuel : ℕ) (w : P.World) where
  -- Which namespaces an object of the kind asks about; the empty list stands for all of them.
  abbrev pub scope : Bytes → ObjectMeta → List Bytes
  scope kind obj = if kind == codes "Namespace" then obj.name ∷ [] else []

  abbrev pub HandlesSource : Option PeriodicSource → Type 0
  HandlesSource none = Unit
  HandlesSource (some source) =
      (source.period ≡ r.reconcile_period)
      × (is_positive source.period ≡ true)
      × (reconcile P r fuel w source.request ≡ reconcile_all P r fuel w [])

  if-HandlesSource :
      (source : PeriodicSource) (on : Bool)
      → (on ≡ true → HandlesSource (some source))
      → HandlesSource (if on then some source else none)
  if-HandlesSource source true h = h refl
  if-HandlesSource source false h = tt

  -- Each request that a watch of the controller maps an object to leads to a reconciliation: of the
  -- namespace with the object's name for a Namespace whose name is none of the triggers', and of all
  -- namespaces for the other kinds. The periodic source is there only with a positive period, which
  -- is the reconciler's, and its request leads to a reconciliation of all namespaces.
  pub setup_handles :
      (obj : ObjectMeta)
      → IsNamespaceName obj.name
      → All
          (λ (watch : Watch).
            All
              (λ req. reconcile P r fuel w req ≡ reconcile_all P r fuel w (scope watch.kind obj))
              (watch.requests obj))
          (setup_istio_change_controller r).watches
        × HandlesSource (setup_istio_change_controller r).source
  unfolding setup_istio_change_controller ◌==◌
  setup_handles obj named =
      let (periodic, change, tags, namespace) = reconcile_routes P r fuel w obj.name named in
      (
        ((change, tt), ((tags, tt), ((namespace, tt), tt))),
        if-HandlesSource (new_reconcile_source r.reconcile_period) (is_positive r.reconcile_period)
            (λ on. (refl, on, periodic)),
      )
