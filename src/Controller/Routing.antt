-- ===== src/Controller/Routing.antt =====
-- Which reconciliation each request leads to.
use fortsa.Base.{
  ℕ, Bytes, false, [], ◌∷◌, ◌==◌, eq_iff, eq_refl, is_empty, is_empty_iff, ◌≡◌, ◌≢◌, refl, ok,
  arith,
}
use fortsa.Kube.{NamespacedName}
use fortsa.Platform.{Platform}
use fortsa.Triggers.{namespace_request, periodic_request, periodic_request_name}
use fortsa.ConfigMaps
use fortsa.WebhookTags
use fortsa.Constants.{reconcile_trigger_name_istio_change}
use fortsa.Controller.{Reconciler, reconcile, reconcile_all}

-- The names of the requests that no namespace asks for. They hold the character '_', which the name of
-- a namespace does not.
abbrev pub IsNamespaceName : Bytes → Type 0
IsNamespaceName name =
    (name ≢ []) × (name ≢ periodic_request_name) × (name ≢ reconcile_trigger_name_istio_change)

module _ (P : Platform) (r : Reconciler P) (fuel : ℕ) (w : P.World) where
  -- The requests of the periodic source, of the ConfigMaps and of the revision tags lead to a
  -- reconciliation of all namespaces, and that of a namespace to one of this namespace.
  pub reconcile_routes :
      (name : Bytes)
      → IsNamespaceName name
      → (reconcile P r fuel w periodic_request ≡ reconcile_all P r fuel w [])
        × (reconcile P r fuel w ConfigMaps.Fetch.reconcile_request ≡ reconcile_all P r fuel w [])
        × (reconcile P r fuel w WebhookTags.reconcile_request ≡ reconcile_all P r fuel w [])
        × (reconcile P r fuel w (namespace_request name) ≡ reconcile_all P r fuel w (name ∷ []))
  unfolding reconcile
  reconcile_routes name (nonempty, not_periodic, not_change) =
      let differ : (reconcile_trigger_name_istio_change == periodic_request_name) ≡ false =
        unfold ◌==◌ in refl in
      let same = eq_refl reconcile_trigger_name_istio_change in
      let periodic : (name == periodic_request_name) ≡ false =
        ground (arith, eq_iff name periodic_request_name) in
      let change : (name == reconcile_trigger_name_istio_change) ≡ false =
        ground (arith, eq_iff name reconcile_trigger_name_istio_change) in
      let named : is_empty name ≡ false = ground (arith, is_empty_iff name) in
      (
        rw (eq_refl periodic_request_name) refl,
        rw (differ, same) refl,
        rw (differ, same) refl,
        rw (periodic, change, named) refl,
      )

  -- A request that has a namespace, and whose name is neither that of the periodic source nor that of
  -- a change of Istio, changes nothing and is no error.
  pub reconcile_unhandled :
      (req : NamespacedName)
      → req.namespace ≢ []
      → req.name ≢ periodic_request_name
      → req.name ≢ reconcile_trigger_name_istio_change
      → reconcile P r fuel w req ≡ (w, ok tt)
  unfolding reconcile
  reconcile_unhandled req placed not_periodic not_change =
      let periodic : (req.name == periodic_request_name) ≡ false =
        ground (arith, eq_iff req.name periodic_request_name) in
      let change : (req.name == reconcile_trigger_name_istio_change) ≡ false =
        ground (arith, eq_iff req.name reconcile_trigger_name_istio_change) in
      let named : is_empty req.namespace ≡ false = ground (arith, is_empty_iff req.namespace) in
      rw (periodic, change, named) refl
