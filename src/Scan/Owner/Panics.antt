-- ===== src/Scan/Owner/Panics.antt =====
-- The search for the owner never panics, and what it finds is a workload that can be read.
use fortsa.Base.{
  ℕ, zero, suc, Bytes, codes, Option, none, some, List, [], ◌∷◌, ◌≡◌, ◌≢◌, refl, ◌⊎◌, inl, inr,
  Result, ok, err, panic, out_of_fuel, arith,
}
use fortsa.Kube.{NamespacedName, OwnerReference, ObjectMeta}
use fortsa.Platform.{Platform}
use fortsa.Scan.Types.{WorkloadRef}
use fortsa.Scan.Owner.{
  unless_missing, get_workload_ref, get_intermediate_object, fetch_intermediate_owner,
  resolve_owner, else_next, try_owners, find_workload_owner,
}
use fortsa.Scan.Owner.Chain.{owner_name, IsWorkload, Controls, directly, through}

module _ (P : Platform) (w : P.World) where
  pub Controls-IsWorkload :
      {ref : WorkloadRef} {obj : ObjectMeta} → Controls P w ref obj → IsWorkload P w ref
  Controls-IsWorkload (directly owner c same there) = there
  Controls-IsWorkload (through next owner c e found) = Controls-IsWorkload found

  unless_missing-ne-panic : {A : Type 0} (reply : P.Err ⊎ A) → unless_missing P w reply ≢ panic
  unfolding unless_missing
  unless_missing-ne-panic (inl e) = ground arith
  unless_missing-ne-panic (inr a) = ground arith

  get_workload_ref-ne-panic :
      {A : Type 0} (nn : NamespacedName) (kind : Bytes) (reply : P.Err ⊎ A)
      → get_workload_ref P w nn kind reply ≢ panic
  unfolding get_workload_ref
  get_workload_ref-ne-panic nn kind reply = ground (arith, unless_missing-ne-panic reply)

  get_intermediate_object-ne-panic :
      (nn : NamespacedName) (kind : Bytes) → get_intermediate_object P w nn kind ≢ panic
  unfolding get_intermediate_object
  get_intermediate_object-ne-panic nn kind = ground (
    arith,
    unless_missing-ne-panic (P.get_replica_set w nn),
    unless_missing-ne-panic (P.get_controller_revision w nn),
  )

  module _ (find : ObjectMeta → Result P.Err (Option WorkloadRef))
      (safe : (obj : ObjectMeta) → find obj ≢ panic) where
    fetch_intermediate_owner-ne-panic :
        (nn : NamespacedName) (kind : Bytes) → fetch_intermediate_owner P w find nn kind ≢ panic
    unfolding fetch_intermediate_owner
    fetch_intermediate_owner-ne-panic nn kind = go (get_intermediate_object P w nn kind) refl
      where
        go :
            (reply : Result P.Err (Option ObjectMeta))
            → get_intermediate_object P w nn kind ≡ reply
            → fetch_intermediate_owner P w find nn kind ≢ panic
        go (ok (some next)) e = rw e (safe next)
        go (ok none) e = rw e (cc)
        go (err x) e = rw e (cc)
        go panic e = absurd (get_intermediate_object-ne-panic nn kind e)
        go out_of_fuel e = rw e (cc)

    try_owners-ne-panic :
        (obj : ObjectMeta) (owners : List OwnerReference) → try_owners P w find obj owners ≢ panic
    unfolding try_owners else_next resolve_owner
    try_owners-ne-panic obj [] = cc
    try_owners-ne-panic obj (owner ∷ owners) =
        let nn = owner_name obj owner in
        ground (
          arith,
          try_owners-ne-panic obj owners,
          get_workload_ref-ne-panic nn (codes "Deployment") (P.get_deployment w nn),
          get_workload_ref-ne-panic nn (codes "StatefulSet") (P.get_stateful_set w nn),
          get_workload_ref-ne-panic nn (codes "DaemonSet") (P.get_daemon_set w nn),
          fetch_intermediate_owner-ne-panic nn owner.kind,
        )

  pub find_workload_owner-ne-panic :
      (fuel : ℕ) (obj : ObjectMeta) → find_workload_owner P w fuel obj ≢ panic
  unfolding find_workload_owner
  find_workload_owner-ne-panic zero obj = cc
  find_workload_owner-ne-panic (suc n) obj =
      try_owners-ne-panic (find_workload_owner P w n) (find_workload_owner-ne-panic n) obj
        obj.owner_references
