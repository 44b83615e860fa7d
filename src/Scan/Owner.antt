-- ===== src/Scan/Owner.antt =====
-- `findWorkloadOwner` and what it calls. The source recurses without a bound: fuel stands for the
-- length of the owner chain that is followed, and `Owner.Fuel` says which fuel is enough.
pub mod Chain
pub mod Fuel
pub mod Cycle
pub mod Panics
use fortsa.Base.{
  ℕ, zero, suc, Bytes, codes, Bool, false, ◌||◌, Option, none, some, List, [], ◌∷◌, ◌==◌, ◌⊎◌, inl,
  inr, Result, ok, err, out_of_fuel, outside, ◌>>=◌, if◌then◌else◌,
}
use mathlib.Core.Option
use fortsa.Kube.{NamespacedName, OwnerReference, ObjectMeta}
use fortsa.Platform.{Platform}
use fortsa.Scan.Types.{WorkloadRef}

-- `owner.Controller != nil && *owner.Controller`
abbrev pub is_controller : OwnerReference → Bool
is_controller owner = elim owner.controller [ none ↦ false | some c ↦ c ]

module _ (P : Platform) (w : P.World) where
  -- The answer to a `Get`, with an object that is not there taken for none.
  unfoldable pub unless_missing : {A : Type 0} → P.Err ⊎ A → Result P.Err (Option A)
  unless_missing (inl e) = if P.is_not_found e then ok none else err (outside e)
  unless_missing (inr a) = ok (some a)

  unfoldable pub get_workload_ref :
      {A : Type 0} → NamespacedName → Bytes → P.Err ⊎ A → Result P.Err (Option WorkloadRef)
  unfolding unless_missing
  get_workload_ref nn kind reply = do
    found ← unless_missing reply
    ok (Option.map (λ _. record { namespaced_name = nn; kind = kind }) found)

  unfoldable pub get_intermediate_object : NamespacedName → Bytes → Result P.Err (Option ObjectMeta)
  unfolding unless_missing
  get_intermediate_object nn kind =
      if kind == codes "ReplicaSet"
      then unless_missing (P.get_replica_set w nn)
      else if kind == codes "ControllerRevision"
      then unless_missing (P.get_controller_revision w nn)
      else ok none

  -- The end of a round of the loop: what was found is returned, or the rest is tried.
  unfoldable pub else_next :
      Result P.Err (Option WorkloadRef)
      → Result P.Err (Option WorkloadRef)
      → Result P.Err (Option WorkloadRef)
  else_next found rest = found >>= λ ref. elim ref [ none ↦ rest | some r ↦ ok (some r) ]

  -- `find` is the recursive call of `findWorkloadOwner`.
  module _ (find : ObjectMeta → Result P.Err (Option WorkloadRef)) where
    unfoldable pub fetch_intermediate_owner :
        NamespacedName → Bytes → Result P.Err (Option WorkloadRef)
    fetch_intermediate_owner nn kind = do
      next ← get_intermediate_object nn kind
      elim next [ none ↦ ok none | some obj ↦ find obj ]

    unfoldable pub resolve_owner : ObjectMeta → OwnerReference → Result P.Err (Option WorkloadRef)
    unfolding get_workload_ref fetch_intermediate_owner
    resolve_owner obj owner =
        let nn : NamespacedName = record { namespace = obj.namespace; name = owner.name } in
        if owner.kind == codes "Deployment"
        then get_workload_ref nn (codes "Deployment") (P.get_deployment w nn)
        else if owner.kind == codes "StatefulSet"
        then get_workload_ref nn (codes "StatefulSet") (P.get_stateful_set w nn)
        else if owner.kind == codes "DaemonSet"
        then get_workload_ref nn (codes "DaemonSet") (P.get_daemon_set w nn)
        else if owner.kind == codes "ReplicaSet" || owner.kind == codes "ControllerRevision"
        then fetch_intermediate_owner nn owner.kind
        else ok none

    -- The loop over the owner references.
    unfoldable pub try_owners : ObjectMeta → List OwnerReference → Result P.Err (Option WorkloadRef)
    try_owners obj [] = ok none
    try_owners obj (owner ∷ owners) =
        let rest = try_owners obj owners in
        if is_controller owner then else_next (resolve_owner obj owner) rest else rest

  unfoldable pub find_workload_owner : ℕ → ObjectMeta → Result P.Err (Option WorkloadRef)
  unfolding try_owners else_next resolve_owner
  find_workload_owner zero obj = out_of_fuel
  find_workload_owner (suc n) obj = try_owners (find_workload_owner n) obj obj.owner_references
