-- ===== src/Scan/Owner/Cycle.antt =====
-- Owner chains of `findWorkloadOwner` that go round in a cycle.
use fortsa.Base.{
  ℕ, zero, suc, ◌++◌, codes, true, false, List, [], ◌∷◌, ◌≡◌, refl, ◌==◌, ◌⊎◌, inl, inr, Option,
  Result, out_of_fuel, All,
}
use fortsa.Kube.{OwnerReference, ObjectMeta}
use fortsa.Platform.{Platform}
use fortsa.Scan.Types.{WorkloadRef}
use fortsa.Scan.Owner.{
  is_controller, unless_missing, get_intermediate_object, fetch_intermediate_owner, resolve_owner,
  else_next, try_owners, find_workload_owner,
}
use fortsa.Scan.Owner.Chain.{owner_name}

module _ (P : Platform) (w : P.World) where
  -- The object's first controller reference is to the next one, a ReplicaSet or a
  -- ControllerRevision, which is there.
  abbrev pub ControlledBy : ObjectMeta → ObjectMeta → Type 0
  ControlledBy obj next =
      (before : List OwnerReference) × (owner : OwnerReference) × (after : List OwnerReference)
      × (obj.owner_references ≡ before ++ owner ∷ after)
      × All (λ o. is_controller o ≡ false) before
      × (is_controller owner ≡ true)
      × (((owner.kind ≡ codes "ReplicaSet")
            × (P.get_replica_set w (owner_name obj owner) ≡ inr next))
          ⊎ ((owner.kind ≡ codes "ControllerRevision")
              × (P.get_controller_revision w (owner_name obj owner) ≡ inr next)))

  -- Each object of the family is controlled by one of the family, as the objects of a cycle are.
  abbrev pub GoesRound : (ObjectMeta → Type 0) → Type 0
  GoesRound Q = (obj : ObjectMeta) → Q obj → (next : ObjectMeta) × Q next × ControlledBy obj next

  module _ (find : ObjectMeta → Result P.Err (Option WorkloadRef)) where
    try_owners_past :
        (obj : ObjectMeta) (before owners : List OwnerReference)
        → All (λ o. is_controller o ≡ false) before
        → try_owners P w find obj (before ++ owners) ≡ try_owners P w find obj owners
    unfolding try_owners
    try_owners_past obj [] owners _ = refl
    try_owners_past obj (o ∷ before) owners (other, rest) =
        rw other (try_owners_past obj before owners rest)

    try_owners_controlled :
        (obj next : ObjectMeta)
        → ControlledBy obj next
        → find next ≡ out_of_fuel
        → try_owners P w find obj obj.owner_references ≡ out_of_fuel
    unfolding try_owners else_next resolve_owner fetch_intermediate_owner get_intermediate_object
        unless_missing ◌==◌
    try_owners_controlled obj next (before, owner, after, e, others, c, inl (k, got)) again =
        rw (e, try_owners_past obj before (owner ∷ after) others, c, k, got, again)
    try_owners_controlled obj next (before, owner, after, e, others, c, inr (k, got)) again =
        rw (e, try_owners_past obj before (owner ∷ after) others, c, k, got, again)

  -- On a family of objects each of which has, as its first controller reference, one to a ReplicaSet
  -- or ControllerRevision of the family, such as the objects of a cycle of any length, the search
  -- does not end, whatever the fuel.
  pub find_workload_owner_cycle :
      (Q : ObjectMeta → Type 0)
      → GoesRound Q
      → (fuel : ℕ) (obj : ObjectMeta) → Q obj
      → find_workload_owner P w fuel obj ≡ out_of_fuel
  unfolding find_workload_owner
  find_workload_owner_cycle Q round zero obj q = refl
  find_workload_owner_cycle Q round (suc n) obj q =
      let (next, q', controlled) = round obj q in
      try_owners_controlled (find_workload_owner P w n) obj next controlled
        (find_workload_owner_cycle Q round n next q')
