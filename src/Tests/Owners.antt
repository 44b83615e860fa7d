-- ===== src/Tests/Owners.antt =====
-- Owner chains of the sample cluster, and the theorems on them there.
use fortsa.Base.{
  Bytes, ◌⊎◌, inl, sym, subst, ℕ, suc, ◌≤◌, ◌<◌, codes, false, some, List, [], ◌∷◌, ◌≡◌, ◌≢◌, refl,
  inr, ◌==◌, eq_iff, eq_refl, ok, out_of_fuel, arith, if◌then◌else◌,
}
use fortsa.Kube.{ObjectMeta, OwnerReference}
use fortsa.Platform.{Platform}
use fortsa.Scan.Owner.{unless_missing, get_intermediate_object, find_workload_owner}
use fortsa.Scan.Owner.Chain.{owner_name}
use fortsa.Scan.Owner.Fuel.{EachNext, Falls, find_workload_owner_ends}
use fortsa.Scan.Owner.Cycle.{GoesRound, ControlledBy, find_workload_owner_cycle}
use fortsa.Tests.Sample.{controlled_by, meta_of, web_pod, sample}

-- How many owners of a list may lead on.
abbrev leading : List OwnerReference → ℕ
leading [] = 0
leading (o ∷ os) = if o.kind == codes "Deployment" then leading os else suc (leading os)

abbrev pub rank : ObjectMeta → ℕ
rank obj = leading obj.owner_references

next_rank :
    (obj next : ObjectMeta) (o : OwnerReference)
    → get_intermediate_object sample 0 (owner_name obj o) o.kind ≡ ok (some next)
    → (rank next ≡ 0) × ((o.kind == codes "Deployment") ≡ false)
unfolding get_intermediate_object unless_missing
next_rank obj next o e = ground (
  arith,
  eq_iff o.kind (codes "Deployment"),
  eq_iff o.kind (codes "ReplicaSet"),
  eq_iff o.kind (codes "ControllerRevision"),
  eq_refl (codes "Deployment"),
)

-- What `next_rank` says, of any cluster.
abbrev pub NextRank : (P : Platform) → P.World → Type 0
NextRank P w =
    (obj next : ObjectMeta) (o : OwnerReference)
    → get_intermediate_object P w (owner_name obj o) o.kind ≡ ok (some next)
    → (rank next ≡ 0) × ((o.kind == codes "Deployment") ≡ false)

falls_below :
    (P : Platform) (w : P.World)
    → NextRank P w
    → (obj : ObjectMeta) (os : List OwnerReference) (n : ℕ) → leading os ≤ n
    → EachNext P w (λ next. rank next < n) obj os
falls_below P w ranked obj [] n h = tt
falls_below P w ranked obj (o ∷ os) n h = (
  λ next e c. let (zero_rank, other) = ranked obj next o e in ground arith,
  falls_below P w ranked obj os n (ground arith),
)

pub ranked-Falls : (P : Platform) (w : P.World) → NextRank P w → Falls P w rank
ranked-Falls P w ranked obj =
    falls_below P w ranked obj obj.owner_references (rank obj) (omega arith)

pub sample-Falls : Falls sample 0 rank
sample-Falls = ranked-Falls sample 0 next_rank

find_workload_owner_ends_example : find_workload_owner sample 0 2 web_pod.meta ≢ out_of_fuel
find_workload_owner_ends_example =
    find_workload_owner_ends sample 0 rank sample-Falls 2 web_pod.meta pod_rank
  where
    pod_rank : rank web_pod.meta < 2
    pod_rank = unfold ◌==◌ in omega arith

-- Two ReplicaSets that control each other.
abbrev knot : Bytes → Bytes → ObjectMeta
knot name other = meta_of (codes "shop") name (controlled_by (codes "ReplicaSet") other ∷ [])

abbrev knotted : Platform
knotted = record sample {
  get_replica_set = λ w nn.
      inr (
        if nn.name == codes "a"
        then knot (codes "a") (codes "b")
        else knot (codes "b") (codes "a"));
}

abbrev IsKnot : ObjectMeta → Type 0
IsKnot obj = (obj ≡ knot (codes "a") (codes "b")) ⊎ (obj ≡ knot (codes "b") (codes "a"))

IsKnot-GoesRound : GoesRound knotted 0 IsKnot
unfolding ◌==◌
IsKnot-GoesRound obj (inl e) =
    subst (λ o. (next : ObjectMeta) × IsKnot next × ControlledBy knotted 0 o next) (sym e)
      (
        knot (codes "b") (codes "a"),
        inr refl,
        ([], controlled_by (codes "ReplicaSet") (codes "b"), [], refl, tt, refl, inl (refl, refl)),
      )
IsKnot-GoesRound obj (inr e) =
    subst (λ o. (next : ObjectMeta) × IsKnot next × ControlledBy knotted 0 o next) (sym e)
      (
        knot (codes "a") (codes "b"),
        inl refl,
        ([], controlled_by (codes "ReplicaSet") (codes "a"), [], refl, tt, refl, inl (refl, refl)),
      )

find_workload_owner_cycle_example :
    find_workload_owner knotted 0 1000 (knot (codes "a") (codes "b")) ≡ out_of_fuel
find_workload_owner_cycle_example =
    find_workload_owner_cycle knotted 0 IsKnot IsKnot-GoesRound 1000 (knot (codes "a") (codes "b"))
      (inl refl)
