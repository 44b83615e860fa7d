-- ===== src/Scan/Owner/Fuel.antt =====
-- When `findWorkloadOwner` ends: along an owner chain that falls.
use fortsa.Base.{
  ℕ, zero, suc, ◌<◌, Bytes, codes, true, Option, none, some, List, [], ◌∷◌, ◌≡◌, ◌≢◌, refl, ◌⊎◌,
  inl, inr, Result, ok, err, panic, out_of_fuel, Bool-cases, All, All-imp, arith,
}
use fortsa.Kube.{NamespacedName, OwnerReference, ObjectMeta}
use fortsa.Platform.{Platform}
use fortsa.Scan.Types.{WorkloadRef}
use fortsa.Scan.Owner.{
  is_controller, unless_missing, get_workload_ref, get_intermediate_object,
  fetch_intermediate_owner, resolve_owner, else_next, try_owners, find_workload_owner,
}
use fortsa.Scan.Owner.Chain.{owner_name}

module _ (P : Platform) (w : P.World) where
  -- A statement about each object to which the owner references of an object lead.
  abbrev pub EachNext : (ObjectMeta → Type 0) → ObjectMeta → List OwnerReference → Type 0
  EachNext Q obj = All λ owner.
      (next : ObjectMeta)
      → get_intermediate_object P w (owner_name obj owner) owner.kind ≡ ok (some next)
      → is_controller owner ≡ true
      → Q next

  -- The owner chains are finite: the rank falls from each object to those that control it.
  abbrev pub Falls : (ObjectMeta → ℕ) → Type 0
  Falls rank = (obj : ObjectMeta) → EachNext (λ next. rank next < rank obj) obj obj.owner_references

  fetch_intermediate_owner_congr :
      (f g : ObjectMeta → Result P.Err (Option WorkloadRef)) (nn : NamespacedName) (kind : Bytes)
      → ((next : ObjectMeta)
          → get_intermediate_object P w nn kind ≡ ok (some next)
          → f next ≡ g next)
      → fetch_intermediate_owner P w f nn kind ≡ fetch_intermediate_owner P w g nn kind
  unfolding fetch_intermediate_owner
  fetch_intermediate_owner_congr f g nn kind same = go (get_intermediate_object P w nn kind) refl
    where
      go :
          (reply : Result P.Err (Option ObjectMeta))
          → get_intermediate_object P w nn kind ≡ reply
          → fetch_intermediate_owner P w f nn kind ≡ fetch_intermediate_owner P w g nn kind
      go (ok (some next)) e = rw e (same next e)
      go (ok none) e = rw e
      go (err x) e = rw e
      go panic e = rw e
      go out_of_fuel e = rw e

  resolve_owner_congr :
      (f g : ObjectMeta → Result P.Err (Option WorkloadRef)) (obj : ObjectMeta)
      (owner : OwnerReference)
      → ((next : ObjectMeta)
          → get_intermediate_object P w (owner_name obj owner) owner.kind ≡ ok (some next)
          → f next ≡ g next)
      → resolve_owner P w f obj owner ≡ resolve_owner P w g obj owner
  unfolding resolve_owner
  resolve_owner_congr f g obj owner same =
      rw (fetch_intermediate_owner_congr f g (owner_name obj owner) owner.kind same)

  try_owners_congr :
      (f g : ObjectMeta → Result P.Err (Option WorkloadRef)) (obj : ObjectMeta)
      (owners : List OwnerReference)
      → EachNext (λ next. f next ≡ g next) obj owners
      → try_owners P w f obj owners ≡ try_owners P w g obj owners
  unfolding try_owners
  try_owners_congr f g obj [] same = refl
  try_owners_congr f g obj (owner ∷ owners) (same, rest) = elim (Bool-cases (is_controller owner)) [
    | inl c ↦ rw (
      c,
      try_owners_congr f g obj owners rest,
      resolve_owner_congr f g obj owner (λ next e. same next e c),
    )
    | inr n ↦ rw (n, try_owners_congr f g obj owners rest)
  ]

  -- Where the chains fall, any two fuels above the rank of an object find the same owner for it.
  pub find_workload_owner_stable :
      (rank : ObjectMeta → ℕ)
      → Falls rank
      → (n m : ℕ) (obj : ObjectMeta) → rank obj < n
      → rank obj < m
      → find_workload_owner P w n obj ≡ find_workload_owner P w m obj
  unfolding find_workload_owner
  find_workload_owner_stable rank falls zero m obj h k = absurd (omega arith)
  find_workload_owner_stable rank falls (suc n) zero obj h k = absurd (omega arith)
  find_workload_owner_stable rank falls (suc n) (suc m) obj h k =
      try_owners_congr (find_workload_owner P w n) (find_workload_owner P w m) obj
        obj.owner_references
        (All-imp
          (λ owner lower next e c.
            let below = lower next e c in
            find_workload_owner_stable rank falls n m next (omega arith) (omega arith))
          obj.owner_references (falls obj))

  unless_missing-ne-out_of_fuel :
      {A : Type 0} (reply : P.Err ⊎ A) → unless_missing P w reply ≢ out_of_fuel
  unfolding unless_missing
  unless_missing-ne-out_of_fuel (inl e) = ground arith
  unless_missing-ne-out_of_fuel (inr a) = ground arith

  get_workload_ref-ne-out_of_fuel :
      {A : Type 0} (nn : NamespacedName) (kind : Bytes) (reply : P.Err ⊎ A)
      → get_workload_ref P w nn kind reply ≢ out_of_fuel
  unfolding get_workload_ref
  get_workload_ref-ne-out_of_fuel nn kind reply =
      ground (arith, unless_missing-ne-out_of_fuel reply)

  get_intermediate_object-ne-out_of_fuel :
      (nn : NamespacedName) (kind : Bytes) → get_intermediate_object P w nn kind ≢ out_of_fuel
  unfolding get_intermediate_object
  get_intermediate_object-ne-out_of_fuel nn kind = ground (
    arith,
    unless_missing-ne-out_of_fuel (P.get_replica_set w nn),
    unless_missing-ne-out_of_fuel (P.get_controller_revision w nn),
  )

  module _ (find : ObjectMeta → Result P.Err (Option WorkloadRef)) where
    fetch_intermediate_owner-ne-out_of_fuel :
        (nn : NamespacedName) (kind : Bytes)
        → ((next : ObjectMeta)
            → get_intermediate_object P w nn kind ≡ ok (some next)
            → find next ≢ out_of_fuel)
        → fetch_intermediate_owner P w find nn kind ≢ out_of_fuel
    unfolding fetch_intermediate_owner
    fetch_intermediate_owner-ne-out_of_fuel nn kind ends =
        go (get_intermediate_object P w nn kind) refl
      where
        go :
            (reply : Result P.Err (Option ObjectMeta))
            → get_intermediate_object P w nn kind ≡ reply
            → fetch_intermediate_owner P w find nn kind ≢ out_of_fuel
        go (ok (some next)) e = rw e (ends next e)
        go (ok none) e = rw e (cc)
        go (err x) e = rw e (cc)
        go panic e = rw e (cc)
        go out_of_fuel e = absurd (get_intermediate_object-ne-out_of_fuel nn kind e)

    resolve_owner-ne-out_of_fuel :
        (obj : ObjectMeta) (owner : OwnerReference)
        → ((next : ObjectMeta)
            → get_intermediate_object P w (owner_name obj owner) owner.kind ≡ ok (some next)
            → find next ≢ out_of_fuel)
        → resolve_owner P w find obj owner ≢ out_of_fuel
    unfolding resolve_owner
    resolve_owner-ne-out_of_fuel obj owner ends =
        let nn = owner_name obj owner in
        ground (
          arith,
          get_workload_ref-ne-out_of_fuel nn (codes "Deployment") (P.get_deployment w nn),
          get_workload_ref-ne-out_of_fuel nn (codes "StatefulSet") (P.get_stateful_set w nn),
          get_workload_ref-ne-out_of_fuel nn (codes "DaemonSet") (P.get_daemon_set w nn),
          fetch_intermediate_owner-ne-out_of_fuel nn owner.kind ends,
        )

    try_owners-ne-out_of_fuel :
        (obj : ObjectMeta) (owners : List OwnerReference)
        → EachNext (λ next. find next ≢ out_of_fuel) obj owners
        → try_owners P w find obj owners ≢ out_of_fuel
    unfolding try_owners else_next
    try_owners-ne-out_of_fuel obj [] ends = cc
    try_owners-ne-out_of_fuel obj (owner ∷ owners) (ends, rest) =
        elim (Bool-cases (is_controller owner)) [
          | inl c ↦ ground (
            arith,
            try_owners-ne-out_of_fuel obj owners rest,
            resolve_owner-ne-out_of_fuel obj owner (λ next e. ends next e c),
          )
          | inr n ↦ ground (arith, try_owners-ne-out_of_fuel obj owners rest)
        ]

  -- Where the chains fall, a fuel above the rank of an object is enough: the search ends.
  pub find_workload_owner_ends :
      (rank : ObjectMeta → ℕ)
      → Falls rank
      → (n : ℕ) (obj : ObjectMeta) → rank obj < n
      → find_workload_owner P w n obj ≢ out_of_fuel
  unfolding find_workload_owner
  find_workload_owner_ends rank falls zero obj h = absurd (omega arith)
  find_workload_owner_ends rank falls (suc n) obj h =
      try_owners-ne-out_of_fuel (find_workload_owner P w n) obj obj.owner_references (
        All-imp
          (λ owner lower next e c.
            let below = lower next e c in find_workload_owner_ends rank falls n next (omega arith))
          obj.owner_references (falls obj))
