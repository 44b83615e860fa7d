-- ===== src/Scan/Owner/Chain.antt =====
-- What `findWorkloadOwner` finds: a workload at the end of a chain of controller references.
use fortsa.Base.{
  ap, ℕ, zero, suc, Bytes, codes, true, Option, none, some, List, [], ◌∷◌, ◌≡◌, refl, ◌∙◌, ◌==◌,
  eq_iff, ◌⊎◌, inl, inr, Result, ok, >>=-eq-ok, Bool-cases, Exists, Elem, Exists-pick, arith,
}
use fortsa.Kube.{NamespacedName, OwnerReference, ObjectMeta, PodTemplate}
use fortsa.Platform.{Platform}
use fortsa.Scan.Types.{WorkloadRef, get_template}
use fortsa.Scan.Owner.{
  is_controller, get_workload_ref, get_intermediate_object, fetch_intermediate_owner, resolve_owner,
  else_next, try_owners, find_workload_owner,
}

-- The name under which an owner of an object is looked up: in the object's own namespace.
abbrev pub owner_name : ObjectMeta → OwnerReference → NamespacedName
owner_name obj owner = record { namespace = obj.namespace; name = owner.name }

-- A reference to the owner is listed, and marked as the controller's.
abbrev pub IsControlledBy : ObjectMeta → OwnerReference → Type 0
IsControlledBy obj owner = Elem owner obj.owner_references × (is_controller owner ≡ true)

module _ (P : Platform) (w : P.World) where
  -- The workload is there, and is a Deployment, a StatefulSet or a DaemonSet.
  abbrev pub IsWorkload : WorkloadRef → Type 0
  IsWorkload ref = (template : PodTemplate) × (get_template P w ref ≡ some (inr template))

  -- The workload controls the object, directly or through ReplicaSets and ControllerRevisions.
  pub data Controls (ref : WorkloadRef) : ObjectMeta → Type 0 where
    directly :
        {obj : ObjectMeta} (owner : OwnerReference)
        → IsControlledBy obj owner
        → ref ≡ record { namespaced_name = owner_name obj owner; kind = owner.kind }
        → IsWorkload ref
        → Controls ref obj
    through :
        {obj : ObjectMeta} (next : ObjectMeta) (owner : OwnerReference)
        → IsControlledBy obj owner
        → get_intermediate_object P w (owner_name obj owner) owner.kind ≡ ok (some next)
        → Controls ref next
        → Controls ref obj

  get_workload_ref-eq-some :
      {A : Type 0} (nn : NamespacedName) (kind : Bytes) (reply : P.Err ⊎ A) (ref : WorkloadRef)
      → get_workload_ref P w nn kind reply ≡ ok (some ref)
      → (a : A) × (reply ≡ inr a) × (ref ≡ record { namespaced_name = nn; kind = kind })
  unfolding get_workload_ref
  get_workload_ref-eq-some nn kind (inl e) ref h = ground arith
  get_workload_ref-eq-some nn kind (inr a) ref h = (a, refl, cc)

  -- The object is the workload that a reference to the owner names.
  abbrev pub IsOwnerRef : ObjectMeta → OwnerReference → WorkloadRef → Type 0
  IsOwnerRef obj owner ref =
      (ref ≡ record { namespaced_name = owner_name obj owner; kind = owner.kind }) × IsWorkload ref

  get_workload_ref-IsOwnerRef :
      (obj : ObjectMeta) (owner : OwnerReference) (kind : Bytes) (reply : P.Err ⊎ PodTemplate)
      (ref : WorkloadRef)
      → owner.kind ≡ kind
      → get_template P w (record { namespaced_name = owner_name obj owner; kind = owner.kind })
        ≡ some reply
      → get_workload_ref P w (owner_name obj owner) kind reply ≡ ok (some ref)
      → IsOwnerRef obj owner ref
  get_workload_ref-IsOwnerRef obj owner kind reply ref k e h =
      let (template, r, same) = get_workload_ref-eq-some (owner_name obj owner) kind reply ref h in
      let same' : ref ≡ record { namespaced_name = owner_name obj owner; kind = owner.kind } = cc in
      (same', (template, rw same' (cc)))

  module _ (find : ObjectMeta → Result P.Err (Option WorkloadRef)) where
    -- The owner leads on to another object, in which the workload was found.
    abbrev LeadsOn : ObjectMeta → OwnerReference → WorkloadRef → Type 0
    LeadsOn obj owner ref =
        (next : ObjectMeta) × (get_intermediate_object P w (owner_name obj owner) owner.kind
          ≡ ok (some next))
        × (find next ≡ ok (some ref))

    fetch_intermediate_owner-LeadsOn :
        (obj : ObjectMeta) (owner : OwnerReference) (ref : WorkloadRef)
        → fetch_intermediate_owner P w find (owner_name obj owner) owner.kind ≡ ok (some ref)
        → LeadsOn obj owner ref
    unfolding fetch_intermediate_owner
    fetch_intermediate_owner-LeadsOn obj owner ref h =
        let (found, e, f) =
          >>=-eq-ok (get_intermediate_object P w (owner_name obj owner) owner.kind) _ h in
        inspect found e f
      where
        inspect :
            (found : Option ObjectMeta)
            → get_intermediate_object P w (owner_name obj owner) owner.kind ≡ ok found
            → ◌≡◌ {A = Result P.Err (Option WorkloadRef)}
                (elim found [ none ↦ ok none | some next ↦ find next ])
                (ok (some ref))
            → LeadsOn obj owner ref
        inspect none e f = cc
        inspect (some next) e f = (next, e, f)

    resolve_owner_cases :
        (obj : ObjectMeta) (owner : OwnerReference) (ref : WorkloadRef)
        → resolve_owner P w find obj owner ≡ ok (some ref)
        → IsOwnerRef obj owner ref ⊎ LeadsOn obj owner ref
    unfolding get_template resolve_owner
    resolve_owner_cases obj owner ref h = elim (Bool-cases (owner.kind == codes "Deployment")) [
      | inl d ↦ inl (
          get_workload_ref-IsOwnerRef obj owner (codes "Deployment")
            (P.get_deployment w (owner_name obj owner)) ref ((eq_iff _ _).0 d) (rw d) (rw d at h))
      | inr nd ↦ elim (Bool-cases (owner.kind == codes "StatefulSet")) [
        | inl s ↦ inl (
            get_workload_ref-IsOwnerRef obj owner (codes "StatefulSet")
              (P.get_stateful_set w (owner_name obj owner)) ref ((eq_iff _ _).0 s) (rw (nd, s))
              (rw (nd, s) at h))
        | inr ns ↦ elim (Bool-cases (owner.kind == codes "DaemonSet")) [
          | inl s ↦ inl (
              get_workload_ref-IsOwnerRef obj owner (codes "DaemonSet")
                (P.get_daemon_set w (owner_name obj owner)) ref ((eq_iff _ _).0 s) (rw (nd, ns, s))
                (rw (nd, ns, s) at h))
          | inr nds ↦ inr (fetch_intermediate_owner-LeadsOn obj owner ref (ground arith))
        ]
      ]
    ]

    try_owners-eq-some :
        (obj : ObjectMeta) (owners : List OwnerReference) (ref : WorkloadRef)
        → try_owners P w find obj owners ≡ ok (some ref)
        → Exists
            (λ owner.
              (is_controller owner ≡ true) × (resolve_owner P w find obj owner ≡ ok (some ref)))
            owners
    unfolding try_owners else_next
    try_owners-eq-some obj [] ref h = cc
    try_owners-eq-some obj (owner ∷ owners) ref h =
        ground (arith, try_owners-eq-some obj owners ref)

  -- Whatever fuel it is given, a workload that `findWorkloadOwner` returns is there, is of a kind
  -- that can be restarted, and controls the object through a chain of controller references.
  pub find_workload_owner-Controls :
      (fuel : ℕ) (obj : ObjectMeta) (ref : WorkloadRef)
      → find_workload_owner P w fuel obj ≡ ok (some ref)
      → Controls ref obj
  unfolding find_workload_owner
  find_workload_owner-Controls zero obj ref h = cc
  find_workload_owner-Controls (suc n) obj ref h =
      let find = find_workload_owner P w n in
      let (owner, listed, (controller, resolved)) =
        Exists-pick _ obj.owner_references
          (try_owners-eq-some find obj obj.owner_references ref h) in
      elim (resolve_owner_cases find obj owner ref resolved) [
        | inl (same, there) ↦ directly owner (listed, controller) same there
        | inr (next, e, found) ↦
            through next owner (listed, controller) e
              (find_workload_owner-Controls n next ref found)
      ]

-- What `client.Get` documents: the object that it returns stands in the namespace asked for.
pub record GetsInNamespace (P : Platform) (w : P.World) : Type 0 where
  pub replica_set :
      (nn : NamespacedName) (o : ObjectMeta)
      → P.get_replica_set w nn ≡ inr o
      → o.namespace ≡ nn.namespace
  pub controller_revision :
      (nn : NamespacedName) (o : ObjectMeta)
      → P.get_controller_revision w nn ≡ inr o
      → o.namespace ≡ nn.namespace

module _ (P : Platform) (w : P.World) (gets : GetsInNamespace P w) where
  get_intermediate_object-namespace :
      (nn : NamespacedName) (kind : Bytes) (next : ObjectMeta)
      → get_intermediate_object P w nn kind ≡ ok (some next)
      → next.namespace ≡ nn.namespace
  unfolding get_intermediate_object
  get_intermediate_object-namespace nn kind next h =
      ground (arith, gets.replica_set nn next, gets.controller_revision nn next)

  -- A workload stands in the namespace of the objects that it controls.
  pub Controls-namespace :
      {ref : WorkloadRef} {obj : ObjectMeta} → Controls P w ref obj → ref.namespace ≡ obj.namespace
  Controls-namespace (directly owner c same there) = ap (λ (r : WorkloadRef). r.namespace) same
  Controls-namespace {ref} {obj} (through next owner c e found) =
      Controls-namespace found
      ∙ get_intermediate_object-namespace (owner_name obj owner) owner.kind next e
