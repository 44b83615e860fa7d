-- ===== src/Scan/Outdated/Names.antt =====
-- The two variables of the loop of `ScanOutdatedPods`: the names seen are the workloads'.
use fortsa.Base.{
  true, ◌&&◌, Option, none, some, List, [], ◌∷◌, ◌++◌, ◌≡◌, refl, sym, ◌↔◌, ◌⊎◌, inl, inr, ◌==◌,
  eq_iff, Bool-cases, All, All-append, Exists, Exists-append_left, Exists-append_last,
  Exists-append_cases, arith,
}
use fortsa.Kube.{NamespacedName}
use fortsa.Scan.Types.{WorkloadRef}
use fortsa.Scan.Outdated.{was_seen, Progress, add_workload}

name_test_iff :
    (x y : NamespacedName) → ((x.namespace == y.namespace && x.name == y.name) ≡ true) ↔ (x ≡ y)
name_test_iff x y = ground (arith, eq_iff x.namespace y.namespace, eq_iff x.name y.name)

was_seen-cons :
    (x nn : NamespacedName) (xs : List NamespacedName)
    → (was_seen (x ∷ xs) nn ≡ true) ↔ ((x ≡ nn) ⊎ (was_seen xs nn ≡ true))
unfolding was_seen
was_seen-cons x nn xs = ground (arith, name_test_iff x nn)

-- A workload of the name is in the list, of whatever kind.
abbrev pub HasName : NamespacedName → List WorkloadRef → Type 0
HasName nn = Exists (λ ref. ref.namespaced_name ≡ nn)

-- No two workloads of the list have one name.
abbrev pub Distinct : List WorkloadRef → Type 0
Distinct [] = Unit
Distinct (ref ∷ refs) = All (λ r. ¬ (r.namespaced_name ≡ ref.namespaced_name)) refs × Distinct refs

Distinct-append :
    (refs : List WorkloadRef) (ref : WorkloadRef)
    → Distinct refs
    → ¬ HasName ref.namespaced_name refs
    → Distinct (refs ++ ref ∷ [])
Distinct-append [] ref d n = (tt, tt)
Distinct-append (r ∷ refs) ref (fresh, d) n = (
  All-append _ refs (ref ∷ []) fresh (λ e. n (inl (sym e)), tt),
  Distinct-append refs ref d (λ h. n (inr h)),
)

-- `seen` holds the names of the workloads, and these are distinct.
pub record IsProgress (s : Progress) : Type 0 where
  pub names : (nn : NamespacedName) → (was_seen s.seen nn ≡ true) ↔ HasName nn s.workloads
  pub distinct : Distinct s.workloads

pub add_workload-IsProgress :
    (found : Option WorkloadRef) (s : Progress) → IsProgress s → IsProgress (add_workload found s)
unfolding add_workload
add_workload-IsProgress none s p = p
add_workload-IsProgress (some ref) s p = elim (Bool-cases (was_seen s.seen ref.namespaced_name)) [
  | inl old ↦ rw old p
  | inr new ↦ rw new (record {
    names = names;
    distinct =
        Distinct-append s.workloads ref p.distinct (λ h. cc ((p.names ref.namespaced_name).1 h));
  })
]
  where
    names :
        (nn : NamespacedName)
        → (was_seen (ref.namespaced_name ∷ s.seen) nn ≡ true) ↔ HasName nn (s.workloads ++ ref ∷ [])
    names nn = (
      λ h. elim ((was_seen-cons ref.namespaced_name nn s.seen).0 h) [
        | inl e ↦ Exists-append_last _ s.workloads ref e
        | inr old ↦ Exists-append_left _ s.workloads (ref ∷ []) ((p.names nn).0 old)
      ],
      λ h.
          (was_seen-cons ref.namespaced_name nn s.seen).1
            (elim (Exists-append_cases _ s.workloads ref h) [
              | inl old ↦ inr ((p.names nn).1 old)
              | inr e ↦ inl e
            ]),
    )

pub add_workload-HasName_self :
    (ref : WorkloadRef) (s : Progress)
    → IsProgress s
    → HasName ref.namespaced_name (add_workload (some ref) s).workloads
unfolding add_workload
add_workload-HasName_self ref s p = elim (Bool-cases (was_seen s.seen ref.namespaced_name)) [
  | inl old ↦ rw old ((p.names ref.namespaced_name).0 old)
  | inr new ↦ rw new (Exists-append_last _ s.workloads ref refl)
]

pub add_workload-HasName :
    (nn : NamespacedName) (found : Option WorkloadRef) (s : Progress)
    → HasName nn s.workloads
    → HasName nn (add_workload found s).workloads
unfolding add_workload
add_workload-HasName nn none s h = h
add_workload-HasName nn (some ref) s h = elim (Bool-cases (was_seen s.seen ref.namespaced_name)) [
  | inl old ↦ rw old h
  | inr new ↦ rw new (Exists-append_left _ s.workloads (ref ∷ []) h)
]
