-- ===== src/Scan/Pods/Listed.antt =====
-- Which pods a listing limited to namespaces holds.
use fortsa.Base.{
  Bool-cases, All-at, add_keys, contains, is_empty, ◌||◌, add_keys-contains, if◌then◌else◌, All,
  ◌≢◌, sym, subst, Bytes, some, List, [], ◌∷◌, ◌++◌, ◌≡◌, ◌↔◌, refl, inl, inr, ◌⊎◌, ok, >>=-eq-ok,
  ok_injective, Elem, Elem-append,
}
use fortsa.Kube.{Pod}
use fortsa.Scan.Types.{ScanOptions}
use fortsa.Platform.{Platform}
use fortsa.Scan.Pods.{list_pods_limited, list_pods, list_namespace, list_namespaces}
use fortsa.Scan.Pods.Limited.{contains-Elem, list_namespace-eq}

module _ (P : Platform) (w : P.World) where
  -- A namespace of the list lists the pod.
  abbrev pub ListedIn : List Bytes → Pod → Type 0
  ListedIn nss pod =
      (ns : Bytes) × Elem ns nss
      × ((listed : List Pod) × (P.list_pods w (some ns) ≡ inr listed) × Elem pod listed)

  ListedIn-cons :
      (ns : Bytes) (nss : List Bytes) (listed : List Pod) (pod : Pod)
      → P.list_pods w (some ns) ≡ inr listed
      → ListedIn (ns ∷ nss) pod ↔ (Elem pod listed ⊎ ListedIn nss pod)
  ListedIn-cons ns nss listed pod e = (
    λ (other, m, (found, f, there)). elim m [
      | inl same ↦ let one : found ≡ listed = cc in inl (subst (Elem pod) one there)
      | inr m' ↦ inr (other, m', (found, f, there))
    ],
    λ h. elim h [
      | inl m ↦ (ns, inl refl, (listed, e, m))
      | inr (other, m, rest) ↦ (other, inr m, rest)
    ],
  )

  list_namespaces-Listed :
      (nss : List Bytes) (items pods : List Pod) (pod : Pod)
      → list_namespaces P w nss items ≡ ok pods
      → Elem pod pods ↔ (Elem pod items ⊎ ListedIn nss pod)
  unfolding list_namespaces
  list_namespaces-Listed [] items pods pod h =
      let same : items ≡ pods = ok_injective h in
      (
        λ m. inl (subst (Elem pod) (sym same) m),
        λ x. elim x [ inl m ↦ subst (Elem pod) same m | inr (ns, m, _) ↦ absurd m ],
      )
  list_namespaces-Listed (ns ∷ nss) items pods pod h =
      let (listed, found, rest) =
        >>=-eq-ok (list_namespace P w ns) (λ more. list_namespaces P w nss (items ++ more)) h in
      let all = list_namespaces-Listed nss (items ++ listed) pods pod rest in
      let both = Elem-append items listed pod in
      let here = ListedIn-cons ns nss listed pod (list_namespace-eq P w ns listed found) in
      (
        λ m. elim (all.0 m) [
          | inl n ↦ elim (both.0 n) [ inl old ↦ inl old | inr new ↦ inr (here.1 (inl new)) ]
          | inr later ↦ inr (here.1 (inr later))
        ],
        λ x. elim x [
          | inl old ↦ all.1 (inl (both.1 (inl old)))
          | inr l ↦ elim (here.0 l) [
            | inl new ↦ all.1 (inl (both.1 (inr new)))
            | inr later ↦ all.1 (inr later)
          ]
        ],
      )

add_keys-Elem_only :
    (set ks : List Bytes) (j : Bytes) → Elem j (add_keys set ks) → Elem j set ⊎ Elem j ks
unfolding add_keys
add_keys-Elem_only set [] j m = inl m
add_keys-Elem_only set (k ∷ ks) j m =
    elim (add_keys-Elem_only (if is_empty k || contains set k then set else set ++ k ∷ []) ks j m) [
      | inl old ↦ elim (Bool-cases (is_empty k || contains set k)) [
        | inl skip ↦ inl (rw skip at old)
        | inr new ↦ elim ((Elem-append set (k ∷ []) j).0 (rw new at old)) [
          | inl o ↦ inl o
          | inr n ↦ elim n [ inl e ↦ inr (inl e) | inr none_left ↦ absurd none_left ]
        ]
      ]
      | inr later ↦ inr (inr later)
    ]

-- The set of names that are not empty has these and no others.
add_keys-Elem :
    (ks : List Bytes) (j : Bytes) → All (λ k. k ≢ []) ks → Elem j (add_keys [] ks) ↔ Elem j ks
add_keys-Elem ks j full = (
  λ m. elim (add_keys-Elem_only [] ks j m) [ inl none_there ↦ absurd none_there | inr n ↦ n ],
  λ m.
      contains-Elem (add_keys [] ks) j
        (add_keys-contains [] ks j (All-at (λ k. k ≢ []) ks j full m) m),
)

module _ (P : Platform) (w : P.World) where
  -- Ranging over the keys of a map visits these and no others.
  abbrev pub RangesOver : Type 0
  RangesOver = (keys : List Bytes) (k : Bytes) → Elem k (P.range_order w keys) ↔ Elem k keys

  pub ListedIn-same :
      (nss nss' : List Bytes) (pod : Pod)
      → ((ns : Bytes) → Elem ns nss → Elem ns nss')
      → ListedIn P w nss pod
      → ListedIn P w nss' pod
  ListedIn-same nss nss' pod sub (ns, m, listed) = (ns, sub ns m, listed)

  -- A listing that is limited to some namespaces, none of them with an empty name, and that
  -- succeeds, holds exactly the pods that these namespaces list, where ranging over a map visits
  -- its keys and no others.
  pub list_pods-Listed :
      (opts : ScanOptions) (pods : List Pod) (pod : Pod)
      → opts.limit_to_namespaces ≢ []
      → All (λ ns. ns ≢ []) opts.limit_to_namespaces
      → RangesOver
      → list_pods P w opts ≡ ok pods
      → Elem pod pods ↔ ListedIn P w opts.limit_to_namespaces pod
  unfolding list_pods
  list_pods-Listed opts pods pod some_limit full ranges h =
      go opts.limit_to_namespaces some_limit full h
    where
      go :
          (limit : List Bytes)
          → limit ≢ []
          → All (λ ns. ns ≢ []) limit
          → list_pods_limited P w limit ≡ ok pods
          → Elem pod pods ↔ ListedIn P w limit pod
      go [] n f e = absurd (n refl)
      go (ns ∷ []) n f e =
          let found = list_namespace-eq P w ns pods (unfold list_pods_limited in e) in
          let all = ListedIn-cons P w ns [] pods pod found in
          (λ m. all.1 (inl m), λ l. elim (all.0 l) [ inl m ↦ m | inr (other, m, _) ↦ absurd m ])
      go (ns ∷ ns' ∷ nss) n f e =
          let set = add_keys [] (ns ∷ ns' ∷ nss) in
          let all =
            list_namespaces-Listed P w (P.range_order w set) [] pods pod
              (unfold list_pods_limited in e) in
          let into = λ (k : Bytes) (m : Elem k (P.range_order w set)).
            (add_keys-Elem (ns ∷ ns' ∷ nss) k f).0 ((ranges set k).0 m) in
          let back = λ (k : Bytes) (m : Elem k (ns ∷ ns' ∷ nss)).
            (ranges set k).1 ((add_keys-Elem (ns ∷ ns' ∷ nss) k f).1 m) in
          (
            λ m. elim (all.0 m) [
              | inl none_there ↦ absurd none_there
              | inr l ↦ ListedIn-same (P.range_order w set) (ns ∷ ns' ∷ nss) pod into l
            ],
            λ l. all.1 (inr (ListedIn-same (ns ∷ ns' ∷ nss) (P.range_order w set) pod back l)),
          )
