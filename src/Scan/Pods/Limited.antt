-- ===== src/Scan/Pods/Limited.antt =====
-- What a listing limited to several namespaces holds.
use fortsa.Base.{
  All-split, All-at, Bytes, true, some, List, [], ◌∷◌, ◌++◌, ◌≡◌, ◌≢◌, inl, inr, ◌⊎◌, ok, >>=-eq-ok,
  wrapping-eq-ok, ok_injective, All, Elem, All-self, contains, add_keys, add_keys-contains, codes,
  eq_iff, arith,
}
use fortsa.Kube.{Pod}
use fortsa.Platform.{Platform, returned}
use fortsa.Scan.Types.{ScanOptions}
use fortsa.Scan.Pods.{list_namespace, list_namespaces, list_pods_limited, list_pods}

pub contains-Elem : (xs : List Bytes) (x : Bytes) → contains xs x ≡ true → Elem x xs
unfolding contains
contains-Elem [] x h = cc
contains-Elem (y ∷ ys) x h = ground (arith, eq_iff y x, contains-Elem ys x)

module _ (P : Platform) (w : P.World) where
  -- The pods that the namespace lists are all there.
  abbrev pub HoldsNamespace : List Pod → Bytes → Type 0
  HoldsNamespace pods ns =
      (listed : List Pod) × (P.list_pods w (some ns) ≡ inr listed)
      × All (λ pod. Elem pod pods) listed

  -- The answer to a listing that succeeds.
  listed_by :
      (reply : P.Err ⊎ List Pod) (pods : List Pod) → returned reply ≡ ok pods → reply ≡ inr pods
  listed_by (inl e) pods h = cc
  listed_by (inr listed) pods h = cc

  pub list_namespace-eq :
      (ns : Bytes) (pods : List Pod)
      → list_namespace P w ns ≡ ok pods
      → P.list_pods w (some ns) ≡ inr pods
  unfolding list_namespace
  list_namespace-eq ns pods h =
      listed_by (P.list_pods w (some ns)) pods
        (wrapping-eq-ok (codes "list pods in " ++ ns) (returned (P.list_pods w (some ns))) h)

  list_namespaces-Holds :
      (nss : List Bytes) (items pods : List Pod)
      → list_namespaces P w nss items ≡ ok pods
      → All (λ pod. Elem pod pods) items × All (HoldsNamespace pods) nss
  unfolding list_namespaces
  list_namespaces-Holds [] items pods h =
      let same : items ≡ pods = ok_injective h in (rw (← same) (All-self items), tt)
  list_namespaces-Holds (ns ∷ nss) items pods h =
      let (listed, found, rest) =
        >>=-eq-ok (list_namespace P w ns) (λ more. list_namespaces P w nss (items ++ more)) h in
      let (held, others) = list_namespaces-Holds nss (items ++ listed) pods rest in
      let (here, more) = All-split (λ pod. Elem pod pods) items listed held in
      (here, ((listed, list_namespace-eq ns listed found, more), others))

  -- A listing that is limited to several namespaces, and succeeds, holds all the pods that each of
  -- them lists, the empty name apart, where ranging over a set visits each of its members.
  pub list_pods-HoldsNamespace :
      (opts : ScanOptions) (pods : List Pod) (first second : Bytes) (others : List Bytes)
      → opts.limit_to_namespaces ≡ first ∷ second ∷ others
      → ((keys : List Bytes) (k : Bytes) → Elem k keys → Elem k (P.range_order w keys))
      → list_pods P w opts ≡ ok pods
      → (ns : Bytes) → Elem ns opts.limit_to_namespaces
      → ns ≢ []
      → HoldsNamespace pods ns
  unfolding list_pods list_pods_limited
  list_pods-HoldsNamespace opts pods first second others limit visits h ns there nonempty =
      let keys = add_keys [] opts.limit_to_namespaces in
      let kept = add_keys-contains [] opts.limit_to_namespaces ns nonempty there in
      let visited = visits keys ns (contains-Elem keys ns kept) in
      let ran : list_namespaces P w (P.range_order w keys) [] ≡ ok pods =
        rw limit (rw (list_pods, limit, list_pods_limited) at h) in
      All-at (HoldsNamespace pods) (P.range_order w keys) ns
        (list_namespaces-Holds (P.range_order w keys) [] pods ran).1 visited
