-- ===== src/Scan/Pods.antt =====
-- `listPods`
pub mod Limited
pub mod Listed
use fortsa.Base.{
  Bytes, codes, none, some, List, [], ◌∷◌, ◌++◌, Result, ok, ◌>>=◌, wrapping, add_keys,
}
use fortsa.Kube.{Pod}
use fortsa.Platform.{Platform, returned}
use fortsa.Scan.Types.{ScanOptions}

module _ (P : Platform) (w : P.World) where
  -- `c.List(ctx, &list, client.InNamespace(ns))`, with its error wrapped.
  unfoldable pub list_namespace : Bytes → Result P.Err (List Pod)
  list_namespace ns = wrapping (codes "list pods in " ++ ns) (returned (P.list_pods w (some ns)))

  -- The loop over the namespaces to which the scan is limited.
  unfoldable pub list_namespaces : List Bytes → List Pod → Result P.Err (List Pod)
  list_namespaces [] items = ok items
  list_namespaces (ns ∷ nss) items = do
    ns_items ← list_namespace ns
    list_namespaces nss (items ++ ns_items)

  unfoldable pub list_pods_limited : List Bytes → Result P.Err (List Pod)
  list_pods_limited [] = wrapping (codes "list pods") (returned (P.list_pods w none))
  list_pods_limited (ns ∷ []) = list_namespace ns
  list_pods_limited (ns ∷ ns' ∷ nss) =
      list_namespaces (P.range_order w (add_keys [] (ns ∷ ns' ∷ nss))) []

  unfoldable pub list_pods : ScanOptions → Result P.Err (List Pod)
  list_pods opts = list_pods_limited opts.limit_to_namespaces
