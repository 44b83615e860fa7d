-- ===== src/Tests/Limits.antt =====
-- Scans that are limited to namespaces, and the theorems on them.
use fortsa.Base.{Bytes, Elem, ◌↔◌, codes, some, List, [], ◌∷◌, ◌≡◌, ◌↔◌, refl, ok, arith}
use fortsa.Scan.Pods.{list_pods}
use fortsa.Scan.Types.{ScanOptions}
use fortsa.Scan.Outdated.{scan_outdated_pods}
use fortsa.Scan.Outdated.Names.{HasName}
use fortsa.Scan.Pods.Listed.{RangesOver, ListedIn, list_pods-Listed}
use fortsa.Scan.Outdated.Order.{scan_limit_set}
use fortsa.Tests.Sample.{web_pod, sample, injector, web, config, options}
use fortsa.Tests.Scans.{scans}

abbrev two_namespaces : ScanOptions
two_namespaces = record options { limit_to_namespaces = codes "cart" ∷ codes "shop" ∷ [] }

both_listed : list_pods sample 0 two_namespaces ≡ ok (web_pod ∷ web_pod ∷ [])
unfolding scans
both_listed = refl

sample-RangesOver : RangesOver sample 0
sample-RangesOver keys k = (λ m. m, λ m. m)

list_pods-Listed_example :
    Elem web_pod (web_pod ∷ web_pod ∷ [])
    ↔ ListedIn sample 0 two_namespaces.limit_to_namespaces web_pod
list_pods-Listed_example =
    list_pods-Listed sample 0 two_namespaces (web_pod ∷ web_pod ∷ []) web_pod (cc) (cc, (cc, tt))
      sample-RangesOver both_listed

-- The namespaces in another order, one of them twice.
abbrev turned : List Bytes
turned = codes "shop" ∷ codes "cart" ∷ codes "shop" ∷ []

limited_found : scan_outdated_pods sample (some injector) 3 0 config two_namespaces ≡ ok (web ∷ [])
unfolding scans
limited_found = refl

turned_found :
    scan_outdated_pods sample
      (some injector)
      3
      0
      config
      (record two_namespaces { limit_to_namespaces = turned })
    ≡ ok (web ∷ [])
unfolding scans
turned_found = refl

turned_same : (ns : Bytes) → Elem ns two_namespaces.limit_to_namespaces ↔ Elem ns turned
turned_same ns = ground arith

scan_limit_set_example :
    HasName web.namespaced_name (web ∷ []) ↔ HasName web.namespaced_name (web ∷ [])
scan_limit_set_example =
    scan_limit_set sample injector 3 0 config two_namespaces turned (web ∷ []) (web ∷ [])
      sample-RangesOver (cc) (cc) (cc, (cc, tt)) (cc, (cc, (cc, tt))) turned_same limited_found
      turned_found web.namespaced_name
