-- ===== src/ConfigMaps/Fetch.antt =====
-- internal/configmap/fetch.go and trigger.go: `BuildLastModifiedByRevision`, `ReconcileRequest` and
-- `Filter`.
pub mod Newest
use fortsa.Base.{
  Bytes, codes, Bool, true, false, not, Option, none, some, List, [], ◌∷◌, ◌++◌, ◌==◌, has_prefix,
  Result, ok, err, panic, out_of_fuel, ◌>>=◌, wrapping, if◌then◌else◌,
}
use fortsa.Base.Int.{Time, after}
use fortsa.Base.Dict.{Dict, lookup, insert}
use fortsa.Constants.{
  istio_system_namespace, config_map_name_prefix, reconcile_trigger_name_istio_change,
}
use fortsa.Kube.{NamespacedName, ConfigMap, ObjectMeta}
use fortsa.Modified.{get_config_map_last_modified}
use fortsa.Platform.{Platform, returned}
use fortsa.ConfigMaps.Parser.{IstioValues, parse_config_map_values}

abbrev pub reconcile_request : NamespacedName
reconcile_request = record {
  namespace = istio_system_namespace;
  name = reconcile_trigger_name_istio_change;
}

abbrev pub reconcile_request_name : Bytes
reconcile_request_name = reconcile_trigger_name_istio_change

-- The predicate that `Filter` returns.
unfoldable pub filter : ObjectMeta → Bool
filter obj =
    if obj.namespace == istio_system_namespace
    then has_prefix obj.name config_map_name_prefix
    else false

-- `if existing, ok := result[revision]; !ok || lastModified.After(existing) { result[revision] = … }`
unfoldable pub record_time : Bytes → Time → Dict Time → Dict Time
record_time revision t result = elim (lookup revision result) [
  | none ↦ insert revision t result
  | some existing ↦ if after t existing then insert revision t result else result
]

module _ (P : Platform) where
  -- One round of the loop. An error of the parser passes the ConfigMap over.
  unfoldable pub record_config_map : ConfigMap → Dict Time → Dict Time
  record_config_map cm result =
      if has_prefix cm.meta.name config_map_name_prefix
      then (elim (parse_config_map_values P cm) [
        | ok vals ↦ record_time vals.revision (get_config_map_last_modified cm) result
        | _ ↦ result
      ])
      else result

  unfoldable pub record_config_maps : List ConfigMap → Dict Time → Dict Time
  record_config_maps [] result = result
  record_config_maps (cm ∷ cms) result = record_config_maps cms (record_config_map cm result)

  unfoldable pub build_last_modified_by_revision : P.World → Result P.Err (Dict Time)
  build_last_modified_by_revision w = do
    cms ←
        wrapping (codes "list ConfigMaps in " ++ istio_system_namespace)
          (returned (P.list_config_maps w (some istio_system_namespace)))
    ok (record_config_maps cms [])
