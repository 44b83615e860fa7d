-- ===== src/Platform.antt =====
-- What the program runs on and does not implement: the API server behind controller-runtime's
-- client, the clock, and the context whose cancellation ends a wait. `World` is the state of all
-- this at one moment. A read leaves it alone; a patch and a wait return the world after them, in
-- which anything may have changed.
use fortsa.Base.{Bytes, Bool, Option, List, ◌⊎◌, inl, inr, Result, ok, err, outside}
use fortsa.Base.Int.{Time, Duration}
use fortsa.Json.{Json, Fields}
use fortsa.Kube.{
  NamespacedName, ObjectMeta, Pod, PodTemplate, ConfigMap, MutatingWebhookConfiguration,
}

pub record Platform : Type 1 where
  pub World : Type 0
  pub Err : Type 0
  -- `errors.IsNotFound` and `errors.IsConflict`
  pub is_not_found : Err → Bool
  pub is_conflict : Err → Bool
  -- `client.Get`; of a workload, its pod template.
  pub get_deployment : World → NamespacedName → Err ⊎ PodTemplate
  pub get_stateful_set : World → NamespacedName → Err ⊎ PodTemplate
  pub get_daemon_set : World → NamespacedName → Err ⊎ PodTemplate
  pub get_replica_set : World → NamespacedName → Err ⊎ ObjectMeta
  pub get_controller_revision : World → NamespacedName → Err ⊎ ObjectMeta
  pub get_namespace : World → NamespacedName → Err ⊎ ObjectMeta
  pub get_webhook_configuration : World → NamespacedName → Err ⊎ MutatingWebhookConfiguration
  -- `client.List`, with the namespace of `client.InNamespace` where it is given.
  pub list_pods : World → Option Bytes → Err ⊎ List Pod
  pub list_config_maps : World → Option Bytes → Err ⊎ List ConfigMap
  pub list_webhook_configurations : World → Err ⊎ List MutatingWebhookConfiguration
  -- `client.Patch` with a merge patch.
  pub patch_deployment : World → NamespacedName → Bytes → World × Option Err
  pub patch_stateful_set : World → NamespacedName → Bytes → World × Option Err
  pub patch_daemon_set : World → NamespacedName → Bytes → World × Option Err
  -- The order in which `range` visits the keys of a map, which Go leaves open.
  pub range_order : World → List Bytes → List Bytes
  -- `json.Marshal` of a value built from maps and texts, and `json.Unmarshal` into a map.
  pub marshal : Json → Err ⊎ Bytes
  pub unmarshal : Bytes → Err ⊎ Fields
  -- `t.UTC().Format(time.RFC3339)`, and `time.Parse` of that layout
  pub format_rfc3339 : Time → Bytes
  pub parse_rfc3339 : Bytes → Option Time
  -- `time.Now`
  pub now : World → Time
  -- `select { case <-ctx.Done(): return ctx.Err(); case <-time.After(d): return nil }`
  pub wait : World → Duration → World × Option Err

-- An error of the platform as it is returned.
abbrev pub returned : {E A : Type 0} → E ⊎ A → Result E A
returned (inl e) = err (outside e)
returned (inr a) = ok a
