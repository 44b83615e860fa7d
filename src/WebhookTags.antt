-- ===== src/WebhookTags.antt =====
-- internal/mwc/trigger.go: the maps that are read off the revision tags'
-- MutatingWebhookConfigurations, and the watch's filter.
pub mod Maps
use fortsa.Base.{
  Bytes, codes, Bool, List, [], ◌∷◌, has_prefix, is_empty, ◌||◌, Result, ok, ◌>>=◌, wrapping,
  if◌then◌else◌,
}
use fortsa.Base.Int.{Time}
use fortsa.Base.Dict.{Dict, get, insert}
use fortsa.Constants.{
  istio_system_namespace, reconcile_trigger_name_istio_change, label_istio_rev, label_istio_tag,
}
use fortsa.Kube.{NamespacedName, ObjectMeta, MutatingWebhookConfiguration}
use fortsa.Modified.{get_last_modified}
use fortsa.Platform.{Platform, returned}

abbrev pub istio_revision_tag_prefix : Bytes
istio_revision_tag_prefix = codes "istio-revision-tag-"

abbrev pub reconcile_request : NamespacedName
reconcile_request = record {
  namespace = istio_system_namespace;
  name = reconcile_trigger_name_istio_change;
}

abbrev pub reconcile_request_name : Bytes
reconcile_request_name = reconcile_trigger_name_istio_change

-- The predicate that `Filter` returns.
unfoldable pub filter : ObjectMeta → Bool
filter obj = has_prefix obj.name istio_revision_tag_prefix

-- The two maps that the loop fills.
pub record TagMaps : Type 0 where
  pub tag_to_revision : Dict Bytes
  pub last_modified_by_tag : Dict Time

-- One round of the loop.
unfoldable pub record_tag : MutatingWebhookConfiguration → TagMaps → TagMaps
record_tag mwc maps =
    let tag = get label_istio_tag mwc.meta.labels in
    let revision = get label_istio_rev mwc.meta.labels in
    if has_prefix mwc.meta.name istio_revision_tag_prefix
    then (if is_empty tag || is_empty revision then maps else record {
      tag_to_revision = insert tag revision maps.tag_to_revision;
      last_modified_by_tag = insert tag (get_last_modified mwc) maps.last_modified_by_tag;
    })
    else maps

unfoldable pub record_tags : List MutatingWebhookConfiguration → TagMaps → TagMaps
record_tags [] maps = maps
record_tags (mwc ∷ mwcs) maps = record_tags mwcs (record_tag mwc maps)

unfoldable pub fetch_tag_to_revision_and_last_modified :
    (P : Platform) → P.World → Result P.Err TagMaps
fetch_tag_to_revision_and_last_modified P w = do
  mwcs ←
      wrapping (codes "list MutatingWebhookConfigurations")
        (returned (P.list_webhook_configurations w))
  ok (record_tags mwcs (record { tag_to_revision = []; last_modified_by_tag = [] }))
