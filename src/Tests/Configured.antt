-- ===== src/Tests/Configured.antt =====
-- The configuration that is read off a cluster, and the theorems of the readers there.
use fortsa.Base.{
  Bytes, codes, none, some, [], ◌∷◌, ◌≡◌, ◌⊎◌, inr, refl, ok, All, Exists, ◌==◌, has_prefix,
}
use fortsa.Base.Int.{Time, pos, ◌≤ℤ◌}
use fortsa.Base.Dict.{lookup, insert}
use fortsa.Constants.{label_istio_rev, label_istio_tag}
use fortsa.Json.{Fields}
use fortsa.Json.{nil, field, text}
use fortsa.Kube.{ConfigMap, MutatingWebhookConfiguration}
use fortsa.Platform.{Platform}
use fortsa.Modified.{last_modified, get_config_map_last_modified}
use fortsa.ConfigMaps.Parser.{nonempty_text, global_revision, parse_config_map_values}
use fortsa.Scan.Types.{nonempty_entry}
use fortsa.ConfigMaps.Fetch.{build_last_modified_by_revision}
use fortsa.ConfigMaps.Fetch.Newest.{IsOfRevision, build_last_modified-newest}
use fortsa.WebhookTags.{TagMaps, fetch_tag_to_revision_and_last_modified}
use fortsa.WebhookTags.Maps.{IsTagFor, IsBacked, fetch_tags_together}
use fortsa.ConfigMaps.Fetch.{record_config_maps, record_config_map, record_time}
use fortsa.ConfigMaps.Parser.{values_of, revision_of, text_or_empty}
use fortsa.Json.{text_field, object_field, get_field}
use fortsa.Modified.{latest_from, later_of, get_last_modified}
use fortsa.WebhookTags.{record_tags, record_tag}
use fortsa.Tests.Sample.{meta_of, sample}

abbrev values : Fields
values = field (codes "revision") (text (codes "1-20")) nil

abbrev injector_map : ConfigMap
injector_map = record {
  meta = record (meta_of (codes "istio-system") (codes "istio-sidecar-injector-1-20") []) {
    managed_fields = none ∷ some (pos 150) ∷ some (pos 120) ∷ [];
  };
  entries = (codes "values", codes "{}") ∷ [];
}

abbrev canary_tag : MutatingWebhookConfiguration
canary_tag = record {
  meta = record (meta_of [] (codes "istio-revision-tag-canary") []) {
    labels = (label_istio_tag, codes "canary") ∷ (label_istio_rev, codes "1-20") ∷ [];
  };
  webhooks = [];
}

abbrev pub configured : Platform
configured = record sample {
  list_config_maps = λ w ns. inr (injector_map ∷ []);
  list_webhook_configurations = λ w. inr (canary_tag ∷ []);
  unmarshal = λ s. inr values;
}

-- The line of every test that reads the configuration.
unfoldable pub configurations : Unit {0}
unfolding build_last_modified_by_revision record_config_maps record_config_map record_time
    parse_config_map_values values_of revision_of global_revision nonempty_text text_or_empty
    text_field object_field get_field nonempty_entry get_config_map_last_modified last_modified
    latest_from later_of fetch_tag_to_revision_and_last_modified record_tags record_tag
    get_last_modified lookup insert has_prefix ◌==◌
configurations = tt

map_parsed :
    parse_config_map_values configured injector_map
    ≡ ok (record { revision = codes "1-20"; hub = []; tag = []; image = [] })
unfolding configurations
map_parsed = refl

times_read : build_last_modified_by_revision configured 0 ≡ ok ((codes "1-20", pos 150) ∷ [])
unfolding configurations
times_read = refl

build_last_modified-newest_example :
    All
      (λ cm.
        IsOfRevision configured (codes "1-20") cm
        → (t : Time) × (lookup (codes "1-20") ((codes "1-20", pos 150) ∷ []) ≡ some t)
          × (get_config_map_last_modified cm ≤ℤ t))
      (injector_map ∷ [])
    × ((t : Time)
        → lookup (codes "1-20") ((codes "1-20", pos 150) ∷ []) ≡ some t
        → Exists
            (λ cm.
              IsOfRevision configured (codes "1-20") cm × (get_config_map_last_modified cm ≡ t))
            (injector_map ∷ []))
build_last_modified-newest_example =
    build_last_modified-newest configured (codes "1-20") 0 (injector_map ∷ [])
      ((codes "1-20", pos 150) ∷ []) refl times_read

abbrev canary_maps : TagMaps
canary_maps = record {
  tag_to_revision = (codes "canary", codes "1-20") ∷ [];
  last_modified_by_tag = (codes "canary", pos 100) ∷ [];
}

tags_read : fetch_tag_to_revision_and_last_modified configured 0 ≡ ok canary_maps
unfolding configurations
tags_read = refl

fetch_tags_together_example :
    IsBacked (codes "canary") (canary_tag ∷ []) canary_maps
    ⊎ ((lookup (codes "canary") canary_maps.tag_to_revision ≡ none)
        × (lookup (codes "canary") canary_maps.last_modified_by_tag ≡ none)
        × All
            (λ mwc. (revision : Bytes) → ¬ IsTagFor (codes "canary") revision mwc)
            (canary_tag ∷ []))
fetch_tags_together_example =
    fetch_tags_together configured 0 (canary_tag ∷ []) canary_maps (codes "canary") refl tags_read
