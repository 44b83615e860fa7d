-- ===== src/ConfigMaps/Parser.antt =====
-- internal/configmap/configmap_parser.go: `IstioValues` and `ParseConfigMapValues`.
pub mod Revision
use fortsa.Base.{
  Bytes, codes, Option, none, some, List, [], ◌∷◌, ◌++◌, ◌≡◌, ◌≢◌, refl, is_empty, Result, ok, err,
  message, wrapping, ◌>>=◌, if◌then◌else◌, arith,
}
use fortsa.Base.Dict.{lookup, get}
use fortsa.Constants.{label_istio_rev}
use fortsa.Json.{Fields, text_field, object_field}
use fortsa.Kube.{ConfigMap}
use fortsa.Platform.{Platform, returned}
use fortsa.Scan.Types.{nonempty_entry}

pub record IstioValues : Type 0 where
  pub revision : Bytes
  pub hub : Bytes
  pub tag : Bytes
  pub image : Bytes

-- `v, ok := m[k].(string); ok && v != ""`
unfoldable pub nonempty_text : Bytes → Fields → Option Bytes
nonempty_text k m = elim (text_field k m) [
  | none ↦ none
  | some v ↦ if is_empty v then none else some v
]

-- The text of a field, or "".
unfoldable pub text_or_empty : Bytes → Fields → Bytes
text_or_empty k m = elim (text_field k m) [ none ↦ [] | some v ↦ v ]

-- `global["revision"]`, where `global` is an object.
unfoldable pub global_revision : Fields → Option Bytes
global_revision values = elim (object_field (codes "global") values) [
  | none ↦ none
  | some global ↦ nonempty_text (codes "revision") global
]

unfoldable pub revision_of : Fields → ConfigMap → Bytes
revision_of values cm = elim (nonempty_text (codes "revision") values) [
  | some v ↦ v
  | none ↦ elim (global_revision values) [
    | some v ↦ v
    | none ↦ elim (nonempty_entry label_istio_rev cm.meta.labels) [
      | some v ↦ v
      | none ↦ codes "default"
    ]
  ]
]

unfoldable pub values_of : Fields → ConfigMap → IstioValues
values_of values cm = elim (object_field (codes "global") values) [
  | none ↦ record { revision = revision_of values cm; hub = []; tag = []; image = [] }
  | some global ↦ record {
    revision = revision_of values cm;
    hub = text_or_empty (codes "hub") global;
    tag = text_or_empty (codes "tag") global;
    image = elim (object_field (codes "proxy") global) [
      | none ↦ []
      | some proxy ↦ text_or_empty (codes "image") proxy
    ];
  }
]

-- The error for a ConfigMap without values.
abbrev no_values : ConfigMap → Bytes
no_values cm =
    codes "ConfigMap "
    ++ (cm.meta.namespace ++ (codes "/" ++ (cm.meta.name ++ codes " has no 'values' key")))

unfoldable pub parse_config_map_values : (P : Platform) → ConfigMap → Result P.Err IstioValues
parse_config_map_values P cm =
    let raw = get (codes "values") cm.entries in
    if is_empty raw then err (message (no_values cm)) else do
      values ← wrapping (codes "failed to parse values JSON") (returned (P.unmarshal raw))
      ok (values_of values cm)
