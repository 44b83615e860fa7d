-- ===== src/ConfigMaps/Parser/Revision.antt =====
-- The revision of a ConfigMap.
use fortsa.Base.{
  ok_injective, wrapping, inl, Option-cases, false, refl, Bool-cases, is_empty_iff, Bytes, codes,
  Option, none, some, List, [], ◌∷◌, ◌≡◌, ◌≢◌, ok, >>=-eq-ok, is_empty, arith, inr,
}
use fortsa.Base.Dict.{Dict, get}
use fortsa.Constants.{label_istio_rev}
use fortsa.Json.{Fields, object_field}
use fortsa.Kube.{ConfigMap}
use fortsa.Platform.{Platform, returned}
use fortsa.Scan.Types.{nonempty_entry}
use fortsa.Scan.Revision.Precedence.{first_choice}
use fortsa.ConfigMaps.Parser.{
  IstioValues, nonempty_text, global_revision, revision_of, values_of, parse_config_map_values,
}

values_of-revision :
    (values : Fields) (cm : ConfigMap) → (values_of values cm).revision ≡ revision_of values cm
unfolding values_of
values_of-revision values cm = ground arith

-- For a ConfigMap that can be read, the revision is the first that is there of the values' own, the
-- one under "global", the label, and "default".
pub parse_config_map_values-revision :
    (P : Platform) (cm : ConfigMap) (values : Fields)
    → get (codes "values") cm.entries ≢ []
    → P.unmarshal (get (codes "values") cm.entries) ≡ inr values
    → (vals : IstioValues) × (parse_config_map_values P cm ≡ ok vals)
      × (vals.revision
          ≡ first_choice (
              nonempty_text (codes "revision") values
              ∷ global_revision values
              ∷ nonempty_entry label_istio_rev cm.meta.labels
              ∷ some (codes "default")
              ∷ []))
unfolding parse_config_map_values revision_of
parse_config_map_values-revision P cm values full decoded =
    let raw = get (codes "values") cm.entries in
    let nonempty : is_empty raw ≡ false = ground (arith, is_empty_iff raw) in
    (values_of values cm, rw (nonempty, decoded), rw values_of-revision (ground arith))

nonempty_text-ne-nil : (k : Bytes) (m : Fields) (v : Bytes) → nonempty_text k m ≡ some v → v ≢ []
unfolding nonempty_text
nonempty_text-ne-nil k m v h = ground (arith, is_empty_iff v)

nonempty_entry-ne-nil :
    (k : Bytes) (m : Dict Bytes) (v : Bytes) → nonempty_entry k m ≡ some v → v ≢ []
unfolding nonempty_entry
nonempty_entry-ne-nil k m v h = ground (arith, is_empty_iff v)

-- The choices for the revision, in order, before "default".
abbrev choices : Fields → ConfigMap → List (Option Bytes)
choices values cm =
    nonempty_text (codes "revision") values
    ∷ global_revision values
    ∷ nonempty_entry label_istio_rev cm.meta.labels
    ∷ some (codes "default")
    ∷ []

revision_of-eq-first :
    (values : Fields) (cm : ConfigMap) → revision_of values cm ≡ first_choice (choices values cm)
unfolding revision_of
revision_of-eq-first values cm = ground arith

-- A choice that is there is not "".
abbrev IsNonempty : Option Bytes → Type 0
IsNonempty choice = (v : Bytes) → choice ≡ some v → v ≢ []

global_revision-IsNonempty : (values : Fields) → IsNonempty (global_revision values)
unfolding global_revision
global_revision-IsNonempty values v h = elim (Option-cases (object_field (codes "global") values)) [
  | inl absent ↦ cc (rw (absent, global_revision) at h)
  | inr (global, e) ↦
      nonempty_text-ne-nil (codes "revision") global v (rw (e, global_revision) at h)
]

revision_of-ne-nil : (values : Fields) (cm : ConfigMap) → revision_of values cm ≢ []
revision_of-ne-nil values cm = rw revision_of-eq-first (
    pick (nonempty_text (codes "revision") values) (global_revision values)
      (nonempty_entry label_istio_rev cm.meta.labels)
      (nonempty_text-ne-nil (codes "revision") values) (global_revision-IsNonempty values)
      (nonempty_entry-ne-nil label_istio_rev cm.meta.labels))
  where
    pick :
        (a b c : Option Bytes)
        → IsNonempty a
        → IsNonempty b
        → IsNonempty c
        → first_choice (a ∷ b ∷ c ∷ some (codes "default") ∷ []) ≢ []
    pick (some v) b c h k l = h v refl
    pick none (some v) c h k l = k v refl
    pick none none (some v) h k l = l v refl
    pick none none none h k l = cc

-- The revision of a ConfigMap that was read is never "".
pub parse_config_map_values-revision_set :
    (P : Platform) (cm : ConfigMap) (vals : IstioValues)
    → parse_config_map_values P cm ≡ ok vals
    → vals.revision ≢ []
unfolding parse_config_map_values
parse_config_map_values-revision_set P cm vals h =
    let raw = get (codes "values") cm.entries in
    elim (Bool-cases (is_empty raw)) [
      | inl empty ↦ cc (rw empty at h)
      | inr full ↦
          let (values, _, read) =
            >>=-eq-ok (wrapping (codes "failed to parse values JSON") (returned (P.unmarshal raw)))
              _ (rw full at h) in
          let same : values_of values cm ≡ vals = ok_injective read in
          rw (← same, values_of-revision) (revision_of-ne-nil values cm)
    ]
