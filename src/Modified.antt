-- ===== src/Modified.antt =====
-- The time of an object's last change: `GetConfigMapLastModified` of
-- internal/configmap/configmap_parser.go and `getLastModified` of internal/mwc/trigger.go.
use fortsa.Base.{
  Option, none, some, List, [], ◌∷◌, ◌≡◌, ◌∙◌, refl, ◌⊎◌, inl, inr, All, Exists, if◌then◌else◌,
  arith,
}
use fortsa.Base.Int.{Time, after, ◌≤ℤ◌}
use fortsa.Kube.{ObjectMeta, ConfigMap, MutatingWebhookConfiguration}

-- `mf.Time != nil && mf.Time.After(latest)`
unfoldable pub later_of : Time → Option Time → Time
later_of latest none = latest
later_of latest (some t) = if after t latest then t else latest

-- The loop over `managedFields`.
unfoldable pub latest_from : Time → List (Option Time) → Time
latest_from latest [] = latest
latest_from latest (mf ∷ mfs) = latest_from (later_of latest mf) mfs

unfoldable pub last_modified : ObjectMeta → Time
unfolding latest_from later_of
last_modified meta = latest_from meta.creation_timestamp meta.managed_fields

unfoldable pub get_config_map_last_modified : ConfigMap → Time
unfolding last_modified
get_config_map_last_modified cm = last_modified cm.meta

unfoldable pub get_last_modified : MutatingWebhookConfiguration → Time
unfolding last_modified
get_last_modified mwc = last_modified mwc.meta

-- A time that is there is at most the bound.
abbrev pub AtMost : Time → Option Time → Type 0
AtMost bound none = Unit
AtMost bound (some t) = t ≤ℤ bound

later_of_bounds :
    (latest : Time) (mf : Option Time)
    → (latest ≤ℤ later_of latest mf) × AtMost (later_of latest mf) mf
unfolding later_of
later_of_bounds latest none = ground arith
later_of_bounds latest (some t) = ground arith

≤ℤ-trans : (a b c : Time) → a ≤ℤ b → b ≤ℤ c → a ≤ℤ c
≤ℤ-trans a b c h k = omega arith

AtMost-mono : (a b : Time) (mf : Option Time) → a ≤ℤ b → AtMost a mf → AtMost b mf
AtMost-mono a b none h k = tt
AtMost-mono a b (some t) h k = omega arith

latest_from_bounds :
    (latest : Time) (mfs : List (Option Time))
    → (latest ≤ℤ latest_from latest mfs) × All (AtMost (latest_from latest mfs)) mfs
unfolding latest_from
latest_from_bounds latest [] = ground arith
latest_from_bounds latest (mf ∷ mfs) =
    let (low, all) = latest_from_bounds (later_of latest mf) mfs in
    let (up, here) = later_of_bounds latest mf in
    (
      ≤ℤ-trans latest (later_of latest mf) _ up low,
      (AtMost-mono (later_of latest mf) _ mf low here, all),
    )

latest_from_source :
    (latest : Time) (mfs : List (Option Time))
    → (latest_from latest mfs ≡ latest) ⊎ Exists (λ mf. mf ≡ some (latest_from latest mfs)) mfs
unfolding latest_from
latest_from_source latest [] = inl refl
latest_from_source latest (mf ∷ mfs) = elim (latest_from_source (later_of latest mf) mfs) [
  | inl same ↦ elim (later_of_source latest mf) [
    | inl old ↦ inl (same ∙ old)
    | inr new ↦ inr (inl (rw same new))
  ]
  | inr later ↦ inr (inr later)
]
  where
    later_of_source :
        (latest : Time) (mf : Option Time)
        → (later_of latest mf ≡ latest) ⊎ (mf ≡ some (later_of latest mf))
    later_of_source latest none = unfold later_of in inl refl
    later_of_source latest (some t) = unfold later_of in ground arith

-- The last change is the latest of the creation and the recorded times: it is one of these, and
-- none of these is later.
pub last_modified_latest :
    (meta : ObjectMeta)
    → ((last_modified meta ≡ meta.creation_timestamp)
        ⊎ Exists (λ mf. mf ≡ some (last_modified meta)) meta.managed_fields)
      × (meta.creation_timestamp ≤ℤ last_modified meta)
      × All (AtMost (last_modified meta)) meta.managed_fields
unfolding last_modified
last_modified_latest meta =
    let (low, all) = latest_from_bounds meta.creation_timestamp meta.managed_fields in
    (latest_from_source meta.creation_timestamp meta.managed_fields, low, all)
