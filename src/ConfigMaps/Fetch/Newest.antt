-- ===== src/ConfigMaps/Fetch/Newest.antt =====
-- What the map of times holds for a revision.
use fortsa.Base.{
  Bytes, true, some, List, [], ◌∷◌, ◌≡◌, refl, ◌⊎◌, inl, inr, ◌==◌, eq_iff, has_prefix, Result, ok,
  ok_injective, All, Exists, Bool-cases, Option-cases, eq_refl, arith,
}
use fortsa.Base.Int.{Time, after, ◌≤ℤ◌}
use fortsa.Base.Dict.{Dict, lookup, lookup-insert}
use fortsa.Constants.{istio_system_namespace, config_map_name_prefix}
use fortsa.Kube.{ConfigMap}
use fortsa.Modified.{get_config_map_last_modified}
use fortsa.Platform.{Platform}
use fortsa.ConfigMaps.Parser.{IstioValues, parse_config_map_values}
use fortsa.ConfigMaps.Fetch.{
  record_time, record_config_map, record_config_maps, build_last_modified_by_revision,
}

-- The map holds a time for the revision that is no earlier than the one given.
abbrev HoldsAtLeast : Bytes → Time → Dict Time → Type 0
HoldsAtLeast r u m = (t : Time) × (lookup r m ≡ some t) × (u ≤ℤ t)

record_time-keeps :
    (r revision : Bytes) (u t : Time) (m : Dict Time)
    → lookup r m ≡ some u
    → HoldsAtLeast r u (record_time revision t m)
unfolding record_time
record_time-keeps r revision u t m h = elim (Bool-cases (revision == r)) [
  | inl same ↦ elim (Bool-cases (after t u)) [
    | inl later ↦ (t, ground (arith, eq_iff revision r, lookup-insert revision r t m), ground arith)
    | inr early ↦ (u, ground (arith, eq_iff revision r, lookup-insert revision r t m), ground arith)
  ]
  | inr other ↦ (u, ground (arith, lookup-insert revision r t m), ground arith)
]

record_time_here : (r : Bytes) (t : Time) (m : Dict Time) → HoldsAtLeast r t (record_time r t m)
unfolding record_time
record_time_here r t m = elim (Option-cases (lookup r m)) [
  | inl absent ↦ (t, ground (arith, eq_refl r, lookup-insert r r t m), ground arith)
  | inr (u, e) ↦ elim (Bool-cases (after t u)) [
    | inl later ↦ (t, ground (arith, eq_refl r, lookup-insert r r t m), ground arith)
    | inr early ↦ (u, ground arith, ground arith)
  ]
]

record_time-source :
    (r revision : Bytes) (t u : Time) (m : Dict Time)
    → lookup r (record_time revision t m) ≡ some u
    → (lookup r m ≡ some u) ⊎ ((revision ≡ r) × (t ≡ u))
unfolding record_time
record_time-source r revision t u m h =
    ground (arith, eq_iff revision r, lookup-insert revision r t m)

module _ (P : Platform) (r : Bytes) where
  -- The ConfigMap is an injector's, can be read, and is of the revision.
  abbrev pub IsOfRevision : ConfigMap → Type 0
  IsOfRevision cm =
      (has_prefix cm.meta.name config_map_name_prefix ≡ true)
      × ((vals : IstioValues) × (parse_config_map_values P cm ≡ ok vals) × (vals.revision ≡ r))

  record_config_map-keeps :
      (cm : ConfigMap) (u : Time) (m : Dict Time)
      → lookup r m ≡ some u
      → HoldsAtLeast r u (record_config_map P cm m)
  unfolding record_config_map
  record_config_map-keeps cm u m h =
      elim (Bool-cases (has_prefix cm.meta.name config_map_name_prefix)) [
        | inl named ↦ rw named (go (parse_config_map_values P cm))
        | inr other ↦ rw other (u, h, ground arith)
      ]
    where
      go :
          (parsed : Result P.Err IstioValues)
          → HoldsAtLeast r u (elim parsed [
            | ok vals ↦ record_time vals.revision (get_config_map_last_modified cm) m
            | _ ↦ m
          ])
      go (ok vals) = record_time-keeps r vals.revision u (get_config_map_last_modified cm) m h
      go _ = (u, h, ground arith)

  record_config_map_here :
      (cm : ConfigMap) (m : Dict Time)
      → IsOfRevision cm
      → HoldsAtLeast r (get_config_map_last_modified cm) (record_config_map P cm m)
  unfolding record_config_map
  record_config_map_here cm m (named, (vals, parsed, same)) =
      rw (named, parsed, same) (record_time_here r (get_config_map_last_modified cm) m)

  -- Where a time in the map came from.
  record_config_map-source :
      (cm : ConfigMap) (u : Time) (m : Dict Time)
      → lookup r (record_config_map P cm m) ≡ some u
      → (lookup r m ≡ some u) ⊎ (IsOfRevision cm × (get_config_map_last_modified cm ≡ u))
  unfolding record_config_map
  record_config_map-source cm u m h =
      elim (Bool-cases (has_prefix cm.meta.name config_map_name_prefix)) [
        | inl named ↦ go named (parse_config_map_values P cm) refl (rw named at h)
        | inr other ↦ inl (rw other at h)
      ]
    where
      go :
          has_prefix cm.meta.name config_map_name_prefix ≡ true
          → (parsed : Result P.Err IstioValues) → parse_config_map_values P cm ≡ parsed
          → lookup r (elim parsed [
            | ok vals ↦ record_time vals.revision (get_config_map_last_modified cm) m
            | _ ↦ m
          ])
            ≡ some u
          → (lookup r m ≡ some u) ⊎ (IsOfRevision cm × (get_config_map_last_modified cm ≡ u))
      go named (ok vals) e f =
          elim (record_time-source r vals.revision (get_config_map_last_modified cm) u m f) [
            | inl old ↦ inl old
            | inr (same, t) ↦ inr ((named, (vals, e, same)), t)
          ]
      go named _ e f = inl f

  record_config_maps-keeps :
      (cms : List ConfigMap) (u : Time) (m : Dict Time)
      → lookup r m ≡ some u
      → HoldsAtLeast r u (record_config_maps P cms m)
  unfolding record_config_maps
  record_config_maps-keeps [] u m h = (u, h, ground arith)
  record_config_maps-keeps (cm ∷ cms) u m h =
      let (v, e, le) = record_config_map-keeps cm u m h in
      let (t, f, le') = record_config_maps-keeps cms v (record_config_map P cm m) e in
      (t, f, omega arith)

  record_config_maps-above :
      (cms : List ConfigMap) (m : Dict Time)
      → All
          (λ cm.
            IsOfRevision cm
            → HoldsAtLeast r (get_config_map_last_modified cm) (record_config_maps P cms m))
          cms
  unfolding record_config_maps
  record_config_maps-above [] m = tt
  record_config_maps-above (cm ∷ cms) m = (
    λ is.
        let (v, e, le) = record_config_map_here cm m is in
        let (t, f, le') = record_config_maps-keeps cms v (record_config_map P cm m) e in
        (t, f, omega arith),
    record_config_maps-above cms (record_config_map P cm m),
  )

  record_config_maps-source :
      (cms : List ConfigMap) (m : Dict Time) (u : Time)
      → lookup r (record_config_maps P cms m) ≡ some u
      → (lookup r m ≡ some u)
        ⊎ Exists (λ cm. IsOfRevision cm × (get_config_map_last_modified cm ≡ u)) cms
  unfolding record_config_maps
  record_config_maps-source [] m u h = inl h
  record_config_maps-source (cm ∷ cms) m u h =
      elim (record_config_maps-source cms (record_config_map P cm m) u h) [
        | inl old ↦ elim (record_config_map-source cm u m old) [
          | inl older ↦ inl older
          | inr here ↦ inr (inl here)
        ]
        | inr later ↦ inr (inr later)
      ]

  -- The map holds, for each revision, the time of the ConfigMap of that revision that was changed
  -- last: every injector's ConfigMap of the revision that can be read has a time in the map that is
  -- no earlier than its own change, and a time in the map is the change of such a ConfigMap.
  pub build_last_modified-newest :
      (w : P.World) (cms : List ConfigMap) (result : Dict Time)
      → P.list_config_maps w (some istio_system_namespace) ≡ inr cms
      → build_last_modified_by_revision P w ≡ ok result
      → All
          (λ cm.
            IsOfRevision cm
            → (t : Time) × (lookup r result ≡ some t) × (get_config_map_last_modified cm ≤ℤ t))
          cms
        × ((t : Time)
            → lookup r result ≡ some t
            → Exists (λ cm. IsOfRevision cm × (get_config_map_last_modified cm ≡ t)) cms)
  unfolding build_last_modified_by_revision lookup
  build_last_modified-newest w cms result listed h =
      let same : record_config_maps P cms [] ≡ result = ok_injective (rw listed at h) in
      rw (← same) (
        record_config_maps-above cms [],
        λ t e. elim (record_config_maps-source cms [] t e) [ inl no_time ↦ cc | inr found ↦ found ],
      )
