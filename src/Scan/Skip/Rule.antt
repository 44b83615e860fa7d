-- ===== src/Scan/Skip/Rule.antt =====
-- Which pods the skip rule lets pass.
use fortsa.Base.{Bytes, true, Option, none, some, ◌≡◌, ◌≢◌, ◌⊎◌, ◌↔◌, arith}
use fortsa.Base.Int.{Time, Duration, pos, ◌+ℤ◌, ◌≤ℤ◌, +ℤ_parts, is_zero_iff, ltb_ℤ_iff}
use fortsa.Base.Dict.{lookup}
use fortsa.Kube.{Pod}
use fortsa.Scan.Types.{IstioConfig, ScanOptions}
use fortsa.Scan.Skip.{latest_change, is_settled, should_skip_pod_for_last_modified}

-- A change of the configuration that counts: a time, other than the zero time, that is recorded for
-- the revision or for the tag.
abbrev pub Counts : Option Time → Option Time → Time → Type 0
Counts by_revision by_tag t = ((by_revision ≡ some t) ⊎ (by_tag ≡ some t)) × (t ≢ pos 0)

-- The skip rule's test, as an order of times.
is_settled_iff :
    (created effective : Time) (delay : Duration)
    → (is_settled created effective delay ≡ true)
      ↔ ((effective ≢ pos 0) × (effective +ℤ delay ≤ℤ created))
unfolding is_settled
is_settled_iff created effective delay =
    ground (arith, is_zero_iff effective, ltb_ℤ_iff created (effective +ℤ delay))

latest_change_above :
    (by_revision by_tag : Option Time) (t : Time)
    → latest_change by_revision by_tag ≢ pos 0
    → Counts by_revision by_tag t
    → t ≤ℤ latest_change by_revision by_tag
unfolding latest_change
latest_change_above none none t h c = ground arith
latest_change_above none (some u) t h c = ground arith
latest_change_above (some r) none t h c = ground arith
latest_change_above (some r) (some u) t h c = ground arith

latest_change-Counts :
    (by_revision by_tag : Option Time)
    → latest_change by_revision by_tag ≢ pos 0
    → Counts by_revision by_tag (latest_change by_revision by_tag)
unfolding latest_change
latest_change-Counts none none h = ground arith
latest_change-Counts none (some u) h = ground arith
latest_change-Counts (some r) none h = ground arith
latest_change-Counts (some r) (some u) h = ground arith

latest_change-ne-zero :
    (by_revision by_tag : Option Time) (t : Time)
    → ((u : Time) → Counts by_revision by_tag u → pos 0 ≤ℤ u)
    → Counts by_revision by_tag t
    → latest_change by_revision by_tag ≢ pos 0
unfolding latest_change
latest_change-ne-zero none none t h c = ground arith
latest_change-ne-zero none (some u) t h c = ground (arith, h u)
latest_change-ne-zero (some r) none t h c = ground arith
latest_change-ne-zero (some r) (some u) t h c = ground (arith, h u, h r)

module _ (pod : Pod) (revision rev_or_tag : Bytes) (cfg : IstioConfig) (opts : ScanOptions) where
  -- A change that counts for a pod of the revision, found under the revision or the tag.
  abbrev pub Change : Time → Type 0
  Change =
      Counts (lookup revision cfg.last_modified_by_revision)
        (lookup rev_or_tag cfg.last_modified_by_tag)

  abbrev latest : Time
  latest =
      latest_change (lookup revision cfg.last_modified_by_revision)
        (lookup rev_or_tag cfg.last_modified_by_tag)

  -- The pod was created no earlier than the change and the delay after it.
  abbrev pub Survives : Time → Type 0
  Survives t = t +ℤ opts.istiod_config_read_delay ≤ℤ pod.meta.creation_timestamp

  -- A pod is skipped only if it was created no earlier than every change that counts, with the
  -- delay added.
  pub should_skip-Survives :
      should_skip_pod_for_last_modified pod revision rev_or_tag cfg opts ≡ true
      → (t : Time) → Change t
      → Survives t
  unfolding should_skip_pod_for_last_modified
  should_skip-Survives h t c =
      let (nonzero, late) =
        (is_settled_iff pod.meta.creation_timestamp latest opts.istiod_config_read_delay).0 h in
      omega (
        arith,
        latest_change_above (lookup revision cfg.last_modified_by_revision)
            (lookup rev_or_tag cfg.last_modified_by_tag) t nonzero c,
        +ℤ_parts t opts.istiod_config_read_delay,
        +ℤ_parts latest opts.istiod_config_read_delay,
      )

  -- Where no recorded time lies before the zero time, the pods that are skipped are exactly those
  -- for which some change counts and which were created no earlier than every such change, with the
  -- delay added.
  pub should_skip_iff :
      ((u : Time) → Change u → pos 0 ≤ℤ u)
      → (should_skip_pod_for_last_modified pod revision rev_or_tag cfg opts ≡ true)
        ↔ (((t : Time) × Change t) × ((t : Time) → Change t → Survives t))
  unfolding should_skip_pod_for_last_modified
  should_skip_iff nonneg = (
    λ h.
        let settled =
          (is_settled_iff pod.meta.creation_timestamp latest opts.istiod_config_read_delay).0 h in
        ((_, latest_change-Counts _ _ settled.0), should_skip-Survives h),
    λ ((t, c), survives).
        let nonzero = latest_change-ne-zero _ _ t nonneg c in
        (is_settled_iff pod.meta.creation_timestamp latest opts.istiod_config_read_delay).1
          (nonzero, survives _ (latest_change-Counts _ _ nonzero)),
  )
