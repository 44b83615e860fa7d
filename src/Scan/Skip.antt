-- ===== src/Scan/Skip.antt =====
-- `shouldSkipPodForLastModified`
pub mod Rule
use fortsa.Base.{Bytes, Bool, true, false, not, ◌&&◌, Option, none, some, if◌then◌else◌}
use fortsa.Base.Int.{Time, Duration, pos, ◌+ℤ◌, is_zero, after, before}
use fortsa.Base.Dict.{lookup}
use fortsa.Kube.{Pod}
use fortsa.Scan.Types.{IstioConfig, ScanOptions}

-- The later of the revision's time and the tag's, each counted where it is there and not zero.
unfoldable pub latest_change : Option Time → Option Time → Time
latest_change by_revision by_tag =
    let base : Time = elim by_revision [ none ↦ pos 0 | some t ↦ if is_zero t then pos 0 else t ] in
    elim by_tag [ none ↦ base | some t ↦ if not (is_zero t) && after t base then t else base ]

unfoldable pub is_settled : Time → Time → Duration → Bool
is_settled created effective delay =
    if is_zero effective then false else not (before created (effective +ℤ delay))

unfoldable pub should_skip_pod_for_last_modified :
    Pod → Bytes → Bytes → IstioConfig → ScanOptions → Bool
unfolding latest_change is_settled lookup
should_skip_pod_for_last_modified pod revision rev_or_tag cfg opts =
    is_settled pod.meta.creation_timestamp
      (latest_change (lookup revision cfg.last_modified_by_revision)
        (lookup rev_or_tag cfg.last_modified_by_tag))
      opts.istiod_config_read_delay
