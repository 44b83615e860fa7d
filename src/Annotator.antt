-- ===== src/Annotator.antt =====
-- internal/annotator/workload_annotator.go: the annotation that restarts a workload.
pub mod Retries
pub mod Cooldown
use fortsa.Base.{
  false, true, ℕ, zero, suc, ◌^◌, ◌-◌, Bytes, codes, Bool, not, ◌&&◌, Option, none, some, ◌==◌, ◌⊎◌,
  inl, inr, Error, outside, wrap, if◌then◌else◌,
}
use fortsa.Base.Int.{Time, Duration, ℤ, pos, negsuc, ◌-ℤ◌, ltb_ℤ, is_zero}
use fortsa.Constants.{restarted_at_annotation}
use fortsa.Json.{Json, Fields, text, object, nil, field}
use fortsa.Kube.{PodTemplate, NamespacedName}
use fortsa.Platform.{Platform}
use fortsa.Scan.Types.{WorkloadRef, nonempty_entry, get_template}

abbrev pub patch_conflict_max_retries : ℕ
patch_conflict_max_retries = 3

-- 50 milliseconds
abbrev pub patch_conflict_backoff : Duration
patch_conflict_backoff = pos 50000000

-- What `Annotate` promises its caller: the world after it, and an error or whether it patched.
pub record WorkloadAnnotator (P : Platform) : Type 0 where
  pub annotate_workload : P.World → WorkloadRef → P.World × (Error P.Err ⊎ Bool)

-- `t.Sub(u)`, which stops at the ends of a 64-bit `Duration`.
unfoldable pub sub_time : Time → Time → Duration
sub_time t u =
    let d = t -ℤ u in
    let most = 2 ^ 63 - 1 in
    if ltb_ℤ (pos most) d then pos most else if ltb_ℤ d (negsuc most) then negsuc most else d

-- One field that is an object.
abbrev nested : Bytes → Fields → Fields
nested k m = field k (object m) nil

-- The merge patch that sets the annotation.
abbrev pub restart_patch : Bytes → Json
restart_patch value = object (
    nested (codes "spec") (
      nested (codes "template") (
        nested (codes "metadata")
          (nested (codes "annotations") (field restarted_at_annotation (text value) nil)))))

module _ (P : Platform) where
  -- The wait between two tries, and what follows where it ran to its end.
  unfoldable pub after_wait :
      (P.World → P.World × Option P.Err) → P.World × Option P.Err → P.World × Option P.Err
  after_wait next (waited, none) = next waited
  after_wait next (waited, some c) = (waited, some c)

  -- A round of the loop from the answer to the patch on. `left` is how many rounds are left after
  -- it, and `next` runs them from a new `lastErr`.
  unfoldable pub after_patch :
      ℕ
      → (Option P.Err → P.World → P.World × Option P.Err)
      → P.World × Option P.Err
      → P.World × Option P.Err
  after_patch left next (tried, none) = (tried, none)
  after_patch left next (tried, some e) = elim (P.is_conflict e) [
    | false ↦ (tried, some e)
    | true ↦ elim left [
      | zero ↦ next (some e) tried
      | suc _ ↦ after_wait (next (some e)) (P.wait tried patch_conflict_backoff)
    ]
  ]

  module _ (patch : P.World → P.World × Option P.Err) where
    -- The rounds that are left of the loop, and `lastErr`.
    unfoldable pub patch_rounds : ℕ → Option P.Err → P.World → P.World × Option P.Err
    unfolding after_patch after_wait
    patch_rounds zero last w = (w, last)
    patch_rounds (suc n) last w = after_patch n (patch_rounds n) (patch w)

    unfoldable pub patch_with_retry : P.World → P.World × Option P.Err
    patch_with_retry w = patch_rounds patch_conflict_max_retries none w

  -- The time that a pod template's annotation says, or the zero time.
  unfoldable pub restarted_at : PodTemplate → Time
  restarted_at template = elim (nonempty_entry restarted_at_annotation template.annotations) [
    | none ↦ pos 0
    | some s ↦ elim (P.parse_rfc3339 s) [ none ↦ pos 0 | some t ↦ t ]
  ]

  unfoldable pub get_restarted_at : P.World → WorkloadRef → Error P.Err ⊎ Time
  get_restarted_at w ref = elim (get_template P w ref) [
    | none ↦ inr (pos 0)
    | some reply ↦ elim reply [
      | inl e ↦ inl (wrap (codes "get workload for restartedAt") (outside e))
      | inr template ↦ inr (restarted_at template)
    ]
  ]

  -- The patch of the workload by its kind; `none` is a kind that the switch has no case for.
  unfoldable pub get_patch : WorkloadRef → Bytes → Option (P.World → P.World × Option P.Err)
  get_patch ref bytes =
      let nn = ref.namespaced_name in
      if ref.kind == codes "Deployment"
      then some (λ w. P.patch_deployment w nn bytes)
      else if ref.kind == codes "StatefulSet"
      then some (λ w. P.patch_stateful_set w nn bytes)
      else if ref.kind == codes "DaemonSet"
      then some (λ w. P.patch_daemon_set w nn bytes)
      else none

  -- `return err == nil, err`
  abbrev pub patch_reply : P.World × Option P.Err → P.World × (Error P.Err ⊎ Bool)
  patch_reply (w, none) = (w, inr true)
  patch_reply (w, some e) = (w, inl (outside e))

  -- `Annotate` from the time that it writes on.
  unfoldable pub write_restarted_at : P.World → WorkloadRef → P.World × (Error P.Err ⊎ Bool)
  write_restarted_at w ref = elim (P.marshal (restart_patch (P.format_rfc3339 (P.now w)))) [
    | inl e ↦ (w, inl (wrap (codes "marshal patch") (outside e)))
    | inr bytes ↦ elim (get_patch ref bytes) [
      | none ↦ (w, inr false)
      | some patch ↦ patch_reply (patch_with_retry patch w)
    ]
  ]

  -- `!annotatedAt.IsZero() && time.Since(annotatedAt) < a.annotationCooldown`
  unfoldable pub is_recent : P.World → Duration → Time → Bool
  is_recent w cooldown annotated_at =
      not (is_zero annotated_at) && ltb_ℤ (sub_time (P.now w) annotated_at) cooldown

  unfoldable pub annotate : Duration → P.World → WorkloadRef → P.World × (Error P.Err ⊎ Bool)
  annotate cooldown w ref =
      if ltb_ℤ (pos 0) cooldown
      then elim (get_restarted_at w ref) [
        | inl e ↦ (w, inl (wrap (codes "get workload for restartedAt") e))
        | inr annotated_at ↦
            if is_recent w cooldown annotated_at then (w, inr false) else write_restarted_at w ref
      ]
      else write_restarted_at w ref

  -- `NewWorkloadAnnotator`, as the interface that the controller uses.
  unfoldable pub new_workload_annotator : Duration → WorkloadAnnotator P
  new_workload_annotator cooldown = record { annotate_workload = annotate cooldown }
