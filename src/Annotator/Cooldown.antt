-- ===== src/Annotator/Cooldown.antt =====
-- The cooldown of an annotated workload: when `Annotate` patches it, and when it leaves it alone.
use fortsa.Base.{
  [], ◌∙◌, &&_iff, ◌^◌, ◌-◌, Bytes, true, false, Option, none, some, ◌≡◌, refl, ◌≢◌, ◌↔◌, ◌⊎◌, inl,
  inr, arith,
}
use fortsa.Base.Int.{is_zero_iff, Time, Duration, pos, ◌-ℤ◌, ◌<ℤ◌, ◌≤ℤ◌, is_zero, ltb_ℤ}
use fortsa.Constants.{restarted_at_annotation}
use fortsa.Kube.{PodTemplate}
use fortsa.Platform.{Platform}
use fortsa.Scan.Types.{WorkloadRef, nonempty_entry, get_template}
use fortsa.Annotator.{
  Bool, Error, outside, codes, wrap, not, sub_time, restart_patch, patch_with_retry, restarted_at,
  get_restarted_at, get_patch, patch_reply, write_restarted_at, is_recent, annotate,
}
use fortsa.Annotator.Retries.{patch_with_retry-success}

-- A duration that 64 bits hold.
abbrev pub IsDuration : Duration → Type 0
IsDuration d = d ≤ℤ pos (2 ^ 63 - 1)

-- The bound on the difference of two times does not change the test against a cooldown.
sub_time_below :
    (t u : Time) (d : Duration)
    → IsDuration d
    → pos 0 ≤ℤ d
    → (ltb_ℤ (sub_time t u) d ≡ true) ↔ ((t -ℤ u) <ℤ d)
unfolding sub_time
sub_time_below t u d small positive = ground arith

module _ (P : Platform) where
  -- The workload was annotated, and the cooldown has not passed since.
  abbrev pub IsCooling : Duration → P.World → WorkloadRef → Type 0
  IsCooling cooldown w ref =
      (t : Time) × (get_restarted_at P w ref ≡ inr t) × (t ≢ pos 0) × ((P.now w -ℤ t) <ℤ cooldown)

  is_recent_iff :
      (w : P.World) (cooldown : Duration) (t : Time)
      → IsDuration cooldown
      → pos 0 <ℤ cooldown
      → (is_recent P w cooldown t ≡ true) ↔ ((t ≢ pos 0) × ((P.now w -ℤ t) <ℤ cooldown))
  unfolding is_recent
  is_recent_iff w cooldown t small positive = ground (
    arith,
    sub_time_below (P.now w) t cooldown,
    is_zero_iff t,
    &&_iff (not (is_zero t)) (ltb_ℤ (sub_time (P.now w) t) cooldown),
  )

  -- With a cooldown, a workload that was annotated less than the cooldown ago is left alone: the
  -- world does not change, and no error is reported.
  pub annotate_cooling :
      (cooldown : Duration) (w : P.World) (ref : WorkloadRef)
      → IsDuration cooldown
      → pos 0 <ℤ cooldown
      → IsCooling cooldown w ref
      → annotate P cooldown w ref ≡ (w, inr false)
  unfolding annotate
  annotate_cooling cooldown w ref small positive (t, read, set, early) =
      let recent = (is_recent_iff w cooldown t small positive).1 (set, early) in
      let on : ltb_ℤ (pos 0) cooldown ≡ true = ground arith in rw (on, read, recent) refl

  -- What a patch of the workload promises: where it succeeds, the workload's template says the
  -- value that the patch writes.
  abbrev pub Writes : WorkloadRef → Type 0
  Writes ref =
      (value bytes : Bytes) (w v : P.World) (patch : P.World → P.World × Option P.Err)
      → value ≢ []
      → P.marshal (restart_patch value) ≡ inr bytes
      → get_patch P ref bytes ≡ some patch
      → patch w ≡ (v, none)
      → (template : PodTemplate) × (get_template P v ref ≡ some (inr template))
        × (nonempty_entry restarted_at_annotation template.annotations ≡ some value)

  -- The template says the value.
  abbrev Says : P.World → WorkloadRef → Bytes → Type 0
  Says v ref value =
      (template : PodTemplate) × (get_template P v ref ≡ some (inr template))
      × (nonempty_entry restarted_at_annotation template.annotations ≡ some value)

  abbrev Answer : Type 0
  Answer = P.World × (Error P.Err ⊎ Bool)

  -- A call that reports a patch leaves a world in which the template says the time of the call.
  write_restarted_at-Says :
      (w v : P.World) (ref : WorkloadRef)
      → Writes ref
      → P.format_rfc3339 (P.now w) ≢ []
      → write_restarted_at P w ref ≡ (v, inr true)
      → Says v ref (P.format_rfc3339 (P.now w))
  unfolding write_restarted_at
  write_restarted_at-Says w v ref writes nonempty h =
      marshalled (P.marshal (restart_patch (P.format_rfc3339 (P.now w)))) refl h
    where
      replied :
          (bytes : Bytes) (patch : P.World → P.World × Option P.Err)
          → P.marshal (restart_patch (P.format_rfc3339 (P.now w))) ≡ inr bytes
          → get_patch P ref bytes ≡ some patch
          → (reply : P.World × Option P.Err) → patch_with_retry P patch w ≡ reply
          → patch_reply P reply ≡ (v, inr true)
          → Says v ref (P.format_rfc3339 (P.now w))
      replied bytes patch m p (u, none) r e =
          let (before, done) = patch_with_retry-success P patch w v (r ∙ cc) in
          writes (P.format_rfc3339 (P.now w)) bytes before v patch nonempty m p done
      replied bytes patch m p (u, some x) r e = cc

      patchable :
          (bytes : Bytes)
          → P.marshal (restart_patch (P.format_rfc3339 (P.now w))) ≡ inr bytes
          → (found : Option (P.World → P.World × Option P.Err)) → get_patch P ref bytes ≡ found
          → ◌≡◌ {A = Answer}
              (elim found [
                | none ↦ (w, inr false)
                | some patch ↦ patch_reply P (patch_with_retry P patch w)
              ])
              (v, inr true)
          → Says v ref (P.format_rfc3339 (P.now w))
      patchable bytes m none p e = cc
      patchable bytes m (some patch) p e =
          replied bytes patch m p (patch_with_retry P patch w) refl e

      marshalled :
          (reply : P.Err ⊎ Bytes)
          → P.marshal (restart_patch (P.format_rfc3339 (P.now w))) ≡ reply
          → ◌≡◌ {A = Answer}
              (elim reply [
                | inl e ↦ (w, inl (wrap (codes "marshal patch") (outside e)))
                | inr bytes ↦ elim (get_patch P ref bytes) [
                  | none ↦ (w, inr false)
                  | some patch ↦ patch_reply P (patch_with_retry P patch w)
                ]
              ])
              (v, inr true)
          → Says v ref (P.format_rfc3339 (P.now w))
      marshalled (inl x) m e = cc
      marshalled (inr bytes) m e = patchable bytes m (get_patch P ref bytes) refl e

  -- `Annotate` reports a patch only where it writes.
  annotate-writes :
      (cooldown : Duration) (w v : P.World) (ref : WorkloadRef)
      → annotate P cooldown w ref ≡ (v, inr true)
      → write_restarted_at P w ref ≡ (v, inr true)
  unfolding annotate
  annotate-writes cooldown w v ref h = ground arith

  get_restarted_at-Says :
      (w : P.World) (ref : WorkloadRef) (value : Bytes) (t : Time)
      → Says w ref value
      → P.parse_rfc3339 value ≡ some t
      → get_restarted_at P w ref ≡ inr t
  unfolding get_restarted_at restarted_at
  get_restarted_at-Says w ref value t (template, read, says) parsed =
      rw (get_restarted_at, read, restarted_at, says, parsed) refl

  -- Where a successful patch writes what it is given, and the time that was written is not the
  -- empty text and reads back as a time t: after a call of `Annotate` that reports a patch, a second call less than the cooldown
  -- after t changes nothing, and reports that it skipped the workload.
  pub annotate_again :
      (cooldown : Duration) (w v : P.World) (ref : WorkloadRef) (t : Time)
      → IsDuration cooldown
      → pos 0 <ℤ cooldown
      → Writes ref
      → P.format_rfc3339 (P.now w) ≢ []
      → P.parse_rfc3339 (P.format_rfc3339 (P.now w)) ≡ some t
      → t ≢ pos 0
      → annotate P cooldown w ref ≡ (v, inr true)
      → (P.now v -ℤ t) <ℤ cooldown
      → annotate P cooldown v ref ≡ (v, inr false)
  annotate_again cooldown w v ref t small positive writes nonempty parsed set first early =
      let says =
        write_restarted_at-Says w v ref writes nonempty (annotate-writes cooldown w v ref first) in
      let read = get_restarted_at-Says v ref (P.format_rfc3339 (P.now w)) t says parsed in
      annotate_cooling cooldown v ref small positive (t, read, set, early)
