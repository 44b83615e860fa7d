-- ===== src/Controller/Answers.antt =====
-- What the annotator answers for the workloads of a scan.
use fortsa.Base.{
  contains, add_keys, [], ℕ, Bytes, true, false, Option, none, some, List, ◌≡◌, ◌≢◌, refl, ◌⊎◌, inl,
  inr, ok, All, All-imp, Exists-pick, Error, Bool-cases, arith,
}
use fortsa.Base.Int.{Time, Duration, pos, ltb_ℤ}
use fortsa.Kube.{Pod}
use fortsa.Platform.{Platform}
use fortsa.Annotator.{
  restart_patch, patch_with_retry, patch_reply, get_patch, write_restarted_at, get_restarted_at,
  is_recent, annotate,
}
use fortsa.Scan.Types.{WorkloadRef, ScanOptions, IstioConfig, WebhookCaller, get_template}
use fortsa.Scan.Owner.Chain.{IsWorkload, Controls}
use fortsa.Scan.Process.Verdict.{IsOutdated}
use fortsa.Scan.Owner.Panics.{Controls-IsWorkload}
use fortsa.Scan.Outdated.{scan_outdated_pods}
use fortsa.Scan.Outdated.Results.{scan-listed, scan_sound}

module _ (P : Platform) where
  -- A workload that the scanner can read is one that the annotator can patch.
  get_patch-ne-none :
      (w : P.World) (ref : WorkloadRef) (bytes : Bytes)
      → IsWorkload P w ref
      → get_patch P ref bytes ≢ none
  unfolding get_patch get_template
  get_patch-ne-none w ref bytes (template, e) = ground arith

  patch_reply-ne-false : (reply : P.World × Option P.Err) → (patch_reply P reply).1 ≢ inr false
  patch_reply-ne-false (w, none) h = cc
  patch_reply-ne-false (w, some e) h = cc

  write_restarted_at-ne-false :
      (w u : P.World) (ref : WorkloadRef)
      → IsWorkload P w ref
      → (write_restarted_at P u ref).1 ≢ inr false
  unfolding write_restarted_at
  write_restarted_at-ne-false w u ref there =
      marshalled (P.marshal (restart_patch (P.format_rfc3339 (P.now u)))) refl
    where
      patched :
          (bytes : Bytes) (patch : Option (P.World → P.World × Option P.Err))
          → P.marshal (restart_patch (P.format_rfc3339 (P.now u))) ≡ inr bytes
          → get_patch P ref bytes ≡ patch
          → (write_restarted_at P u ref).1 ≢ inr false
      patched bytes none m e = absurd (get_patch-ne-none w ref bytes there e)
      patched bytes (some patch) m e =
          rw (m, e, write_restarted_at) (patch_reply-ne-false (patch_with_retry P patch u))

      marshalled :
          (reply : P.Err ⊎ Bytes)
          → P.marshal (restart_patch (P.format_rfc3339 (P.now u))) ≡ reply
          → (write_restarted_at P u ref).1 ≢ inr false
      marshalled (inl x) m = rw (m, write_restarted_at) (λ h. cc)
      marshalled (inr bytes) m = patched bytes (get_patch P ref bytes) m refl

  -- The workload was annotated within the cooldown, and is left as it is.
  abbrev pub CoolsDown : Duration → P.World → WorkloadRef → Type 0
  CoolsDown cooldown u ref =
      (t : Time) × (get_restarted_at P u ref ≡ inr t)
      × (is_recent P u cooldown t ≡ true)
      × (annotate P cooldown u ref ≡ (u, inr false))

  annotate-answers :
      (w u : P.World) (cooldown : Duration) (ref : WorkloadRef)
      → IsWorkload P w ref
      → ((annotate P cooldown u ref).1 ≢ inr false) ⊎ CoolsDown cooldown u ref
  unfolding annotate
  annotate-answers w u cooldown ref there = elim (Bool-cases (ltb_ℤ (pos 0) cooldown)) [
    | inl on ↦ read on (get_restarted_at P u ref) refl
    | inr off ↦ rw (annotate, off) (inl (write_restarted_at-ne-false w u ref there))
  ]
    where
      read :
          ltb_ℤ (pos 0) cooldown ≡ true
          → (reply : Error P.Err ⊎ Time) → get_restarted_at P u ref ≡ reply
          → ((annotate P cooldown u ref).1 ≢ inr false) ⊎ CoolsDown cooldown u ref
      read on (inl e) got = rw (annotate, on, got) (inl (λ h. cc))
      read on (inr t) got = elim (Bool-cases (is_recent P u cooldown t)) [
        | inl recent ↦ inr (t, got, recent, rw (annotate, on, got, recent) refl)
        | inr old ↦ rw (annotate, on, got, old) (inl (write_restarted_at-ne-false w u ref there))
      ]

  -- For a workload that a scan returns, the annotator answers, in any world, that it patched or that
  -- an error was met, or else the workload was annotated within the cooldown and nothing changes:
  -- the annotator is never given a kind that it has no patch for.
  pub scan-answers :
      (caller : WebhookCaller P) (fuel : ℕ) (w u : P.World) (cfg : IstioConfig) (opts : ScanOptions)
      (refs : List WorkloadRef) (cooldown : Duration)
      → scan_outdated_pods P (some caller) fuel w cfg opts ≡ ok refs
      → All (λ ref. ((annotate P cooldown u ref).1 ≢ inr false) ⊎ CoolsDown cooldown u ref) refs
  scan-answers caller fuel w u cfg opts refs cooldown h =
      let (pods, listed) = scan-listed P caller fuel w cfg opts refs h in
      All-imp
        (λ ref found.
          let (pod, _, (_, controls, _)) =
            Exists-pick
              (λ (pod : Pod).
                (contains (add_keys [] opts.skip_namespaces) pod.meta.namespace ≡ false)
                × Controls P w ref pod.meta
                × IsOutdated P caller w pod cfg opts ref)
              pods found in
          annotate-answers w u cooldown ref (Controls-IsWorkload P w controls))
        refs (scan_sound P caller fuel w cfg opts pods refs listed h)
