-- ===== src/Controller/Cooling.antt =====
-- A reconciliation that finds its workloads within their cooldown.
use fortsa.Base.{ℕ, Bytes, List, [], ◌∷◌, none, ◌≡◌, refl, ap, ◌∙◌, inl, inr, ok, All, Bool-cases}
use fortsa.Base.Int.{pos, ◌≤ℤ◌, ◌<ℤ◌}
use fortsa.Platform.{Platform}
use fortsa.Annotator.Cooldown.{IsDuration, IsCooling, annotate_cooling}
use fortsa.Scan.Types.{WorkloadRef, IstioConfig}
use fortsa.Scan.Outdated.{scan_outdated_pods}
use fortsa.Webhook.Call.{Backend}
use fortsa.Controller.{
  Reconciler, await_istiod_config_read_delay, read_config, scan_options, annotate_round,
  annotate_others, annotate_workloads_with_delay, reconcile_all,
}
use fortsa.Controller.Annotating.{others_step}
use fortsa.Controller.Success.{Succeeded-reconcile_all}
use fortsa.Controller.Setup.{ReconcilerOptions, new_istio_change_reconciler}

module _ (P : Platform) (B : Backend P) (opts : ReconcilerOptions) where
  abbrev built : Reconciler P
  built = new_istio_change_reconciler P B opts

  module _ (small : IsDuration opts.annotation_cooldown)
      (positive : pos 0 <ℤ opts.annotation_cooldown) (no_delay : opts.restart_delay ≤ℤ pos 0)
      (u : P.World) where
    round_cooling :
        (ref : WorkloadRef)
        → IsCooling P opts.annotation_cooldown u ref
        → annotate_round P built u ref ≡ u
    unfolding annotate_round new_istio_change_reconciler
    round_cooling ref cooling = elim (Bool-cases opts.dry_run) [
      | inl dry ↦ rw dry refl
      | inr live ↦ rw live (
          ap (λ answer. answer.0)
            (annotate_cooling P opts.annotation_cooldown u ref small positive cooling))
    ]

    others_cooling :
        (refs : List WorkloadRef)
        → All (IsCooling P opts.annotation_cooldown u) refs
        → annotate_others P built u refs ≡ u
    others_cooling [] h = unfold annotate_others in refl
    others_cooling (ref ∷ refs) (cooling, h) =
        others_step P built (unfold new_istio_change_reconciler in no_delay) u ref refs
        ∙ rw (round_cooling ref cooling) (others_cooling refs h)

    workloads_cooling :
        (refs : List WorkloadRef)
        → All (IsCooling P opts.annotation_cooldown u) refs
        → annotate_workloads_with_delay P built u refs ≡ u
    unfolding annotate_workloads_with_delay
    workloads_cooling [] h = refl
    workloads_cooling (ref ∷ refs) (cooling, h) =
        rw (round_cooling ref cooling) (others_cooling refs h)

  -- Workloads within their cooldown are not restarted again. Let the cooldown be positive and one
  -- that 64 bits hold, and let there be no delay between restarts. Where the wait for istiod ends,
  -- the configuration is read and the scan returns, and each of its workloads was annotated less
  -- than the cooldown ago, the reconciliation succeeds and leaves the world as the wait left it.
  pub reconcile_all_cooling :
      (fuel : ℕ) (w u : P.World) (limit : List Bytes) (cfg : IstioConfig) (refs : List WorkloadRef)
      → IsDuration opts.annotation_cooldown
      → pos 0 <ℤ opts.annotation_cooldown
      → opts.restart_delay ≤ℤ pos 0
      → await_istiod_config_read_delay P built w ≡ (u, none)
      → read_config P built fuel u ≡ ok cfg
      → scan_outdated_pods P built.webhook_caller fuel u cfg (scan_options P built limit) ≡ ok refs
      → All (IsCooling P opts.annotation_cooldown u) refs
      → reconcile_all P built fuel w limit ≡ (u, ok tt)
  reconcile_all_cooling fuel w u limit cfg refs small positive no_delay waited read scanned
        cooling =
      Succeeded-reconcile_all P built fuel w limit u (record {
        u = u;
        cfg = cfg;
        refs = refs;
        waited = waited;
        read = read;
        scanned = scanned;
        annotated = workloads_cooling small positive no_delay u refs cooling;
      })
