-- ===== src/Controller/Annotating.antt =====
-- What a reconciliation asks of the annotator.
use fortsa.Base.{sym, ◌∙◌, ok, Bytes, ℕ, false, List, [], ◌∷◌, ◌≡◌, refl, arith}
use fortsa.Base.Int.{pos, ◌≤ℤ◌}
use fortsa.Platform.{Platform}
use fortsa.Scan.Types.{WorkloadRef}
use fortsa.Controller.Success.{reconcile_all-Succeeded}
use fortsa.Controller.{
  scan_options, scan_outdated_pods, await_istiod_config_read_delay, read_config, IstioConfig,
  reconcile_all, Reconciler, is_positive, annotate_round, annotate_others,
  annotate_workloads_with_delay,
}

module _ (P : Platform) (r : Reconciler P) where
  -- The annotator is asked about every workload, in the order given, whatever it answers.
  abbrev pub annotate_each : P.World → List WorkloadRef → P.World
  annotate_each w [] = w
  annotate_each w (ref ∷ refs) = annotate_each (r.annotator.annotate_workload w ref).0 refs

  pub round_live :
      r.dry_run ≡ false
      → (w : P.World) (ref : WorkloadRef)
      → annotate_round P r w ref ≡ (r.annotator.annotate_workload w ref).0
  unfolding annotate_round
  round_live live w ref = rw live refl

  -- With no delay, a round of the loop does not wait.
  pub others_step :
      r.restart_delay ≤ℤ pos 0
      → (w : P.World) (ref : WorkloadRef) (refs : List WorkloadRef)
      → annotate_others P r w (ref ∷ refs) ≡ annotate_others P r (annotate_round P r w ref) refs
  unfolding annotate_others
  others_step no_delay w ref refs =
      let off : is_positive r.restart_delay ≡ false = ground arith in rw (annotate_others, off) refl

  annotate_others_each :
      r.dry_run ≡ false
      → r.restart_delay ≤ℤ pos 0
      → (w : P.World) (refs : List WorkloadRef) → annotate_others P r w refs ≡ annotate_each w refs
  annotate_others_each live no_delay w [] = unfold annotate_others in refl
  annotate_others_each live no_delay w (ref ∷ refs) =
      rw (others_step no_delay w ref refs, round_live live w ref)
        (annotate_others_each live no_delay (r.annotator.annotate_workload w ref).0 refs)

  annotate_workloads_each :
      r.dry_run ≡ false
      → r.restart_delay ≤ℤ pos 0
      → (w : P.World) (refs : List WorkloadRef)
      → annotate_workloads_with_delay P r w refs ≡ annotate_each w refs
  unfolding annotate_workloads_with_delay
  annotate_workloads_each live no_delay w [] = refl
  annotate_workloads_each live no_delay w (ref ∷ refs) =
      rw (round_live live w ref)
        (annotate_others_each live no_delay (r.annotator.annotate_workload w ref).0 refs)

  -- From the world, the configuration is read, the pods are scanned, and the annotator is asked
  -- about every workload of the scan, which leaves the second world.
  abbrev pub Annotates : ℕ → P.World → List Bytes → P.World → Type 0
  Annotates fuel w limit v =
      (cfg : IstioConfig) × (refs : List WorkloadRef) × (read_config P r fuel w ≡ ok cfg)
      × (scan_outdated_pods P r.webhook_caller fuel w cfg (scan_options P r limit) ≡ ok refs)
      × (v ≡ annotate_each w refs)

  -- With no dry run and no delay between restarts, a reconciliation that returns without an error
  -- has read the configuration and scanned the pods in the world that the wait for istiod left,
  -- and has then asked the annotator about every workload of the scan, in the scan's order, going
  -- on whatever the annotator answers.
  pub reconcile_all-Annotates :
      (fuel : ℕ) (w v : P.World) (limit : List Bytes)
      → r.dry_run ≡ false
      → r.restart_delay ≤ℤ pos 0
      → reconcile_all P r fuel w limit ≡ (v, ok tt)
      → Annotates fuel (await_istiod_config_read_delay P r w).0 limit v
  reconcile_all-Annotates fuel w v limit live no_delay h =
      let s = reconcile_all-Succeeded P r fuel w limit v h in
      let left : v ≡ annotate_each s.u s.refs =
        sym s.annotated ∙ annotate_workloads_each live no_delay s.u s.refs in
      rw s.waited (s.cfg, s.refs, s.read, s.scanned, left)
