-- ===== src/Controller/Pacing.antt =====
-- How the annotations of a reconciliation follow each other, whatever the delay between them and
-- wherever a wait is cancelled.
use fortsa.Base.{
  subst, Bytes, ℕ, List, [], ◌∷◌, ◌++◌, Option, none, some, ◌≡◌, ◌≢◌, refl, ap, ◌⊎◌, inl, inr,
  false, ok, arith, Bool-cases,
}
use fortsa.Base.Int.{pos, ◌≤ℤ◌}
use fortsa.Platform.{Platform}
use fortsa.Scan.Types.{WorkloadRef}
use fortsa.Controller.{
  Reconciler, is_positive, annotate_round, await_restart_delay, after_delay, annotate_others,
  annotate_workloads_with_delay, reconcile_all,
}
use fortsa.Controller.Annotating.{round_live}
use fortsa.Controller.Success.{Succeeded, reconcile_all-Succeeded}

module _ (P : Platform) (r : Reconciler P) where
  -- The pause between two annotations: a wait of the delay where it is positive, and else none.
  abbrev pub Pauses : P.World → P.World × Option P.Err → Type 0
  Pauses w reply =
      (¬ (r.restart_delay ≤ℤ pos 0) × (P.wait w r.restart_delay ≡ reply))
      ⊎ ((r.restart_delay ≤ℤ pos 0) × (reply ≡ (w, none)))

  -- The annotator is asked about the workloads in turn, each after a pause that runs to its end.
  pub data Paced : P.World → List WorkloadRef → P.World → Type 0 where
    rest : {w v : P.World} → v ≡ w → Paced w [] v
    turn :
        {w u v : P.World} {ref : WorkloadRef} {refs : List WorkloadRef}
        → Pauses w (u, none)
        → Paced (r.annotator.annotate_workload u ref).0 refs v
        → Paced w (ref ∷ refs) v

  -- The workloads up to some point are done; those behind it are left out only where the pause
  -- before them is cancelled.
  abbrev pub PacedUpTo : P.World → List WorkloadRef → P.World → Type 0
  PacedUpTo w refs v =
      (done : List WorkloadRef) × (left : List WorkloadRef) × (u : P.World) × (refs ≡ done ++ left)
      × Paced w done u
      × (((left ≡ []) × (v ≡ u)) ⊎ ((left ≢ []) × ((e : P.Err) × Pauses u (v, some e))))

  -- The first workload has no pause before it.
  abbrev pub AnnotatesPaced : P.World → List WorkloadRef → P.World → Type 0
  AnnotatesPaced w [] v = v ≡ w
  AnnotatesPaced w (ref ∷ refs) v = PacedUpTo (r.annotator.annotate_workload w ref).0 refs v

  await-Pauses : (w : P.World) → Pauses w (await_restart_delay P r w)
  unfolding await_restart_delay
  await-Pauses w = elim (Bool-cases (is_positive r.restart_delay)) [
    | inl on ↦ rw on (inl ((λ small. ground arith), refl))
    | inr off ↦ rw off (inr (ground arith, refl))
  ]

  annotate_others-Paced :
      r.dry_run ≡ false
      → (w : P.World) (refs : List WorkloadRef) → PacedUpTo w refs (annotate_others P r w refs)
  unfolding annotate_others
  annotate_others-Paced live w [] = ([], [], w, refl, rest refl, inl (refl, refl))
  annotate_others-Paced live w (ref ∷ refs) =
      go (await_restart_delay P r w) (await-Pauses w)
        (λ u. annotate_others-Paced live (r.annotator.annotate_workload u ref).0 refs)
    where
      go :
          (reply : P.World × Option P.Err)
          → Pauses w reply
          → ((u : P.World)
              → PacedUpTo
                  (r.annotator.annotate_workload u ref).0
                  refs
                  (annotate_others P r (r.annotator.annotate_workload u ref).0 refs))
          → PacedUpTo w
              (ref ∷ refs)
              (after_delay P r (λ v. annotate_others P r (annotate_round P r v ref) refs) reply)
      go (v, some e) pauses more =
          unfold after_delay in ([], ref ∷ refs, w, refl, rest refl, inr ((cc), (e, pauses)))
      go (u, none) pauses more =
          unfold after_delay in
          rw (round_live P r live u ref) (
            let (done, left, t, split, paced, ending) = more u in
            (ref ∷ done, left, t, ap (λ l. ref ∷ l) split, turn pauses paced, ending))

  pub annotate_workloads-Paced :
      r.dry_run ≡ false
      → (w : P.World) (refs : List WorkloadRef)
      → AnnotatesPaced w refs (annotate_workloads_with_delay P r w refs)
  unfolding annotate_workloads_with_delay
  annotate_workloads-Paced live w [] = refl
  annotate_workloads-Paced live w (ref ∷ refs) =
      rw (round_live P r live w ref)
        (annotate_others-Paced live (r.annotator.annotate_workload w ref).0 refs)

  -- With no dry run, a reconciliation that returns without an error has waited for istiod, read the
  -- configuration, scanned the pods, and asked the annotator about the workloads of the scan in
  -- order, the first at once and each other after a pause of the restart delay, if it is positive,
  -- whatever the annotator answered. Workloads are left out only behind a pause that was cancelled.
  pub reconcile_all-Paced :
      (fuel : ℕ) (w v : P.World) (limit : List Bytes)
      → r.dry_run ≡ false
      → reconcile_all P r fuel w limit ≡ (v, ok tt)
      → (s : Succeeded P r fuel w limit v) × AnnotatesPaced s.u s.refs v
  reconcile_all-Paced fuel w v limit live h =
      let s = reconcile_all-Succeeded P r fuel w limit v h in
      (s, subst (AnnotatesPaced s.u s.refs) s.annotated (annotate_workloads-Paced live s.u s.refs))
