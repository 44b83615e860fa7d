-- ===== src/Controller/DryRun.antt =====
-- What can change the world in a reconciliation: its waits, and the annotator's patches, which a
-- dry run does not make.
use fortsa.Base.{
  if◌then◌else◌, err, panic, out_of_fuel, none, some, ℕ, Bytes, Bool, true, false, Option, none,
  some, List, [], ◌∷◌, ◌≡◌, refl, Result, ok, err, panic, out_of_fuel, ◌==◌, is_empty, ◌&&◌, not,
}
use fortsa.Triggers.{periodic_request_name}
use fortsa.Constants.{reconcile_trigger_name_istio_change}
use fortsa.Base.Int.{Duration}
use fortsa.Kube.{NamespacedName}
use fortsa.Platform.{Platform}
use fortsa.Scan.Types.{WorkloadRef, IstioConfig}
use fortsa.Controller.{
  scan_outdated_pods, periodic_request_name, Reconciler, is_positive,
  await_istiod_config_read_delay, annotate_round, annotate_others, await_restart_delay, after_delay,
  annotate_workloads_with_delay, scan_options, after_scan, scan_and_annotate, read_config,
  after_config, after_await, reconcile_all, reconcile,
}

module _ (P : Platform) (r : Reconciler P) (Inv : P.World → Type 0) where
  -- Waits keep the predicate, and so does the annotator, unless the run is dry.
  pub record IsKept : Type 0 where
    pub waits : (w : P.World) (d : Duration) → Inv w → Inv (P.wait w d).0
    pub patches :
        r.dry_run ≡ false
        → (w : P.World) (ref : WorkloadRef) → Inv w
        → Inv (r.annotator.annotate_workload w ref).0

  module _ (kept : IsKept) where
    round-kept : (w : P.World) (ref : WorkloadRef) → Inv w → Inv (annotate_round P r w ref)
    unfolding annotate_round
    round-kept w ref is = go r.dry_run refl
      where
        go :
            (dry : Bool)
            → r.dry_run ≡ dry
            → Inv (if dry then w else (r.annotator.annotate_workload w ref).0)
        go true e = is
        go false e = kept.patches e w ref is

    -- A wait that is made where the test holds.
    wait-kept :
        (w : P.World) (d : Duration) (c : Bool)
        → Inv w
        → Inv (if c then P.wait w d else (w, none)).0
    wait-kept w d true is = kept.waits w d is
    wait-kept w d false is = is

    delay-kept :
        (rest : P.World → P.World)
        → ((w : P.World) → Inv w → Inv (rest w))
        → (reply : P.World × Option P.Err) → Inv reply.0
        → Inv (after_delay P r rest reply)
    unfolding after_delay
    delay-kept rest go (w, none) is = go w is
    delay-kept rest go (w, some e) is = is

    await-kept : (w : P.World) → Inv w → Inv (await_restart_delay P r w).0
    unfolding await_restart_delay
    await-kept w is = wait-kept w r.restart_delay (is_positive r.restart_delay) is

    others-kept : (w : P.World) (refs : List WorkloadRef) → Inv w → Inv (annotate_others P r w refs)
    unfolding annotate_others
    others-kept w [] is = is
    others-kept w (ref ∷ refs) is =
        delay-kept (λ v. annotate_others P r (annotate_round P r v ref) refs)
          (λ v i. others-kept (annotate_round P r v ref) refs (round-kept v ref i))
          (await_restart_delay P r w) (await-kept w is)

    workloads-kept :
        (w : P.World) (refs : List WorkloadRef)
        → Inv w
        → Inv (annotate_workloads_with_delay P r w refs)
    unfolding annotate_workloads_with_delay
    workloads-kept w [] is = is
    workloads-kept w (ref ∷ refs) is =
        others-kept (annotate_round P r w ref) refs (round-kept w ref is)

    after_scan-kept :
        (w : P.World) (result : Result P.Err (List WorkloadRef))
        → Inv w
        → Inv (after_scan P r w result).0
    unfolding after_scan
    after_scan-kept w (ok refs) is = workloads-kept w refs is
    after_scan-kept w (err e) is = is
    after_scan-kept w panic is = is
    after_scan-kept w out_of_fuel is = is

    after_config-kept :
        (fuel : ℕ) (w : P.World) (limit : List Bytes) (result : Result P.Err IstioConfig)
        → Inv w
        → Inv (after_config P r fuel w limit result).0
    unfolding after_config scan_and_annotate
    after_config-kept fuel w limit (ok cfg) is =
        after_scan-kept w
          (scan_outdated_pods P r.webhook_caller fuel w cfg (scan_options P r limit)) is
    after_config-kept fuel w limit (err e) is = is
    after_config-kept fuel w limit panic is = is
    after_config-kept fuel w limit out_of_fuel is = is

    after_await-kept :
        (fuel : ℕ) (limit : List Bytes) (reply : P.World × Option P.Err)
        → Inv reply.0
        → Inv (after_await P r fuel limit reply).0
    unfolding after_await
    after_await-kept fuel limit (w, none) is =
        after_config-kept fuel w limit (read_config P r fuel w) is
    after_await-kept fuel limit (w, some e) is = is

    reconcile_all-kept :
        (fuel : ℕ) (w : P.World) (limit : List Bytes)
        → Inv w
        → Inv (reconcile_all P r fuel w limit).0
    unfolding reconcile_all await_istiod_config_read_delay
    reconcile_all-kept fuel w limit is =
        after_await-kept fuel limit (await_istiod_config_read_delay P r w)
          (wait-kept w r.istiod_config_read_delay (is_positive r.istiod_config_read_delay) is)

    if-kept :
        {A : Type 0} (c : Bool) (x y : P.World × A) → Inv x.0 → Inv y.0 → Inv (if c then x else y).0
    if-kept true x y is _ = is
    if-kept false x y _ is = is

    -- What holds before a reconciliation holds after it, whatever its request and its result, where
    -- every wait keeps it, and every call of the annotator does unless the run is dry.
    pub reconcile-kept :
        (fuel : ℕ) (w : P.World) (req : NamespacedName) → Inv w → Inv (reconcile P r fuel w req).0
    unfolding reconcile
    reconcile-kept fuel w req is =
        let every = reconcile_all-kept fuel w [] is in
        let one = reconcile_all-kept fuel w (req.name ∷ []) is in
        if-kept (req.name == periodic_request_name) (reconcile_all P r fuel w []) _ every (
          if-kept (req.name == reconcile_trigger_name_istio_change) (reconcile_all P r fuel w []) _
            every
            (if-kept (is_empty req.namespace && not (is_empty req.name))
              (reconcile_all P r fuel w (req.name ∷ [])) (w, ok tt) one is))

-- In a dry run the waits are all that can change the world: what every wait keeps is kept by a
-- reconciliation, whatever the request and the annotator.
pub reconcile_dry_run :
    (P : Platform) (r : Reconciler P) (Inv : P.World → Type 0)
    → r.dry_run ≡ true
    → ((w : P.World) (d : Duration) → Inv w → Inv (P.wait w d).0)
    → (fuel : ℕ) (w : P.World) (req : NamespacedName) → Inv w
    → Inv (reconcile P r fuel w req).0
reconcile_dry_run P r Inv dry waits fuel w req =
    reconcile-kept P r Inv (record { waits = waits; patches = λ live v ref is. cc }) fuel w req
