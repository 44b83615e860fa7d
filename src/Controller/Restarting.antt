-- ===== src/Controller/Restarting.antt =====
-- That a reconciliation restarts what it has to, with the scanner's webhook client in its place.
use fortsa.Base.{
  eq_iff, ◌==◌, Exists-pick, ◌≢◌, ◌⊎◌, Bool-cases, Elem, ℕ, ◌<◌, Bytes, List, [], ◌∷◌, ◌++◌,
  append-nil, none, some, ◌≡◌, refl, sym, ap, ◌∙◌, subst, inl, inr, false, ok, All, contains,
  add_keys,
}
use fortsa.Base.Int.{Duration}
use fortsa.Kube.{ObjectMeta}
use fortsa.Platform.{Platform}
use fortsa.Kube.{Pod}
use fortsa.Scan.Types.{WorkloadRef, IstioConfig}
use fortsa.Scan.Pods.{list_pods}
use fortsa.Scan.Owner.{find_workload_owner}
use fortsa.Scan.Owner.Fuel.{Falls}
use fortsa.Scan.Process.Verdict.{IsOutdated}
use fortsa.Scan.Outdated.Names.{HasName}
use fortsa.Scan.Outdated.{scan_outdated_pods}
use fortsa.Scan.Outdated.Results.{scan_complete}
use fortsa.Scan.Outdated.Ends.{scan_ends}
use fortsa.Webhook.Call.{Backend, webhook_client}
use fortsa.Webhook.Call.Denied.{ExplainsDenials, webhook_client-Returns}
use fortsa.Controller.{
  Reconciler, is_positive, await_istiod_config_read_delay, read_config, scan_options,
  annotate_workloads_with_delay, reconcile_all,
}
use fortsa.Controller.Setup.{ReconcilerOptions, new_istio_change_reconciler}
use fortsa.Controller.Success.{Succeeded, Succeeded-reconcile_all}
use fortsa.Controller.Pacing.{Pauses, Paced, PacedUpTo, annotate_workloads-Paced}

-- The workload is in the list, or one of another kind with its namespace and name is.
abbrev pub Stands : WorkloadRef → List WorkloadRef → Type 0
Stands ref refs =
    Elem ref refs
    ⊎ ((other : WorkloadRef) × Elem other refs
        × (other.namespaced_name ≡ ref.namespaced_name)
        × (other.kind ≢ ref.kind))

stands :
    (ref : WorkloadRef) (refs : List WorkloadRef)
    → HasName ref.namespaced_name refs
    → Stands ref refs
stands ref refs named =
    let (other, there, name) =
      Exists-pick (λ r. r.namespaced_name ≡ ref.namespaced_name) refs named in
    elim (Bool-cases (other.kind == ref.kind)) [
      | inl on ↦
          let kind = (eq_iff other.kind ref.kind).0 on in
          let same : other ≡ ref = cc in inl (subst (λ r. Elem r refs) same there)
      | inr off ↦ inr (other, there, name, λ kind. cc ((eq_iff other.kind ref.kind).1 kind))
    ]

module _ (P : Platform) where
  -- No wait is cancelled.
  abbrev pub WaitsEnd : Type 0
  WaitsEnd = (w : P.World) (d : Duration) → (P.wait w d).1 ≡ none

  module _ (r : Reconciler P) where
    -- The annotator is asked about every workload, in turn.
    abbrev pub AnnotatesAll : P.World → List WorkloadRef → P.World → Type 0
    AnnotatesAll w [] v = v ≡ w
    AnnotatesAll w (ref ∷ refs) v = Paced P r (r.annotator.annotate_workload w ref).0 refs v

    Pauses-none : WaitsEnd → (u v : P.World) (e : P.Err) → ¬ Pauses P r u (v, some e)
    Pauses-none ends u v e (inl (on, waited)) = cc (ends u r.restart_delay)
    Pauses-none ends u v e (inr (off, same)) = cc

    PacedUpTo-all :
        WaitsEnd
        → (w : P.World) (refs : List WorkloadRef) (v : P.World) → PacedUpTo P r w refs v
        → Paced P r w refs v
    PacedUpTo-all ends w refs v (done, left, u, split, paced, inl (over, same)) =
        let whole : done ≡ refs =
          sym (append-nil done) ∙ ap (λ l. done ++ l) (sym over) ∙ sym split in
        subst (λ l. Paced P r w l v) whole (subst (Paced P r w done) (sym same) paced)
    PacedUpTo-all ends w refs v (done, left, u, split, paced, inr (some_left, (e, pauses))) =
        absurd (Pauses-none ends u v e pauses)

    annotate_workloads_all :
        WaitsEnd
        → r.dry_run ≡ false
        → (w : P.World) (refs : List WorkloadRef)
        → AnnotatesAll w refs (annotate_workloads_with_delay P r w refs)
    annotate_workloads_all ends live w [] = annotate_workloads-Paced P r live w []
    annotate_workloads_all ends live w (ref ∷ refs) =
        PacedUpTo-all ends (r.annotator.annotate_workload w ref).0 refs
          (annotate_workloads_with_delay P r w (ref ∷ refs))
          (annotate_workloads-Paced P r live w (ref ∷ refs))

    await_all :
        WaitsEnd
        → (w : P.World)
        → await_istiod_config_read_delay P r w ≡ ((await_istiod_config_read_delay P r w).0, none)
    unfolding await_istiod_config_read_delay
    await_all ends w = elim (Bool-cases (is_positive r.istiod_config_read_delay)) [
      | inl on ↦ rw on (
          ap (λ e. ((P.wait w r.istiod_config_read_delay).0, e))
            (ends w r.istiod_config_read_delay))
      | inr off ↦ rw off refl
    ]

  module _ (B : Backend P) (opts : ReconcilerOptions) where
    -- The reconciler that the program builds.
    abbrev built : Reconciler P
    built = new_istio_change_reconciler P B opts

    -- The world that the wait for istiod leaves.
    abbrev pub read_world : P.World → P.World
    read_world w = (await_istiod_config_read_delay P built w).0

    -- The reconciler that the program builds restarts what it has to. Let there be no dry run and no
    -- wait be cancelled. In the world that the wait for istiod leaves, let no webhook deny a pod
    -- without a `Result`, the configuration be read, the pods be listed, and some rank fall along
    -- the owner chains and be less than the fuel at each listed pod. Let a listed pod outside the
    -- skipped namespaces have an owner that is found, and an outdated sidecar. Then the
    -- reconciliation returns without an error, and the annotator is asked in turn about all workloads
    -- that the scan of that world returns, among them the owner, or in its place a workload with the
    -- owner's namespace and name and of another kind.
    pub reconcile_all_restarts :
        (fuel : ℕ) (w : P.World) (limit : List Bytes) (cfg : IstioConfig) (pods : List Pod)
        (rank : ObjectMeta → ℕ) (pod : Pod) (ref : WorkloadRef)
        → opts.dry_run ≡ false
        → WaitsEnd
        → ExplainsDenials P B (read_world w)
        → read_config P built fuel (read_world w) ≡ ok cfg
        → list_pods P (read_world w) (scan_options P built limit) ≡ ok pods
        → Falls P (read_world w) rank
        → All (λ listed. rank listed.meta < fuel) pods
        → Elem pod pods
        → contains (add_keys [] opts.skip_namespaces) pod.meta.namespace ≡ false
        → find_workload_owner P (read_world w) fuel pod.meta ≡ ok (some ref)
        → IsOutdated P (webhook_client P B) (read_world w) pod cfg (scan_options P built limit) ref
        → (v : P.World) × (refs : List WorkloadRef) × (reconcile_all P built fuel w limit
            ≡ (v, ok tt))
          × (scan_outdated_pods P
                (some (webhook_client P B))
                fuel
                (read_world w)
                cfg
                (scan_options P built limit)
              ≡ ok refs)
          × AnnotatesAll built (read_world w) refs v
          × Stands ref refs
    unfolding new_istio_change_reconciler
    reconcile_all_restarts fuel w limit cfg pods rank pod ref live ends explains read listed falls
          enough there kept owner outdated =
        let u = read_world w in
        let scan_opts = scan_options P built limit in
        let (refs, scanned) =
          scan_ends P (webhook_client P B) u (webhook_client-Returns P B u explains) fuel cfg
            scan_opts pods rank falls listed enough in
        let v = annotate_workloads_with_delay P built u refs in
        let s : Succeeded P built fuel w limit v = record {
          u = u;
          cfg = cfg;
          refs = refs;
          waited = await_all built ends w;
          read = read;
          scanned = scanned;
          annotated = refl;
        } in
        (
          v,
          refs,
          Succeeded-reconcile_all P built fuel w limit v s,
          scanned,
          annotate_workloads_all built ends live u refs,
          stands ref refs (
              scan_complete P (webhook_client P B) fuel u cfg scan_opts pods refs pod ref listed
                scanned there kept owner outdated),
        )
