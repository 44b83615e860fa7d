-- ===== src/Controller/Success.antt =====
-- What a reconciliation that returns no error has gone through.
use fortsa.Base.{
  ap, Bytes, ℕ, List, Option, none, some, ◌≡◌, refl, Result, ok, err, panic, out_of_fuel,
}
use fortsa.Platform.{Platform}
use fortsa.Scan.Types.{WorkloadRef, IstioConfig}
use fortsa.Scan.Outdated.{scan_outdated_pods}
use fortsa.Controller.{
  Reconciler, await_istiod_config_read_delay, read_config, scan_options,
  annotate_workloads_with_delay, after_scan, scan_and_annotate, after_config, after_await,
  reconcile_all,
}

module _ (P : Platform) (r : Reconciler P) where
  -- The wait for istiod ends in the world `u`, where the configuration is read and the pods are
  -- scanned, and the workloads of the scan are annotated, which leaves `v`.
  pub record Succeeded (fuel : ℕ) (w : P.World) (limit : List Bytes) (v : P.World) : Type 0 where
    pub u : P.World
    pub cfg : IstioConfig
    pub refs : List WorkloadRef
    pub waited : await_istiod_config_read_delay P r w ≡ (u, none)
    pub read : read_config P r fuel u ≡ ok cfg
    pub scanned :
        scan_outdated_pods P r.webhook_caller fuel u cfg (scan_options P r limit) ≡ ok refs
    pub annotated : annotate_workloads_with_delay P r u refs ≡ v

  module _ (fuel : ℕ) (w : P.World) (limit : List Bytes) (v : P.World) where
    after_scan-Succeeded :
        (u : P.World) (cfg : IstioConfig) (result : Result P.Err (List WorkloadRef))
        → await_istiod_config_read_delay P r w ≡ (u, none)
        → read_config P r fuel u ≡ ok cfg
        → scan_outdated_pods P r.webhook_caller fuel u cfg (scan_options P r limit) ≡ result
        → after_scan P r u result ≡ (v, ok tt)
        → Succeeded fuel w limit v
    unfolding after_scan
    after_scan-Succeeded u cfg (ok refs) waited read scanned e = record {
      u = u;
      cfg = cfg;
      refs = refs;
      waited = waited;
      read = read;
      scanned = scanned;
      annotated = ap (λ answer. answer.0) e;
    }
    after_scan-Succeeded u cfg (err x) waited read scanned e = cc
    after_scan-Succeeded u cfg panic waited read scanned e = cc
    after_scan-Succeeded u cfg out_of_fuel waited read scanned e = cc

    after_config-Succeeded :
        (u : P.World) (result : Result P.Err IstioConfig)
        → await_istiod_config_read_delay P r w ≡ (u, none)
        → read_config P r fuel u ≡ result
        → after_config P r fuel u limit result ≡ (v, ok tt)
        → Succeeded fuel w limit v
    unfolding after_config
    after_config-Succeeded u (ok cfg) waited read e =
        after_scan-Succeeded u cfg
          (scan_outdated_pods P r.webhook_caller fuel u cfg (scan_options P r limit)) waited read
          refl (unfold scan_and_annotate in e)
    after_config-Succeeded u (err x) waited read e = cc
    after_config-Succeeded u panic waited read e = cc
    after_config-Succeeded u out_of_fuel waited read e = cc

    after_await-Succeeded :
        (reply : P.World × Option P.Err)
        → await_istiod_config_read_delay P r w ≡ reply
        → after_await P r fuel limit reply ≡ (v, ok tt)
        → Succeeded fuel w limit v
    unfolding after_await
    after_await-Succeeded (u, some e) waited h = cc
    after_await-Succeeded (u, none) waited h =
        after_config-Succeeded u (read_config P r fuel u) waited refl h

    pub reconcile_all-Succeeded :
        reconcile_all P r fuel w limit ≡ (v, ok tt) → Succeeded fuel w limit v
    unfolding reconcile_all
    reconcile_all-Succeeded = after_await-Succeeded (await_istiod_config_read_delay P r w) refl

    pub Succeeded-reconcile_all :
        Succeeded fuel w limit v → reconcile_all P r fuel w limit ≡ (v, ok tt)
    unfolding reconcile_all after_await after_config scan_and_annotate after_scan
    Succeeded-reconcile_all s = rw (s.waited, s.read, s.scanned, s.annotated) refl
