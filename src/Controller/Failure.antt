-- ===== src/Controller/Failure.antt =====
-- What a reconciliation that returns an error has gone through.
use fortsa.Base.{
  subst, ap, codes, Bytes, ℕ, List, Option, none, some, ◌≡◌, refl, ◌∙◌, Result, ok, err, panic,
  out_of_fuel, Error, wrap, outside,
}
use fortsa.Platform.{Platform}
use fortsa.Scan.Types.{WorkloadRef, IstioConfig, WebhookCaller}
use fortsa.Scan.Pods.{list_pods}
use fortsa.Scan.Outdated.{scan_outdated_pods}
use fortsa.Scan.Outdated.Errors.{scan-listing_failed}
use fortsa.Controller.{
  Reconciler, await_istiod_config_read_delay, read_config, scan_options, after_scan,
  scan_and_annotate, after_config, after_await, reconcile_all,
}

module _ (P : Platform) (r : Reconciler P) where
  -- The wait for istiod was cancelled, or it left a world in which the configuration could not be
  -- read, or in which the pods could not be listed; the error is that of the step that failed.
  pub data Failed (fuel : ℕ) (w : P.World) (limit : List Bytes) (v : P.World)
      : Error P.Err → Type 0 where
    cancelled :
        {e : P.Err}
        → await_istiod_config_read_delay P r w ≡ (v, some e)
        → Failed fuel w limit v (wrap (codes "await istiod config read delay") (outside e))
    unread :
        {x : Error P.Err}
        → await_istiod_config_read_delay P r w ≡ (v, none)
        → read_config P r fuel v ≡ err x
        → Failed fuel w limit v x
    unlisted :
        {x : Error P.Err}
        → await_istiod_config_read_delay P r w ≡ (v, none)
        → list_pods P v (scan_options P r limit) ≡ err x
        → Failed fuel w limit v (wrap (codes "scan outdated pods") x)

  module _ (fuel : ℕ) (w : P.World) (limit : List Bytes) where
    scan-ne-err :
        (caller : Option (WebhookCaller P)) (u : P.World) (cfg : IstioConfig) (x : Error P.Err)
        → scan_outdated_pods P caller fuel u cfg (scan_options P r limit) ≡ err x
        → list_pods P u (scan_options P r limit) ≡ err x
    unfolding scan_outdated_pods
    scan-ne-err none u cfg x h = cc
    scan-ne-err (some caller) u cfg x h =
        scan-listing_failed P caller fuel u cfg (scan_options P r limit) x h

    after_scan-Failed :
        (u v : P.World) (cfg : IstioConfig) (result : Result P.Err (List WorkloadRef))
        (x : Error P.Err)
        → await_istiod_config_read_delay P r w ≡ (u, none)
        → scan_outdated_pods P r.webhook_caller fuel u cfg (scan_options P r limit) ≡ result
        → after_scan P r u result ≡ (v, err x)
        → Failed fuel w limit v x
    unfolding after_scan
    after_scan-Failed u v cfg (ok refs) x waited scanned e = cc
    after_scan-Failed u v cfg (err y) x waited scanned e =
        let unmoved : u ≡ v = cc in
        let wrapped : wrap (codes "scan outdated pods") y ≡ x = cc in
        subst (λ t. Failed fuel w limit t x) unmoved
          (subst (Failed fuel w limit u) wrapped
            (unlisted waited (scan-ne-err r.webhook_caller u cfg y scanned)))
    after_scan-Failed u v cfg panic x waited scanned e = cc
    after_scan-Failed u v cfg out_of_fuel x waited scanned e = cc

    after_config-Failed :
        (u v : P.World) (result : Result P.Err IstioConfig) (x : Error P.Err)
        → await_istiod_config_read_delay P r w ≡ (u, none)
        → read_config P r fuel u ≡ result
        → after_config P r fuel u limit result ≡ (v, err x)
        → Failed fuel w limit v x
    unfolding after_config
    after_config-Failed u v (ok cfg) x waited read e =
        after_scan-Failed u v cfg
          (scan_outdated_pods P r.webhook_caller fuel u cfg (scan_options P r limit)) x waited refl
          (unfold scan_and_annotate in e)
    after_config-Failed u v (err y) x waited read e =
        let unmoved : u ≡ v = cc in
        let same : y ≡ x = cc in
        subst (λ t. Failed fuel w limit t x) unmoved (unread waited (read ∙ ap err same))
    after_config-Failed u v panic x waited read e = cc
    after_config-Failed u v out_of_fuel x waited read e = cc

    after_await-Failed :
        (reply : P.World × Option P.Err) (v : P.World) (x : Error P.Err)
        → await_istiod_config_read_delay P r w ≡ reply
        → after_await P r fuel limit reply ≡ (v, err x)
        → Failed fuel w limit v x
    unfolding after_await
    after_await-Failed (u, some e) v x waited h =
        let unmoved : u ≡ v = cc in
        let wrapped : wrap (codes "await istiod config read delay") (outside e) ≡ x = cc in
        subst (λ t. Failed fuel w limit t x) unmoved
          (subst (Failed fuel w limit u) wrapped (cancelled waited))
    after_await-Failed (u, none) v x waited h =
        after_config-Failed u v (read_config P r fuel u) x waited refl h

    -- A reconciliation that returns an error has annotated nothing: it leaves the world that the
    -- wait for istiod left, and the error is that of the cancelled wait, of the configuration that
    -- could not be read or of the pods that could not be listed, with the texts that the handler
    -- wraps it in.
    pub reconcile_all-Failed :
        (v : P.World) (x : Error P.Err)
        → reconcile_all P r fuel w limit ≡ (v, err x)
        → Failed fuel w limit v x
    unfolding reconcile_all
    reconcile_all-Failed v x = after_await-Failed (await_istiod_config_read_delay P r w) v x refl
