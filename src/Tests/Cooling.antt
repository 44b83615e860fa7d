-- ===== src/Tests/Cooling.antt =====
-- A cluster whose Deployment was annotated a short while ago.
use fortsa.Base.{codes, some, none, [], ◌∷◌, ◌≡◌, refl, inr, ok, arith}
use fortsa.Base.Int.{pos, ◌-ℤ◌}
use fortsa.Constants.{restarted_at_annotation}
use fortsa.Platform.{Platform}
use fortsa.Annotator.{restarted_at, get_restarted_at}
use fortsa.Annotator.Cooldown.{IsCooling}
use fortsa.Scan.Outdated.{scan_outdated_pods}
use fortsa.Controller.{
  Reconciler, await_istiod_config_read_delay, read_config, scan_options, reconcile_all,
}
use fortsa.Controller.Setup.{ReconcilerOptions, new_istio_change_reconciler}
use fortsa.Controller.Cooling.{reconcile_all_cooling}
use fortsa.Tests.Sample.{web, web_template}
use fortsa.Tests.Restarting.{cluster, newer_on, live, live_config, runs}

abbrev rested : Platform
rested = record cluster {
  get_deployment =
      λ w nn. inr (record web_template { annotations = (restarted_at_annotation, codes "t") ∷ [] });
  parse_rfc3339 = λ s. some (pos 900);
}

abbrev unhurried : ReconcilerOptions
unhurried = record live { restart_delay = pos 0 }

abbrev the_unhurried : Reconciler rested
the_unhurried = new_istio_change_reconciler rested (newer_on rested) unhurried

rested_waited : await_istiod_config_read_delay rested the_unhurried 0 ≡ (0, none)
unfolding runs
rested_waited = refl

rested_read : read_config rested the_unhurried 3 0 ≡ ok live_config
unfolding runs
rested_read = refl

rested_scanned :
    scan_outdated_pods rested the_unhurried.webhook_caller 3 0 live_config
      (scan_options rested the_unhurried [])
    ≡ ok (web ∷ [])
unfolding runs
rested_scanned = refl

web_annotated : get_restarted_at rested 0 web ≡ inr (pos 900)
unfolding runs get_restarted_at restarted_at
web_annotated = refl

web-IsCooling : IsCooling rested (pos 300) 0 web
unfolding ◌-ℤ◌
web-IsCooling = (pos 900, web_annotated, (cc), omega arith)

reconcile_all_cooling_example : reconcile_all rested the_unhurried 3 0 [] ≡ (0, ok tt)
reconcile_all_cooling_example =
    reconcile_all_cooling rested (newer_on rested) unhurried 3 0 0 [] live_config (web ∷ [])
      (omega arith) (omega arith) (omega arith) rested_waited rested_read rested_scanned
      (web-IsCooling, tt)
