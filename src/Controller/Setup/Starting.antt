-- ===== src/Controller/Setup/Starting.antt =====
-- The start of the controller's periodic source.
use fortsa.Base.{true, false, some, ◌≡◌, ok, arith}
use fortsa.Platform.{Platform}
use fortsa.Triggers.Ticking.{start_source}
use fortsa.Controller.{Reconciler}
use fortsa.Controller.Setup.{PeriodicSource, setup_istio_change_controller}

-- The source that the controller is registered with, which is there only with a positive period,
-- starts, with a running loop and an empty ticker, over any queue.
pub setup-starts :
    (P : Platform) (r : Reconciler P) (source : PeriodicSource) (Queue : Type 0) (queue : Queue)
    → (setup_istio_change_controller r).source ≡ some source
    → start_source {E = P.Err} source.period queue
      ≡ ok (record { running = true; waiting = false; cancelled = false; queue = queue })
unfolding setup_istio_change_controller start_source
setup-starts P r source Queue queue h = ground arith
