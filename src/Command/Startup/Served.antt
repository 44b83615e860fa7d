-- ===== src/Command/Startup/Served.antt =====
-- The steps of the program from the certificate watchers to the manager's run.
use fortsa.Base.{
  Bytes, codes, true, false, Option, none, some, ◌≡◌, refl, ap, inl, inr, is_empty, Bool-cases,
}
use fortsa.Platform.{Platform}
use fortsa.Webhook.Call.{Backend}
use fortsa.Controller.Setup.{setup_istio_change_controller}
use fortsa.Command.Host.{Host}
use fortsa.Command.Startup.Steps.{
  Ends, passed, >>=-Ends, attempt-Ends, obtain-Ends, passed_by, pass_step, attempt-pass,
  obtain-pass,
}
use fortsa.Command.Startup.{
  watch_certificate, manager_options, the_reconciler, add_watcher, run_manager, serve,
}

module _ (P : Platform) (B : Backend P) (H : Host P) where
  -- What `watch_certificate` does when it goes through.
  pub data Watched (path name key : Bytes) (s : H.State) : H.State → Option H.Watcher → Type 0 where
    without : is_empty path ≡ true → Watched path name key s s none
    watching :
        {t : H.State} {watcher : H.Watcher}
        → is_empty path ≡ false
        → H.new_cert_watcher (H.join_path path name) (H.join_path path key) s ≡ (t, inr watcher)
        → Watched path name key s t (some watcher)

  -- The manager has the watcher, if there is one.
  abbrev pub Added : H.Manager → Option H.Watcher → H.State → H.State → Type 0
  Added mgr none s t = s ≡ t
  Added mgr (some watcher) s t = H.add_cert_watcher mgr watcher s ≡ (t, none)

  -- The manager is built, has its watchers and checks, and has run to its end.
  pub record Ran (mgr : H.Manager) (webhook_watcher metrics_watcher : Option H.Watcher)
      (s t : H.State) : Type 0 where
    pub built : H.State
    pub watched : H.State
    pub served : H.State
    pub healthy : H.State
    pub ready : H.State
    pub completes :
        H.complete mgr
          (setup_istio_change_controller (the_reconciler P B H))
          (the_reconciler P B H)
          s
        ≡ (built, none)
    pub adds_metrics : Added mgr metrics_watcher built watched
    pub adds_webhook : Added mgr webhook_watcher watched served
    pub checks_health : H.add_healthz_check mgr served ≡ (healthy, none)
    pub checks_readiness : H.add_readyz_check mgr healthy ≡ (ready, none)
    pub starts : H.start mgr ready ≡ (t, none)

  watch_certificate-Ends :
      (path name key : Bytes) (s : H.State)
      → Ends (Watched path name key s) (watch_certificate P B H path name key s)
  unfolding watch_certificate
  watch_certificate-Ends path name key s = elim (Bool-cases (is_empty path)) [
    | inl absent ↦ rw absent (passed (without absent))
    | inr given ↦ rw given (>>=-Ends _ _ _ (obtain-Ends _ s) (λ t w e. passed (watching given e)))
  ]

  add_watcher-Ends :
      (mgr : H.Manager) (watcher : Option H.Watcher) (s : H.State)
      → Ends (λ t (_ : Unit {0}). Added mgr watcher s t) (add_watcher P B H mgr watcher s)
  unfolding add_watcher
  add_watcher-Ends mgr none s = passed refl
  add_watcher-Ends mgr (some watcher) s = attempt-Ends _ s

  run_manager-Ends :
      (mgr : H.Manager) (webhook_watcher metrics_watcher : Option H.Watcher) (s : H.State)
      → Ends
          (λ t (_ : Unit {0}). Ran mgr webhook_watcher metrics_watcher s t)
          (run_manager P B H mgr webhook_watcher metrics_watcher s)
  unfolding run_manager
  run_manager-Ends mgr webhook_watcher metrics_watcher s =
      >>=-Ends _ _ _ (attempt-Ends _ s) λ t1 _ e1.
        >>=-Ends _ _ _ (add_watcher-Ends mgr metrics_watcher t1) λ t2 _ e2.
          >>=-Ends _ _ _ (add_watcher-Ends mgr webhook_watcher t2) λ t3 _ e3.
            >>=-Ends _ _ _ (attempt-Ends _ t3) λ t4 _ e4.
              >>=-Ends _ _ _ (attempt-Ends _ t4) λ t5 _ e5. passed_by (attempt-Ends _ t5) λ t _ e6.
                record {
                  built = t1;
                  watched = t2;
                  served = t3;
                  healthy = t4;
                  ready = t5;
                  completes = e1;
                  adds_metrics = e2;
                  adds_webhook = e3;
                  checks_health = e4;
                  checks_readiness = e5;
                  starts = e6;
                }

  -- The watchers are there, the manager is made of the options, and it runs to its end.
  pub record Served (s t : H.State) : Type 0 where
    pub webhook_watcher : Option H.Watcher
    pub metrics_watcher : Option H.Watcher
    pub mgr : H.Manager
    pub with_webhook : H.State
    pub with_metrics : H.State
    pub configured : H.State
    pub managed : H.State
    pub watches_webhook :
        Watched
          (H.get_string (codes "webhook-cert-path"))
          (H.get_string (codes "webhook-cert-name"))
          (H.get_string (codes "webhook-cert-key"))
          s
          with_webhook
          webhook_watcher
    pub watches_metrics :
        Watched
          (H.get_string (codes "metrics-cert-path"))
          (H.get_string (codes "metrics-cert-name"))
          (H.get_string (codes "metrics-cert-key"))
          with_webhook
          with_metrics
          metrics_watcher
    pub configures : H.get_config with_metrics ≡ (configured, none)
    pub makes_manager :
        H.new_manager (manager_options P B H webhook_watcher metrics_watcher) configured
        ≡ (managed, inr mgr)
    pub runs : Ran mgr webhook_watcher metrics_watcher managed t

  pub serve-Ends : (s : H.State) → Ends (λ t (_ : Unit {0}). Served s t) (serve P B H s)
  unfolding serve
  serve-Ends s = >>=-Ends _ _ _ (watch_certificate-Ends _ _ _ s) λ t1 w1 e1.
      >>=-Ends _ _ _ (watch_certificate-Ends _ _ _ t1) λ t2 w2 e2.
        >>=-Ends _ _ _ (attempt-Ends _ t2) λ t3 _ e3. >>=-Ends _ _ _ (obtain-Ends _ t3) λ t4 mgr e4.
          passed_by (run_manager-Ends mgr w1 w2 t4) λ t _ e5. record {
            webhook_watcher = w1;
            metrics_watcher = w2;
            mgr = mgr;
            with_webhook = t1;
            with_metrics = t2;
            configured = t3;
            managed = t4;
            watches_webhook = e1;
            watches_metrics = e2;
            configures = e3;
            makes_manager = e4;
            runs = e5;
          }

  Watched-pass :
      {path name key : Bytes} {s t : H.State} {watcher : Option H.Watcher}
      → Watched path name key s t watcher
      → watch_certificate P B H path name key s ≡ (t, inr watcher)
  unfolding watch_certificate
  Watched-pass (without absent) = rw absent
  Watched-pass (watching given e) = rw given (pass_step _ _ _ (obtain-pass _ _ e) refl)

  Added-pass :
      (mgr : H.Manager) (watcher : Option H.Watcher) (s : H.State) {t : H.State}
      → Added mgr watcher s t
      → add_watcher P B H mgr watcher s ≡ (t, inr tt)
  unfolding add_watcher
  Added-pass mgr none s e = ap (λ u. (u, inr tt)) e
  Added-pass mgr (some watcher) s e = attempt-pass _ _ e

  Ran-pass :
      {mgr : H.Manager} {webhook_watcher metrics_watcher : Option H.Watcher} {s t : H.State}
      → Ran mgr webhook_watcher metrics_watcher s t
      → run_manager P B H mgr webhook_watcher metrics_watcher s ≡ (t, inr tt)
  unfolding run_manager
  Ran-pass {mgr} {webhook_watcher} {metrics_watcher} ran =
      pass_step _ _ _ (attempt-pass _ _ ran.completes) (
        pass_step _ _ _ (Added-pass mgr metrics_watcher _ ran.adds_metrics) (
          pass_step _ _ _ (Added-pass mgr webhook_watcher _ ran.adds_webhook) (
            pass_step _ _ _ (attempt-pass _ _ ran.checks_health) (
              pass_step _ _ _ (attempt-pass _ _ ran.checks_readiness)
                (attempt-pass _ _ ran.starts)))))

  pub Served-pass : {s t : H.State} → Served s t → serve P B H s ≡ (t, inr tt)
  unfolding serve
  Served-pass served = pass_step _ _ _ (Watched-pass served.watches_webhook) (
      pass_step _ _ _ (Watched-pass served.watches_metrics) (
        pass_step _ _ _ (attempt-pass _ _ served.configures)
          (pass_step _ _ _ (obtain-pass _ _ served.makes_manager) (Ran-pass served.runs))))
