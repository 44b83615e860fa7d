-- ===== src/Command/Startup/Tls.antt =====
-- What the TLS options of the two servers come to.
use fortsa.Base.{
  inr, inl, Bytes, codes, Bool, Option, none, some, List, [], ◌∷◌, ◌≡◌, refl, if◌then◌else◌,
  Bool-cases,
}
use fortsa.Platform.{Platform}
use fortsa.Webhook.Call.{Backend}
use fortsa.Command.Host.{TlsOption, disable_http2, certificate_of, Host}
use fortsa.Command.Startup.{manager_options, tls_opts, with_watcher}

-- The fields of a `tls.Config` that the options set.
pub record TlsConfig (Watcher : Type 0) : Type 0 where
  pub next_protos : List Bytes
  pub get_certificate : Option Watcher

-- What an option does to a configuration.
unfoldable pub apply_tls : {W : Type 0} → TlsOption W → TlsConfig W → TlsConfig W
apply_tls disable_http2 cfg = record cfg { next_protos = codes "http/1.1" ∷ [] }
apply_tls (certificate_of watcher) cfg = record cfg { get_certificate = some watcher }

-- The options applied in their order, as a server does.
abbrev pub configure : {W : Type 0} → List (TlsOption W) → TlsConfig W → TlsConfig W
configure [] cfg = cfg
configure (opt ∷ opts) cfg = configure opts (apply_tls opt cfg)

-- The configuration that is meant: HTTP/2 is off unless it is enabled, and the certificate is the
-- watcher's where there is one.
abbrev pub secured : {W : Type 0} → Bool → Option W → TlsConfig W → TlsConfig W
secured enable watcher cfg = record {
  next_protos = if enable then cfg.next_protos else codes "http/1.1" ∷ [];
  get_certificate = elim watcher [ none ↦ cfg.get_certificate | some w ↦ some w ];
}

module _ (P : Platform) (B : Backend P) (H : Host P) where
  with_watcher-secured :
      (watcher : Option H.Watcher) (cfg : TlsConfig H.Watcher)
      → configure (with_watcher P B H (tls_opts P B H) watcher) cfg
        ≡ secured (H.get_bool (codes "enable-http2")) watcher cfg
  unfolding apply_tls
  with_watcher-secured none cfg = elim (Bool-cases (H.get_bool (codes "enable-http2"))) [
    | inl on ↦ rw on refl
    | inr off ↦ rw off refl
  ]
  with_watcher-secured (some watcher) cfg = elim (Bool-cases (H.get_bool (codes "enable-http2"))) [
    | inl on ↦ rw on refl
    | inr off ↦ rw off refl
  ]

  -- Each of the two servers of the manager is configured with HTTP/1.1 alone unless the flag enables
  -- HTTP/2, and with the certificate of its own watcher where it has one: the other server's watcher
  -- does not count.
  pub manager_options-secured :
      (webhook_watcher metrics_watcher : Option H.Watcher) (cfg : TlsConfig H.Watcher)
      → (configure (manager_options P B H webhook_watcher metrics_watcher).webhook_tls_opts cfg
          ≡ secured (H.get_bool (codes "enable-http2")) webhook_watcher cfg)
        × (configure (manager_options P B H webhook_watcher metrics_watcher).metrics.tls_opts cfg
            ≡ secured (H.get_bool (codes "enable-http2")) metrics_watcher cfg)
  unfolding manager_options
  manager_options-secured webhook_watcher metrics_watcher cfg =
      (with_watcher-secured webhook_watcher cfg, with_watcher-secured metrics_watcher cfg)
