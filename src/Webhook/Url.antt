-- ===== src/Webhook/Url.antt =====
-- The two ways to the URL of a webhook, and the certificates that come with it.
use fortsa.Base.{
  ◌>>=◌, wrapping, ap, wrapping-eq-ok, if◌then◌else◌, has_prefix, Bytes, codes, Bool, Option, none,
  some, [], is_empty_iff, ◌≡◌, ◌≢◌, refl, Result, ok, >>=-eq-ok, ok_injective, if◌then◌else◌, ◌⊎◌,
  inl, inr, arith,
}
use fortsa.Base.Int.{ℤ}
use fortsa.Constants.{istio_system_namespace}
use fortsa.Kube.{WebhookClientConfig}
use fortsa.Platform.{Platform, returned}
use fortsa.Webhook.{
  cluster_name, config_name, first_webhook, default_tag_webhook, inject_path, inject_port,
  service_name, service_path, url_from_client_config, get_webhook_url, nonempty_ca_bundle,
  get_ca_bundle_for_revision, Endpoint, tag_endpoint, revision_endpoint,
  get_webhook_url_and_ca_bundle,
}

service_path_inject :
    (path : Option Bytes)
    → (path ≡ none) ⊎ ((path ≡ some inject_path) ⊎ (path ≡ some (codes "inject")))
    → service_path path ≡ inject_path
unfolding service_path has_prefix
service_path_inject path (inl e) = rw e refl
service_path_inject path (inr (inl e)) = rw e refl
service_path_inject path (inr (inr e)) = rw e refl

-- The URL that is built for a revision is the one that is read off a client configuration that
-- names istiod's service of the revision; the configuration may say the port 443, and a path
-- "/inject" or "inject", or leave either out.
pub url_from_client_config-get_webhook_url :
    {E : Type 0} (revision ca_bundle : Bytes) (port : Option ℤ) (path : Option Bytes)
    → (port ≡ none) ⊎ (port ≡ some inject_port)
    → (path ≡ none) ⊎ ((path ≡ some inject_path) ⊎ (path ≡ some (codes "inject")))
    → ◌≡◌ {A = Result E Bytes}
        (url_from_client_config (record {
          url = none;
          service = some (record {
            namespace = istio_system_namespace;
            name = service_name revision;
            path = path;
            port = port;
          });
          ca_bundle = ca_bundle;
        }))
        (ok (get_webhook_url revision))
unfolding url_from_client_config get_webhook_url
url_from_client_config-get_webhook_url revision ca_bundle port path which_port which_path =
    rw (service_path_inject path which_path)
      (elim which_port [ inl e ↦ rw e refl | inr e ↦ rw e refl ])

module _ (P : Platform) (w : P.World) where
  nonempty_ca_bundle-nonempty :
      (cfg : WebhookClientConfig) (ca_bundle : Bytes)
      → nonempty_ca_bundle P cfg ≡ ok ca_bundle
      → ca_bundle ≢ []
  unfolding nonempty_ca_bundle
  nonempty_ca_bundle-nonempty cfg ca_bundle h = ground (arith, is_empty_iff cfg.ca_bundle)

  get_ca_bundle-nonempty :
      (revision ca_bundle : Bytes)
      → get_ca_bundle_for_revision P w revision ≡ ok ca_bundle
      → ca_bundle ≢ []
  unfolding get_ca_bundle_for_revision
  get_ca_bundle-nonempty revision ca_bundle h =
      let (mwc, read, rest) =
        >>=-eq-ok
          (wrapping (codes "get MutatingWebhookConfiguration")
            (returned (P.get_webhook_configuration w (cluster_name P (config_name P revision)))))
          (λ mwc. first_webhook P mwc.webhooks >>= nonempty_ca_bundle P) h in
      let (cfg, first, last) =
        >>=-eq-ok (first_webhook P mwc.webhooks) (nonempty_ca_bundle P) rest in
      nonempty_ca_bundle-nonempty cfg ca_bundle last

  abbrev the_endpoint : Bytes → Bytes → Endpoint P
  the_endpoint url ca_bundle = record { url = url; ca_bundle = ca_bundle }

  tag_endpoint-nonempty :
      (cfg : WebhookClientConfig) (endpoint : Endpoint P)
      → tag_endpoint P cfg ≡ ok endpoint
      → endpoint.ca_bundle ≢ []
  unfolding tag_endpoint
  tag_endpoint-nonempty cfg endpoint h =
      let (url, extracted, rest) =
        >>=-eq-ok (wrapping (codes "extract URL") (url_from_client_config cfg))
          (λ url. nonempty_ca_bundle P cfg >>= λ ca. ok (the_endpoint url ca)) h in
      let (ca_bundle, found, last) =
        >>=-eq-ok (nonempty_ca_bundle P cfg) (λ ca. ok (the_endpoint url ca)) rest in
      let same : ca_bundle ≡ endpoint.ca_bundle = ap (λ e. e.ca_bundle) (ok_injective last) in
      rw (← same) (nonempty_ca_bundle-nonempty cfg ca_bundle found)

  revision_endpoint-nonempty :
      (revision : Bytes) (endpoint : Endpoint P)
      → revision_endpoint P w revision ≡ ok endpoint
      → endpoint.ca_bundle ≢ []
  unfolding revision_endpoint
  revision_endpoint-nonempty revision endpoint h =
      let bundle = get_ca_bundle_for_revision P w revision in
      let (ca_bundle, found, last) =
        >>=-eq-ok (wrapping (codes "get caBundle for revision") bundle)
          (λ ca. ok (the_endpoint (get_webhook_url revision) ca)) h in
      let same : ca_bundle ≡ endpoint.ca_bundle = ap (λ e. e.ca_bundle) (ok_injective last) in
      rw (← same) (
        get_ca_bundle-nonempty revision ca_bundle
          (wrapping-eq-ok (codes "get caBundle for revision") bundle found))

  -- No URL is returned without certificates, whichever configuration it comes from.
  pub get_webhook_url_and_ca_bundle-nonempty :
      (revision : Bytes) (prefer : Bool) (endpoint : Endpoint P)
      → get_webhook_url_and_ca_bundle P w revision prefer ≡ ok endpoint
      → endpoint.ca_bundle ≢ []
  unfolding get_webhook_url_and_ca_bundle
  get_webhook_url_and_ca_bundle-nonempty revision prefer endpoint h =
      go (if prefer then default_tag_webhook P w else none) h
    where
      go :
          (found : Option WebhookClientConfig)
          → ◌≡◌ {A = Result P.Err (Endpoint P)}
              (elim found [ some cfg ↦ tag_endpoint P cfg | none ↦ revision_endpoint P w revision ])
              (ok endpoint)
          → endpoint.ca_bundle ≢ []
      go (some cfg) e = tag_endpoint-nonempty cfg endpoint e
      go none e = revision_endpoint-nonempty revision endpoint e
