-- ===== src/Webhook.antt =====
-- internal/webhook/webhook_client.go: the URL and the certificates of a webhook.
pub mod Url
pub mod Call
use fortsa.Base.{
  ℕ, zero, suc, ◌+◌, ◌/◌, ◌%◌, Bytes, codes, Bool, true, false, not, ◌&&◌, ◌||◌, Option, none, some,
  List, [], ◌∷◌, ◌++◌, ◌==◌, is_empty, ltb, ◌⊎◌, inl, inr, Result, ok, err, message, ◌>>=◌,
  wrapping, if◌then◌else◌, has_prefix, Error,
}
use fortsa.Base.Int.{ℤ, pos, negsuc}
use fortsa.Constants.{istio_system_namespace, config_map_name_prefix}
use fortsa.Kube.{
  NamespacedName, ServiceReference, WebhookClientConfig, MutatingWebhookConfiguration,
}
use fortsa.Platform.{Platform, returned}

abbrev pub inject_path : Bytes
inject_path = codes "/inject"

abbrev pub inject_port : ℤ
inject_port = pos 443

abbrev pub default_tag_webhook_config_name : Bytes
default_tag_webhook_config_name = codes "istio-revision-tag-default"

-- The decimal digits of a number, before the text. Each digit takes one of the fuel, and a number
-- has no more digits than its value and one.
unfoldable pub print_digits : ℕ → ℕ → Bytes → Bytes
print_digits zero n rest = rest
print_digits (suc fuel) n rest =
    let digits = (48 + n % 10) ∷ rest in
    let more = print_digits fuel (n / 10) digits in if ltb n 10 then digits else more

-- The verb %d.
unfoldable pub print_int : ℤ → Bytes
unfolding print_digits
print_int (pos n) = print_digits (suc n) n []
print_int (negsuc n) = codes "-" ++ print_digits (suc (suc n)) (suc n) []

-- `fmt.Sprintf("https://%s.%s.svc:%d%s", name, namespace, port, path)`
unfoldable pub print_url : Bytes → Bytes → ℤ → Bytes → Bytes
unfolding print_int
print_url name namespace port path =
    codes "https://" ++ name ++ codes "." ++ namespace ++ codes ".svc:" ++ print_int port ++ path

-- The path of a service: the default where it is nil or empty, and else with a slash before it.
unfoldable pub service_path : Option Bytes → Bytes
service_path none = inject_path
service_path (some path) =
    if is_empty path
    then inject_path
    else if has_prefix path (codes "/")
    then path
    else codes "/" ++ path

-- A nil text and an empty one are skipped alike.
abbrev text_or_none : Option Bytes → Option Bytes
text_or_none none = none
text_or_none (some v) = if is_empty v then none else some v

unfoldable pub url_from_client_config : {E : Type 0} → WebhookClientConfig → Result E Bytes
unfolding print_url service_path
url_from_client_config cfg = elim (text_or_none cfg.url) [
  | some url ↦ ok url
  | none ↦ elim cfg.service [
    | none ↦ err (message (codes "WebhookClientConfig has neither URL nor Service"))
    | some svc ↦
        let port : ℤ = elim svc.port [ none ↦ inject_port | some p ↦ p ] in
        let namespace = if is_empty svc.namespace then istio_system_namespace else svc.namespace in
        ok (print_url svc.name namespace port (service_path svc.path))
  ]
]

-- `revision != "" && revision != "default"`
abbrev pub is_named : Bytes → Bool
is_named revision = not (is_empty revision) && not (revision == codes "default")

unfoldable pub service_name : Bytes → Bytes
service_name revision = if is_named revision then codes "istiod-" ++ revision else codes "istiod"

unfoldable pub get_webhook_url : Bytes → Bytes
unfolding print_url service_name
get_webhook_url revision =
    print_url (service_name revision) istio_system_namespace inject_port inject_path

module _ (P : Platform) where
  -- The caBundle of a configuration's first webhook, which must not be empty.
  unfoldable pub nonempty_ca_bundle : WebhookClientConfig → Result P.Err Bytes
  nonempty_ca_bundle cfg =
      if is_empty cfg.ca_bundle
      then err (message (codes "MutatingWebhookConfiguration has no caBundle"))
      else ok cfg.ca_bundle

  unfoldable pub first_webhook : List WebhookClientConfig → Result P.Err WebhookClientConfig
  first_webhook [] = err (message (codes "MutatingWebhookConfiguration has no webhooks"))
  first_webhook (cfg ∷ others) = ok cfg

  abbrev pub cluster_name : Bytes → NamespacedName
  cluster_name name = record { namespace = []; name = name }

  abbrev pub config_name : Bytes → Bytes
  config_name revision =
      if is_named revision
      then config_map_name_prefix ++ codes "-" ++ revision
      else config_map_name_prefix

  unfoldable pub get_ca_bundle_for_revision : P.World → Bytes → Result P.Err Bytes
  unfolding nonempty_ca_bundle first_webhook
  get_ca_bundle_for_revision w revision = do
    mwc ←
        wrapping (codes "get MutatingWebhookConfiguration")
          (returned (P.get_webhook_configuration w (cluster_name (config_name revision))))
    cfg ← first_webhook mwc.webhooks
    nonempty_ca_bundle cfg

  -- A URL and the certificates that its server is checked with.
  pub record Endpoint : Type 0 where
    pub url : Bytes
    pub ca_bundle : Bytes

  -- The first webhook of the default tag, where its configuration can be read and has one.
  unfoldable pub default_tag_webhook : P.World → Option WebhookClientConfig
  default_tag_webhook w =
      elim (P.get_webhook_configuration w (cluster_name default_tag_webhook_config_name)) [
        | inl e ↦ none
        | inr mwc ↦ elim mwc.webhooks [ [] ↦ none | cfg ∷ others ↦ some cfg ]
      ]

  unfoldable pub tag_endpoint : WebhookClientConfig → Result P.Err Endpoint
  unfolding nonempty_ca_bundle
  tag_endpoint cfg = do
    url ← wrapping (codes "extract URL") (url_from_client_config cfg)
    ca_bundle ← nonempty_ca_bundle cfg
    ok (record { url = url; ca_bundle = ca_bundle })

  unfoldable pub revision_endpoint : P.World → Bytes → Result P.Err Endpoint
  unfolding get_ca_bundle_for_revision
  revision_endpoint w revision = do
    ca_bundle ← wrapping (codes "get caBundle for revision") (get_ca_bundle_for_revision w revision)
    ok (record { url = get_webhook_url revision; ca_bundle = ca_bundle })

  unfoldable pub get_webhook_url_and_ca_bundle : P.World → Bytes → Bool → Result P.Err Endpoint
  unfolding tag_endpoint revision_endpoint default_tag_webhook
  get_webhook_url_and_ca_bundle w revision prefer_default_tag_webhook =
      elim (if prefer_default_tag_webhook then default_tag_webhook w else none) [
        | some cfg ↦ tag_endpoint cfg
        | none ↦ revision_endpoint w revision
      ]
