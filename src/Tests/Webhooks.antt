-- ===== src/Tests/Webhooks.antt =====
-- A webhook that answers with no patch, and the theorems of the webhook client there.
use fortsa.Base.{
  panic, ◌↔◌, Bytes, codes, Bool, true, false, none, some, [], ◌∷◌, ◌≡◌, inl, inr, refl, Result, ok,
  ◌==◌,
}
use fortsa.Constants.{istio_system_namespace}
use fortsa.Kube.{WebhookClientConfig}
use fortsa.Platform.{Platform}
use fortsa.Webhook.{
  Endpoint, service_name, url_from_client_config, get_webhook_url, get_webhook_url_and_ca_bundle,
  default_tag_webhook, tag_endpoint, revision_endpoint, get_ca_bundle_for_revision, first_webhook,
  nonempty_ca_bundle,
}
use fortsa.Webhook.Url.{url_from_client_config-get_webhook_url}
use fortsa.Webhook.Call.{
  Backend, transport_for_ca_bundle, accepted_body, send_review, mutated_pod, call_endpoint,
  call_webhook,
}
use fortsa.Webhook.Call.Secure.{Exchanged, call_webhook-Exchanged}
use fortsa.Webhook.Call.Denied.{NilOrDenied, call_webhook_panics}
use fortsa.Tests.Sample.{meta_of, web_pod, sample}

abbrev pub certified : WebhookClientConfig
certified = record { url = none; service = none; ca_bundle = codes "ca" }

abbrev answering : Platform
answering = record sample {
  get_webhook_configuration =
      λ w nn. inr (record { meta = meta_of [] nn.name []; webhooks = certified ∷ [] });
}

abbrev allowing : Backend answering
allowing = record {
  append_certs_from_pem = λ ca. true;
  marshal_pod = λ pod. inr (codes "pod");
  unmarshal_pod = λ s. inl false;
  marshal_review = λ review. inr review.object;
  Request = Bytes;
  new_request = λ endpoint body. inr body;
  post = λ w endpoint sent. inr (record { status = 200; body = sent });
  decode_review = λ s. inr (some (record { allowed = true; status_message = none; patch = [] }));
  JsonPatch = Bytes;
  decode_patch = λ s. inr s;
  apply_patch = λ patch s. inr s;
}

unfoldable pub calls : Unit {0}
unfolding call_webhook call_endpoint send_review accepted_body mutated_pod transport_for_ca_bundle
    get_webhook_url_and_ca_bundle default_tag_webhook tag_endpoint revision_endpoint
    get_ca_bundle_for_revision first_webhook nonempty_ca_bundle ◌==◌
calls = tt

returned_as_sent :
    call_webhook answering allowing 0 (some web_pod) (codes "1-20") false ≡ ok web_pod
unfolding calls
returned_as_sent = refl

call_webhook-Exchanged_example : Exchanged answering allowing 0 web_pod (codes "1-20") false web_pod
call_webhook-Exchanged_example =
    call_webhook-Exchanged answering allowing 0 web_pod (codes "1-20") false web_pod
      returned_as_sent

abbrev endpoint : Endpoint answering
endpoint = record { url = get_webhook_url (codes "1-20"); ca_bundle = codes "ca" }

endpoint_found : get_webhook_url_and_ca_bundle answering 0 (codes "1-20") false ≡ ok endpoint
unfolding calls
endpoint_found = refl

url_from_client_config-get_webhook_url_example :
    ◌≡◌ {A = Result Bool Bytes}
      (url_from_client_config (record {
        url = none;
        service = some (record {
          namespace = istio_system_namespace;
          name = service_name (codes "1-20");
          path = some (codes "inject");
          port = none;
        });
        ca_bundle = codes "ca";
      }))
      (ok (get_webhook_url (codes "1-20")))
url_from_client_config-get_webhook_url_example =
    url_from_client_config-get_webhook_url (codes "1-20") (codes "ca") none (some (codes "inject"))
      (inl refl) (inr (inr refl))

-- It denies every pod, and says no more.
abbrev denying : Backend answering
denying = record allowing {
  decode_review = λ s. inr (some (record { allowed = false; status_message = none; patch = [] }));
}

call_webhook_panics_example :
    (call_webhook answering denying 0 (some web_pod) (codes "1-20") false ≡ panic)
    ↔ NilOrDenied answering denying 0 (some web_pod) (codes "1-20") false
call_webhook_panics_example =
    call_webhook_panics answering denying 0 (some web_pod) (codes "1-20") false
