-- ===== src/Webhook/Call/Ends.antt =====
-- The steps of a webhook's call, as far as they return.
use fortsa.Base.{
  refl, Bytes, Bool, Option, none, some, ◌≡◌, ◌≢◌, ◌⊎◌, inl, inr, Result, ok, err, panic,
  out_of_fuel, ◌>>=◌, arith,
}
use fortsa.Kube.{Pod}
use fortsa.Platform.{Platform}
use fortsa.Scan.Outdated.Ends.{Returns}
use fortsa.Webhook.{
  Endpoint, get_webhook_url_and_ca_bundle, tag_endpoint, revision_endpoint,
  get_ca_bundle_for_revision, nonempty_ca_bundle, first_webhook, url_from_client_config,
  default_tag_webhook,
}
use fortsa.Webhook.Call.{
  AdmissionResponse, Backend, HttpResponse, transport_for_ca_bundle, patched_pod, mutated_pod,
  send_review, accepted_body, apply_json_patch, call_endpoint, call_webhook,
}

module _ (P : Platform) (B : Backend P) where
  pub endpoint-Returns :
      (w : P.World) (revision : Bytes) (prefer : Bool)
      → Returns (get_webhook_url_and_ca_bundle P w revision prefer)
  unfolding get_webhook_url_and_ca_bundle tag_endpoint revision_endpoint get_ca_bundle_for_revision
      nonempty_ca_bundle first_webhook url_from_client_config default_tag_webhook
  endpoint-Returns w revision prefer = (ground arith, ground arith)

  pub transport-Returns : (ca_bundle : Bytes) → Returns (transport_for_ca_bundle P B ca_bundle)
  unfolding transport_for_ca_bundle
  transport-Returns ca_bundle = ground arith

  pub patched-Returns : (pod_raw patch : Bytes) → Returns (patched_pod P B pod_raw patch)
  unfolding patched_pod apply_json_patch
  patched-Returns pod_raw patch = ground arith

  accepted-Returns : (response : HttpResponse) → Returns (accepted_body P B response)
  unfolding accepted_body
  accepted-Returns response = ground arith

  pub send-Returns :
      (w : P.World) (endpoint : Endpoint P) (pod : Pod) (pod_raw : Bytes)
      → Returns (send_review P B w endpoint pod pod_raw)
  unfolding send_review accepted_body
  send-Returns w endpoint pod pod_raw = ground arith

  call_endpoint-ne-out_of_fuel :
      (w : P.World) (endpoint : Endpoint P) (pod : Option Pod)
      → call_endpoint P B w endpoint pod ≢ out_of_fuel
  unfolding call_endpoint mutated_pod
  call_endpoint-ne-out_of_fuel w endpoint none = cc
  call_endpoint-ne-out_of_fuel w endpoint (some pod) = go (B.marshal_pod pod) refl
    where
      answered :
          (pod_raw : Bytes) (reply : Option AdmissionResponse)
          → mutated_pod P B pod pod_raw reply ≢ out_of_fuel
      answered pod_raw none = cc
      answered pod_raw (some response) = ground (arith, patched-Returns pod_raw response.patch)

      sent :
          (pod_raw : Bytes) (reply : Result P.Err (Option AdmissionResponse))
          → send_review P B w endpoint pod pod_raw ≡ reply
          → (reply >>= mutated_pod P B pod pod_raw) ≢ out_of_fuel
      sent pod_raw (ok reply) e = answered pod_raw reply
      sent pod_raw (err x) e = cc
      sent pod_raw panic e = cc
      sent pod_raw out_of_fuel e = absurd ((send-Returns w endpoint pod pod_raw).1 e)

      go :
          (raw : P.Err ⊎ Bytes)
          → B.marshal_pod pod ≡ raw
          → call_endpoint P B w endpoint (some pod) ≢ out_of_fuel
      go (inl x) e = rw e (cc)
      go (inr pod_raw) e = rw e (sent pod_raw (send_review P B w endpoint pod pod_raw) refl)

  -- A call of the webhook has no recursion that could run out of fuel.
  pub call_webhook-ne-out_of_fuel :
      (w : P.World) (pod : Option Pod) (revision : Bytes) (prefer : Bool)
      → call_webhook P B w pod revision prefer ≢ out_of_fuel
  unfolding call_webhook
  call_webhook-ne-out_of_fuel w pod revision prefer =
      go (get_webhook_url_and_ca_bundle P w revision prefer) refl
    where
      go :
          (found : Result P.Err (Endpoint P))
          → get_webhook_url_and_ca_bundle P w revision prefer ≡ found
          → call_webhook P B w pod revision prefer ≢ out_of_fuel
      go (ok endpoint) e =
          ground (
            arith,
            transport-Returns endpoint.ca_bundle,
            call_endpoint-ne-out_of_fuel w endpoint pod,
          )
      go (err x) e = rw e (cc)
      go panic e = absurd ((endpoint-Returns w revision prefer).0 e)
      go out_of_fuel e = absurd ((endpoint-Returns w revision prefer).1 e)
