-- ===== src/Webhook/Call.antt =====
-- `CallWebhook` and `applyJSONPatch`, over the HTTP client and the encodings that they use.
pub mod Exchange
pub mod Secure
pub mod Ends
pub mod Denied
use fortsa.Base.{
  ◌++◌, ℕ, eqb, Bytes, codes, Bool, not, Option, none, some, List, [], is_empty, ◌⊎◌, inl, inr,
  Result, ok, err, panic, message, ◌>>=◌, wrapping, if◌then◌else◌,
}
use fortsa.Kube.{Pod}
use fortsa.Platform.{Platform, returned}
use fortsa.Scan.Types.{WebhookCaller}
use fortsa.Webhook.{Endpoint, get_webhook_url_and_ca_bundle}

-- `reviewResp.Response`; `status_message` is none where its `Result` is nil.
pub record AdmissionResponse : Type 0 where
  pub allowed : Bool
  pub status_message : Option Bytes
  pub patch : Bytes

-- The fields that the request's `AdmissionReview` does not leave constant.
pub record AdmissionRequest : Type 0 where
  pub uid : Bytes
  pub namespace : Bytes
  pub operation : Bytes
  pub object : Bytes

pub record HttpResponse : Type 0 where
  pub status : ℕ
  pub body : Bytes

-- The packages that a call goes through.
pub record Backend (P : Platform) : Type 1 where
  -- `pool.AppendCertsFromPEM`
  pub append_certs_from_pem : Bytes → Bool
  -- `json.Marshal` of a pod, and `json.Unmarshal` into one
  pub marshal_pod : Pod → P.Err ⊎ Bytes
  pub unmarshal_pod : Bytes → P.Err ⊎ Pod
  -- `json.Marshal` of an `AdmissionReview` with the request
  pub marshal_review : AdmissionRequest → P.Err ⊎ Bytes
  -- `http.NewRequestWithContext` of a POST of the bytes to the endpoint's URL
  pub Request : Type 0
  pub new_request : Endpoint P → Bytes → P.Err ⊎ Request
  -- `httpClient.Do`, with a transport that trusts the endpoint's certificates
  pub post : P.World → Endpoint P → Request → P.Err ⊎ HttpResponse
  -- the response of the decoded `AdmissionReview`
  pub decode_review : Bytes → P.Err ⊎ Option AdmissionResponse
  -- `jsonpatch.DecodePatch` and `Apply`
  pub JsonPatch : Type 0
  pub decode_patch : Bytes → P.Err ⊎ JsonPatch
  pub apply_patch : JsonPatch → Bytes → P.Err ⊎ Bytes

module _ (P : Platform) (B : Backend P) where
  -- `transportForCABundle`, as far as it can fail.
  unfoldable pub transport_for_ca_bundle : Bytes → Result P.Err (Unit {0})
  transport_for_ca_bundle ca_bundle =
      if B.append_certs_from_pem ca_bundle
      then ok tt
      else err (message (codes "failed to parse caBundle"))

  unfoldable pub apply_json_patch : Bytes → Bytes → Result P.Err Bytes
  apply_json_patch original patch = do
    decoded ← wrapping (codes "decode patch") (returned (B.decode_patch patch))
    wrapping (codes "apply patch") (returned (B.apply_patch decoded original))

  -- The patched pod.
  unfoldable pub patched_pod : Bytes → Bytes → Result P.Err Pod
  unfolding apply_json_patch
  patched_pod pod_raw patch = do
    raw ← wrapping (codes "apply patch") (apply_json_patch pod_raw patch)
    wrapping (codes "unmarshal mutated pod") (returned (B.unmarshal_pod raw))

  -- From the decoded response on. A denial that has no `Result` is read through a nil pointer.
  unfoldable pub mutated_pod : Pod → Bytes → Option AdmissionResponse → Result P.Err Pod
  unfolding patched_pod
  mutated_pod pod pod_raw none = err (message (codes "webhook response has no response body"))
  mutated_pod pod pod_raw (some response) =
      if response.allowed
      then (if is_empty response.patch then ok pod else patched_pod pod_raw response.patch)
      else elim response.status_message [
        | none ↦ panic
        | some m ↦ err (message (codes "webhook denied request: " ++ m))
      ]

  -- The body of a response whose status is 200.
  unfoldable pub accepted_body : HttpResponse → Result P.Err Bytes
  accepted_body response =
      if eqb response.status 200
      then ok response.body
      else err (message (codes "webhook returned status"))

  -- The exchange with the webhook: the request is sent, and the response is decoded.
  unfoldable pub send_review :
      P.World → Endpoint P → Pod → Bytes → Result P.Err (Option AdmissionResponse)
  unfolding accepted_body
  send_review w endpoint pod pod_raw = do
    review ← wrapping (codes "marshal admission review") (
        returned (
          B.marshal_review (record {
            uid = codes "fortsa2-webhook-check";
            namespace = pod.meta.namespace;
            operation = codes "CREATE";
            object = pod_raw;
          })))
    sent ← wrapping (codes "create request") (returned (B.new_request endpoint review))
    response ← wrapping (codes "webhook request") (returned (B.post w endpoint sent))
    accepted ← accepted_body response
    wrapping (codes "decode response") (returned (B.decode_review accepted))

  -- The rest of the call, from the transport on. The namespace of a nil pod is read through a nil
  -- pointer.
  unfoldable pub call_endpoint : P.World → Endpoint P → Option Pod → Result P.Err Pod
  unfolding send_review mutated_pod
  call_endpoint w endpoint none = panic
  call_endpoint w endpoint (some pod) = do
    pod_raw ← wrapping (codes "marshal pod") (returned (B.marshal_pod pod))
    response ← send_review w endpoint pod pod_raw
    mutated_pod pod pod_raw response

  unfoldable pub call_webhook : P.World → Option Pod → Bytes → Bool → Result P.Err Pod
  unfolding transport_for_ca_bundle call_endpoint
  call_webhook w pod revision prefer_default_tag_webhook = do
    endpoint ←
        wrapping (codes "get webhook URL and caBundle")
          (get_webhook_url_and_ca_bundle P w revision prefer_default_tag_webhook)
    _ ← wrapping (codes "create transport") (transport_for_ca_bundle endpoint.ca_bundle)
    call_endpoint w endpoint pod

  -- `WebhookClient` as the interface that the scanner uses.
  unfoldable pub webhook_client : WebhookCaller P
  webhook_client = record { call_webhook = call_webhook }
