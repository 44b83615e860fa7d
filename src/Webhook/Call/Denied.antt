-- ===== src/Webhook/Call/Denied.antt =====
-- The panics of `CallWebhook`, and what its callers rely on.
use fortsa.Base.{
  subst, ◌⊎◌, inl, Bytes, codes, Bool, true, false, Option, none, some, ◌≡◌, ◌≢◌, ◌↔◌, refl, inr,
  ok, panic, wrapping, >>=-eq-panic, wrapping-ne-panic, wrapping-eq-ok, arith,
}
use fortsa.Kube.{Pod}
use fortsa.Platform.{Platform, returned}
use fortsa.Webhook.{Endpoint, get_webhook_url_and_ca_bundle}
use fortsa.Webhook.Call.{
  AdmissionResponse, Backend, transport_for_ca_bundle, mutated_pod, send_review, call_endpoint,
  call_webhook, webhook_client,
}
use fortsa.Webhook.Call.Secure.{trusted, marshalled}
use fortsa.Webhook.Call.Exchange.{Replied, send_review-Replied, Replied-send_review}
use fortsa.Scan.Outdated.Ends.{WebhookReturns}
use fortsa.Webhook.Call.Ends.{
  call_webhook-ne-out_of_fuel, endpoint-Returns, transport-Returns, send-Returns, patched-Returns,
}

module _ (P : Platform) (B : Backend P) where
  -- The response denies the pod and has no `Result`.
  abbrev pub DeniesBarely : AdmissionResponse → Type 0
  DeniesBarely response = (response.allowed ≡ false) × (response.status_message ≡ none)

  -- The endpoint is found and its certificates are taken.
  abbrev pub TrustedAt : P.World → Bytes → Bool → Endpoint P → Type 0
  TrustedAt w revision prefer endpoint =
      (get_webhook_url_and_ca_bundle P w revision prefer ≡ ok endpoint)
      × (B.append_certs_from_pem endpoint.ca_bundle ≡ true)

  -- The exchange goes through, with status 200, and ends with such a response.
  abbrev pub DeniedBarely : P.World → Pod → Bytes → Bool → Type 0
  DeniedBarely w pod revision prefer =
      (endpoint : Endpoint P) × (pod_raw : Bytes) × (response : AdmissionResponse) × TrustedAt w
        revision prefer endpoint
      × (B.marshal_pod pod ≡ inr pod_raw)
      × Replied P B w endpoint pod pod_raw (some response)
      × DeniesBarely response

  -- What makes a call panic: a pod that is nil once the endpoint is trusted, or such a denial.
  abbrev pub NilOrDenied : P.World → Option Pod → Bytes → Bool → Type 0
  NilOrDenied w none revision prefer =
      (endpoint : Endpoint P) × TrustedAt w revision prefer endpoint
  NilOrDenied w (some pod) revision prefer = DeniedBarely w pod revision prefer

  returned-ne-panic : {A : Type 0} (reply : P.Err ⊎ A) → returned reply ≢ panic
  returned-ne-panic (inl e) h = cc
  returned-ne-panic (inr a) h = cc

  mutated_pod-eq-panic :
      (pod : Pod) (pod_raw : Bytes) (reply : Option AdmissionResponse)
      → mutated_pod P B pod pod_raw reply ≡ panic
      → (response : AdmissionResponse) × (reply ≡ some response) × DeniesBarely response
  unfolding mutated_pod
  mutated_pod-eq-panic pod pod_raw none h = cc
  mutated_pod-eq-panic pod pod_raw (some response) h =
      (response, refl, ground (arith, patched-Returns P B pod_raw response.patch))

  call_endpoint-denied :
      (w : P.World) (endpoint : Endpoint P) (pod : Pod)
      → call_endpoint P B w endpoint (some pod) ≡ panic
      → (pod_raw : Bytes) × (response : AdmissionResponse) × (B.marshal_pod pod ≡ inr pod_raw)
        × Replied P B w endpoint pod pod_raw (some response)
        × DeniesBarely response
  unfolding call_endpoint
  call_endpoint-denied w endpoint pod h =
      let raw = returned (B.marshal_pod pod) in
      let (pod_raw, is, h1) =
        >>=-eq-panic (wrapping (codes "marshal pod") raw) _ h
          (wrapping-ne-panic _ raw (returned-ne-panic (B.marshal_pod pod))) in
      let (reply, replied, h2) =
        >>=-eq-panic (send_review P B w endpoint pod pod_raw) _ h1
          (send-Returns P B w endpoint pod pod_raw).0 in
      let (response, same, barely) = mutated_pod-eq-panic pod pod_raw reply h2 in
      (
        pod_raw,
        response,
        marshalled P B (B.marshal_pod pod) pod_raw (wrapping-eq-ok (codes "marshal pod") raw is),
        subst (Replied P B w endpoint pod pod_raw) same
            (send_review-Replied P B w endpoint pod pod_raw reply replied),
        barely,
      )

  call_webhook-trusted :
      (w : P.World) (pod : Option Pod) (revision : Bytes) (prefer : Bool)
      → call_webhook P B w pod revision prefer ≡ panic
      → (endpoint : Endpoint P) × TrustedAt w revision prefer endpoint
        × (call_endpoint P B w endpoint pod ≡ panic)
  unfolding call_webhook
  call_webhook-trusted w pod revision prefer h =
      let found = get_webhook_url_and_ca_bundle P w revision prefer in
      let (endpoint, got, h1) =
        >>=-eq-panic (wrapping (codes "get webhook URL and caBundle") found) _ h
          (wrapping-ne-panic _ found (endpoint-Returns P B w revision prefer).0) in
      let transport = transport_for_ca_bundle P B endpoint.ca_bundle in
      let (u, trust, h2) =
        >>=-eq-panic (wrapping (codes "create transport") transport) _ h1
          (wrapping-ne-panic _ transport (transport-Returns P B endpoint.ca_bundle).0) in
      (
        endpoint,
        (
          wrapping-eq-ok (codes "get webhook URL and caBundle") found got,
          trusted P B endpoint.ca_bundle u
              (wrapping-eq-ok (codes "create transport") transport trust),
        ),
        h2,
      )

  panicked :
      (w : P.World) (pod : Option Pod) (revision : Bytes) (prefer : Bool)
      → call_webhook P B w pod revision prefer ≡ panic
      → NilOrDenied w pod revision prefer
  panicked w none revision prefer h =
      let (endpoint, trust, _) = call_webhook-trusted w none revision prefer h in (endpoint, trust)
  panicked w (some pod) revision prefer h =
      let (endpoint, trust, h1) = call_webhook-trusted w (some pod) revision prefer h in
      let (pod_raw, response, raw, replied, barely) = call_endpoint-denied w endpoint pod h1 in
      (endpoint, pod_raw, response, trust, raw, replied, barely)

  -- A call of the webhook panics exactly where the endpoint is found, its caBundle is taken as the
  -- certificates, and either the pod is nil, whose namespace is then read through a nil pointer, or
  -- the exchange goes through with status 200 up to a response that denies the pod and has no
  -- `Result`, whose message is then read through a nil pointer.
  pub call_webhook_panics :
      (w : P.World) (pod : Option Pod) (revision : Bytes) (prefer : Bool)
      → (call_webhook P B w pod revision prefer ≡ panic) ↔ NilOrDenied w pod revision prefer
  unfolding call_webhook call_endpoint transport_for_ca_bundle mutated_pod
  call_webhook_panics w none revision prefer =
      (panicked w none revision prefer, λ (endpoint, (found, trust)). rw (found, trust) refl)
  call_webhook_panics w (some pod) revision prefer = (
    panicked w (some pod) revision prefer,
    λ (endpoint, pod_raw, response, (found, trust), raw, replied, (denied, bare)).
        let sent = Replied-send_review P B w endpoint pod pod_raw (some response) replied in
        rw (found, trust, raw, sent, denied, bare) refl,
  )

  -- In that world no webhook that is found and trusted denies a pod without a `Result`.
  abbrev pub ExplainsDenials : P.World → Type 0
  ExplainsDenials w =
      (pod : Pod) (revision : Bytes) (prefer : Bool) → ¬ DeniedBarely w pod revision prefer

  -- The client's calls return in such a world.
  pub webhook_client-Returns :
      (w : P.World) → ExplainsDenials w → WebhookReturns P (webhook_client P B) w
  unfolding webhook_client
  webhook_client-Returns w explained pod revision prefer = (
    λ h. explained pod revision prefer (panicked w (some pod) revision prefer h),
    call_webhook-ne-out_of_fuel P B w (some pod) revision prefer,
  )
