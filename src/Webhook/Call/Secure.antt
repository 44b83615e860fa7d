-- ===== src/Webhook/Call/Secure.antt =====
-- What a call that returns a pod has gone through.
use fortsa.Base.{
  subst, ◌>>=◌, wrapping, codes, Bytes, Bool, true, Option, none, some, [], is_empty_iff, ◌≡◌, ◌≢◌,
  refl, ◌⊎◌, inl, inr, ok, >>=-eq-ok, wrapping-eq-ok, arith,
}
use fortsa.Kube.{Pod}
use fortsa.Platform.{Platform, returned}
use fortsa.Webhook.{Endpoint, get_webhook_url_and_ca_bundle}
use fortsa.Webhook.Url.{get_webhook_url_and_ca_bundle-nonempty}
use fortsa.Webhook.Call.Exchange.{Replied, send_review-Replied}
use fortsa.Webhook.Call.{
  AdmissionResponse, Backend, transport_for_ca_bundle, patched_pod, mutated_pod, send_review,
  call_endpoint, call_webhook,
}

module _ (P : Platform) (B : Backend P) where
  -- The pod is what the response makes of the one that was sent: the response allows it, and the
  -- pod is the one sent where there is no patch, and the patched one else.
  abbrev pub IsAnswer : Pod → Bytes → AdmissionResponse → Pod → Type 0
  IsAnswer pod pod_raw response mutated =
      (response.allowed ≡ true)
      × (((response.patch ≡ []) × (mutated ≡ pod))
          ⊎ ((response.patch ≢ []) × (patched_pod P B pod_raw response.patch ≡ ok mutated)))

  -- The exchange with an endpoint.
  abbrev pub Sent : P.World → Endpoint P → Pod → Pod → Type 0
  Sent w endpoint pod mutated =
      (pod_raw : Bytes) × (response : AdmissionResponse) × (B.marshal_pod pod ≡ inr pod_raw)
      × Replied P B w endpoint pod pod_raw (some response)
      × IsAnswer pod pod_raw response mutated

  -- The whole exchange, from the certificates to the answer.
  abbrev pub Exchanged : P.World → Pod → Bytes → Bool → Pod → Type 0
  Exchanged w pod revision prefer mutated =
      (endpoint : Endpoint P) × (get_webhook_url_and_ca_bundle P w revision prefer ≡ ok endpoint)
      × (endpoint.ca_bundle ≢ [])
      × (B.append_certs_from_pem endpoint.ca_bundle ≡ true)
      × Sent w endpoint pod mutated

  mutated_pod-IsAnswer :
      (pod : Pod) (pod_raw : Bytes) (reply : Option AdmissionResponse) (mutated : Pod)
      → mutated_pod P B pod pod_raw reply ≡ ok mutated
      → (response : AdmissionResponse) × (reply ≡ some response)
        × IsAnswer pod pod_raw response mutated
  unfolding mutated_pod
  mutated_pod-IsAnswer pod pod_raw none mutated h = cc
  mutated_pod-IsAnswer pod pod_raw (some response) mutated h =
      (response, refl, ground (arith, is_empty_iff response.patch))

  pub trusted :
      (ca_bundle : Bytes) (u : Unit {0})
      → transport_for_ca_bundle P B ca_bundle ≡ ok u
      → B.append_certs_from_pem ca_bundle ≡ true
  unfolding transport_for_ca_bundle
  trusted ca_bundle u h = ground arith

  pub marshalled : (reply : P.Err ⊎ Bytes) (raw : Bytes) → returned reply ≡ ok raw → reply ≡ inr raw
  marshalled (inl e) raw h = cc
  marshalled (inr b) raw h = cc

  call_endpoint-Sent :
      (w : P.World) (endpoint : Endpoint P) (pod : Pod) (mutated : Pod)
      → call_endpoint P B w endpoint (some pod) ≡ ok mutated
      → Sent w endpoint pod mutated
  unfolding call_endpoint
  call_endpoint-Sent w endpoint pod mutated h =
      let raw = returned (B.marshal_pod pod) in
      let (pod_raw, got, rest) =
        >>=-eq-ok (wrapping (codes "marshal pod") raw)
          (λ pod_raw. send_review P B w endpoint pod pod_raw >>= mutated_pod P B pod pod_raw) h in
      let (reply, replied, answered) =
        >>=-eq-ok (send_review P B w endpoint pod pod_raw) (mutated_pod P B pod pod_raw) rest in
      let (response, is, answer) = mutated_pod-IsAnswer pod pod_raw reply mutated answered in
      (
        pod_raw,
        response,
        marshalled (B.marshal_pod pod) pod_raw (wrapping-eq-ok (codes "marshal pod") raw got),
        subst (Replied P B w endpoint pod pod_raw) is
            (send_review-Replied P B w endpoint pod pod_raw reply replied),
        answer,
      )

  -- A call with a pod returns a pod only after the whole exchange: the endpoint has a caBundle that
  -- is not empty and was taken as the trusted certificates, the review of the pod was sent to it, the
  -- answer has status 200 and a body that decodes to a response which allows the pod, and the pod
  -- returned is the one that was sent where the response has no patch, and the patched one else.
  pub call_webhook-Exchanged :
      (w : P.World) (pod : Pod) (revision : Bytes) (prefer : Bool) (mutated : Pod)
      → call_webhook P B w (some pod) revision prefer ≡ ok mutated
      → Exchanged w pod revision prefer mutated
  unfolding call_webhook call_endpoint
  call_webhook-Exchanged w pod revision prefer mutated h =
      let found = get_webhook_url_and_ca_bundle P w revision prefer in
      let (endpoint, got, rest) =
        >>=-eq-ok (wrapping (codes "get webhook URL and caBundle") found)
          (λ endpoint.
            wrapping (codes "create transport") (transport_for_ca_bundle P B endpoint.ca_bundle)
            >>= λ _. call_endpoint P B w endpoint (some pod))
          h in
      let transport = transport_for_ca_bundle P B endpoint.ca_bundle in
      let (u, trust, called) =
        >>=-eq-ok (wrapping (codes "create transport") transport)
          (λ _. call_endpoint P B w endpoint (some pod)) rest in
      let is = wrapping-eq-ok (codes "get webhook URL and caBundle") found got in
      (
        endpoint,
        is,
        get_webhook_url_and_ca_bundle-nonempty P w revision prefer endpoint is,
        trusted endpoint.ca_bundle u (wrapping-eq-ok (codes "create transport") transport trust),
        call_endpoint-Sent w endpoint pod mutated called,
      )
