-- ===== src/Webhook/Call/Exchange.antt =====
-- The exchange of an admission review with a webhook's endpoint, step by step.
use fortsa.Base.{
  ◌∙◌, eqb_iff, ap, Bytes, codes, Option, ◌≡◌, ◌⊎◌, inl, inr, ok, >>=-eq-ok, wrapping, arith, refl,
}
use fortsa.Kube.{Pod}
use fortsa.Platform.{Platform, returned}
use fortsa.Webhook.{Endpoint}
use fortsa.Webhook.Call.{
  AdmissionRequest, AdmissionResponse, Backend, HttpResponse, accepted_body, send_review,
}

module _ (P : Platform) (B : Backend P) where
  -- The request of the review that a pod's call sends.
  abbrev pub review_request : Pod → Bytes → AdmissionRequest
  review_request pod pod_raw = record {
    uid = codes "fortsa2-webhook-check";
    namespace = pod.meta.namespace;
    operation = codes "CREATE";
    object = pod_raw;
  }

  -- The endpoint is sent the review of the pod, and answers with status 200 and a body that is
  -- decoded to the reply.
  abbrev pub Replied : P.World → Endpoint P → Pod → Bytes → Option AdmissionResponse → Type 0
  Replied w endpoint pod pod_raw reply =
      (review : Bytes) × (sent : B.Request) × (http : HttpResponse) × (B.marshal_review
          (review_request pod pod_raw)
        ≡ inr review)
      × (B.new_request endpoint review ≡ inr sent)
      × (B.post w endpoint sent ≡ inr http)
      × (http.status ≡ 200)
      × (B.decode_review http.body ≡ inr reply)

  wrapping-eq-ok_returned :
      {A : Type 0} (text : Bytes) (reply : P.Err ⊎ A) {a : A}
      → wrapping text (returned reply) ≡ ok a
      → reply ≡ inr a
  wrapping-eq-ok_returned text (inl e) h = cc
  wrapping-eq-ok_returned text (inr b) h = cc

  accepted :
      (response : HttpResponse) (body : Bytes)
      → accepted_body P B response ≡ ok body
      → (response.status ≡ 200) × (response.body ≡ body)
  unfolding accepted_body
  accepted response body h = ground (arith, eqb_iff response.status 200)

  -- A reply is one of the exchange.
  pub send_review-Replied :
      (w : P.World) (endpoint : Endpoint P) (pod : Pod) (pod_raw : Bytes)
      (reply : Option AdmissionResponse)
      → send_review P B w endpoint pod pod_raw ≡ ok reply
      → Replied w endpoint pod pod_raw reply
  unfolding send_review
  send_review-Replied w endpoint pod pod_raw reply h =
      let marshalled = B.marshal_review (review_request pod pod_raw) in
      let (review, e1, h1) =
        >>=-eq-ok (wrapping (codes "marshal admission review") (returned marshalled)) _ h in
      let made = B.new_request endpoint review in
      let (sent, e2, h2) = >>=-eq-ok (wrapping (codes "create request") (returned made)) _ h1 in
      let posted = B.post w endpoint sent in
      let (http, e3, h3) = >>=-eq-ok (wrapping (codes "webhook request") (returned posted)) _ h2 in
      let (body, e4, h4) = >>=-eq-ok (accepted_body P B http) _ h3 in
      let (status, same) = accepted http body e4 in
      let e5 = wrapping-eq-ok_returned (codes "decode response") (B.decode_review body) h4 in
      (
        review,
        sent,
        http,
        wrapping-eq-ok_returned (codes "marshal admission review") marshalled e1,
        wrapping-eq-ok_returned (codes "create request") made e2,
        wrapping-eq-ok_returned (codes "webhook request") posted e3,
        status,
        ap B.decode_review same ∙ e5,
      )

  -- The exchange gives its reply.
  pub Replied-send_review :
      (w : P.World) (endpoint : Endpoint P) (pod : Pod) (pod_raw : Bytes)
      (reply : Option AdmissionResponse)
      → Replied w endpoint pod pod_raw reply
      → send_review P B w endpoint pod pod_raw ≡ ok reply
  unfolding send_review accepted_body
  Replied-send_review w endpoint pod pod_raw reply (review, sent, http, e1, e2, e3, e4, e5) =
      rw (e1, e2, e3, e4, e5) refl
