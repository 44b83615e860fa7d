-- ===== src/WebhookTags/Maps.antt =====
-- What the two maps of tags hold.
use fortsa.Base.{
  ◌∙◌, Bytes, true, none, some, List, [], ◌∷◌, ◌≡◌, ◌≢◌, refl, ◌⊎◌, inl, inr, ◌||◌, ◌==◌, eq_iff,
  is_empty, is_empty_iff, has_prefix, ok, ok_injective, All, Exists, Bool-cases, arith,
}
use fortsa.Base.Int.{Time}
use fortsa.Base.Dict.{get, lookup, lookup-insert}
use fortsa.Constants.{label_istio_rev, label_istio_tag}
use fortsa.Kube.{MutatingWebhookConfiguration}
use fortsa.Modified.{get_last_modified}
use fortsa.Platform.{Platform}
use fortsa.WebhookTags.{
  istio_revision_tag_prefix, TagMaps, record_tag, record_tags,
  fetch_tag_to_revision_and_last_modified,
}

-- The configuration is a tag's, and says that the tag stands for the revision.
abbrev pub IsTagFor : Bytes → Bytes → MutatingWebhookConfiguration → Type 0
IsTagFor tag revision mwc =
    (has_prefix mwc.meta.name istio_revision_tag_prefix ≡ true)
    × (get label_istio_tag mwc.meta.labels ≡ tag)
    × (get label_istio_rev mwc.meta.labels ≡ revision)
    × (tag ≢ [])
    × (revision ≢ [])

-- The two maps hold, for the tag, the revision and the time of one configuration.
abbrev pub Holds : Bytes → Bytes → Time → TagMaps → Type 0
Holds tag revision t maps =
    (lookup tag maps.tag_to_revision ≡ some revision)
    × (lookup tag maps.last_modified_by_tag ≡ some t)

-- Each round leaves the tag's entries alone, or sets both from the round's configuration.
abbrev IsUntouched : Bytes → MutatingWebhookConfiguration → TagMaps → Type 0
IsUntouched tag mwc maps =
    (lookup tag (record_tag mwc maps).tag_to_revision ≡ lookup tag maps.tag_to_revision)
    × (lookup tag (record_tag mwc maps).last_modified_by_tag ≡ lookup tag maps.last_modified_by_tag)

abbrev IsSetBy : Bytes → MutatingWebhookConfiguration → TagMaps → Type 0
IsSetBy tag mwc maps =
    (revision : Bytes) × IsTagFor tag revision mwc
    × Holds tag revision (get_last_modified mwc) (record_tag mwc maps)

record_tag_cases :
    (tag : Bytes) (mwc : MutatingWebhookConfiguration) (maps : TagMaps)
    → (IsUntouched tag mwc maps × ((revision : Bytes) → ¬ IsTagFor tag revision mwc))
      ⊎ IsSetBy tag mwc maps
unfolding record_tag
record_tag_cases tag mwc maps =
    let own = get label_istio_tag mwc.meta.labels in
    let revision = get label_istio_rev mwc.meta.labels in
    elim (Bool-cases (has_prefix mwc.meta.name istio_revision_tag_prefix)) [
      | inl named ↦ elim (Bool-cases (is_empty own || is_empty revision)) [
        | inl empty ↦ inl (
          (rw (named, empty) refl, rw (named, empty) refl),
          λ r (n, a, b, c, d). ground (arith, is_empty_iff own, is_empty_iff revision),
        )
        | inr full ↦ elim (Bool-cases (own == tag)) [
          | inl same ↦ inr (
            revision,
            (
              named,
              ground (arith, eq_iff own tag),
              refl,
              ground (arith, eq_iff own tag, is_empty_iff own, is_empty_iff revision),
              ground (arith, is_empty_iff own, is_empty_iff revision),
            ),
            (
              rw (named, full, lookup-insert own tag revision maps.tag_to_revision, same) refl,
              rw
                  (
                    named,
                    full,
                    lookup-insert own tag (get_last_modified mwc) maps.last_modified_by_tag,
                    same,
                  )
                  refl,
            ),
          )
          | inr differs ↦ inl (
            (
              rw (named, full, lookup-insert own tag revision maps.tag_to_revision, differs) refl,
              rw
                  (
                    named,
                    full,
                    lookup-insert own tag (get_last_modified mwc) maps.last_modified_by_tag,
                    differs,
                  )
                  refl,
            ),
            λ r (n, a, b, c, d). ground (arith, eq_iff own tag),
          )
        ]
      ]
      | inr other ↦ inl ((rw other refl, rw other refl), λ r (n, a, b, c, d). cc)
    ]

-- The tag's entries of the two maps go together, and come from one of the configurations.
abbrev pub IsBacked : Bytes → List MutatingWebhookConfiguration → TagMaps → Type 0
IsBacked tag mwcs maps =
    (revision : Bytes) × (t : Time) × Holds tag revision t maps
    × Exists (λ mwc. IsTagFor tag revision mwc × (get_last_modified mwc ≡ t)) mwcs

-- What a run of the loop leaves for the tag.
record_tags_cases :
    (tag : Bytes) (mwcs : List MutatingWebhookConfiguration) (maps : TagMaps)
    → ((lookup tag (record_tags mwcs maps).tag_to_revision ≡ lookup tag maps.tag_to_revision)
        × (lookup tag (record_tags mwcs maps).last_modified_by_tag
            ≡ lookup tag maps.last_modified_by_tag)
        × All (λ mwc. (revision : Bytes) → ¬ IsTagFor tag revision mwc) mwcs)
      ⊎ IsBacked tag mwcs (record_tags mwcs maps)
unfolding record_tags
record_tags_cases tag [] maps = inl (refl, refl, tt)
record_tags_cases tag (mwc ∷ mwcs) maps = elim (record_tags_cases tag mwcs (record_tag mwc maps)) [
  | inl (revisions, times, others) ↦ elim (record_tag_cases tag mwc maps) [
    | inl ((r, t), unrelated) ↦ inl (revisions ∙ r, times ∙ t, (unrelated, others))
    | inr (revision, is, (r, t)) ↦
        inr (revision, get_last_modified mwc, (revisions ∙ r, times ∙ t), inl (is, refl))
  ]
  | inr (revision, t, holds, found) ↦ inr (revision, t, holds, inr found)
]

-- The two maps of the tags, for any tag: either both have an entry for it, which are the revision
-- and the time of one of the listed configurations that says the tag stands for that revision; or
-- neither has one, and no listed configuration is the tag's.
pub fetch_tags_together :
    (P : Platform) (w : P.World) (mwcs : List MutatingWebhookConfiguration) (maps : TagMaps)
    (tag : Bytes)
    → P.list_webhook_configurations w ≡ inr mwcs
    → fetch_tag_to_revision_and_last_modified P w ≡ ok maps
    → IsBacked tag mwcs maps
      ⊎ ((lookup tag maps.tag_to_revision ≡ none)
          × (lookup tag maps.last_modified_by_tag ≡ none)
          × All (λ mwc. (revision : Bytes) → ¬ IsTagFor tag revision mwc) mwcs)
unfolding fetch_tag_to_revision_and_last_modified lookup
fetch_tags_together P w mwcs maps tag listed h =
    let start : TagMaps = record { tag_to_revision = []; last_modified_by_tag = [] } in
    let same : record_tags mwcs start ≡ maps = ok_injective (rw listed at h) in
    rw (← same) (elim (record_tags_cases tag mwcs start) [
      | inl (r, t, others) ↦ inr (r, t, others)
      | inr backed ↦ inl backed
    ])
