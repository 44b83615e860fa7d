-- ===== src/Image/Matching.antt =====
-- When `imagesMatch` takes two images for the same.
use fortsa.Base.{
  ap, Bytes, Bool, true, false, ◌++◌, ◌∷◌, ◌≡◌, refl, sym, ◌∙◌, ◌↔◌, subst, eq_iff, Lacks, arith,
}
use fortsa.Image.{ParsedImage, parse_image, images_match}
use fortsa.Image.Parsing.{IsReference, print_image, parse_image-print_image, parse_image_digest}

-- With the hub compared, images match when they are the same text; without it, when their names and
-- tags are the same.
abbrev pub SameImage : Bool → Bytes → Bytes → Type 0
SameImage true current expected = current ≡ expected
SameImage false current expected =
    ((parse_image current).image_name ≡ (parse_image expected).image_name)
    × ((parse_image current).tag ≡ (parse_image expected).tag)

pub images_match_iff :
    (hub : Bool) (current expected : Bytes)
    → (images_match current expected hub ≡ true) ↔ SameImage hub current expected
unfolding images_match
images_match_iff true current expected = eq_iff current expected
images_match_iff false current expected =
    let cp = parse_image current in
    let ep = parse_image expected in
    ground (arith, eq_iff cp.image_name ep.image_name, eq_iff cp.tag ep.tag)

-- With the hub compared, all parts of two references count; without it, their names and tags.
abbrev pub SameParts : Bool → ParsedImage → ParsedImage → Type 0
SameParts true current expected = current ≡ expected
SameParts false current expected =
    (current.image_name ≡ expected.image_name) × (current.tag ≡ expected.tag)

-- Of two references that are written from their parts, none of which has the characters that divide
-- them, the images match exactly where the parts are the same: all of them with the hub compared, and
-- the name and the tag without it, whatever the registries.
pub images_match-print_image :
    (hub : Bool) (p q : ParsedImage)
    → IsReference p
    → IsReference q
    → (images_match (print_image p) (print_image q) hub ≡ true) ↔ SameParts hub p q
images_match-print_image true p q r s =
    let (matched, back) = images_match_iff true (print_image p) (print_image q) in
    (
      λ h.
          sym (parse_image-print_image p r)
          ∙ ap parse_image (matched h)
          ∙ parse_image-print_image q s,
      λ e. back (ap print_image e),
    )
images_match-print_image false p q r s =
    let matched = images_match (print_image p) (print_image q) false ≡ true in
    subst (λ x. matched ↔ SameParts false x q) (parse_image-print_image p r)
      (subst (λ y. matched ↔ SameParts false (parse_image (print_image p)) y)
        (parse_image-print_image q s) (images_match_iff false (print_image p) (print_image q)))

-- Where the hub is not compared, digests do not count: one image that has no "@" itself matches
-- itself with any two digests put behind it.
pub images_match_digests :
    (image digest other : Bytes)
    → Lacks b'@' image
    → images_match (image ++ b'@' ∷ digest) (image ++ b'@' ∷ other) false ≡ true
images_match_digests image digest other h =
    (images_match_iff false (image ++ b'@' ∷ digest) (image ++ b'@' ∷ other)).1
      (rw (parse_image_digest image digest h, parse_image_digest image other h) (refl, refl))
