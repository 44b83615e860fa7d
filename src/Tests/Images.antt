-- ===== src/Tests/Images.antt =====
-- Runs of internal/podscanner/pod_scanner_test.go's `TestParseImage`, and the image theorems.
use fortsa.Base.{◌↔◌, codes, true, false, [], ◌∷◌, ◌++◌, ◌≡◌, refl, ◌==◌, index, last_index, arith}
use fortsa.Image.{ParsedImage, parse_image, images_match}
use fortsa.Image.Parsing.{parse_image-print_image, print_image}
use fortsa.Image.Matching.{SameParts, images_match_digests, images_match-print_image}

images : Unit {0}
unfolding parse_image images_match index last_index ◌==◌
images = tt

parse_image_tests :
    (parse_image (codes "docker.io/istio/proxyv2:1.20.1") ≡ record {
      registry = codes "docker.io/istio";
      image_name = codes "proxyv2";
      tag = codes "1.20.1";
    })
    × (parse_image (codes "registry:5000/repo/image:tag") ≡ record {
      registry = codes "registry:5000/repo";
      image_name = codes "image";
      tag = codes "tag";
    })
    × (parse_image (codes "proxyv2")
        ≡ record { registry = []; image_name = codes "proxyv2"; tag = codes "latest" })
    × (parse_image (codes "image@sha256:abc123")
        ≡ record { registry = []; image_name = codes "image"; tag = codes "latest" })
unfolding images
parse_image_tests = (refl, refl, refl, refl)

abbrev reference : ParsedImage
reference = record {
  registry = codes "r:5000/istio";
  image_name = codes "proxyv2";
  tag = codes "1.20";
}

parse_image-print_image_example : parse_image (codes "r:5000/istio/proxyv2:1.20") ≡ reference
parse_image-print_image_example = parse_image-print_image reference (omega arith)

images_match-print_image_example :
    (images_match (print_image reference) (print_image (record reference { registry = [] })) false
      ≡ true)
    ↔ SameParts false reference (record reference { registry = [] })
images_match-print_image_example =
    images_match-print_image false reference (record reference { registry = [] }) (omega arith)
      (omega arith)

images_match_digests_example :
    images_match
      (codes "a:1" ++ b'@' ∷ codes "sha256:7")
      (codes "a:1" ++ b'@' ∷ codes "sha256:8")
      false
    ≡ true
images_match_digests_example =
    images_match_digests (codes "a:1") (codes "sha256:7") (codes "sha256:8") (omega arith)
