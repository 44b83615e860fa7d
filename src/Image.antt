-- ===== src/Image.antt =====
-- `ParsedImage`, `ParseImage` and `imagesMatch` of internal/podscanner/pod_scanner.go.
pub mod Parsing
pub mod Matching
use fortsa.Base.{
  ℕ, suc, Bytes, codes, Bool, true, false, ◌&&◌, Option, none, some, [], ◌==◌, index, last_index,
  take, drop, if◌then◌else◌,
}

pub record ParsedImage : Type 0 where
  pub registry : Bytes
  pub image_name : Bytes
  pub tag : Bytes

-- The text before the first "@", or all of it.
without_digest : Bytes → Bytes
without_digest image = elim (index image b'@') [ none ↦ image | some at_idx ↦ take at_idx image ]

-- The tag behind the last ":", with "latest" where there is none, and the text before it.
split_tag : Bytes → Bytes × Bytes
split_tag image = elim (last_index image b':') [
  | none ↦ (image, codes "latest")
  | some colon_idx ↦ (take colon_idx image, drop (suc colon_idx) image)
]

-- The registry before the last "/", and the image's name behind it.
split_registry : Bytes → Bytes × Bytes
split_registry image = elim (last_index image b'/') [
  | none ↦ ([], image)
  | some last_slash ↦ (take last_slash image, drop (suc last_slash) image)
]

unfoldable pub parse_image : Bytes → ParsedImage
unfolding without_digest split_tag split_registry
parse_image image =
    let (path, tag) = split_tag (without_digest image) in
    let (registry, image_name) = split_registry path in
    record { registry = registry; image_name = image_name; tag = tag }

unfoldable pub images_match : Bytes → Bytes → Bool → Bool
images_match current expected true = current == expected
images_match current expected false =
    let cp = parse_image current in
    let ep = parse_image expected in cp.image_name == ep.image_name && cp.tag == ep.tag
