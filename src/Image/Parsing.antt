-- ===== src/Image/Parsing.antt =====
-- What `ParseImage` makes of a reference that is spelled from its parts.
use fortsa.Base.{
  Bytes, [], ◌∷◌, ◌++◌, ◌≡◌, ◌≢◌, Lacks, All-append, index_of_Lacks, index-append,
  last_index_of_Lacks, last_index-append, take-append, drop-append_past, arith,
}
use fortsa.Image.{ParsedImage, without_digest, split_tag, split_registry, parse_image}

without_digest_of_Lacks : (image : Bytes) → Lacks b'@' image → without_digest image ≡ image
unfolding without_digest
without_digest_of_Lacks image h = ground (arith, index_of_Lacks image b'@' h)

split_tag-append :
    (path tag : Bytes) → Lacks b':' tag → split_tag (path ++ b':' ∷ tag) ≡ (path, tag)
unfolding split_tag
split_tag-append path tag h = ground (
  arith,
  last_index-append path tag b':' h,
  take-append path (b':' ∷ tag),
  drop-append_past path b':' tag,
)

split_registry-append :
    (registry name : Bytes)
    → Lacks b'/' name
    → split_registry (registry ++ b'/' ∷ name) ≡ (registry, name)
unfolding split_registry
split_registry-append registry name h = ground (
  arith,
  last_index-append registry name b'/' h,
  take-append registry (b'/' ∷ name),
  drop-append_past registry b'/' name,
)

split_registry_of_Lacks : (name : Bytes) → Lacks b'/' name → split_registry name ≡ ([], name)
unfolding split_registry
split_registry_of_Lacks name h = ground (arith, last_index_of_Lacks name b'/' h)

-- The path of an image reference, without its tag.
abbrev pub print_path : Bytes → Bytes → Bytes
print_path [] name = name
print_path (c ∷ registry) name = (c ∷ registry) ++ b'/' ∷ name

-- An image reference as it is written, "registry/name:tag" or "name:tag".
abbrev pub print_image : ParsedImage → Bytes
print_image p = print_path p.registry p.image_name ++ b':' ∷ p.tag

-- The parts that a reference can be spelled from: no "@" anywhere, no ":" in the tag and no "/" in
-- the name. The registry may have a port.
pub record IsReference (p : ParsedImage) : Type 0 where
  pub registry_plain : Lacks b'@' p.registry
  pub name_plain : Lacks b'@' p.image_name
  pub tag_plain : Lacks b'@' p.tag
  pub name_whole : Lacks b'/' p.image_name
  pub tag_whole : Lacks b':' p.tag

print_path-Lacks :
    (registry name : Bytes)
    → Lacks b'@' registry
    → Lacks b'@' name
    → Lacks b'@' (print_path registry name)
print_path-Lacks [] name _ h = h
print_path-Lacks (c ∷ registry) name (p, g) h =
    (p, All-append (λ c. c ≢ b'@') registry (b'/' ∷ name) g (omega arith, h))

split_registry-print_path :
    (registry name : Bytes)
    → Lacks b'/' name
    → split_registry (print_path registry name) ≡ (registry, name)
split_registry-print_path [] name h = split_registry_of_Lacks name h
split_registry-print_path (c ∷ registry) name h = split_registry-append (c ∷ registry) name h

-- Parsing a reference that is written from its parts gives the parts back, where the parts are those
-- of a reference: without the characters that divide them.
pub parse_image-print_image : (p : ParsedImage) → IsReference p → parse_image (print_image p) ≡ p
unfolding parse_image
parse_image-print_image p r =
    let path = print_path p.registry p.image_name in
    let plain : Lacks b'@' (print_image p) =
      All-append (λ c. c ≢ b'@') path (b':' ∷ p.tag)
        (print_path-Lacks p.registry p.image_name r.registry_plain r.name_plain)
        (omega arith, r.tag_plain) in
    rw (
      without_digest_of_Lacks (print_image p) plain,
      split_tag-append path p.tag r.tag_whole,
      split_registry-print_path p.registry p.image_name r.name_whole,
    )

-- A digest changes nothing: "image@sha256:…" is read as "image", where the image has no "@" itself.
pub parse_image_digest :
    (image digest : Bytes)
    → Lacks b'@' image
    → parse_image (image ++ b'@' ∷ digest) ≡ parse_image image
unfolding parse_image without_digest
parse_image_digest image digest h = ground (
  arith,
  index-append image digest b'@' h,
  index_of_Lacks image b'@' h,
  take-append image (b'@' ∷ digest),
)
