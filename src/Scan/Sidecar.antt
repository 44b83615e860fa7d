-- ===== src/Scan/Sidecar.antt =====
-- `getIstioProxyImage`
use fortsa.Base.{
  ◌++◌, ◌≡◌, refl, arith, Bytes, codes, Option, none, some, List, [], ◌∷◌, ◌==◌, if◌then◌else◌,
}
use fortsa.Kube.{Container, Pod}

abbrev istio_proxy_container_name : Bytes
istio_proxy_container_name = codes "istio-proxy"

-- One of the two loops: the image of the first container of the proxy's name.
unfoldable pub proxy_image : List Container → Option Bytes
proxy_image [] = none
proxy_image (c ∷ cs) = if c.name == istio_proxy_container_name then some c.image else proxy_image cs

unfoldable pub get_istio_proxy_image : Pod → Bytes
unfolding proxy_image
get_istio_proxy_image pod = elim (proxy_image pod.spec.containers) [
  | some image ↦ image
  | none ↦ elim (proxy_image pod.spec.init_containers) [ some image ↦ image | none ↦ [] ]
]

-- The images of the containers that bear the proxy's name, in order.
abbrev pub proxy_images : List Container → List Bytes
proxy_images [] = []
proxy_images (c ∷ cs) =
    if c.name == istio_proxy_container_name then c.image ∷ proxy_images cs else proxy_images cs

-- The first text of a list, or "".
abbrev pub first_text : List Bytes → Bytes
first_text [] = []
first_text (x ∷ xs) = x

-- The two loops, one after the other.
abbrev image_or_init : List Container → List Container → Bytes
image_or_init cs ds = elim (proxy_image cs) [
  | some image ↦ image
  | none ↦ elim (proxy_image ds) [ some image ↦ image | none ↦ [] ]
]

proxy_image_or_init :
    (cs ds : List Container) → image_or_init cs ds ≡ first_text (proxy_images (cs ++ ds))
unfolding proxy_image
proxy_image_or_init [] [] = refl
proxy_image_or_init [] (d ∷ ds) = ground (arith, proxy_image_or_init [] ds)
proxy_image_or_init (c ∷ cs) ds = ground (arith, proxy_image_or_init cs ds)

-- The proxy's image is the first one among the containers that bear its name, the init containers
-- read after the regular ones, and "" where no container does.
pub get_istio_proxy_image-eq-first :
    (pod : Pod)
    → get_istio_proxy_image pod
      ≡ first_text (proxy_images (pod.spec.containers ++ pod.spec.init_containers))
unfolding get_istio_proxy_image
get_istio_proxy_image-eq-first pod =
    proxy_image_or_init pod.spec.containers pod.spec.init_containers
