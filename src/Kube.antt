-- ===== src/Kube.antt =====
-- The Kubernetes objects, with the fields that the program reads or writes. A nil map is the empty
-- one, and a pointer that may be nil is an `Option`.
use fortsa.Base.{Bytes, Bool, Option, List}
use fortsa.Base.Int.{ℤ, Time}
use fortsa.Base.Dict.{Dict}

pub record NamespacedName : Type 0 where
  pub namespace : Bytes
  pub name : Bytes

pub record OwnerReference : Type 0 where
  pub kind : Bytes
  pub name : Bytes
  pub controller : Option Bool

pub record ObjectMeta : Type 0 where
  pub namespace : Bytes
  pub name : Bytes
  pub labels : Dict Bytes
  pub annotations : Dict Bytes
  pub owner_references : List OwnerReference
  pub creation_timestamp : Time
  -- The time of each entry of `managedFields`.
  pub managed_fields : List (Option Time)

pub record Container : Type 0 where
  pub name : Bytes
  pub image : Bytes

pub record PodSpec : Type 0 where
  pub containers : List Container
  pub init_containers : List Container

pub record Pod : Type 0 where
  pub meta : ObjectMeta
  pub spec : PodSpec

-- `spec.template` of a Deployment, StatefulSet or DaemonSet.
pub record PodTemplate : Type 0 where
  pub labels : Dict Bytes
  pub annotations : Dict Bytes
  pub spec : PodSpec

pub record ConfigMap : Type 0 where
  pub meta : ObjectMeta
  pub entries : Dict Bytes

pub record ServiceReference : Type 0 where
  pub namespace : Bytes
  pub name : Bytes
  pub path : Option Bytes
  pub port : Option ℤ

pub record WebhookClientConfig : Type 0 where
  pub url : Option Bytes
  pub service : Option ServiceReference
  pub ca_bundle : Bytes

pub record MutatingWebhookConfiguration : Type 0 where
  pub meta : ObjectMeta
  -- The `clientConfig` of each webhook.
  pub webhooks : List WebhookClientConfig
