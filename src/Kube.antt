-- ===== src/Kube.antt =====
-- The Kubernetes objects that the controller reads: the fields that the source uses of
-- k8s.io/api/core/v1 and k8s.io/cloud-provider. A field that may be nil is an `Option`.
use scaleway_cloud_controlle.Base.{ℕ, ℤ, String, Bool, Option, List}
use scaleway_cloud_controlle.Base.Dict.{Dict}

-- v1.Protocol
pub data Protocol : Type 0 where
  tcp : Protocol
  other : String → Protocol

abbrev pub is_tcp : Protocol → Bool
is_tcp tcp = Bool.true
is_tcp (other s) = Bool.false

abbrev pub protocol_name : Protocol → String
protocol_name tcp = "TCP"
protocol_name (other s) = s

-- v1.ServicePort; ports are int32 values.
pub record ServicePort : Type 0 where
  pub protocol : Protocol
  pub port : ℤ
  pub node_port : ℤ

-- v1.LoadBalancerIngress and its status.
pub record Ingress : Type 0 where
  pub ip : String
  pub hostname : String
  pub ip_mode : Option String

-- v1.Service. A nil map of annotations or labels reads as an empty one.
pub record Service : Type 0 where
  pub namespace : String
  pub name : String
  pub uid : String
  pub annotations : Dict String String
  pub load_balancer_class : Option String
  pub load_balancer_ip : String
  pub source_ranges : List String
  pub ports : List ServicePort
  pub labels : Dict String String
  pub status : List Ingress
  pub health_check_node_port : ℤ
  pub is_deleting : Bool

-- v1.NodeAddressType
pub data AddressType : Type 0 where
  host_name internal_ip external_ip internal_dns external_dns : AddressType

pub record NodeAddress : Type 0 where
  pub type : AddressType
  pub address : String

pub record Taint : Type 0 where
  pub key : String
  pub value : String
  pub effect : String

-- v1.Node; the creation time in nanoseconds.
pub record Node : Type 0 where
  pub name : String
  pub labels : Dict String String
  pub provider_id : String
  pub taints : List Taint
  pub addresses : List NodeAddress
  pub created : ℕ

-- cloudprovider.Zone and cloudprovider.InstanceMetadata
pub record Zone : Type 0 where
  pub failure_domain : String
  pub region : String

pub record InstanceMetadata : Type 0 where
  pub provider_id : String
  pub instance_type : String
  pub node_addresses : List NodeAddress
  pub region : String
  pub zone : String
