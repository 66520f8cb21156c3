-- ===== src/LoadBalancers/Nodes.antt =====
-- scaleway/loadbalancers.go: the nodes behind a load balancer.
pub mod Laws
use scaleway_cloud_controlle.Base.{
  ℕ, ◌+◌, ltb, String, Bool, true, false, ◌&&◌, ◌||◌, not, none, some, List, [], ◌∷◌, Result, ok,
  err, errorf, ◌>>=◌, ◌==◌, if◌then◌else◌, any, all, select, is_empty,
}
use scaleway_cloud_controlle.Base.Dict.{Dict, lookup, string_key}
use scaleway_cloud_controlle.Kube.{
  Service, Node, NodeAddress, AddressType, internal_ip, external_ip,
}
use scaleway_cloud_controlle.Scaleway.Slices.{Slice}
use scaleway_cloud_controlle.Annotations.Keys
use scaleway_cloud_controlle.Annotations.Network.{get_key_value_from_annotation}

abbrev pub is_external : AddressType → Bool
is_external external_ip = true
is_external _ = false

abbrev pub is_internal : AddressType → Bool
is_internal internal_ip = true
is_internal _ = false

-- The addresses of a node that have a type, in front of others.
unfoldable pub addresses_onto : (AddressType → Bool) → List NodeAddress → List String → List String
addresses_onto wanted [] rest = rest
addresses_onto wanted (a ∷ others) rest =
    let more = addresses_onto wanted others rest in if wanted a.type then a.address ∷ more else more

unfoldable pub node_addresses : (AddressType → Bool) → List Node → List String
node_addresses wanted [] = []
node_addresses wanted (node ∷ nodes) =
    addresses_onto wanted node.addresses (node_addresses wanted nodes)

-- `var nodesList []string`: nil if nothing is appended.
unfoldable pub appended : List String → Slice String
appended [] = none
appended (x ∷ xs) = some (x ∷ xs)

unfoldable pub extract_nodes_external_ips : List Node → Slice String
extract_nodes_external_ips nodes = appended (node_addresses is_external nodes)

unfoldable pub extract_nodes_internal_ips : List Node → Slice String
extract_nodes_internal_ips nodes = appended (node_addresses is_internal nodes)

-- Whether a node has a label of the filter; an empty value stands for any.
unfoldable pub has_label : Node → String × String → Bool
has_label node (key, value) = elim (lookup key node.labels) [
  | none ↦ false
  | some node_value ↦ node_value == value || value == ""
]

unfoldable pub is_target : Dict String String → Node → Bool
is_target target_labels node = not (is_empty node.labels) && all (has_label node) target_labels

unfoldable pub filter_by_labels : Dict String String → List Node → List Node
filter_by_labels target_labels nodes =
    if is_empty target_labels then nodes else select (is_target target_labels) nodes

unfoldable pub filter_nodes : Service → List Node → List Node
filter_nodes service nodes = elim (lookup Keys.annotation_target_node_labels service.annotations) [
  | none ↦ nodes
  | some node_labels ↦ filter_by_labels (get_key_value_from_annotation node_labels) nodes
]

-- api.TaintExternalCloudProvider
abbrev pub taint_external_cloud_provider : String
taint_external_cloud_provider = "node.cloudprovider.kubernetes.io/uninitialized"

-- 3 * time.Minute
abbrev pub grace_period : ℕ
grace_period = 180_000_000_000

-- One round of nodesInitialized at the time `now`.
unfoldable pub node_initialized : ℕ → Bool → Node → Result (Unit {0})
node_initialized now use_internal_ips node =
    if ltb (node.created + grace_period) now
    then ok tt
    else if any (λ taint. taint.key == taint_external_cloud_provider) node.taints
    then err (errorf "node is not yet initialized")
    else if is_empty
        (node_addresses (if use_internal_ips then is_internal else is_external) (node ∷ []))
    then err (errorf "node is initialized, but is missing an IP address")
    else ok tt

unfoldable pub nodes_initialized : ℕ → Bool → List Node → Result (Unit {0})
nodes_initialized now use_internal_ips [] = ok tt
nodes_initialized now use_internal_ips (node ∷ nodes) =
    node_initialized now use_internal_ips node >>= λ _. nodes_initialized now use_internal_ips nodes
