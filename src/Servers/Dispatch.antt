-- ===== src/Servers/Dispatch.antt =====
-- scaleway/servers.go: the implementation that asks the instances first, or the one that the
-- provider ID names; and scaleway/zones.go.
pub mod Laws
use scaleway_cloud_controlle.Base.{
  String, Bool, true, false, not, none, some, ◌∷◌, Result, ok, err, Error, ◌>>=◌, ◌==◌,
  if◌then◌else◌, is_some, select,
}
use scaleway_cloud_controlle.Base.Dict.{lookup, string_key}
use scaleway_cloud_controlle.Kube.{Node, Zone, InstanceMetadata, external_ip}
use scaleway_cloud_controlle.LoadBalancers.Nodes.{is_external}
use scaleway_cloud_controlle.Servers.ProviderId.{is_baremetal_id}
use scaleway_cloud_controlle.Servers.Interface.{Servers}

abbrev pub node_label_disable_life_cycle : String
node_label_disable_life_cycle = "k8s.scw.cloud/disable-lifecycle"

abbrev pub node_label_node_public_ip : String
node_label_node_public_ip = "k8s.scw.cloud/node-public-ip"

-- `if err == cloudprovider.InstanceNotFound { return s.baremetal… }`
unfoldable pub or_baremetal : {T : Type 0} → Result T → Result T → Result T
or_baremetal (err Error.instance_not_found) other = other
or_baremetal (ok t) other = ok t
or_baremetal (err e) other = err e

abbrev pub has_no_lifecycle : Node → Bool
has_no_lifecycle node = is_some (lookup node_label_disable_life_cycle node.labels)

-- Metadata with the address of the label as the one external address.
unfoldable pub metadata_with_ip : Node → String → InstanceMetadata
metadata_with_ip node address = record {
  provider_id = "";
  instance_type = "";
  node_addresses =
      record { type = external_ip; address = address }
      ∷ select (λ a. not (is_external a.type)) node.addresses;
  region = "";
  zone = "";
}

module _ (instances baremetal : Servers) where
  unfoldable pub get_implementation_by_provider_id : String → Servers
  get_implementation_by_provider_id provider_id =
      if is_baremetal_id provider_id then baremetal else instances

  -- Both implementations are asked about a node without a provider ID.
  unfoldable pub exists_by_name : Node → Result Bool
  exists_by_name node =
      instances.instance_exists node
      >>= (λ found. if not found then baremetal.instance_exists node else ok found)

  unfoldable pub instance_exists : Node → Result Bool
  instance_exists node =
      if has_no_lifecycle node
      then ok true
      else if node.provider_id == ""
      then exists_by_name node
      else (get_implementation_by_provider_id node.provider_id).instance_exists node

  unfoldable pub instance_shutdown : Node → Result Bool
  instance_shutdown node =
      if has_no_lifecycle node
      then ok false
      else if node.provider_id == ""
      then or_baremetal (instances.instance_shutdown node) (baremetal.instance_shutdown node)
      else (get_implementation_by_provider_id node.provider_id).instance_shutdown node

  unfoldable pub instance_metadata : Node → Result InstanceMetadata
  instance_metadata node = elim (lookup node_label_node_public_ip node.labels) [
    | some address ↦ ok (metadata_with_ip node address)
    | none ↦
        if node.provider_id == ""
        then or_baremetal (instances.instance_metadata node) (baremetal.instance_metadata node)
        else (get_implementation_by_provider_id node.provider_id).instance_metadata node
  ]

  -- The methods of `servers`.
  unfoldable pub servers : Servers
  servers = record {
    node_addresses = λ n. or_baremetal (instances.node_addresses n) (baremetal.node_addresses n);
    node_addresses_by_provider_id =
        λ id. (get_implementation_by_provider_id id).node_addresses_by_provider_id id;
    instance_id = λ n. or_baremetal (instances.instance_id n) (baremetal.instance_id n);
    instance_type = λ n. or_baremetal (instances.instance_type n) (baremetal.instance_type n);
    instance_type_by_provider_id =
        λ id. (get_implementation_by_provider_id id).instance_type_by_provider_id id;
    instance_exists_by_provider_id =
        λ id. (get_implementation_by_provider_id id).instance_exists_by_provider_id id;
    instance_shutdown_by_provider_id =
        λ id. (get_implementation_by_provider_id id).instance_shutdown_by_provider_id id;
    get_zone_by_provider_id =
        λ id. (get_implementation_by_provider_id id).get_zone_by_provider_id id;
    get_zone_by_node_name =
        λ n. or_baremetal (instances.get_zone_by_node_name n) (baremetal.get_zone_by_node_name n);
    instance_exists = instance_exists;
    instance_shutdown = instance_shutdown;
    instance_metadata = instance_metadata;
    add_ssh_key_to_all_instances = λ user key. err Error.not_implemented;
    current_node_name = λ hostname. ok hostname;
  }

  -- `zones` hands its questions on to `servers`; the zone of the controller is its region alone.
  unfoldable pub zone_by_provider_id : String → Result Zone
  zone_by_provider_id id = servers.get_zone_by_provider_id id

  unfoldable pub zone_by_node_name : String → Result Zone
  zone_by_node_name name = servers.get_zone_by_node_name name

unfoldable pub get_zone : String → Result Zone
get_zone region = ok (record { region = region; failure_domain = "" })
