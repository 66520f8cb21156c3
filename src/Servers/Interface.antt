-- ===== src/Servers/Interface.antt =====
-- scaleway/servers.go, the interface Servers: what an implementation answers about the nodes.
use scaleway_cloud_controlle.Base.{String, Bool, List, Result, Error, ok, err}
use scaleway_cloud_controlle.Kube.{Node, NodeAddress, Zone, InstanceMetadata}

pub record Servers : Type 0 where
  pub node_addresses : String → Result (List NodeAddress)
  pub node_addresses_by_provider_id : String → Result (List NodeAddress)
  pub instance_id : String → Result String
  pub instance_type : String → Result String
  pub instance_type_by_provider_id : String → Result String
  pub instance_exists_by_provider_id : String → Result Bool
  pub instance_shutdown_by_provider_id : String → Result Bool
  pub get_zone_by_provider_id : String → Result Zone
  pub get_zone_by_node_name : String → Result Zone
  pub instance_exists : Node → Result Bool
  pub instance_shutdown : Node → Result Bool
  pub instance_metadata : Node → Result InstanceMetadata
  -- of a user's name and a key
  pub add_ssh_key_to_all_instances : String → String → Result (Unit {0})
  pub current_node_name : String → Result String

-- `if err == cloudprovider.InstanceNotFound { return false, nil }`, and true if there is no error.
unfoldable pub exists : {T : Type 0} → Result T → Result Bool
exists (ok _) = ok Bool.true
exists (err Error.instance_not_found) = ok Bool.false
exists (err e) = err e
