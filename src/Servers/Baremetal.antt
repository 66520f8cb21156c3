-- ===== src/Servers/Baremetal.antt =====
-- scaleway/baremetal.go
use scaleway_cloud_controlle.Base.{
  String, Bool, true, false, not, List, [], ◌∷◌, Result, Error, ok, err, ◌>>=◌, ◌==◌, if◌then◌else◌,
}
use scaleway_cloud_controlle.Kube.{
  Node, NodeAddress, Zone, InstanceMetadata, host_name, external_ip, external_dns,
}
use scaleway_cloud_controlle.Scaleway.Api.{is_404_error}
use scaleway_cloud_controlle.Servers.ProviderId.{
  server_info_from_provider_id, build_provider_id, instance_type_baremetal,
}
use scaleway_cloud_controlle.Servers.Search.{get_server_by_name}
use scaleway_cloud_controlle.Servers.Instances.{not_found_on_404}
use scaleway_cloud_controlle.Servers.Interface.{Servers, exists}

-- scwbaremetal.ServerStatus
pub data ServerStatus : Type 0 where
  ready starting : ServerStatus
  other_status : String → ServerStatus

pub record BaremetalIp : Type 0 where
  pub is_ipv4 : Bool
  pub address : String

pub record BaremetalServer : Type 0 where
  pub id : String
  pub name : String
  pub domain : String
  pub zone : String
  pub offer_id : String
  pub status : ServerStatus
  pub ips : List BaremetalIp

-- The struct `baremetal`, with the answers of its API; an offer by its name.
pub record Baremetal : Type 0 where
  pub list_servers : String → String → Result (List BaremetalServer)
  pub get_server : String → String → Result BaremetalServer
  pub get_offer : String → String → Result String
  pub zones : List String
  pub zone_region : String → Result String

unfoldable pub is_ready : ServerStatus → Bool
is_ready ready = true
is_ready _ = false

unfoldable pub is_ready_or_starting : ServerStatus → Bool
is_ready_or_starting ready = true
is_ready_or_starting starting = true
is_ready_or_starting _ = false

-- The first IPv4 address, with the server's domain.
unfoldable pub ipv4_addresses : String → List BaremetalIp → List NodeAddress
ipv4_addresses domain [] = []
ipv4_addresses domain (ip ∷ ips) =
    let rest = ipv4_addresses domain ips in
    if ip.is_ipv4
    then record { type = external_ip; address = ip.address }
      ∷ record { type = external_dns; address = domain }
      ∷ []
    else rest

unfoldable pub baremetal_addresses : BaremetalServer → List NodeAddress
baremetal_addresses server =
    record { type = host_name; address = server.name } ∷ ipv4_addresses server.domain server.ips

unfoldable pub baremetal_zone : BaremetalServer → Result Zone
baremetal_zone server = ok (record { region = server.zone; failure_domain = "unavailable" })

-- An offer that the API does not know is named UNKNOWN.
unfoldable pub unknown_on_404 : Result String → Result String
unknown_on_404 (ok name) = ok name
unknown_on_404 (err e) = if is_404_error e then ok "UNKNOWN" else err e

module _ (b : Baremetal) where
  open b use {list_servers, get_server, get_offer, zone_region}

  unfoldable pub by_name : String → Result BaremetalServer
  by_name = get_server_by_name (λ s. s.name) list_servers b.zones

  unfoldable pub by_provider_id : String → Result BaremetalServer
  by_provider_id provider_id = do
    info ← server_info_from_provider_id provider_id
    not_found_on_404 (get_server info.1 info.2)

  unfoldable pub by_node : Node → Result BaremetalServer
  by_node node =
      if node.provider_id == "" then by_name node.name else by_provider_id node.provider_id

  unfoldable pub get_server_offer_name : BaremetalServer → Result String
  get_server_offer_name server = unknown_on_404 (get_offer server.offer_id server.zone)

  unfoldable pub provider_id_of : BaremetalServer → String
  provider_id_of server = build_provider_id instance_type_baremetal server.zone server.id

  unfoldable pub metadata : BaremetalServer → Result InstanceMetadata
  metadata server = do
    offer_name ← get_server_offer_name server
    region ← zone_region server.zone
    ok (record {
      provider_id = provider_id_of server;
      instance_type = offer_name;
      node_addresses = baremetal_addresses server;
      region = region;
      zone = server.zone;
    })

  -- The methods of `baremetal`.
  unfoldable pub baremetal : Servers
  baremetal = record {
    node_addresses = λ name. by_name name >>= (λ s. ok (baremetal_addresses s));
    node_addresses_by_provider_id = λ id. by_provider_id id >>= (λ s. ok (baremetal_addresses s));
    instance_id = λ name. by_name name >>= (λ s. ok (provider_id_of s));
    instance_type = λ name. by_name name >>= get_server_offer_name;
    instance_type_by_provider_id = λ id. by_provider_id id >>= get_server_offer_name;
    instance_exists_by_provider_id = λ id. exists (by_provider_id id);
    instance_shutdown_by_provider_id =
        λ id. by_provider_id id >>= (λ s. ok (not (is_ready s.status)));
    get_zone_by_provider_id = λ id. by_provider_id id >>= baremetal_zone;
    get_zone_by_node_name = λ name. by_name name >>= baremetal_zone;
    instance_exists = λ node. exists (by_node node);
    instance_shutdown = λ node. by_node node >>= (λ s. ok (not (is_ready_or_starting s.status)));
    instance_metadata = λ node. by_node node >>= metadata;
    add_ssh_key_to_all_instances = λ user key. err Error.not_implemented;
    current_node_name = λ hostname. ok hostname;
  }
