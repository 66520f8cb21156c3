-- ===== src/Servers/Instances.antt =====
-- scaleway/instances.go
use scaleway_cloud_controlle.Base.{
  String, Bool, true, false, not, ◌&&◌, Option, none, some, List, [], ◌∷◌, ◌++◌, map, Result, Error,
  ok, err, errorf, wrapf, instance_not_found, ◌>>=◌, ◌==◌, if◌then◌else◌, is_empty, or_errorf,
}
use Prim.Native.String
use scaleway_cloud_controlle.Kube.{
  Node, NodeAddress, Zone, InstanceMetadata, host_name, internal_ip, external_ip, internal_dns,
  external_dns,
}
use scaleway_cloud_controlle.Scaleway.Api.{is_404_error}
use scaleway_cloud_controlle.Servers.ProviderId.{
  server_info_from_provider_id, build_provider_id, instance_type_instance,
}
use scaleway_cloud_controlle.Servers.Search.{get_server_by_name}
use scaleway_cloud_controlle.Servers.Interface.{Servers, exists}

-- scwinstance.ServerState
pub data ServerState : Type 0 where
  running starting : ServerState
  other_state : String → ServerState

pub record PublicIp : Type 0 where
  pub is_inet : Bool
  pub is_dhcp : Bool
  pub address : String

pub record PrivateNic : Type 0 where
  pub id : String
  pub private_network_id : String

pub record Server : Type 0 where
  pub id : String
  pub name : String
  pub hostname : String
  pub zone : String
  pub project : String
  pub commercial_type : String
  pub state : ServerState
  pub public_ips : List PublicIp
  pub private_nics : List PrivateNic
  pub private_ip : Option String

-- The struct `instances`, with the answers of the APIs that it calls.
pub record Instances : Type 0 where
  pub list_servers : String → String → Result (List Server)
  pub get_server : String → String → Result Server
  -- IPAM, by project, NIC and region: IPv4 addresses
  pub list_nic_ips : String → String → String → Result (List String)
  pub zones : List String
  pub zone_region : String → Result String
  pub pn_id : String

unfoldable pub is_running : ServerState → Bool
is_running running = true
is_running _ = false

unfoldable pub is_up : ServerState → Bool
is_up running = true
is_up starting = true
is_up _ = false

-- An API error of status 404 says that the server is not there.
unfoldable pub not_found_on_404 : {T : Type 0} → Result T → Result T
not_found_on_404 (ok t) = ok t
not_found_on_404 (err e) = if is_404_error e then err instance_not_found else err e

-- The first public IPv4 address that was provisioned by DHCP, with the server's public name.
unfoldable pub public_addresses : String → List PublicIp → List NodeAddress
public_addresses id [] = []
public_addresses id (ip ∷ ips) =
    let rest = public_addresses id ips in
    if ip.is_inet && ip.is_dhcp
    then record { type = external_ip; address = ip.address }
      ∷ record { type = external_dns; address = String.◌++◌ id ".pub.instances.scw.cloud" }
      ∷ []
    else rest

-- The legacy private IP.
unfoldable pub legacy_addresses : Server → List NodeAddress
legacy_addresses server = elim server.private_ip [
  | none ↦ []
  | some ip ↦
      if ip == ""
      then []
      else record { type = internal_ip; address = ip }
        ∷ record {
          type = internal_dns;
          address = String.◌++◌ server.id ".priv.instances.scw.cloud";
        }
        ∷ []
]

module _ (i : Instances) where
  open i use {list_servers, get_server, list_nic_ips, zone_region, pn_id}

  unfoldable pub by_name : String → Result Server
  by_name = get_server_by_name (λ s. s.name) list_servers i.zones

  unfoldable pub by_provider_id : String → Result Server
  by_provider_id provider_id = do
    info ← server_info_from_provider_id provider_id
    not_found_on_404 (get_server info.1 info.2)

  -- By the provider ID, or the name if there is none.
  unfoldable pub by_node : Node → Result Server
  by_node node =
      if node.provider_id == "" then by_name node.name else by_provider_id node.provider_id

  unfoldable pub get_ips_for_private_nic : Server → PrivateNic → String → Result (List NodeAddress)
  get_ips_for_private_nic server nic region = do
    ips ←
        or_errorf (list_nic_ips server.project nic.id region)
          (errorf "unable to query ipam for node")
    ok (map (λ ip. record { type = internal_ip; address = ip }) ips)

  -- The addresses in the configured private network; none if the server is not in it.
  unfoldable pub configured_addresses :
      Server → String → List PrivateNic → Result (List NodeAddress)
  configured_addresses server region [] = ok []
  configured_addresses server region (nic ∷ nics) =
      let rest = configured_addresses server region nics in
      if nic.private_network_id == pn_id then get_ips_for_private_nic server nic region else rest

  unfoldable pub wrap_ipam : {T : Type 0} → Result T → Result T
  wrap_ipam (ok t) = ok t
  wrap_ipam (err e) = err (wrapf "failed to query IPAM for node" e)

  unfoldable pub all_addresses : Server → String → List PrivateNic → Result (List NodeAddress)
  all_addresses server region [] = ok []
  all_addresses server region (nic ∷ nics) = do
    first ← wrap_ipam (get_ips_for_private_nic server nic region)
    rest ← all_addresses server region nics
    ok (first ++ rest)

  unfoldable pub get_private_network_addresses : Server → Result (List NodeAddress)
  get_private_network_addresses server =
      if is_empty server.private_nics
      then ok []
      else or_errorf (zone_region server.zone) (errorf "unable to get region from zone")
        >>= (λ region.
            if not (pn_id == "")
            then configured_addresses server region server.private_nics
            else all_addresses server region server.private_nics)

  unfoldable pub wrap_private : {T : Type 0} → Result T → Result T
  wrap_private (ok t) = ok t
  wrap_private (err e) = err (wrapf "failed to get private network addresses for node" e)

  -- The private addresses are those of the private networks, or else the legacy one.
  unfoldable pub instance_addresses : Server → Result (List NodeAddress)
  instance_addresses server = do
    private_addresses ← wrap_private (get_private_network_addresses server)
    ok (
        (record { type = host_name; address = server.hostname }
          ∷ public_addresses server.id server.public_ips)
        ++ (if is_empty private_addresses then legacy_addresses server else private_addresses))

  unfoldable pub instance_zone : Server → Result Zone
  instance_zone server = do
    region ← zone_region server.zone
    ok (record { region = region; failure_domain = server.zone })

  unfoldable pub provider_id_of : Server → String
  provider_id_of server = build_provider_id instance_type_instance server.zone server.id

  unfoldable pub metadata : Server → Result InstanceMetadata
  metadata server = do
    region ← zone_region server.zone
    addresses ← instance_addresses server
    ok (record {
      provider_id = provider_id_of server;
      instance_type = server.commercial_type;
      node_addresses = addresses;
      region = region;
      zone = server.zone;
    })

  -- The methods of `instances`.
  unfoldable pub instances : Servers
  instances = record {
    node_addresses = λ name. by_name name >>= instance_addresses;
    node_addresses_by_provider_id = λ id. by_provider_id id >>= instance_addresses;
    instance_id = λ name. by_name name >>= (λ s. ok (provider_id_of s));
    instance_type = λ name. by_name name >>= (λ s. ok s.commercial_type);
    instance_type_by_provider_id = λ id. by_provider_id id >>= (λ s. ok s.commercial_type);
    instance_exists_by_provider_id = λ id. exists (by_provider_id id);
    instance_shutdown_by_provider_id =
        λ id. by_provider_id id >>= (λ s. ok (not (is_running s.state)));
    get_zone_by_provider_id = λ id. by_provider_id id >>= instance_zone;
    get_zone_by_node_name = λ name. by_name name >>= instance_zone;
    instance_exists = λ node. exists (by_node node);
    instance_shutdown = λ node. by_node node >>= (λ s. ok (not (is_up s.state)));
    instance_metadata = λ node. by_node node >>= metadata;
    add_ssh_key_to_all_instances = λ user key. err Error.not_implemented;
    current_node_name = λ hostname. ok hostname;
  }
