-- ===== src/Cloud.antt =====
-- scaleway/cloud.go and scaleway/client.go: the provider that Kubernetes' controllers are given, as
-- the environment variables of the process configure it.
pub mod Logger
pub mod Initializer
pub mod Laws
use scaleway_cloud_controlle.Base.{
  String, Bool, true, false, not, Option, none, some, List, [], ◌∷◌, Result, ok, err, Error, errorf,
  ◌>>=◌, ◌==◌, if◌then◌else◌, split, to_lower, is_some,
}
use Prim.Native.String.{◌++◌}
use scaleway_cloud_controlle.Scaleway.Packages.{Packages, Env}
use scaleway_cloud_controlle.Scaleway.Api
use scaleway_cloud_controlle.LoadBalancers.Controller.{Controller}
use scaleway_cloud_controlle.Servers.Interface.{Servers}
use scaleway_cloud_controlle.Servers.Instances.{Instances, instances}
use scaleway_cloud_controlle.Servers.Baremetal.{Baremetal, baremetal}
use scaleway_cloud_controlle.Servers.Dispatch.{servers}

-- A value of an interface type: nil, or a pointer of some type, which may be nil itself. The test
-- `!= nil` tells the two apart.
pub data Interface (T : Type 0) : Type 0 where
  nil : Interface T
  holds : Option T → Interface T

abbrev pub is_not_nil : {T : Type 0} → Interface T → Bool
is_not_nil nil = false
is_not_nil (holds p) = true

-- An interface value is assigned to a field of another interface type: nil stays nil.
unfoldable pub of_interface : {T : Type 0} → Option T → Interface T
of_interface none = nil
of_interface (some t) = holds (some t)

-- A pointer is assigned: a nil pointer makes an interface value that is not nil.
unfoldable pub of_pointer : {T : Type 0} → Option T → Interface T
of_pointer p = holds p

-- The SDK, with what its clients answer; `C` is the type of a client.
pub record Sdk (C : Type 0) : Type 0 where
  -- scw.NewClient, of the user agent
  pub scw_new_client : String → Result C
  pub default_region : C → Option String
  pub instance_api : C → Instances
  pub baremetal_api : C → Baremetal
  pub lb_api : C → Api.Cloud
  pub packages : Packages

-- client.go: the client of the SDK, and whether there is Kubernetes' clientset.
pub record Client (C : Type 0) : Type 0 where
  pub scaleway : C
  pub has_kubernetes : Bool

unfoldable pub new_client : {C : Type 0} → C → Client C
new_client scaleway = record { scaleway = scaleway; has_kubernetes = false }

-- zones.go
pub record Zones : Type 0 where
  pub region : String
  pub zone_servers : Servers

-- The variables of the build.
pub record Build : Type 0 where
  pub ccm_version : String
  pub git_commit : String

abbrev pub provider_name_text : String
provider_name_text = "scaleway"

-- The interfaces that newCloud makes, while it disables some of them. The first is of an interface
-- type, the other two are pointers.
pub record Parts : Type 0 where
  pub servers_part : Option Servers
  pub loadbalancer_part : Option Controller
  pub zones_part : Option Zones

unfoldable pub disable_interface : String → Parts → Parts
disable_interface name parts =
    if to_lower name == "instances"
    then record parts { servers_part = none }
    else if to_lower name == "loadbalancer"
    then record parts { loadbalancer_part = none }
    else if to_lower name == "zones"
    then record parts { zones_part = none }
    else parts

unfoldable pub disable_interfaces : List String → Parts → Parts
disable_interfaces [] parts = parts
disable_interfaces (name ∷ names) parts = disable_interfaces names (disable_interface name parts)

-- The struct `cloud`, and whether the synchronisation of tags runs.
pub record Cloud (C : Type 0) : Type 0 where
  pub client : Client C
  pub instances_field : Interface Servers
  pub instances_v2_field : Interface Servers
  pub zones_field : Interface Zones
  pub load_balancers_field : Interface Controller
  pub runs_sync : Bool

unfoldable pub assemble : {C : Type 0} → Client C → Parts → Cloud C
assemble client parts = record {
  client = client;
  instances_field = of_interface parts.servers_part;
  instances_v2_field = of_interface parts.servers_part;
  zones_field = of_pointer parts.zones_part;
  load_balancers_field = of_pointer parts.loadbalancer_part;
  runs_sync = false;
}

module _ {C : Type 0} (sdk : Sdk C) (build : Build) (getenv : String → String) where
  open sdk use {scw_new_client, default_region, instance_api, baremetal_api, lb_api, packages}

  unfoldable pub user_agent : String
  user_agent =
      let agent = "scaleway/ccm " ++ (build.ccm_version ++ (" (" ++ (build.git_commit ++ ")"))) in
      if getenv "EXTRA_USER_AGENT" == "" then agent else agent ++ (" " ++ getenv "EXTRA_USER_AGENT")

  unfoldable pub new_instances : Client C → String → Instances
  new_instances client pn_id = record (instance_api client.scaleway) { pn_id = pn_id }

  unfoldable pub new_baremetal : Client C → Baremetal
  new_baremetal client = baremetal_api client.scaleway

  unfoldable pub new_servers : Client C → String → Servers
  new_servers client pn_id =
      servers (instances (new_instances client pn_id)) (baremetal (new_baremetal client))

  unfoldable pub new_zones : Client C → String → Zones
  new_zones client pn_id = record {
    region = elim (default_region client.scaleway) [ some region ↦ region | none ↦ "" ];
    zone_servers = new_servers client pn_id;
  }

  -- The methods read these variables when they run.
  unfoldable pub environment : Env
  environment = record {
    ccm_prefix = getenv "SCW_CCM_PREFIX";
    ccm_tags = getenv "SCW_CCM_TAGS";
    ccm_tags_delimiter = getenv "SCW_CCM_TAGS_DELIMITER";
  }

  unfoldable pub new_loadbalancers : Client C → String → String → Controller
  new_loadbalancers client default_lb_type pn_id = record {
    api = lb_api client.scaleway;
    packages = packages;
    env = environment;
    default_lb_type = if default_lb_type == "" then "lb-s" else to_lower default_lb_type;
    pn_id = pn_id;
  }

  unfoldable pub new_parts : Client C → Parts
  new_parts client = record {
    servers_part = some (new_servers client (getenv "PN_ID"));
    loadbalancer_part = some (new_loadbalancers client (getenv "LB_DEFAULT_TYPE") (getenv "PN_ID"));
    zones_part = some (new_zones client (getenv "PN_ID"));
  }

  unfoldable pub check_region : C → Result C
  check_region client =
      if is_some (default_region client) then ok client else err (errorf "region is required")

  unfoldable pub cloud_of : Client C → Cloud C
  cloud_of client =
      assemble client
        (disable_interfaces (split b',' (getenv "DISABLE_INTERFACES")) (new_parts client))

  unfoldable pub new_cloud : Result (Cloud C)
  new_cloud = do
    scw_client ← scw_new_client user_agent
    checked ← check_region scw_client
    ok (cloud_of (new_client checked))

  -- The client builder makes a clientset or ends the process.
  unfoldable pub initialize : Cloud C → Cloud C
  initialize c = record c {
    client = record (c.client) { has_kubernetes = true };
    runs_sync = getenv "DISABLE_TAGS_SYNC" == "";
  }

module _ {C : Type 0} (c : Cloud C) where
  unfoldable pub load_balancer : Interface Controller × Bool
  load_balancer = (c.load_balancers_field, is_not_nil c.load_balancers_field)

  unfoldable pub instances_interface : Interface Servers × Bool
  instances_interface = (c.instances_field, is_not_nil c.instances_field)

  unfoldable pub instances_v2 : Interface Servers × Bool
  instances_v2 = (c.instances_v2_field, is_not_nil c.instances_v2_field)

  unfoldable pub zones_interface : Interface Zones × Bool
  zones_interface = (c.zones_field, is_not_nil c.zones_field)

  -- Clusters and Routes are not implemented.
  unfoldable pub clusters : Interface (Unit {0}) × Bool
  clusters = (nil, false)

  unfoldable pub routes : Interface (Unit {0}) × Bool
  routes = (nil, false)

  unfoldable pub provider_name : String
  provider_name = provider_name_text

  unfoldable pub has_cluster_id : Bool
  has_cluster_id = false
