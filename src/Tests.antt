-- ===== src/Tests.antt =====
-- Concrete objects for the examples: services, load balancers, a node, and answers of the APIs.
pub mod Nodes
mod Settings
mod Resources
pub mod Sync
mod Queue
mod Effects
mod Settled
mod Order
mod Provider
pub mod Calls
use scaleway_cloud_controlle.Base.{
  ℤ, pos, String, Bool, true, false, none, some, List, [], ◌∷◌, Result, ok, err, resource_not_found,
  ◌==◌, has_prefix,
}
use scaleway_cloud_controlle.Kube.{Service, ServicePort, Node, Protocol, internal_ip, external_ip}
use scaleway_cloud_controlle.Scaleway.Packages.{Packages, Env}
use scaleway_cloud_controlle.Scaleway.LoadBalancer.{
  Lb, LbIp, Frontend, Backend, PrivateNetwork, ForwardProtocol, proxy_none, ready,
}
use scaleway_cloud_controlle.Scaleway.Api.{Cloud}
use scaleway_cloud_controlle.Annotations.Keys
use scaleway_cloud_controlle.LoadBalancers.Controller.{Controller}

-- Every duration is read as one second; the other packages know the few texts of the examples.
abbrev pub some_packages : Packages
some_packages = record {
  parse_duration = λ d. some (pos 1000000000);
  new_duration = λ d. record { seconds = d; nanos = pos 0 };
  durationpb = λ d. record { seconds = d; nanos = pos 0 };
  to_time_duration = λ d. d.seconds;
  is_region = λ s. s == "fr-par";
  zone_region = λ s. ok "fr-par";
  ssl_compatibility_levels = "ssl_compatibility_level_intermediate" ∷ [];
  parse_url = λ s. ok (record { host = s; path = "/"; query = "" });
  request_uri = λ u. u.path;
  is_cidr = λ s. s == "10.0.0.0/8";
  instance_zones = "fr-par-1" ∷ [];
  baremetal_zones = "fr-par-2" ∷ [];
  split_by = λ d s. s ∷ [];
}

abbrev pub tcp_port : ServicePort
tcp_port = record { protocol = Protocol.tcp; port = pos 80; node_port = pos 30080 }

abbrev pub udp_port : ServicePort
udp_port = record { protocol = Protocol.other "UDP"; port = pos 53; node_port = pos 30053 }

abbrev pub plain_service : Service
plain_service = record {
  namespace = "default";
  name = "web";
  uid = "u1";
  annotations = [];
  load_balancer_class = none;
  load_balancer_ip = "";
  source_ranges = [];
  ports = tcp_port ∷ udp_port ∷ [];
  labels = [];
  status = [];
  health_check_node_port = pos 0;
  is_deleting = false;
}

abbrev pub tcp_service : Service
tcp_service = record plain_service { ports = tcp_port ∷ [] }

-- A service whose load balancer has its ID noted, and that has no ports.
abbrev pub idle_service : Service
idle_service = record plain_service {
  annotations = (Keys.annotation_id, "fr-par-1/lb1") ∷ [];
  ports = [];
}

abbrev pub managed_service : Service
managed_service = record tcp_service {
  annotations =
      (Keys.annotation_externally_managed, "true") ∷ (Keys.annotation_id, "fr-par-1/lb1") ∷ [];
}

abbrev pub private_service : Service
private_service = record tcp_service { annotations = (Keys.annotation_private, "true") ∷ [] }

abbrev pub guarded_service : Service
guarded_service = record tcp_service { source_ranges = "10.0.0.0/8" ∷ [] }

abbrev pub some_ip : LbIp
some_ip = record { id = "ip1"; ip_address = "1.2.3.4"; reverse = "r1"; lb_id = none }

abbrev pub some_lb : Lb
some_lb = record {
  id = "lb1";
  name = "other";
  zone = "fr-par-1";
  project_id = "p1";
  description = "";
  tags = [];
  status = ready;
  type = "lb-s";
  ssl_compatibility_level = "ssl_compatibility_level_intermediate";
  ip = some_ip ∷ [];
}

abbrev pub some_node : Node
some_node = record {
  name = "n1";
  labels = [];
  provider_id = "";
  taints = [];
  addresses =
      record { type = internal_ip; address = "10.1.1.1" }
      ∷ record { type = external_ip; address = "5.6.7.8" }
      ∷ [];
  created = 0;
}

abbrev pub some_frontend : Frontend
some_frontend = record {
  id = "f1";
  name = "u1_tcp_80";
  inbound_port = pos 80;
  backend_forward_port = some (pos 30080);
  timeout_client = some (pos 1000000000);
  certificate_ids = some [];
  connection_rate_limit = none;
  enable_access_logs = false;
  enable_http3 = false;
}

abbrev pub some_backend : Backend
some_backend = record {
  id = "b1";
  name = "u1_tcp_30080";
  pool = none;
  forward_protocol = ForwardProtocol.tcp;
  ssl_bridging = none;
  ignore_ssl_server_verify = none;
  forward_port = pos 30080;
  forward_port_algorithm = "roundrobin";
  sticky_sessions = "none";
  sticky_sessions_cookie_name = "";
  proxy_protocol = proxy_none;
  timeout_server = none;
  timeout_connect = none;
  timeout_tunnel = none;
  timeout_queue = none;
  on_marked_down_action = "";
  redispatch_attempt_count = none;
  max_connections = none;
  max_retries = none;
  failover_host = none;
  health_check = none;
}

-- APIs that know one load balancer, without resources, and accept every change.
abbrev pub some_cloud : Cloud
some_cloud = record {
  lbs = λ h zone name. ok (some_lb ∷ []);
  lb = λ h zone id. ok some_lb;
  created_lb = λ h r. ok some_lb;
  ips = λ h zone ip. ok [];
  backends = λ h zone lb name. ok [];
  created_backend = λ h zone lb b. ok b;
  updated_backend = λ h zone b. ok b;
  frontends = λ h zone lb name. ok [];
  created_frontend = λ h zone lb f b. ok f;
  updated_frontend = λ h zone f b. ok f;
  acls = λ h zone f prefix. ok [];
  private_networks = λ h zone lb. ok [];
  ipam_ips = λ h c. ok (record { id = "ip1"; address = "10.0.0.5" } ∷ []);
  private_network_name = λ h r n. ok "net";
  server_tags = λ h z i. ok ("word" ∷ []);
  acknowledge = λ h c. ok tt;
}

abbrev pub some_controller : Controller
some_controller = record {
  api = some_cloud;
  packages = some_packages;
  env = record { ccm_prefix = "k8s_"; ccm_tags = ""; ccm_tags_delimiter = "" };
  default_lb_type = "lb-s";
  pn_id = "";
}
