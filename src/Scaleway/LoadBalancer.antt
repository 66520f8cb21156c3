-- ===== src/Scaleway/LoadBalancer.antt =====
-- The resources of the load balancer API.
use scaleway_cloud_controlle.Base.{ℕ, ℤ, String, Bool, Option, List}
use scaleway_cloud_controlle.Scaleway.Slices.{Slice}
use scaleway_cloud_controlle.Scaleway.Packages.{ScwDuration}

-- scwlb.LBStatus
pub data LbStatus : Type 0 where
  ready : LbStatus
  other_status : String → LbStatus

-- scwlb.IP; the fields of an IP on a load balancer and of one in the list of IPs.
pub record LbIp : Type 0 where
  pub id : String
  pub ip_address : String
  pub reverse : String
  pub lb_id : Option String

pub record Lb : Type 0 where
  pub id : String
  pub name : String
  pub zone : String
  pub project_id : String
  pub description : String
  pub tags : List String
  pub status : LbStatus
  pub type : String
  pub ssl_compatibility_level : String
  pub ip : List LbIp

-- scwlb.ProxyProtocol
pub data ProxyProtocol : Type 0 where
  proxy_none proxy_v1 proxy_v2 : ProxyProtocol
  proxy_other : String → ProxyProtocol

-- scwlb.Protocol
pub data ForwardProtocol : Type 0 where
  tcp http : ForwardProtocol
  other : String → ForwardProtocol

-- The HTTP and HTTPS configurations of a health check; `sni` is blank for HTTP.
pub record HttpConfig : Type 0 where
  pub method : String
  pub code : Option ℤ
  pub uri : String
  pub host_header : String
  pub sni : String

-- scwlb.HealthCheck. The empty configurations of TCP, LDAP and Redis are there or not; those of
-- MySQL and PostgreSQL hold a user.
pub record HealthCheck : Type 0 where
  pub port : ℤ
  pub check_delay : Option ℤ
  pub check_timeout : Option ℤ
  pub check_max_retries : ℤ
  pub check_send_proxy : Bool
  pub transient_check_delay : Option ScwDuration
  pub tcp_config : Bool
  pub ldap_config : Bool
  pub redis_config : Bool
  pub mysql_config : Option String
  pub pgsql_config : Option String
  pub http_config : Option HttpConfig
  pub https_config : Option HttpConfig

pub record Backend : Type 0 where
  pub id : String
  pub name : String
  pub pool : Slice String
  pub forward_protocol : ForwardProtocol
  pub ssl_bridging : Option Bool
  pub ignore_ssl_server_verify : Option Bool
  pub forward_port : ℤ
  pub forward_port_algorithm : String
  pub sticky_sessions : String
  pub sticky_sessions_cookie_name : String
  pub proxy_protocol : ProxyProtocol
  pub timeout_server : Option ℤ
  pub timeout_connect : Option ℤ
  pub timeout_tunnel : Option ℤ
  pub timeout_queue : Option ScwDuration
  pub on_marked_down_action : String
  pub redispatch_attempt_count : Option ℤ
  pub max_connections : Option ℤ
  pub max_retries : Option ℤ
  pub failover_host : Option String
  pub health_check : Option HealthCheck

-- A frontend's backend is kept by its forward port, the one field that is read through it.
pub record Frontend : Type 0 where
  pub id : String
  pub name : String
  pub inbound_port : ℤ
  pub backend_forward_port : Option ℤ
  pub timeout_client : Option ℤ
  pub certificate_ids : Slice String
  pub connection_rate_limit : Option ℕ
  pub enable_access_logs : Bool
  pub enable_http3 : Bool

pub data AclAction : Type 0 where
  allow deny : AclAction
  other_action : String → AclAction

pub record AclMatch : Type 0 where
  pub ip_subnet : Slice String
  pub invert : Bool

-- scwlb.ACL and scwlb.ACLSpec, by the fields that are compared.
pub record Acl : Type 0 where
  pub name : String
  pub index : ℤ
  pub action : Option AclAction
  pub match : Option AclMatch

-- A private network attachment of a load balancer.
pub record PrivateNetwork : Type 0 where
  pub private_network_id : String
  pub ipam_ids : Slice String

-- An IP address of IPAM.
pub record IpamIp : Type 0 where
  pub id : String
  pub address : String

-- scwlb.ZonedAPIUpdateLBRequest, but for the zone
pub record UpdateLbRequest : Type 0 where
  pub lb_id : String
  pub name : String
  pub description : String
  pub tags : List String
  pub ssl_compatibility_level : String

-- scwlb.ZonedAPICreateLBRequest
pub record CreateLbRequest : Type 0 where
  pub zone : String
  pub name : String
  pub description : String
  pub tags : List String
  pub ip_ids : Slice String
  pub type : String
  pub assign_flexible_ip : Bool
  pub assign_flexible_ipv6 : Bool
  pub ssl_compatibility_level : String
