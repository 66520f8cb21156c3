-- ===== src/LoadBalancers/Equality.antt =====
-- scaleway/loadbalancers.go: when a resource of the load balancer is as the service asks for.
pub mod Laws
pub mod Reflexive
use scaleway_cloud_controlle.Base.{
  int_eq, nat_eq, String, Bool, true, false, ◌&&◌, Option, none, some, ◌==◌,
}
use mathlib.Core.Bool.{beq}
use mathlib.Core.Option
use scaleway_cloud_controlle.Base.Sort.{sort, list_eq}
use scaleway_cloud_controlle.Scaleway.Slices.{Slice}
use scaleway_cloud_controlle.Scaleway.Packages.{Packages, ScwDuration}
use scaleway_cloud_controlle.Scaleway.LoadBalancer.{
  Frontend, Backend, HealthCheck, HttpConfig, ForwardProtocol, ProxyProtocol, proxy_none, proxy_v1,
  proxy_v2, proxy_other,
}

-- ptrStringEqual, durationPtrEqual, int32PtrEqual, uint32PtrEqual, backendForwardPortEqual, and
-- reflect.DeepEqual on two pointers: both nil, or equal values.
unfoldable pub ptr_equal {ℓ} : {A : Type ℓ} → (A → A → Bool) → Option A → Option A → Bool
ptr_equal eq none none = true
ptr_equal eq (some a) (some b) = eq a b
ptr_equal eq _ _ = false

-- Equality up to order; a nil slice is not equal to an empty one.
unfoldable pub string_array_equal : Slice String → Slice String → Bool
string_array_equal got want = ptr_equal list_eq (Option.map sort got) (Option.map sort want)

abbrev pub forward_protocol_eq : ForwardProtocol → ForwardProtocol → Bool
forward_protocol_eq ForwardProtocol.tcp ForwardProtocol.tcp = true
forward_protocol_eq ForwardProtocol.http ForwardProtocol.http = true
forward_protocol_eq (ForwardProtocol.other s) (ForwardProtocol.other t) = s == t
forward_protocol_eq _ _ = false

abbrev pub proxy_protocol_eq : ProxyProtocol → ProxyProtocol → Bool
proxy_protocol_eq proxy_none proxy_none = true
proxy_protocol_eq proxy_v1 proxy_v1 = true
proxy_protocol_eq proxy_v2 proxy_v2 = true
proxy_protocol_eq (proxy_other s) (proxy_other t) = s == t
proxy_protocol_eq _ _ = false

abbrev pub scw_duration_eq : ScwDuration → ScwDuration → Bool
scw_duration_eq a b = int_eq a.seconds b.seconds && int_eq a.nanos b.nanos

unfoldable pub http_config_eq : HttpConfig → HttpConfig → Bool
http_config_eq a b =
    a.method == b.method
    && ptr_equal int_eq a.code b.code
    && a.uri == b.uri
    && a.host_header == b.host_header
    && a.sni == b.sni

-- reflect.DeepEqual on two health checks.
unfoldable pub health_check_eq : HealthCheck → HealthCheck → Bool
health_check_eq a b =
    int_eq a.port b.port
    && ptr_equal int_eq a.check_delay b.check_delay
    && ptr_equal int_eq a.check_timeout b.check_timeout
    && int_eq a.check_max_retries b.check_max_retries
    && beq a.check_send_proxy b.check_send_proxy
    && ptr_equal scw_duration_eq a.transient_check_delay b.transient_check_delay
    && beq a.tcp_config b.tcp_config
    && beq a.ldap_config b.ldap_config
    && beq a.redis_config b.redis_config
    && ptr_equal ◌==◌ a.mysql_config b.mysql_config
    && ptr_equal ◌==◌ a.pgsql_config b.pgsql_config
    && ptr_equal http_config_eq a.http_config b.http_config
    && ptr_equal http_config_eq a.https_config b.https_config

-- The tests of frontendEquals in front of the certificates.
unfoldable pub frontend_head_equals : Frontend → Frontend → Bool
frontend_head_equals got want =
    got.name == want.name
    && int_eq got.inbound_port want.inbound_port
    && ptr_equal int_eq got.backend_forward_port want.backend_forward_port
    && ptr_equal int_eq got.timeout_client want.timeout_client

unfoldable pub frontend_equals : Frontend → Frontend → Bool
frontend_equals got want =
    frontend_head_equals got want
    && string_array_equal got.certificate_ids want.certificate_ids
    && ptr_equal nat_eq got.connection_rate_limit want.connection_rate_limit
    && beq got.enable_access_logs want.enable_access_logs
    && beq got.enable_http3 want.enable_http3

module _ (packages : Packages) where
  open packages use {to_time_duration}

  unfoldable pub backend_equals : Backend → Backend → Bool
  backend_equals got want =
      got.name == want.name
      && forward_protocol_eq got.forward_protocol want.forward_protocol
      && ptr_equal beq got.ssl_bridging want.ssl_bridging
      && ptr_equal beq got.ignore_ssl_server_verify want.ignore_ssl_server_verify
      && int_eq got.forward_port want.forward_port
      && got.forward_port_algorithm == want.forward_port_algorithm
      && got.sticky_sessions == want.sticky_sessions
      && proxy_protocol_eq got.proxy_protocol want.proxy_protocol
      && ptr_equal int_eq got.timeout_server want.timeout_server
      && ptr_equal int_eq got.timeout_connect want.timeout_connect
      && ptr_equal int_eq got.timeout_tunnel want.timeout_tunnel
      && ptr_equal int_eq (Option.map to_time_duration got.timeout_queue)
          (Option.map to_time_duration want.timeout_queue)
      && got.on_marked_down_action == want.on_marked_down_action
      && ptr_equal int_eq got.redispatch_attempt_count want.redispatch_attempt_count
      && ptr_equal int_eq got.max_connections want.max_connections
      && ptr_equal int_eq got.max_retries want.max_retries
      && got.sticky_sessions_cookie_name == want.sticky_sessions_cookie_name
      && ptr_equal ◌==◌ got.failover_host want.failover_host
      && ptr_equal health_check_eq got.health_check want.health_check
