-- ===== src/LoadBalancers/Convert.antt =====
-- scaleway/loadbalancers.go: the frontends and backends that a service asks for.
pub mod Laws
pub mod Ownership
use scaleway_cloud_controlle.Base.{
  ℤ, String, true, Option, none, some, List, [], ◌∷◌, Result, ok, err, errorf, invalid_annotation,
  annotation_error, ◌>>=◌, ◌==◌, if◌then◌else◌, to_lower, or_errorf,
}
use Prim.Native.String.{◌++◌}
use scaleway_cloud_controlle.Base.Text.{format_int}
use scaleway_cloud_controlle.Base.Dict.{Dict, insert, int_key}
use scaleway_cloud_controlle.Kube.{Service, ServicePort, Protocol, is_tcp, protocol_name}
use scaleway_cloud_controlle.Scaleway.Slices.{Slice}
use scaleway_cloud_controlle.Scaleway.Packages.{Packages}
use scaleway_cloud_controlle.Scaleway.LoadBalancer.{Frontend, Backend, HealthCheck}
use scaleway_cloud_controlle.Annotations.Keys
use scaleway_cloud_controlle.Annotations.Values.{
  get_timeout_client, get_connection_rate_limit, get_enable_access_logs, get_enable_http3,
  get_health_check_send_proxy, get_health_check_delay, get_health_check_timeout,
  get_health_check_max_retries, get_health_check_transient_check_delay,
  get_sticky_sessions_cookie_name, get_forward_port_algorithm, get_sticky_sessions,
  get_timeout_server, get_timeout_connect, get_timeout_tunnel, get_timeout_queue,
  get_on_marked_down_action, get_redispatch_attempt_count, get_max_connections, get_max_retries,
  get_failover_host,
}
use scaleway_cloud_controlle.Annotations.Proxy.{
  get_certificate_ids, get_forward_protocol, get_ssl_bridging, get_ssl_bridging_skip_verify,
  get_proxy_protocol,
}
use scaleway_cloud_controlle.Annotations.Health.{
  get_health_check_type, get_mysql_health_check, get_pgsql_health_check, get_http_health_check,
  get_https_health_check, new_health_check, get_native_health_check,
}

-- fmt.Sprintf("%s_%s_%d", uid, protocol, port)
unfoldable pub resource_name : Service → Protocol → ℤ → String
resource_name service protocol port =
    service.uid ++ "_" ++ to_lower (protocol_name protocol) ++ "_" ++ format_int port

unfoldable pub required_name : String → Result String
required_name name =
    if name == ""
    then err (annotation_error Keys.annotation_sticky_sessions_cookie_name "")
    else ok name

module _ (packages : Packages) (service : Service) where
  unfoldable pub service_port_to_frontend : ServicePort → Result Frontend
  service_port_to_frontend port = do
    timeout_client ← or_errorf (get_timeout_client packages service) (errorf "timeout-client")
    certificate_ids ← or_errorf (get_certificate_ids service port.port) (errorf "certificate IDs")
    rate_limit ← or_errorf (get_connection_rate_limit service) (errorf "connection-rate-limit")
    access_logs ← or_errorf (get_enable_access_logs service) (errorf "enable-access-logs")
    enable_http3 ← or_errorf (get_enable_http3 service) (errorf "enable-http3")
    ok (record {
      id = "";
      name = resource_name service port.protocol port.port;
      inbound_port = port.port;
      backend_forward_port = some port.node_port;
      timeout_client = some timeout_client;
      certificate_ids = some certificate_ids;
      connection_rate_limit = rate_limit;
      enable_access_logs = access_logs;
      enable_http3 = enable_http3;
    })

  -- The health check of a type, for a node port.
  unfoldable pub typed_health_check : String → ℤ → Result HealthCheck
  typed_health_check type node_port =
      let blank = new_health_check node_port in
      if type == "mysql"
      then get_mysql_health_check service node_port
        >>= (λ hc. ok (record blank { mysql_config = hc }))
      else if type == "ldap"
      then ok (record blank { ldap_config = true })
      else if type == "redis"
      then ok (record blank { redis_config = true })
      else if type == "pgsql"
      then get_pgsql_health_check service node_port
        >>= (λ hc. ok (record blank { pgsql_config = hc }))
      else if type == "tcp"
      then ok (record blank { tcp_config = true })
      else if type == "http"
      then get_http_health_check packages service node_port
        >>= (λ hc. ok (record blank { http_config = some hc }))
      else if type == "https"
      then get_https_health_check packages service node_port
        >>= (λ hc. ok (record blank { https_config = some hc }))
      else err invalid_annotation

  unfoldable pub standard_health_check : ℤ → Result HealthCheck
  standard_health_check node_port = do
    type ← get_health_check_type service node_port
    check ← typed_health_check type node_port
    send_proxy ← get_health_check_send_proxy service
    ok (record check { check_send_proxy = send_proxy })

  unfoldable pub native_or : Option HealthCheck → ℤ → Result HealthCheck
  native_or none node_port = standard_health_check node_port
  native_or (some check) node_port = ok check

  -- The health check of a port with its times; the native one goes first.
  unfoldable pub service_health_check : ServicePort → Result HealthCheck
  service_health_check port = do
    native ← get_native_health_check service port.port
    check ← native_or native port.node_port
    delay ← get_health_check_delay packages service
    timeout ← get_health_check_timeout packages service
    retries ← get_health_check_max_retries service
    transient ← get_health_check_transient_check_delay packages service
    ok (record check {
      check_delay = some delay;
      check_timeout = some timeout;
      check_max_retries = retries;
      transient_check_delay = transient;
    })

  -- The cookie name, which only sticky sessions by cookie have, and must have.
  unfoldable pub cookie_name : String → Result String
  cookie_name sticky_sessions =
      if sticky_sessions == "cookie"
      then get_sticky_sessions_cookie_name service >>= required_name
      else ok ""

  unfoldable pub service_port_to_backend : ServicePort → Slice String → Result Backend
  service_port_to_backend port node_ips = do
    protocol ← get_forward_protocol service port.node_port
    ssl_bridging ← get_ssl_bridging service port.node_port
    ssl_skip_verify ← get_ssl_bridging_skip_verify service port.node_port
    algorithm ← get_forward_port_algorithm service
    sticky_sessions ← get_sticky_sessions service
    proxy_protocol ← get_proxy_protocol service port.node_port
    timeout_server ← get_timeout_server packages service
    timeout_connect ← get_timeout_connect packages service
    timeout_tunnel ← get_timeout_tunnel packages service
    timeout_queue ← get_timeout_queue packages service
    on_marked_down ← get_on_marked_down_action service
    redispatch ← get_redispatch_attempt_count service
    max_connections ← get_max_connections service
    max_retries ← get_max_retries service
    failover_host ← get_failover_host service
    health_check ← service_health_check port
    cookie ← cookie_name sticky_sessions
    ok (record {
      id = "";
      name = resource_name service port.protocol port.node_port;
      pool = node_ips;
      forward_protocol = protocol;
      ssl_bridging = some ssl_bridging;
      ignore_ssl_server_verify = ssl_skip_verify;
      forward_port = port.node_port;
      forward_port_algorithm = algorithm;
      sticky_sessions = sticky_sessions;
      sticky_sessions_cookie_name = cookie;
      proxy_protocol = proxy_protocol;
      timeout_server = some timeout_server;
      timeout_connect = some timeout_connect;
      timeout_tunnel = some timeout_tunnel;
      timeout_queue = timeout_queue;
      on_marked_down_action = on_marked_down;
      redispatch_attempt_count = redispatch;
      max_connections = max_connections;
      max_retries = max_retries;
      failover_host = failover_host;
      health_check = some health_check;
    })

  -- One round of serviceToLB; ports of other protocols than TCP are passed over.
  unfoldable pub add_port :
      ServicePort
      → Slice String
      → Dict ℤ Frontend × Dict ℤ Backend
      → Result (Dict ℤ Frontend × Dict ℤ Backend)
  add_port port node_ips (frontends, backends) =
      if is_tcp port.protocol
      then (do
        frontend ← or_errorf (service_port_to_frontend port) (errorf "failed to prepare frontend")
        backend ←
            or_errorf (service_port_to_backend port node_ips) (errorf "failed to prepare backend")
        ok (insert port.port frontend frontends, insert port.node_port backend backends))
      else ok (frontends, backends)

  unfoldable pub add_ports :
      List ServicePort
      → Slice String
      → Dict ℤ Frontend × Dict ℤ Backend
      → Result (Dict ℤ Frontend × Dict ℤ Backend)
  add_ports [] node_ips maps = ok maps
  add_ports (port ∷ ports) node_ips maps = do
    next ← add_port port node_ips maps
    add_ports ports node_ips next

  unfoldable pub service_to_lb : Slice String → Result (Dict ℤ Frontend × Dict ℤ Backend)
  service_to_lb node_ips = add_ports service.ports node_ips ([], [])
