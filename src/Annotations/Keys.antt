-- ===== src/Annotations/Keys.antt =====
-- The annotation keys of scaleway/loadbalancers_annotations.go.
use Prim.Native.String.{String}

abbrev pub annotation_id : String
annotation_id = "service.beta.kubernetes.io/scw-loadbalancer-id"

abbrev pub annotation_forward_port_algorithm : String
annotation_forward_port_algorithm =
    "service.beta.kubernetes.io/scw-loadbalancer-forward-port-algorithm"

abbrev pub annotation_sticky_sessions : String
annotation_sticky_sessions = "service.beta.kubernetes.io/scw-loadbalancer-sticky-sessions"

abbrev pub annotation_sticky_sessions_cookie_name : String
annotation_sticky_sessions_cookie_name =
    "service.beta.kubernetes.io/scw-loadbalancer-sticky-sessions-cookie-name"

abbrev pub annotation_health_check_type : String
annotation_health_check_type = "service.beta.kubernetes.io/scw-loadbalancer-health-check-type"

abbrev pub annotation_health_check_delay : String
annotation_health_check_delay = "service.beta.kubernetes.io/scw-loadbalancer-health-check-delay"

abbrev pub annotation_health_check_send_proxy : String
annotation_health_check_send_proxy =
    "service.beta.kubernetes.io/scw-loadbalancer-health-check-send-proxy"

abbrev pub annotation_health_transient_check_delay : String
annotation_health_transient_check_delay =
    "service.beta.kubernetes.io/scw-loadbalancer-health-transient-check-delay"

abbrev pub annotation_health_check_timeout : String
annotation_health_check_timeout = "service.beta.kubernetes.io/scw-loadbalancer-health-check-timeout"

abbrev pub annotation_health_check_max_retries : String
annotation_health_check_max_retries =
    "service.beta.kubernetes.io/scw-loadbalancer-health-check-max-retries"

abbrev pub annotation_health_check_http_uri : String
annotation_health_check_http_uri =
    "service.beta.kubernetes.io/scw-loadbalancer-health-check-http-uri"

abbrev pub annotation_health_check_http_method : String
annotation_health_check_http_method =
    "service.beta.kubernetes.io/scw-loadbalancer-health-check-http-method"

abbrev pub annotation_health_check_http_code : String
annotation_health_check_http_code =
    "service.beta.kubernetes.io/scw-loadbalancer-health-check-http-code"

abbrev pub annotation_health_check_mysql_user : String
annotation_health_check_mysql_user =
    "service.beta.kubernetes.io/scw-loadbalancer-health-check-mysql-user"

abbrev pub annotation_health_check_pgsql_user : String
annotation_health_check_pgsql_user =
    "service.beta.kubernetes.io/scw-loadbalancer-health-check-pgsql-user"

abbrev pub annotation_send_proxy_v2 : String
annotation_send_proxy_v2 = "service.beta.kubernetes.io/scw-loadbalancer-send-proxy-v2"

abbrev pub annotation_proxy_protocol_v1 : String
annotation_proxy_protocol_v1 = "service.beta.kubernetes.io/scw-loadbalancer-proxy-protocol-v1"

abbrev pub annotation_proxy_protocol_v2 : String
annotation_proxy_protocol_v2 = "service.beta.kubernetes.io/scw-loadbalancer-proxy-protocol-v2"

abbrev pub annotation_type : String
annotation_type = "service.beta.kubernetes.io/scw-loadbalancer-type"

abbrev pub annotation_zone : String
annotation_zone = "service.beta.kubernetes.io/scw-loadbalancer-zone"

abbrev pub annotation_connection_rate_limit : String
annotation_connection_rate_limit =
    "service.beta.kubernetes.io/scw-loadbalancer-connection-rate-limit"

abbrev pub annotation_enable_access_logs : String
annotation_enable_access_logs = "service.beta.kubernetes.io/scw-loadbalancer-enable-access-logs"

abbrev pub annotation_enable_http3 : String
annotation_enable_http3 = "service.beta.kubernetes.io/scw-loadbalancer-enable-http3"

abbrev pub annotation_ssl_compatibility_level : String
annotation_ssl_compatibility_level =
    "service.beta.kubernetes.io/scw-loadbalancer-ssl-compatibility-level"

abbrev pub annotation_timeout_client : String
annotation_timeout_client = "service.beta.kubernetes.io/scw-loadbalancer-timeout-client"

abbrev pub annotation_timeout_server : String
annotation_timeout_server = "service.beta.kubernetes.io/scw-loadbalancer-timeout-server"

abbrev pub annotation_timeout_connect : String
annotation_timeout_connect = "service.beta.kubernetes.io/scw-loadbalancer-timeout-connect"

abbrev pub annotation_timeout_tunnel : String
annotation_timeout_tunnel = "service.beta.kubernetes.io/scw-loadbalancer-timeout-tunnel"

abbrev pub annotation_timeout_queue : String
annotation_timeout_queue = "service.beta.kubernetes.io/scw-loadbalancer-timeout-queue"

abbrev pub annotation_on_marked_down_action : String
annotation_on_marked_down_action =
    "service.beta.kubernetes.io/scw-loadbalancer-on-marked-down-action"

abbrev pub annotation_force_internal_ip : String
annotation_force_internal_ip = "service.beta.kubernetes.io/scw-loadbalancer-force-internal-ip"

abbrev pub annotation_use_hostname : String
annotation_use_hostname = "service.beta.kubernetes.io/scw-loadbalancer-use-hostname"

abbrev pub annotation_protocol_http : String
annotation_protocol_http = "service.beta.kubernetes.io/scw-loadbalancer-protocol-http"

abbrev pub annotation_http_backend_tls : String
annotation_http_backend_tls = "service.beta.kubernetes.io/scw-loadbalancer-http-backend-tls"

abbrev pub annotation_http_backend_tls_skip_verify : String
annotation_http_backend_tls_skip_verify =
    "service.beta.kubernetes.io/scw-loadbalancer-http-backend-tls-skip-verify"

abbrev pub annotation_certificate_ids : String
annotation_certificate_ids = "service.beta.kubernetes.io/scw-loadbalancer-certificate-ids"

abbrev pub annotation_target_node_labels : String
annotation_target_node_labels = "service.beta.kubernetes.io/scw-loadbalancer-target-node-labels"

abbrev pub annotation_redispatch_attempt_count : String
annotation_redispatch_attempt_count =
    "service.beta.kubernetes.io/scw-loadbalancer-redispatch-attempt-count"

abbrev pub annotation_max_connections : String
annotation_max_connections = "service.beta.kubernetes.io/scw-loadbalancer-max-connections"

abbrev pub annotation_max_retries : String
annotation_max_retries = "service.beta.kubernetes.io/scw-loadbalancer-max-retries"

abbrev pub annotation_failover_host : String
annotation_failover_host = "service.beta.kubernetes.io/scw-loadbalancer-failover-host"

abbrev pub annotation_private : String
annotation_private = "service.beta.kubernetes.io/scw-loadbalancer-private"

abbrev pub annotation_externally_managed : String
annotation_externally_managed = "service.beta.kubernetes.io/scw-loadbalancer-externally-managed"

abbrev pub annotation_ip_ids : String
annotation_ip_ids = "service.beta.kubernetes.io/scw-loadbalancer-ip-ids"

abbrev pub annotation_private_ip_ids : String
annotation_private_ip_ids = "service.beta.kubernetes.io/scw-loadbalancer-private-ip-ids"

abbrev pub annotation_ip_mode : String
annotation_ip_mode = "service.beta.kubernetes.io/scw-loadbalancer-ip-mode"

abbrev pub annotation_private_network_ids : String
annotation_private_network_ids = "service.beta.kubernetes.io/scw-loadbalancer-pn-ids"

abbrev pub annotation_flexible_ip_types : String
annotation_flexible_ip_types = "service.beta.kubernetes.io/scw-loadbalancer-flexible-ip-types"

abbrev pub annotation_health_check_from_service : String
annotation_health_check_from_service =
    "service.beta.kubernetes.io/scw-loadbalancer-health-check-from-service"
