-- ===== src/Tests/Effects.antt =====
-- An example of an update, with what it changes.
use mathlib.Core.Bool.{xor}
use scaleway_cloud_controlle.Base.Sort.{insert_sorted, sort, list_eq}
use scaleway_cloud_controlle.LoadBalancers.Equality.{ptr_equal, string_array_equal}
use scaleway_cloud_controlle.LoadBalancers.Requests.{create_frontend, create_backend}
use scaleway_cloud_controlle.Base.Text.{decimal_onto, format_int, lower}
use scaleway_cloud_controlle.Annotations.Health.{
  check_url, get_health_check_type, get_http_health_check, get_http_health_check_code,
  get_http_health_check_method, get_http_health_check_uri, get_https_health_check,
  get_mysql_health_check, get_pgsql_health_check, new_health_check, native_check,
  get_native_health_check,
}
use scaleway_cloud_controlle.LoadBalancers.Nodes.{
  appended, extract_nodes_external_ips, addresses_onto, node_addresses, node_initialized,
  filter_nodes, nodes_initialized,
}
use scaleway_cloud_controlle.Annotations.Ports.{
  get_value_for_port, value_loop, value_step, is_port_list, is_port_in_range, service_port_from,
  service_port, valid_service_port, annotation,
}
use scaleway_cloud_controlle.Annotations.Proxy.{
  certificate_loop, get_send_proxy_v2, choose_proxy, get_proxy_protocol,
  get_ssl_bridging_skip_verify, get_ssl_bridging, get_forward_protocol, get_certificate_ids,
}
use scaleway_cloud_controlle.Annotations.Network.{
  get_private_network_ids, get_ip_ids, id_parts, get_load_balancer_id,
}
use scaleway_cloud_controlle.Base.Parse.{parse_bool}
use scaleway_cloud_controlle.Base.{to_lower, split, List, [], ◌∷◌, ◌++◌, ok, ◌≡◌, refl}
use scaleway_cloud_controlle.Base.Dict.{insert, lookup, int_key}
use scaleway_cloud_controlle.Scaleway.Api.{when, ◌>>◌, send, map_error, ◌>>=◌, Call}
use scaleway_cloud_controlle.Annotations.Values.{
  get_load_balancer_type, get_load_balancer_ip_mode, get_ssl_compatibility_level, get_use_hostname,
  get_force_internal_ip, get_health_check_delay, get_health_check_send_proxy,
  get_health_check_transient_check_delay, get_health_check_max_retries, get_health_check_timeout,
  get_failover_host, get_max_retries, get_max_connections, get_redispatch_attempt_count,
  get_on_marked_down_action, get_timeout_queue, get_timeout_tunnel, get_timeout_connect,
  get_timeout_server, get_sticky_sessions, get_forward_port_algorithm, get_enable_http3,
  get_enable_access_logs, get_connection_rate_limit, get_timeout_client, svc_externally_managed,
  svc_private,
}
use scaleway_cloud_controlle.LoadBalancers.Controller.{has_load_balancer_static_ips}
use scaleway_cloud_controlle.LoadBalancers.Lifecycle.{
  delete_backends, delete_frontends, list_backends, list_frontends, check_prefix, get_lb_by_id,
  fetch_by,
}
use scaleway_cloud_controlle.LoadBalancers.Networks.{attach_private_networks}
use scaleway_cloud_controlle.LoadBalancers.Compare.{
  examine_all, add_missing, compare_resources, compare_frontends, compare_backends,
}
use scaleway_cloud_controlle.LoadBalancers.Ensure.{check_ready, is_mismatch, recreate_on_mismatch}
use scaleway_cloud_controlle.LoadBalancers.Acls.{
  sort_by_index, acl_lists_eq, acls_equals, reconcile_acls, make_acl_specs,
}
use scaleway_cloud_controlle.LoadBalancers.Convert.{
  native_or, resource_name, standard_health_check, typed_health_check, cookie_name,
  service_health_check, service_port_to_backend, service_port_to_frontend, add_port, add_ports,
  service_to_lb,
}
use scaleway_cloud_controlle.LoadBalancers.Update.{
  created_frontend, updated_frontend, port_frontend, target_ips, set_servers, kept, created_backend,
  updated_backend, port_backend, migrate, set_ssl_level, update_settings, update_ports, apply_ops,
  sync_resources, use_internal_ips, update_resources, update_port, update_load_balancer,
}
use scaleway_cloud_controlle.LoadBalancers.Status.{
  ip_mode, create_public_service_status, status_of, mode_of_ports,
}
use scaleway_cloud_controlle.Tests.{tcp_service, some_lb, some_node, some_controller}
use scaleway_cloud_controlle.LoadBalancers.Effects.{effects}
use scaleway_cloud_controlle.LoadBalancers.Effects.Update.{
  IsPlannedUpdate, update_load_balancer-IsPlanned,
}

-- The frontend and the backend of the only port are created.
tcp_service-updated :
    (update_load_balancer some_controller 0 some_lb tcp_service (some_node ∷ []) []).0 ≡ ok tt
unfolding ◌>>=◌ svc_externally_managed lookup svc_private get_load_balancer_id id_parts split
    to_lower fetch_by get_lb_by_id map_error send check_prefix recreate_on_mismatch is_mismatch xor
    has_load_balancer_static_ips get_ip_ids annotation ◌>>◌ check_ready update_load_balancer
    update_resources nodes_initialized filter_nodes node_initialized node_addresses addresses_onto
    use_internal_ips get_force_internal_ip get_private_network_ids attach_private_networks
    sync_resources list_frontends list_backends service_to_lb add_ports apply_ops delete_frontends
    compare_frontends compare_resources add_missing examine_all update_ports delete_backends
    compare_backends update_settings mode_of_ports status_of create_public_service_status
    get_use_hostname get_ssl_compatibility_level set_ssl_level ip_mode get_load_balancer_ip_mode
    migrate when get_load_balancer_type check_url get_health_check_type get_http_health_check
    get_http_health_check_code get_http_health_check_method get_http_health_check_uri
    get_https_health_check get_mysql_health_check get_native_health_check get_pgsql_health_check
    new_health_check get_value_for_port value_loop value_step valid_service_port service_port
    service_port_from is_port_in_range is_port_list certificate_loop choose_proxy
    get_certificate_ids get_forward_protocol get_ssl_bridging get_ssl_bridging_skip_verify
    get_proxy_protocol get_send_proxy_v2 get_failover_host get_health_check_delay
    get_health_check_max_retries get_health_check_send_proxy get_health_check_timeout
    get_health_check_transient_check_delay get_max_retries get_max_connections
    get_redispatch_attempt_count get_on_marked_down_action get_timeout_queue get_timeout_tunnel
    get_timeout_connect get_enable_access_logs get_connection_rate_limit get_timeout_client insert
    decimal_onto format_int lower parse_bool add_port service_port_to_frontend
    service_port_to_backend cookie_name native_or resource_name service_health_check
    standard_health_check typed_health_check native_check get_enable_http3
    get_forward_port_algorithm get_sticky_sessions get_timeout_server update_port port_backend
    updated_backend created_backend create_backend kept set_servers string_array_equal ptr_equal
    target_ips extract_nodes_external_ips appended list_eq sort insert_sorted port_frontend
    updated_frontend create_frontend reconcile_acls acls_equals make_acl_specs acl_lists_eq
    sort_by_index created_frontend
tcp_service-updated = refl

update_load_balancer-IsPlanned_example :
    (calls : List Call) × ((update_load_balancer some_controller 0 some_lb tcp_service
        (some_node ∷ [])
        []).1
      ≡ calls ++ [])
    × IsPlannedUpdate some_controller 0 some_lb tcp_service (some_node ∷ []) (effects calls)
update_load_balancer-IsPlanned_example =
    update_load_balancer-IsPlanned some_controller 0 some_lb tcp_service (some_node ∷ []) refl []
      tcp_service-updated
