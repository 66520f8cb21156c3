-- ===== src/Tests/Settled.antt =====
-- An example of an update that finds everything as the last one has left it.
use mathlib.Core.Bool.{xor}
use scaleway_cloud_controlle.LoadBalancers.Equality.{frontend_equals}
use scaleway_cloud_controlle.LoadBalancers.Compare.{place}
use scaleway_cloud_controlle.LoadBalancers.Compare.{examine}
use scaleway_cloud_controlle.Base.{has_prefix}
use scaleway_cloud_controlle.LoadBalancers.Equality.{health_check_eq}
use scaleway_cloud_controlle.LoadBalancers.Compare.{adopt_backend}
use scaleway_cloud_controlle.LoadBalancers.Equality.{backend_equals}
use scaleway_cloud_controlle.LoadBalancers.Equality.{frontend_head_equals}
use scaleway_cloud_controlle.Base.Sort.{insert_sorted, sort, list_eq}
use scaleway_cloud_controlle.LoadBalancers.Equality.{ptr_equal, string_array_equal}
use scaleway_cloud_controlle.LoadBalancers.Requests.{create_frontend, create_backend}
use scaleway_cloud_controlle.Base.Text.{decimal_onto, format_int, lower}
use scaleway_cloud_controlle.Annotations.Health.{
  check_url, get_health_check_type, get_http_health_check, get_http_health_check_code,
  get_http_health_check_method, get_http_health_check_uri, get_https_health_check,
  get_mysql_health_check, get_pgsql_health_check, new_health_check, native_check,
  get_native_health_check,
}
use scaleway_cloud_controlle.Annotations.Ports.{
  get_value_for_port, value_loop, value_step, is_port_list, is_port_in_range, service_port_from,
  service_port, valid_service_port, annotation,
}
use scaleway_cloud_controlle.Annotations.Proxy.{
  certificate_loop, get_send_proxy_v2, choose_proxy, get_proxy_protocol,
  get_ssl_bridging_skip_verify, get_ssl_bridging, get_forward_protocol, get_certificate_ids,
}
use scaleway_cloud_controlle.Annotations.Network.{
  get_private_network_ids, get_ip_ids, id_parts, get_load_balancer_id,
}
use scaleway_cloud_controlle.Base.Parse.{parse_bool}
use scaleway_cloud_controlle.Scaleway.Api.{when, ◌>>◌, send, map_error, ◌>>=◌, Call}
use scaleway_cloud_controlle.Annotations.Values.{
  get_load_balancer_type, get_load_balancer_ip_mode, get_ssl_compatibility_level, get_use_hostname,
  get_force_internal_ip, get_health_check_delay, get_health_check_send_proxy,
  get_health_check_transient_check_delay, get_health_check_max_retries, get_health_check_timeout,
  get_failover_host, get_max_retries, get_max_connections, get_redispatch_attempt_count,
  get_on_marked_down_action, get_timeout_queue, get_timeout_tunnel, get_timeout_connect,
  get_timeout_server, get_sticky_sessions, get_forward_port_algorithm, get_enable_http3,
  get_enable_access_logs, get_connection_rate_limit, get_timeout_client, svc_externally_managed,
  svc_private,
}
use scaleway_cloud_controlle.LoadBalancers.Lifecycle.{
  delete_backends, delete_frontends, list_backends, list_frontends, check_prefix, get_lb_by_id,
  fetch_by,
}
use scaleway_cloud_controlle.LoadBalancers.Networks.{attach_private_networks}
use scaleway_cloud_controlle.LoadBalancers.Ensure.{check_ready, is_mismatch, recreate_on_mismatch}
use scaleway_cloud_controlle.LoadBalancers.Acls.{
  sort_by_index, acl_lists_eq, acls_equals, reconcile_acls, make_acl_specs,
}
use scaleway_cloud_controlle.LoadBalancers.Convert.{
  native_or, resource_name, standard_health_check, typed_health_check, cookie_name,
  service_health_check, service_port_to_backend, service_port_to_frontend, add_port, add_ports,
  service_to_lb,
}
use scaleway_cloud_controlle.LoadBalancers.Status.{
  ip_mode, create_public_service_status, status_of, mode_of_ports,
}
use scaleway_cloud_controlle.Base.Dict.{insert, lookup, int_key, Dict}
use scaleway_cloud_controlle.Base.{to_lower, split, List, [], ◌∷◌, ◌++◌, ok, ◌≡◌, refl, ℤ, false}
use scaleway_cloud_controlle.Scaleway.LoadBalancer.{Frontend, Backend}
use scaleway_cloud_controlle.LoadBalancers.Controller.{has_load_balancer_static_ips, Controller}
use scaleway_cloud_controlle.Tests.{
  some_cloud, some_packages, some_frontend, some_backend, tcp_service, some_lb, some_node,
  some_controller,
}
use scaleway_cloud_controlle.LoadBalancers.Compare.{
  examine_all, add_missing, compare_resources, compare_frontends, compare_backends,
}
use scaleway_cloud_controlle.LoadBalancers.Compare.Convergence.{carried_out}
use scaleway_cloud_controlle.LoadBalancers.Update.{
  created_frontend, updated_frontend, port_frontend, target_ips, set_servers, kept, created_backend,
  updated_backend, port_backend, migrate, set_ssl_level, update_settings, update_ports, apply_ops,
  sync_resources, use_internal_ips, update_resources, update_port, update_load_balancer,
  prefix_filter,
}
use scaleway_cloud_controlle.LoadBalancers.Nodes.{
  appended, extract_nodes_external_ips, addresses_onto, node_addresses, node_initialized,
  filter_nodes, nodes_initialized,
}
use scaleway_cloud_controlle.LoadBalancers.Effects.{effects}
use scaleway_cloud_controlle.LoadBalancers.Effects.Settled.{update_load_balancer-settled}
use scaleway_cloud_controlle.Tests.Calls.{or_nothing}

abbrev tcp_maps : Dict ℤ Frontend × Dict ℤ Backend
tcp_maps = or_nothing (
    service_to_lb some_packages tcp_service
      (target_ips some_controller tcp_service (filter_nodes tcp_service (some_node ∷ []))))

-- APIs that list what the operations left of a frontend and a backend.
abbrev listing_controller : Controller
listing_controller = record some_controller {
  api = record some_cloud {
    frontends = λ h zone lb name. ok (
        carried_out (λ f. f.name) (prefix_filter tcp_service false) (some_frontend ∷ [])
          (compare_frontends (some_frontend ∷ []) tcp_maps.0 (prefix_filter tcp_service false)));
    backends = λ h zone lb name. ok (
        carried_out (λ b. b.name) (prefix_filter tcp_service false) (some_backend ∷ [])
          (compare_backends some_packages (some_backend ∷ []) tcp_maps.1
            (prefix_filter tcp_service false)));
  };
}

tcp_service-unmanaged : svc_externally_managed tcp_service ≡ ok false
unfolding svc_externally_managed lookup
tcp_service-unmanaged = refl

tcp_service-maps :
    service_to_lb some_packages tcp_service
      (target_ips listing_controller tcp_service (filter_nodes tcp_service (some_node ∷ [])))
    ≡ ok tcp_maps
unfolding ◌>>=◌ svc_externally_managed lookup svc_private get_load_balancer_id id_parts split
    to_lower fetch_by get_lb_by_id map_error send check_prefix recreate_on_mismatch is_mismatch xor
    has_load_balancer_static_ips get_ip_ids annotation ◌>>◌ check_ready update_load_balancer
    update_resources nodes_initialized filter_nodes node_initialized node_addresses addresses_onto
    use_internal_ips get_force_internal_ip get_private_network_ids attach_private_networks
    sync_resources list_frontends list_backends service_to_lb add_ports apply_ops delete_frontends
    compare_frontends compare_resources add_missing examine_all update_ports delete_backends
    compare_backends update_settings mode_of_ports status_of create_public_service_status
    get_use_hostname get_ssl_compatibility_level set_ssl_level ip_mode get_load_balancer_ip_mode
    migrate when get_load_balancer_type check_url get_health_check_type get_http_health_check
    get_http_health_check_code get_http_health_check_method get_http_health_check_uri
    get_https_health_check get_mysql_health_check get_native_health_check get_pgsql_health_check
    new_health_check get_value_for_port value_loop value_step valid_service_port service_port
    service_port_from is_port_in_range is_port_list certificate_loop choose_proxy
    get_certificate_ids get_forward_protocol get_ssl_bridging get_ssl_bridging_skip_verify
    get_proxy_protocol get_send_proxy_v2 get_failover_host get_health_check_delay
    get_health_check_max_retries get_health_check_send_proxy get_health_check_timeout
    get_health_check_transient_check_delay get_max_retries get_max_connections
    get_redispatch_attempt_count get_on_marked_down_action get_timeout_queue get_timeout_tunnel
    get_timeout_connect get_enable_access_logs get_connection_rate_limit get_timeout_client insert
    decimal_onto format_int lower parse_bool add_port service_port_to_frontend
    service_port_to_backend cookie_name native_or resource_name service_health_check
    standard_health_check typed_health_check native_check get_enable_http3
    get_forward_port_algorithm get_sticky_sessions get_timeout_server update_port port_backend
    updated_backend created_backend create_backend kept set_servers string_array_equal ptr_equal
    target_ips extract_nodes_external_ips appended list_eq sort insert_sorted port_frontend
    updated_frontend create_frontend reconcile_acls acls_equals make_acl_specs acl_lists_eq
    sort_by_index created_frontend
tcp_service-maps = refl

tcp_service-again :
    (update_load_balancer listing_controller 0 some_lb tcp_service (some_node ∷ []) []).0 ≡ ok tt
unfolding ◌>>=◌ svc_externally_managed lookup svc_private get_load_balancer_id id_parts split
    to_lower fetch_by get_lb_by_id map_error send check_prefix recreate_on_mismatch is_mismatch xor
    has_load_balancer_static_ips get_ip_ids annotation ◌>>◌ check_ready update_load_balancer
    update_resources nodes_initialized filter_nodes node_initialized node_addresses addresses_onto
    use_internal_ips get_force_internal_ip get_private_network_ids attach_private_networks
    sync_resources list_frontends list_backends service_to_lb add_ports apply_ops delete_frontends
    compare_frontends compare_resources add_missing examine_all update_ports delete_backends
    compare_backends update_settings mode_of_ports status_of create_public_service_status
    get_use_hostname get_ssl_compatibility_level set_ssl_level ip_mode get_load_balancer_ip_mode
    migrate when get_load_balancer_type check_url get_health_check_type get_http_health_check
    get_http_health_check_code get_http_health_check_method get_http_health_check_uri
    get_https_health_check get_mysql_health_check get_native_health_check get_pgsql_health_check
    new_health_check get_value_for_port value_loop value_step valid_service_port service_port
    service_port_from is_port_in_range is_port_list certificate_loop choose_proxy
    get_certificate_ids get_forward_protocol get_ssl_bridging get_ssl_bridging_skip_verify
    get_proxy_protocol get_send_proxy_v2 get_failover_host get_health_check_delay
    get_health_check_max_retries get_health_check_send_proxy get_health_check_timeout
    get_health_check_transient_check_delay get_max_retries get_max_connections
    get_redispatch_attempt_count get_on_marked_down_action get_timeout_queue get_timeout_tunnel
    get_timeout_connect get_enable_access_logs get_connection_rate_limit get_timeout_client insert
    decimal_onto format_int lower parse_bool add_port service_port_to_frontend
    service_port_to_backend cookie_name native_or resource_name service_health_check
    standard_health_check typed_health_check native_check get_enable_http3
    get_forward_port_algorithm get_sticky_sessions get_timeout_server update_port port_backend
    updated_backend created_backend create_backend kept set_servers string_array_equal ptr_equal
    target_ips extract_nodes_external_ips appended list_eq sort insert_sorted port_frontend
    updated_frontend create_frontend reconcile_acls acls_equals make_acl_specs acl_lists_eq
    sort_by_index created_frontend frontend_head_equals backend_equals adopt_backend health_check_eq
    has_prefix prefix_filter examine place frontend_equals
tcp_service-again = refl

update_load_balancer-settled_example :
    (calls : List Call) × ((update_load_balancer listing_controller 0 some_lb tcp_service
        (some_node ∷ [])
        []).1
      ≡ calls ++ [])
    × (effects calls ≡ [])
update_load_balancer-settled_example =
    update_load_balancer-settled listing_controller 0 some_lb tcp_service (some_node ∷ []) false
      tcp_service-unmanaged tcp_maps tcp_service-maps (some_frontend ∷ []) (some_backend ∷ [])
      (λ h. refl) (λ h. refl) refl [] tcp_service-again
