-- ===== src/Tests/Calls.antt =====
-- Examples of the calls that the controller makes.
use scaleway_cloud_controlle.Base.Text.{decimal_onto, format_int, lower}
use scaleway_cloud_controlle.Annotations.Health.{
  check_url, get_health_check_type, get_http_health_check, get_http_health_check_code,
  get_http_health_check_method, get_http_health_check_uri, get_https_health_check,
  get_mysql_health_check, get_pgsql_health_check, new_health_check, native_check,
  get_native_health_check,
}
use scaleway_cloud_controlle.Annotations.Ports.{
  get_value_for_port, value_loop, value_step, is_port_list, is_port_in_range, service_port_from,
  service_port, valid_service_port, annotation,
}
use scaleway_cloud_controlle.Annotations.Proxy.{
  certificate_loop, get_send_proxy_v2, choose_proxy, get_proxy_protocol,
  get_ssl_bridging_skip_verify, get_ssl_bridging, get_forward_protocol, get_certificate_ids,
}
use scaleway_cloud_controlle.Annotations.Network.{id_parts, get_load_balancer_id}
use scaleway_cloud_controlle.Base.Parse.{parse_bool}
use scaleway_cloud_controlle.Base.{
  Bool, to_lower, split, ℤ, String, true, false, none, some, List, [], ◌∷◌, Result, ok, err, errorf,
  ◌≡◌, ◌≢◌, refl, has_prefix,
}
use scaleway_cloud_controlle.Base.Dict.{insert, Dict, lookup, int_key}
use scaleway_cloud_controlle.Kube.{Ingress}
use scaleway_cloud_controlle.Scaleway.LoadBalancer.{Frontend, Backend}
use scaleway_cloud_controlle.Scaleway.Api.{send, map_error, ◌>>=◌, Call}
use scaleway_cloud_controlle.Scaleway.Api.Trace.{Calls}
use scaleway_cloud_controlle.Annotations.Values.{
  get_health_check_delay, get_health_check_send_proxy, get_health_check_transient_check_delay,
  get_health_check_max_retries, get_health_check_timeout, get_failover_host, get_max_retries,
  get_max_connections, get_redispatch_attempt_count, get_on_marked_down_action, get_timeout_queue,
  get_timeout_tunnel, get_timeout_connect, get_timeout_server, get_sticky_sessions,
  get_forward_port_algorithm, get_enable_http3, get_enable_access_logs, get_connection_rate_limit,
  get_timeout_client, svc_externally_managed,
}
use scaleway_cloud_controlle.LoadBalancers.Controller.{Controller}
use scaleway_cloud_controlle.LoadBalancers.Lifecycle.{
  check_prefix, get_lb_by_id, fetch_by, delete_load_balancer, fetch_load_balancer,
}
use scaleway_cloud_controlle.LoadBalancers.Lifecycle.Laws.{
  IsDeletion, delete_load_balancer-IsDeletion, fetch_load_balancer-prefix,
}
use scaleway_cloud_controlle.LoadBalancers.Networks.{
  list_network_ips, query_networks, claim, Attachments, match_attached, resolve_ips, unattached,
}
use scaleway_cloud_controlle.LoadBalancers.Networks.Laws.{is_desired, has, resolve_ips_complete}
use scaleway_cloud_controlle.LoadBalancers.Compare.{compare_backends}
use scaleway_cloud_controlle.LoadBalancers.Acls.Laws.{reconcile_acls-settled}
use scaleway_cloud_controlle.LoadBalancers.Ensure.{
  ensure_load_balancer, update_load_balancer_hosts, ensure_load_balancer_deleted,
}
use scaleway_cloud_controlle.LoadBalancers.Managed.{Spares}
use scaleway_cloud_controlle.LoadBalancers.Managed.Laws.{ensure_load_balancer-Spares}
use scaleway_cloud_controlle.LoadBalancers.Acls.{reconcile_acls, make_acl_prefix, make_acl_specs}
use scaleway_cloud_controlle.LoadBalancers.Convert.{
  native_or, resource_name, standard_health_check, typed_health_check, cookie_name,
  service_health_check, service_port_to_backend, service_port_to_frontend, add_port, add_ports,
  service_to_lb,
}
use scaleway_cloud_controlle.LoadBalancers.Update.{update_port}
use scaleway_cloud_controlle.LoadBalancers.Status.{ip_mode}
use scaleway_cloud_controlle.LoadBalancers.Update.Laws.{update_port-not_tcp}
use scaleway_cloud_controlle.Tests.{
  some_cloud, some_packages, guarded_service, udp_port, plain_service, tcp_service, managed_service,
  some_lb, some_node, some_frontend, some_controller,
}

managed_service-managed : svc_externally_managed managed_service ≡ ok true
unfolding svc_externally_managed lookup parse_bool
managed_service-managed = refl

ensure_load_balancer-Spares_example :
    Spares some_controller (ensure_load_balancer some_controller managed_service 0 (some_node ∷ []))
    × Spares some_controller
        (update_load_balancer_hosts some_controller managed_service 0 (some_node ∷ []))
    × Spares some_controller (ensure_load_balancer_deleted some_controller managed_service)
ensure_load_balancer-Spares_example =
    ensure_load_balancer-Spares some_controller managed_service managed_service-managed 0
      (some_node ∷ [])

delete_load_balancer-IsDeletion_example :
    Calls
      (IsDeletion some_controller tcp_service some_lb)
      (delete_load_balancer some_controller tcp_service some_lb)
delete_load_balancer-IsDeletion_example =
    delete_load_balancer-IsDeletion some_controller tcp_service some_lb

managed_service-found : (fetch_load_balancer some_controller managed_service []).0 ≡ ok some_lb
unfolding fetch_load_balancer ◌>>=◌ svc_externally_managed lookup parse_bool get_load_balancer_id
    id_parts split to_lower fetch_by get_lb_by_id map_error send check_prefix has_prefix
managed_service-found = refl

fetch_load_balancer-prefix_example :
    (has_prefix "other" "k8s_" ≡ false) × ◌≢◌ {A = String} "k8s_" ""
fetch_load_balancer-prefix_example =
    fetch_load_balancer-prefix some_controller managed_service [] some_lb managed_service-managed
      managed_service-found

abbrev some_networks : Attachments
some_networks = ("pn1", unattached) ∷ []

abbrev settled_networks : Attachments
settled_networks =
    ("pn1", record { attached = false; attached_ip_ids = []; desired_ip_ids = "ip1" ∷ [] }) ∷ []

some_networks-resolved :
    (resolve_ips some_controller some_lb (match_attached some_networks ("ip1" ∷ [])) []).0
    ≡ ok settled_networks
unfolding resolve_ips match_attached claim ◌>>=◌ map_error query_networks list_network_ips send
some_networks-resolved = refl

resolve_ips_complete_example : is_desired "ip1" settled_networks ≡ has "ip1" ("ip1" ∷ [])
resolve_ips_complete_example =
    resolve_ips_complete some_controller some_lb "ip1" some_networks ("ip1" ∷ []) []
      settled_networks refl some_networks-resolved

-- APIs that have the wanted rules of a frontend already.
abbrev settled_controller : Controller
settled_controller = record some_controller {
  api = record some_cloud {
    acls = λ h zone f prefix.
        ok (make_acl_specs some_packages.is_cidr guarded_service (some_node ∷ []) some_frontend);
  };
}

reconcile_acls-settled_example :
    reconcile_acls settled_controller some_lb guarded_service (some_node ∷ []) some_frontend []
    ≡ (ok tt, Call.list_acls "fr-par-1" "f1" (make_acl_prefix some_frontend) ∷ [])
reconcile_acls-settled_example =
    reconcile_acls-settled settled_controller some_lb guarded_service (some_node ∷ []) some_frontend
      [] refl

-- The resources that a service with a TCP and a UDP port asks for.
abbrev pub or_nothing : Result (Dict ℤ Frontend × Dict ℤ Backend) → Dict ℤ Frontend × Dict ℤ Backend
or_nothing (ok maps) = maps
or_nothing (err e) = ([], [])

abbrev pub plain_maps : Dict ℤ Frontend × Dict ℤ Backend
plain_maps = or_nothing (service_to_lb some_packages plain_service none)

pub plain_service-maps : service_to_lb some_packages plain_service none ≡ ok plain_maps
unfolding service_to_lb lookup to_lower split check_url get_health_check_type get_http_health_check
    get_http_health_check_code get_http_health_check_method get_http_health_check_uri
    get_https_health_check get_mysql_health_check get_native_health_check get_pgsql_health_check
    new_health_check get_value_for_port value_loop value_step annotation valid_service_port
    service_port service_port_from is_port_in_range is_port_list certificate_loop choose_proxy
    get_certificate_ids get_forward_protocol get_ssl_bridging get_ssl_bridging_skip_verify
    get_proxy_protocol get_send_proxy_v2 get_failover_host get_health_check_delay
    get_health_check_max_retries get_health_check_send_proxy get_health_check_timeout
    get_health_check_transient_check_delay get_max_retries get_max_connections
    get_redispatch_attempt_count get_on_marked_down_action get_timeout_queue get_timeout_tunnel
    get_timeout_connect get_enable_access_logs get_connection_rate_limit get_timeout_client insert
    decimal_onto format_int lower parse_bool add_ports add_port service_port_to_frontend
    service_port_to_backend cookie_name native_or resource_name service_health_check
    standard_health_check typed_health_check native_check get_enable_http3
    get_forward_port_algorithm get_sticky_sessions get_timeout_server
plain_service-maps = refl

update_port-not_tcp_example :
    update_port some_controller some_lb plain_service []
      (record { remove = []; update = []; create = []; keep = []; evaluated = [] })
      (compare_backends some_packages [] plain_maps.1 "")
      none
      udp_port
      []
    ≡ (err (errorf "undefined backend"), [])
update_port-not_tcp_example =
    update_port-not_tcp some_controller some_lb plain_service []
      (record { remove = []; update = []; create = []; keep = []; evaluated = [] }) [] "" none none
      plain_maps udp_port [] plain_service-maps refl

-- The status that a public service with one TCP port gets.
abbrev tcp_status : List Ingress
tcp_status = record { ip = "1.2.3.4"; hostname = ""; ip_mode = some "VIP" } ∷ []
