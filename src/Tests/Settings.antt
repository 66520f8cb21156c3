-- ===== src/Tests/Settings.antt =====
-- Examples of the settings that annotations make.
use scaleway_cloud_controlle.Annotations.Proxy.{get_send_proxy_v2, choose_proxy, get_proxy_protocol}
use scaleway_cloud_controlle.Base.Sort.{insert_sorted, sort, list_eq}
use scaleway_cloud_controlle.Base.Text.{trim_space}
use scaleway_cloud_controlle.Base.{
  split, pos, negsuc, int_eq, String, true, some, [], ◌∷◌, ok, ◌≡◌, refl, any, all, to_lower, arith,
  if◌then◌else◌,
}
use Prim.Native.String.{◌++◌}
use mathlib.Core.List.{Perm}
use scaleway_cloud_controlle.Base.Dict.{lookup, string_key}
use scaleway_cloud_controlle.Base.Parse.{parse_int, parse_bool, atoi}
use scaleway_cloud_controlle.Kube.{Service}
use scaleway_cloud_controlle.Scaleway.Slices.{items}
use scaleway_cloud_controlle.Scaleway.LoadBalancer.{proxy_none}
use scaleway_cloud_controlle.Annotations.Keys
use scaleway_cloud_controlle.Annotations.Ports.{
  is_port_list, is_port_in_range, service_port_from, service_port, valid_service_port, annotation,
  port_loop,
}
use scaleway_cloud_controlle.Annotations.Ports.Laws.{Denote, port_loop-any}
use scaleway_cloud_controlle.Annotations.Values.{get_load_balancer_ip_mode, get_max_connections}
use scaleway_cloud_controlle.Annotations.Values.Laws.{get_max_connections-atoi}
use scaleway_cloud_controlle.Annotations.Network.{
  require_v4, flexible_loop, get_flexible_ip_types, get_load_balancer_id, get_ip_ids,
}
use scaleway_cloud_controlle.Annotations.Network.Laws.{get_flexible_ip_types-v4}
use scaleway_cloud_controlle.LoadBalancers.Controller.{
  annotated, has_equal_load_balancer_static_ips,
}
use scaleway_cloud_controlle.LoadBalancers.Controller.Laws.{
  get_load_balancer_id-annotated, has_equal_load_balancer_static_ips-Perm,
}
use scaleway_cloud_controlle.LoadBalancers.Status.{ip_mode, is_proxy}
use scaleway_cloud_controlle.LoadBalancers.Status.Laws.{ip_mode-all, HasProtocols}
use scaleway_cloud_controlle.Tests.{tcp_service, some_lb, some_packages, some_controller}

abbrev set : String → String → Service
set key value = record tcp_service { annotations = (key, value) ∷ [] }

some_ports : Denote ("80" ∷ "443" ∷ []) (pos 80 ∷ pos 443 ∷ [])
unfolding parse_int
some_ports = (refl, refl, (refl, refl, tt))

port_loop-any_example :
    port_loop (pos 443) ("80" ∷ "443" ∷ []) ≡ ok (any (int_eq (pos 443)) (pos 80 ∷ pos 443 ∷ []))
port_loop-any_example =
    port_loop-any (pos 443) ("80" ∷ "443" ∷ []) (pos 80 ∷ pos 443 ∷ []) some_ports

-- 3000000000 connections are -1294967296.
abbrev busy_service : Service
busy_service = set Keys.annotation_max_connections "3000000000"

busy_service-set :
    lookup Keys.annotation_max_connections busy_service.annotations ≡ some "3000000000"
unfolding lookup
busy_service-set = refl

busy_service-number : atoi "3000000000" ≡ some (pos 3000000000)
unfolding atoi
busy_service-number = refl

get_max_connections-atoi_example : get_max_connections busy_service ≡ ok (some (negsuc 1294967295))
get_max_connections-atoi_example =
    get_max_connections-atoi busy_service "3000000000" 3000000000 busy_service-set
      busy_service-number (omega arith)

both_types :
    get_flexible_ip_types (set Keys.annotation_flexible_ip_types "IPv4, IPv6") ≡ ok (true, true)
unfolding get_flexible_ip_types annotation lookup flexible_loop split to_lower trim_space require_v4
both_types = refl

get_flexible_ip_types-v4_example : true ≡ true
get_flexible_ip_types-v4_example =
    get_flexible_ip_types-v4 (set Keys.annotation_flexible_ip_types "IPv4, IPv6") (true, true)
      both_types

some_lb-lower : to_lower ("fr-par-1" ++ ("/" ++ "lb1")) ≡ "fr-par-1" ++ ("/" ++ "lb1")
unfolding to_lower
some_lb-lower = refl

get_load_balancer_id-annotated_example :
    get_load_balancer_id some_packages.is_region (annotated some_controller tcp_service some_lb)
    ≡ ok ("fr-par-1", "lb1")
get_load_balancer_id-annotated_example =
    get_load_balancer_id-annotated some_controller tcp_service some_lb some_packages.is_region
      (omega arith) (omega arith) some_lb-lower refl

abbrev static_service : Service
static_service = set Keys.annotation_ip_ids "ip1"

static_service-ids : items (get_ip_ids static_service) ≡ "ip1" ∷ []
unfolding get_ip_ids annotation lookup split
static_service-ids = refl

static_service-equal : has_equal_load_balancer_static_ips static_service some_lb ≡ true
unfolding has_equal_load_balancer_static_ips get_ip_ids annotation lookup split list_eq sort
    insert_sorted
static_service-equal = refl

has_equal_load_balancer_static_ips-Perm_example :
    Perm (items (get_ip_ids static_service)) ("ip1" ∷ [])
unfolding get_ip_ids annotation lookup split
has_equal_load_balancer_static_ips-Perm_example =
    has_equal_load_balancer_static_ips-Perm static_service some_lb refl static_service-equal

tcp_service-HasProtocols : HasProtocols tcp_service (λ p. proxy_none) tcp_service.ports
unfolding get_proxy_protocol valid_service_port service_port service_port_from is_port_in_range
    parse_bool annotation lookup is_port_list choose_proxy get_send_proxy_v2
tcp_service-HasProtocols = (refl, tt)

ip_mode-all_example :
    ip_mode tcp_service
    ≡ ok (if all (λ p. is_proxy proxy_none) tcp_service.ports then "Proxy" else "VIP")
unfolding get_load_balancer_ip_mode lookup
ip_mode-all_example = ip_mode-all tcp_service (λ p. proxy_none) refl refl tcp_service-HasProtocols
