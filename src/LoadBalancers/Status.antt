-- ===== src/LoadBalancers/Status.antt =====
-- scaleway/loadbalancers.go: the status that a service gets.
pub mod Laws
use scaleway_cloud_controlle.Base.{
  ℕ, nat_eq, suc, String, Bool, true, false, none, some, List, [], ◌∷◌, map, Result, ok, err,
  errorf, ◌>>=◌, ◌==◌, if◌then◌else◌, is_empty, length, or_errorf,
}
use Prim.Native.String
use scaleway_cloud_controlle.Kube.{Service, ServicePort, Ingress}
use scaleway_cloud_controlle.Scaleway.LoadBalancer.{
  Lb, LbIp, IpamIp, ProxyProtocol, proxy_v1, proxy_v2,
}
use scaleway_cloud_controlle.Scaleway.Api
use scaleway_cloud_controlle.Scaleway.Api.{Call, M, lift, send, or_fail, fail, return}
use scaleway_cloud_controlle.Annotations.Values.{
  get_load_balancer_ip_mode, get_use_hostname, svc_private,
}
use scaleway_cloud_controlle.Annotations.Proxy.{get_proxy_protocol}
use scaleway_cloud_controlle.LoadBalancers.Controller.{Controller}

abbrev pub is_proxy : ProxyProtocol → Bool
is_proxy proxy_v1 = true
is_proxy proxy_v2 = true
is_proxy _ = false

-- How many ports speak the proxy protocol.
unfoldable pub count_proxy : Service → ℕ → List ServicePort → Result ℕ
count_proxy service pp_count [] = ok pp_count
count_proxy service pp_count (port ∷ ports) = do
  proxy_protocol ← get_proxy_protocol service port.node_port
  count_proxy service (if is_proxy proxy_protocol then suc pp_count else pp_count) ports

unfoldable pub mode_of_ports : Service → Result String
mode_of_ports service =
    if is_empty service.ports
    then ok "VIP"
    else count_proxy service 0 service.ports
      >>= (λ pp_count. ok (if nat_eq pp_count (length service.ports) then "Proxy" else "VIP"))

unfoldable pub ip_mode : Service → Result String
ip_mode service = elim (get_load_balancer_ip_mode service) [
  | some mode ↦ ok mode
  | none ↦ mode_of_ports service
]

abbrev pub host_ingress : String → Ingress
host_ingress hostname = record { ip = ""; hostname = hostname; ip_mode = none }

abbrev pub ip_ingress : String → String → Ingress
ip_ingress mode ip = record { ip = ip; hostname = ""; ip_mode = some mode }

unfoldable pub create_public_service_status : Service → Lb → String → Result (List Ingress)
create_public_service_status service lb mode =
    let ingress =
      map
        (λ (ip : LbIp).
          if get_use_hostname service
          then host_ingress ip.reverse
          else ip_ingress mode ip.ip_address)
        lb.ip in
    if is_empty ingress then err (errorf "no ip found for lb") else ok ingress

module _ (c : Controller) (service : Service) (lb : Lb) where
  open c use {api, packages}

  unfoldable pub host_status : String → M (List Ingress)
  host_status region =
      Api.◌>>=◌
        (or_fail
          (send (Call.get_private_network region c.pn_id)
            (λ h. api.private_network_name h region c.pn_id))
          (errorf "unable to query private network"))
        (λ name. return (host_ingress (String.◌++◌ lb.id (String.◌++◌ "." name)) ∷ []))

  unfoldable pub ingress_of_ips : String → List IpamIp → Result (List Ingress)
  ingress_of_ips mode ips =
      if is_empty ips
      then err (errorf "no private network ip")
      else ok (map (λ (ip : IpamIp). ip_ingress mode ip.address) ips)

  unfoldable pub ip_status : String → String → M (List Ingress)
  ip_status mode region =
      Api.◌>>=◌
        (or_fail
          (send (Call.list_resource_ips lb.project_id "lb_server" lb.id region)
            (λ h. api.ipam_ips h (Call.list_resource_ips lb.project_id "lb_server" lb.id region)))
          (errorf "unable to query ipam"))
        (λ ips. lift (ingress_of_ips mode ips))

  unfoldable pub create_private_service_status : String → M (List Ingress)
  create_private_service_status mode =
      if c.pn_id == ""
      then fail (errorf "a private load balancer requires a private network")
      else Api.◌>>=◌
          (or_fail (lift (packages.zone_region lb.zone)) (errorf "error creating status"))
          (λ region. if get_use_hostname service then host_status region else ip_status mode region)

  unfoldable pub status_of : Bool → String → M (List Ingress)
  status_of true mode = create_private_service_status mode
  status_of false mode = lift (create_public_service_status service lb mode)

  unfoldable pub create_service_status : M (List Ingress)
  create_service_status =
      Api.◌>>=◌ (lift (or_errorf (svc_private service) (errorf "private")))
        (λ private. Api.◌>>=◌ (lift (ip_mode service)) (λ mode. status_of private mode))
