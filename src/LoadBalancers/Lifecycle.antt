-- ===== src/LoadBalancers/Lifecycle.antt =====
-- scaleway/loadbalancers.go: finding, creating and deleting the load balancer of a service.
pub mod Laws
use scaleway_cloud_controlle.Base.{
  String, Bool, true, false, not, ◌&&◌, Option, none, some, List, [], ◌∷◌, ◌++◌, Result, ok, err,
  Error, errorf, wrapf, invalid_annotation, load_balancer_not_found, load_balancer_duplicated, ◌==◌,
  if◌then◌else◌, is_empty, has_prefix, or_errorf,
}
use Prim.Native.String
use scaleway_cloud_controlle.Kube.{Service}
use scaleway_cloud_controlle.Scaleway.Slices.{Slice, items}
use scaleway_cloud_controlle.Scaleway.Packages.{Env}
use scaleway_cloud_controlle.Scaleway.LoadBalancer.{Lb, Frontend, Backend, CreateLbRequest}
use scaleway_cloud_controlle.Scaleway.Api.{
  Call, M, return, fail, lift, ◌>>=◌, ◌>>◌, send, or_fail, map_error, is_404_error, expect,
}
use scaleway_cloud_controlle.Annotations.Values.{
  svc_private, svc_externally_managed, get_ssl_compatibility_level, get_load_balancer_type,
  get_load_balancer_zone,
}
use scaleway_cloud_controlle.Annotations.Network.{get_load_balancer_id, get_flexible_ip_types}
use scaleway_cloud_controlle.Servers.Search.{match_name}
use scaleway_cloud_controlle.LoadBalancers.Controller.{
  Controller, get_load_balancer_name, has_load_balancer_static_ips, annotate_and_patch,
  unannotate_and_patch, get_load_balancer_static_ip_ids,
}

-- A missing annotation is no error for fetchLoadBalancer, and leaves the ID empty.
abbrev pub id_or_blank : Result (String × String) → Result (String × String)
id_or_blank (err invalid_annotation) = ok ("", "")
id_or_blank r = r

-- An API error of status 404 says that the load balancer is not there.
abbrev pub not_found_if_404 : Error → Error
not_found_if_404 e = if is_404_error e then load_balancer_not_found else e

-- The tags of a new load balancer: those of the environment, and the controller's own.
unfoldable pub load_balancer_tags : (String → String → List String) → Env → List String
load_balancer_tags split_by env =
    let delimiter = if env.ccm_tags_delimiter == "" then "," else env.ccm_tags_delimiter in
    let tags = if env.ccm_tags == "" then [] else split_by delimiter env.ccm_tags in
    tags ++ "managed-by-scaleway-cloud-controller-manager" ∷ []

module _ (c : Controller) (service : Service) where
  open c use {api, packages, env, default_lb_type, pn_id}

  unfoldable pub get_loadbalancer_by_name : M Lb
  get_loadbalancer_by_name = do
    lbs ←
        send (Call.list_lbs (get_load_balancer_zone service) (get_load_balancer_name env service))
          (λ h. api.lbs h (get_load_balancer_zone service) (get_load_balancer_name env service))
    found ← lift (
        match_name (λ lb. lb.name) load_balancer_duplicated (get_load_balancer_name env service)
          none lbs)
    lb ← expect found load_balancer_not_found
    annotate_and_patch c service lb
    return lb

  -- An externally managed load balancer must not have the prefix of the cluster.
  unfoldable pub check_prefix : Bool → Lb → Result Lb
  check_prefix managed lb =
      if managed && has_prefix lb.name env.ccm_prefix
      then err (errorf "externally managed loadbalancer must not be prefixed by the cluster id")
      else ok lb

  unfoldable pub get_lb_by_id : Bool → String → String → M Lb
  get_lb_by_id managed zone id = do
    lb ← map_error not_found_if_404 (send (Call.get_lb zone id) (λ h. api.lb h zone id))
    lift (check_prefix managed lb)

  unfoldable pub fetch_by : Bool → String × String → M Lb
  fetch_by managed (zone, id) =
      if managed && id == ""
      then fail (errorf "loadbalancer id must be defined for externally managed loadbalancer")
      else if not (id == "")
      then get_lb_by_id managed zone id
      else get_loadbalancer_by_name

  unfoldable pub fetch_load_balancer : M Lb
  fetch_load_balancer = do
    managed ← lift (or_errorf (svc_externally_managed service) (errorf "externally-managed"))
    zone_and_id ← lift (id_or_blank (get_load_balancer_id packages.is_region service))
    fetch_by managed zone_and_id

  -- The flexible IPs to book: none beside static IPs.
  unfoldable pub flexible_ips : Slice String → Result (Bool × Bool)
  flexible_ips ip_ids =
      if is_empty (items ip_ids)
      then (elim (get_flexible_ip_types service) [
        | ok types ↦ ok types
        | err e ↦ err (wrapf "flexible-ip-types" e)
      ])
      else ok (false, false)

  -- The IPs of a new load balancer: static ones, and whether to book an IPv4 and an IPv6.
  unfoldable pub new_ips : Bool → M (Slice String × Bool × Bool)
  new_ips true = return (none, false, false)
  new_ips false = do
    ip_ids ← get_load_balancer_static_ip_ids c service
    (v4, v6) ← lift (flexible_ips ip_ids)
    return (ip_ids, v4, v6)

  unfoldable pub create_request :
      (String → String → List String) → String → Slice String → Bool → Bool → CreateLbRequest
  create_request split_by level ip_ids v4 v6 =
      let lb_type = get_load_balancer_type service in
      record {
        zone = get_load_balancer_zone service;
        name = get_load_balancer_name env service;
        description = String.◌++◌ "kubernetes service " service.name;
        tags = load_balancer_tags split_by env;
        ip_ids = ip_ids;
        type = if lb_type == "" then default_lb_type else lb_type;
        assign_flexible_ip = v4;
        assign_flexible_ipv6 = v6;
        ssl_compatibility_level = level;
      }

  unfoldable pub send_create : CreateLbRequest → M Lb
  send_create request = do
    lb ←
        or_fail (send (Call.create_lb request) (λ h. api.created_lb h request))
          (errorf "error creating load balancer")
    annotate_and_patch c service lb
    return lb

  unfoldable pub create_load_balancer : M Lb
  create_load_balancer = do
    managed ← lift (or_errorf (svc_externally_managed service) (errorf "externally-managed"))
    lift (
        if managed then err (errorf "cannot create an externally managed load balancer") else ok tt)
    private ← lift (or_errorf (svc_private service) (errorf "private"))
    level ← lift (
        or_errorf (get_ssl_compatibility_level packages service)
          (errorf "error getting SSL compatibility level"))
    (ip_ids, v4, v6) ← new_ips private
    send_create (create_request packages.split_by level ip_ids v4 v6)

  -- The IP of a load balancer goes with it, unless it is a static one.
  unfoldable pub delete_call : Lb → Call
  delete_call lb = Call.delete_lb lb.zone lb.id (not (has_load_balancer_static_ips service))

  -- A renamed load balancer is left alone.
  unfoldable pub delete_unless_renamed : Lb → M (Unit {0})
  delete_unless_renamed lb =
      if lb.name == get_load_balancer_name env service
      then or_fail (send (delete_call lb) (λ h. api.acknowledge h (delete_call lb)))
          (errorf "error deleting load balancer")
      else return tt

  unfoldable pub delete_load_balancer : Lb → M (Unit {0})
  delete_load_balancer lb = do unannotate_and_patch c service; delete_unless_renamed lb

module _ (c : Controller) (zone : String) where
  open c use {api}

  unfoldable pub delete_frontends : List Frontend → M (Unit {0})
  delete_frontends [] = return tt
  delete_frontends (f ∷ fs) = do
    or_fail
        (send (Call.delete_frontend zone f.id)
          (λ h. api.acknowledge h (Call.delete_frontend zone f.id)))
        (errorf "failed deleting frontend")
    delete_frontends fs

  unfoldable pub delete_backends : List Backend → M (Unit {0})
  delete_backends [] = return tt
  delete_backends (b ∷ bs) = do
    or_fail
        (send (Call.delete_backend zone b.id)
          (λ h. api.acknowledge h (Call.delete_backend zone b.id)))
        (errorf "failed deleting backend")
    delete_backends bs

  unfoldable pub list_frontends : String → Option String → M (List Frontend)
  list_frontends lb_id name =
      or_fail (send (Call.list_frontends zone lb_id name) (λ h. api.frontends h zone lb_id name))
        (errorf "error listing frontends for load balancer")

  unfoldable pub list_backends : String → Option String → M (List Backend)
  list_backends lb_id name =
      or_fail (send (Call.list_backends zone lb_id name) (λ h. api.backends h zone lb_id name))
        (errorf "error listing backend for load balancer")

unfoldable pub remove_externally_managed_resources : Controller → Service → Lb → M (Unit {0})
remove_externally_managed_resources c service lb = do
  let prefix = String.◌++◌ service.uid "_"
  frontends ← list_frontends c lb.zone lb.id (some prefix)
  backends ← list_backends c lb.zone lb.id (some prefix)
  delete_frontends c lb.zone frontends
  delete_backends c lb.zone backends
