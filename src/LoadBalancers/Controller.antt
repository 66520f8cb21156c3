-- ===== src/LoadBalancers/Controller.antt =====
-- scaleway/loadbalancers.go: the struct `loadbalancers` with what it reaches, the static IPs of a
-- service, and the patches of its annotations (scaleway/patcher.go).
pub mod Laws
use scaleway_cloud_controlle.Base.{
  nat_eq, String, Bool, true, false, not, ◌&&◌, none, some, List, [], ◌∷◌, map, Result, ok, err,
  errorf, ip_address_not_found, ip_address_in_use, ◌==◌, if◌then◌else◌, length, is_empty,
}
use Prim.Native.String.{◌++◌}
use scaleway_cloud_controlle.Base.Sort.{sort, list_eq}
use scaleway_cloud_controlle.Base.Dict.{Dict, insert, remove, string_key}
use scaleway_cloud_controlle.Kube.{Service}
use scaleway_cloud_controlle.Scaleway.Slices.{Slice, items}
use scaleway_cloud_controlle.Scaleway.Packages.{Packages, Env}
use scaleway_cloud_controlle.Scaleway.LoadBalancer.{Lb, LbIp}
use scaleway_cloud_controlle.Scaleway.Api.{Call, Cloud, M, return, lift, ◌>>=◌, send, or_fail}
use scaleway_cloud_controlle.Annotations.Keys
use scaleway_cloud_controlle.Annotations.Values.{get_load_balancer_zone}
use scaleway_cloud_controlle.Annotations.Network.{get_ip_ids}

pub record Controller : Type 0 where
  pub api : Cloud
  pub packages : Packages
  pub env : Env
  pub default_lb_type : String
  pub pn_id : String

-- GetLoadBalancerName
unfoldable pub get_load_balancer_name : Env → Service → String
get_load_balancer_name env service = env.ccm_prefix ++ service.uid

unfoldable pub has_load_balancer_static_ips : Service → Bool
has_load_balancer_static_ips service =
    if not (is_empty (items (get_ip_ids service)))
    then true
    else not (service.load_balancer_ip == "")

-- The one IP address of a load balancer.
unfoldable pub is_only_address : String → List LbIp → Bool
is_only_address address (ip ∷ []) = address == ip.ip_address
is_only_address address _ = false

unfoldable pub has_equal_load_balancer_static_ips : Service → Lb → Bool
has_equal_load_balancer_static_ips service lb =
    let ip_ids = items (get_ip_ids service) in
    if not (is_empty ip_ids)
    then nat_eq (length ip_ids) (length lb.ip)
      && list_eq (sort ip_ids) (sort (map (λ ip. ip.id) lb.ip))
    else if not (service.load_balancer_ip == "")
    then is_only_address service.load_balancer_ip lb.ip
    else true

unfoldable pub dict_eq : Dict String String → Dict String String → Bool
dict_eq [] [] = true
dict_eq ((k, v) ∷ m) ((j, w) ∷ n) = k == j && v == w && dict_eq m n
dict_eq _ _ = false

module _ (c : Controller) where
  open c use {api}

  -- kubePatcher.Patch on a service whose annotations and labels alone have changed: no call for an
  -- empty patch.
  unfoldable pub patch : Service → Service → M (Unit {0})
  patch origin final =
      if dict_eq origin.annotations final.annotations && dict_eq origin.labels final.labels
      then return tt
      else or_fail
          (send (Call.patch_service origin final)
            (λ h. api.acknowledge h (Call.patch_service origin final)))
          (errorf "failed to patch service object")

  unfoldable pub annotated : Service → Lb → Service
  annotated service lb = record service {
    annotations = insert Keys.annotation_id (lb.zone ++ "/" ++ lb.id) service.annotations;
  }

  unfoldable pub annotate_and_patch : Service → Lb → M (Unit {0})
  annotate_and_patch service lb = patch service (annotated service lb)

  unfoldable pub unannotated : Service → Service
  unannotated service = record service {
    annotations = remove Keys.annotation_id service.annotations;
  }

  unfoldable pub unannotate_and_patch : Service → M (Unit {0})
  unannotate_and_patch service = patch service (unannotated service)

  -- The first IP that the API lists, if no load balancer uses it.
  unfoldable pub free_ip : List LbIp → Result (Slice String)
  free_ip [] = err ip_address_not_found
  free_ip (ip ∷ _) = elim ip.lb_id [
    | none ↦ ok (some (ip.id ∷ []))
    | some lb_id ↦ if lb_id == "" then ok (some (ip.id ∷ [])) else err ip_address_in_use
  ]

  unfoldable pub ip_of_address : Service → M (Slice String)
  ip_of_address service = do
    ips ←
        or_fail
          (send (Call.list_ips (get_load_balancer_zone service) service.load_balancer_ip)
            (λ h. api.ips h (get_load_balancer_zone service) service.load_balancer_ip))
          (errorf "createLoadBalancer: error getting ip")
    lift (free_ip ips)

  unfoldable pub get_load_balancer_static_ip_ids : Service → M (Slice String)
  get_load_balancer_static_ip_ids service =
      if not (is_empty (items (get_ip_ids service)))
      then return (get_ip_ids service)
      else if not (service.load_balancer_ip == "")
      then ip_of_address service
      else return none
