-- ===== src/LoadBalancers/Managed/Parts.antt =====
-- The parts of the methods that spare a load balancer which is managed by others.
use scaleway_cloud_controlle.Base.{Option, String, Bool, true, false, List, arith}
use scaleway_cloud_controlle.Kube.{Service, Node}
use scaleway_cloud_controlle.Scaleway.LoadBalancer.{Lb, Frontend, Backend}
use scaleway_cloud_controlle.Scaleway.Slices.{Slice}
use scaleway_cloud_controlle.LoadBalancers.Compare.{Ops}
use scaleway_cloud_controlle.Scaleway.Api.Trace.{
  calls, Calls-none, Calls->>=, Calls->>, Calls-expect,
}
use scaleway_cloud_controlle.LoadBalancers.Controller.{Controller, annotate_and_patch, annotated}
use scaleway_cloud_controlle.LoadBalancers.Lifecycle.{
  fetch_load_balancer, fetch_by, get_lb_by_id, get_loadbalancer_by_name,
  remove_externally_managed_resources, delete_frontends, delete_backends, list_frontends,
  list_backends,
}
use scaleway_cloud_controlle.LoadBalancers.Lifecycle.Laws.{patch-Calls}
use scaleway_cloud_controlle.LoadBalancers.Update.{apply_ops}
use scaleway_cloud_controlle.LoadBalancers.Status.{
  create_service_status, status_of, create_private_service_status, host_status, ip_status,
}
use scaleway_cloud_controlle.LoadBalancers.Managed.{IsSparing, Spares, InPhase-Spares}
use scaleway_cloud_controlle.LoadBalancers.Phases.Ports.{update_ports-InPhase}
use scaleway_cloud_controlle.LoadBalancers.Phases.{
  delete_frontends-InPhase, delete_backends-InPhase, list_frontends-InPhase, list_backends-InPhase,
}

module _ (c : Controller) (lb : Lb) where
  delete_frontends-Spares : (fs : List Frontend) → Spares c (delete_frontends c lb.zone fs)
  delete_frontends-Spares fs =
      InPhase-Spares c 2 (omega arith) (omega arith) (delete_frontends-InPhase c lb fs)

  delete_backends-Spares : (bs : List Backend) → Spares c (delete_backends c lb.zone bs)
  delete_backends-Spares bs =
      InPhase-Spares c 4 (omega arith) (omega arith) (delete_backends-InPhase c lb bs)

  pub list_frontends-Spares :
      (name : Option String) → Spares c (list_frontends c lb.zone lb.id name)
  list_frontends-Spares name =
      InPhase-Spares c 1 (omega arith) (omega arith) (list_frontends-InPhase c lb name)

  pub list_backends-Spares : (name : Option String) → Spares c (list_backends c lb.zone lb.id name)
  list_backends-Spares name =
      InPhase-Spares c 1 (omega arith) (omega arith) (list_backends-InPhase c lb name)

  pub apply_ops-Spares :
      (service : Service) (nodes : List Node) (fops : Ops Frontend) (bops : Ops Backend)
      (targets : Slice String)
      → Spares c (apply_ops c lb service nodes fops bops targets)
  unfolding apply_ops
  apply_ops-Spares service nodes fops bops targets = Calls->> (delete_frontends-Spares _) (
      Calls->>
        (InPhase-Spares c 3 (omega arith) (omega arith)
          (update_ports-InPhase c lb service nodes fops bops targets _))
        (delete_backends-Spares _))

module _ (c : Controller) (service : Service) where
  annotate_and_patch-Spares : (lb : Lb) → Spares c (annotate_and_patch c service lb)
  unfolding annotate_and_patch
  annotate_and_patch-Spares lb =
      patch-Calls c service (IsSparing c) service (annotated c service lb) tt

  get_loadbalancer_by_name-Spares : Spares c (get_loadbalancer_by_name c service)
  unfolding get_loadbalancer_by_name
  get_loadbalancer_by_name-Spares = Calls->>= (search calls) λ lbs.
      Calls->>= Calls-none
        λ o. Calls->>= (Calls-expect o _) λ lb. Calls->> (annotate_and_patch-Spares lb) Calls-none

  get_lb_by_id-Spares :
      (managed : Bool) (zone id : String) → Spares c (get_lb_by_id c service managed zone id)
  unfolding get_lb_by_id
  get_lb_by_id-Spares managed zone id = Calls->>= (search calls) λ _. Calls-none

  fetch_by-Spares :
      (managed : Bool) (zi : String × String) → Spares c (fetch_by c service managed zi)
  unfolding fetch_by
  fetch_by-Spares managed (zone, id) =
      search (calls, get_lb_by_id-Spares, get_loadbalancer_by_name-Spares)

  pub fetch_load_balancer-Spares : Spares c (fetch_load_balancer c service)
  unfolding fetch_load_balancer
  fetch_load_balancer-Spares =
      Calls->>= Calls-none λ managed. Calls->>= Calls-none λ zi. fetch_by-Spares managed zi

  pub remove_externally_managed_resources-Spares :
      (lb : Lb) → Spares c (remove_externally_managed_resources c service lb)
  unfolding remove_externally_managed_resources
  remove_externally_managed_resources-Spares lb = Calls->>= (list_frontends-Spares c lb _) λ fs.
      Calls->>= (list_backends-Spares c lb _)
        λ bs. Calls->> (delete_frontends-Spares c lb fs) (delete_backends-Spares c lb bs)

  host_status-Spares : (lb : Lb) (region : String) → Spares c (host_status c service lb region)
  unfolding host_status
  host_status-Spares lb region = Calls->>= (search calls) λ _. Calls-none

  ip_status-Spares :
      (lb : Lb) (mode region : String) → Spares c (ip_status c service lb mode region)
  unfolding ip_status
  ip_status-Spares lb mode region = Calls->>= (search calls) λ _. Calls-none

  private_status-Spares :
      (lb : Lb) (mode : String) → Spares c (create_private_service_status c service lb mode)
  unfolding create_private_service_status
  private_status-Spares lb mode = search (calls, host_status-Spares, ip_status-Spares)

  status_of-Spares :
      (lb : Lb) (private : Bool) (mode : String) → Spares c (status_of c service lb private mode)
  unfolding status_of
  status_of-Spares lb false mode = Calls-none
  status_of-Spares lb true mode = private_status-Spares lb mode

  pub create_service_status-Spares : (lb : Lb) → Spares c (create_service_status c service lb)
  unfolding create_service_status
  create_service_status-Spares lb =
      Calls->>= Calls-none λ private. Calls->>= Calls-none λ mode. status_of-Spares lb private mode
