-- ===== src/LoadBalancers/Update.antt =====
-- scaleway/loadbalancers.go, updateLoadBalancer.
pub mod Laws
pub mod Convergence
use scaleway_cloud_controlle.Base.{
  ℕ, String, Bool, true, false, not, ◌&&◌, ◌||◌, Option, none, some, List, [], ◌∷◌, Error, errorf,
  wrapf, ◌==◌, if◌then◌else◌, is_empty, to_lower, or_errorf,
}
use Prim.Native.String
use mathlib.Core.Option
use scaleway_cloud_controlle.Base.Sort.{sort}
use scaleway_cloud_controlle.Base.Dict.{lookup, int_key}
use scaleway_cloud_controlle.Kube.{Service, ServicePort, Node}
use scaleway_cloud_controlle.Scaleway.Slices.{Slice, items}
use scaleway_cloud_controlle.Scaleway.LoadBalancer.{Lb, UpdateLbRequest, Frontend, Backend}
use scaleway_cloud_controlle.Scaleway.Api.{
  Call, M, return, lift, ◌>>=◌, ◌>>◌, send, or_fail, map_error, when, expect,
}
use scaleway_cloud_controlle.Annotations.Values.{
  svc_externally_managed, get_force_internal_ip, get_load_balancer_type,
  get_ssl_compatibility_level,
}
use scaleway_cloud_controlle.Annotations.Network.{get_private_network_ids}
use scaleway_cloud_controlle.LoadBalancers.Nodes.{
  filter_nodes, nodes_initialized, extract_nodes_internal_ips, extract_nodes_external_ips,
}
use scaleway_cloud_controlle.LoadBalancers.Convert.{service_to_lb}
use scaleway_cloud_controlle.LoadBalancers.Equality.{string_array_equal}
use scaleway_cloud_controlle.LoadBalancers.Compare.{Ops, compare_frontends, compare_backends}
use scaleway_cloud_controlle.LoadBalancers.Controller.{Controller}
use scaleway_cloud_controlle.LoadBalancers.Lifecycle.{
  delete_frontends, delete_backends, list_frontends, list_backends,
}
use scaleway_cloud_controlle.LoadBalancers.Acls.{reconcile_acls}
use scaleway_cloud_controlle.LoadBalancers.Networks.{attach_private_networks}
use scaleway_cloud_controlle.LoadBalancers.Requests.{
  create_backend, update_backend, create_frontend, update_frontend,
}

unfoldable pub use_internal_ips : Controller → Service → Bool
use_internal_ips c service =
    get_force_internal_ip service
    || not (c.pn_id == "")
    || not (is_empty (items (get_private_network_ids service)))

unfoldable pub target_ips : Controller → Service → List Node → Slice String
target_ips c service nodes =
    if use_internal_ips c service
    then extract_nodes_internal_ips nodes
    else extract_nodes_external_ips nodes

-- Only the resources of the service are touched on an externally managed load balancer.
unfoldable pub prefix_filter : Service → Bool → String
prefix_filter service managed = if managed then String.◌++◌ service.uid "_" else ""

module _ (c : Controller) (lb : Lb) (service : Service) (nodes : List Node) where
  open c use {api, packages}

  -- Updates a resource, if it is to be updated.
  unfoldable pub updated_backend : Option Backend → M (Option Backend)
  updated_backend none = return none
  updated_backend (some b) = do
    backend ← or_fail (update_backend c lb b) (errorf "failed updating backend")
    return (some backend)

  -- Creates one, if it is to be created. Its servers are the targets, whose array it shares.
  unfoldable pub created_backend :
      Slice String → Option Backend → Option Backend → M (Option Backend)
  created_backend targets none backend = return backend
  created_backend targets (some b) backend = do
    new ←
        or_fail (create_backend c lb (record b { pool = targets }))
          (errorf "failed creating backend")
    return (some new)

  unfoldable pub kept : {T : Type 0} → Error → Option T → Option T → M T
  kept e (some t) found = return t
  kept e none found = expect found e

  unfoldable pub port_backend : Ops Backend → Slice String → ServicePort → M Backend
  port_backend ops targets port = do
    updated ← updated_backend (lookup port.node_port ops.update)
    backend ← created_backend targets (lookup port.node_port ops.create) updated
    kept (errorf "undefined backend") backend (lookup port.node_port ops.keep)

  unfoldable pub set_servers : Backend → Slice String → M (Unit {0})
  set_servers backend targets = when (not (string_array_equal backend.pool targets)) (
      or_fail
        (send (Call.set_backend_servers lb.zone backend.id (Option.map sort targets)) (λ h.
          api.acknowledge h
            (Call.set_backend_servers lb.zone backend.id (Option.map sort targets))))
        (errorf "failed updating server list for backend"))

  unfoldable pub updated_frontend : Option Frontend → Backend → M (Option Frontend)
  updated_frontend none backend = return none
  updated_frontend (some f) backend = do
    frontend ← or_fail (update_frontend c lb f backend) (errorf "failed updating frontend")
    return (some frontend)

  unfoldable pub created_frontend :
      Option Frontend → Option Frontend → Backend → M (Option Frontend)
  created_frontend none frontend backend = return frontend
  created_frontend (some f) frontend backend = do
    new ← or_fail (create_frontend c lb f backend) (errorf "failed creating frontend")
    return (some new)

  unfoldable pub port_frontend : Ops Frontend → Backend → ServicePort → M Frontend
  port_frontend ops backend port = do
    updated ← updated_frontend (lookup port.port ops.update) backend
    frontend ← created_frontend (lookup port.port ops.create) updated backend
    kept (errorf "undefined frontend") frontend (lookup port.port ops.keep)

  -- One round of the loop over the ports of the service.
  unfoldable pub update_port :
      Ops Frontend → Ops Backend → Slice String → ServicePort → M (Unit {0})
  update_port fops bops targets port = do
    backend ← port_backend bops targets port
    set_servers backend targets
    frontend ← port_frontend fops backend port
    reconcile_acls c lb service nodes frontend

  -- The first comparison of server lists sorts the targets, for the later rounds too.
  unfoldable pub update_ports :
      Ops Frontend → Ops Backend → Slice String → List ServicePort → M (Unit {0})
  update_ports fops bops targets [] = return tt
  update_ports fops bops targets (port ∷ ports) = do
    update_port fops bops targets port
    update_ports fops bops (Option.map sort targets) ports

  -- Frontends go first and backends last: no backend is deleted while a frontend refers to it.
  unfoldable pub apply_ops : Ops Frontend → Ops Backend → Slice String → M (Unit {0})
  apply_ops fops bops targets = do
    delete_frontends c lb.zone fops.remove
    update_ports fops bops targets service.ports
    delete_backends c lb.zone bops.remove

  unfoldable pub migrate : M (Unit {0})
  migrate =
      let type = get_load_balancer_type service in
      when (not (type == "") && not (to_lower lb.type == type)) (
        or_fail
          (send (Call.migrate_lb lb.zone lb.id type)
            (λ h. api.acknowledge h (Call.migrate_lb lb.zone lb.id type)))
          (errorf "error updating load balancer"))

  unfoldable pub set_ssl_level : String → M (Unit {0})
  set_ssl_level level =
      let wanted : UpdateLbRequest = record {
        lb_id = lb.id;
        name = lb.name;
        description = lb.description;
        tags = lb.tags;
        ssl_compatibility_level = level;
      } in
      when (not (lb.ssl_compatibility_level == level)) (
        or_fail
          (send (Call.update_lb lb.zone wanted)
            (λ h. api.acknowledge h (Call.update_lb lb.zone wanted)))
          (errorf "error updating load balancer"))

  -- The type and the SSL level, unless the load balancer is managed by others.
  unfoldable pub update_settings : Bool → M (Unit {0})
  update_settings true = return tt
  update_settings false = do
    migrate
    level ← lift (
        or_errorf (get_ssl_compatibility_level packages service)
          (errorf "error getting SSL compatibility level"))
    set_ssl_level level

  -- The part that reads the resources of the load balancer and changes them.
  unfoldable pub sync_resources : Bool → M (Unit {0})
  sync_resources managed = do
    got_frontends ← list_frontends c lb.zone lb.id none
    got_backends ← list_backends c lb.zone lb.id none
    want ← lift (
        or_errorf (service_to_lb packages service (target_ips c service nodes))
          (errorf "failed to convert service to frontend and backends"))
    apply_ops (compare_frontends got_frontends want.0 (prefix_filter service managed))
        (compare_backends packages got_backends want.1 (prefix_filter service managed))
        (target_ips c service nodes)
    update_settings managed

-- The update of a service that is not being deleted, at the time `now`.
unfoldable pub update_resources : Controller → ℕ → Lb → Service → List Node → M (Unit {0})
update_resources c now lb service nodes = do
  managed ← lift (or_errorf (svc_externally_managed service) (errorf "externally-managed"))
  let targets = filter_nodes service nodes
  lift (nodes_initialized now (use_internal_ips c service) targets)
  map_error (wrapf "failed to attach private networks")
      (attach_private_networks c lb service managed)
  sync_resources c lb service targets managed

unfoldable pub update_load_balancer : Controller → ℕ → Lb → Service → List Node → M (Unit {0})
update_load_balancer c now lb service nodes =
    if service.is_deleting then return tt else update_resources c now lb service nodes
