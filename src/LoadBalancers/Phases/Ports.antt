-- ===== src/LoadBalancers/Phases/Ports.antt =====
-- scaleway/loadbalancers.go: the calls for the ports of a service.
use scaleway_cloud_controlle.Base.{String, Option, none, some, List, [], ◌∷◌, Error}
use mathlib.Core.Option
use scaleway_cloud_controlle.Base.Sort.{sort}
use scaleway_cloud_controlle.Base.Dict.{string_key}
use scaleway_cloud_controlle.Kube.{Service, ServicePort, Node}
use scaleway_cloud_controlle.Scaleway.Slices.{Slice}
use scaleway_cloud_controlle.Scaleway.LoadBalancer.{Lb, Frontend, Backend, HealthCheck}
use scaleway_cloud_controlle.Scaleway.Api.Trace.{
  calls, Calls-none, Calls-map_error, Calls->>=, Calls->>,
}
use scaleway_cloud_controlle.LoadBalancers.Controller.{Controller}
use scaleway_cloud_controlle.LoadBalancers.Acls.{reconcile_acls, set_acls_call}
use scaleway_cloud_controlle.LoadBalancers.Compare.{Ops}
use scaleway_cloud_controlle.LoadBalancers.Requests.{
  create_backend, update_health_check, update_backend, create_frontend, update_frontend,
}
use scaleway_cloud_controlle.LoadBalancers.Update.{
  updated_backend, created_backend, kept, port_backend, set_servers, updated_frontend,
  created_frontend, port_frontend, update_port, update_ports,
}
use scaleway_cloud_controlle.LoadBalancers.Phases.{InPhase}

module _ (c : Controller) (lb : Lb) where
  update_health_check-InPhase :
      (id : String) (check : Option HealthCheck) → InPhase 3 (update_health_check c lb id check)
  unfolding update_health_check
  update_health_check-InPhase id none = search calls
  update_health_check-InPhase id (some check) = search calls

module _ (c : Controller) (lb : Lb) (service : Service) (nodes : List Node) where
  -- The backends and the frontends of the ports.
  updated_backend-InPhase :
      (found : Option Backend) → InPhase 3 (updated_backend c lb service nodes found)
  unfolding updated_backend update_backend
  updated_backend-InPhase none = search calls
  updated_backend-InPhase (some b) =
      Calls->>=
        (Calls-map_error _ (
          Calls->>= (search calls)
            λ _. Calls->> (update_health_check-InPhase c lb b.id _) Calls-none))
        λ _. Calls-none

  created_backend-InPhase :
      (targets : Slice String) (new found : Option Backend)
      → InPhase 3 (created_backend c lb service nodes targets new found)
  unfolding created_backend create_backend
  created_backend-InPhase targets none found = search calls
  created_backend-InPhase targets (some b) found = Calls->>= (search calls) λ _. Calls-none

  updated_frontend-InPhase :
      (found : Option Frontend) (backend : Backend)
      → InPhase 3 (updated_frontend c lb service nodes found backend)
  unfolding updated_frontend update_frontend
  updated_frontend-InPhase none backend = search calls
  updated_frontend-InPhase (some f) backend = Calls->>= (search calls) λ _. Calls-none

  created_frontend-InPhase :
      (new found : Option Frontend) (backend : Backend)
      → InPhase 3 (created_frontend c lb service nodes new found backend)
  unfolding created_frontend create_frontend
  created_frontend-InPhase none found backend = search calls
  created_frontend-InPhase (some f) found backend = Calls->>= (search calls) λ _. Calls-none

  kept-InPhase :
      {T : Type 0} (e : Error) (t found : Option T) → InPhase 3 (kept c lb service nodes e t found)
  unfolding kept
  kept-InPhase e (some t) found = search calls
  kept-InPhase e none found = search calls

  port_backend-InPhase :
      (ops : Ops Backend) (targets : Slice String) (port : ServicePort)
      → InPhase 3 (port_backend c lb service nodes ops targets port)
  unfolding port_backend
  port_backend-InPhase ops targets port =
      Calls->>= (updated_backend-InPhase _)
        λ _. Calls->>= (created_backend-InPhase targets _ _) λ _. kept-InPhase _ _ _

  port_frontend-InPhase :
      (ops : Ops Frontend) (backend : Backend) (port : ServicePort)
      → InPhase 3 (port_frontend c lb service nodes ops backend port)
  unfolding port_frontend
  port_frontend-InPhase ops backend port =
      Calls->>= (updated_frontend-InPhase _ backend)
        λ _. Calls->>= (created_frontend-InPhase _ _ backend) λ _. kept-InPhase _ _ _

  set_servers-InPhase :
      (backend : Backend) (targets : Slice String)
      → InPhase 3 (set_servers c lb service nodes backend targets)
  unfolding set_servers
  set_servers-InPhase backend targets = search calls

  reconcile_acls-InPhase : (f : Frontend) → InPhase 3 (reconcile_acls c lb service nodes f)
  unfolding reconcile_acls set_acls_call
  reconcile_acls-InPhase f = Calls->>= (search calls) λ _. search calls

  update_port-InPhase :
      (fops : Ops Frontend) (bops : Ops Backend) (targets : Slice String) (port : ServicePort)
      → InPhase 3 (update_port c lb service nodes fops bops targets port)
  unfolding update_port
  update_port-InPhase fops bops targets port =
      Calls->>= (port_backend-InPhase bops targets port) λ backend.
        Calls->> (set_servers-InPhase backend targets)
          (Calls->>= (port_frontend-InPhase fops backend port) λ f. reconcile_acls-InPhase f)

  pub update_ports-InPhase :
      (fops : Ops Frontend) (bops : Ops Backend) (targets : Slice String) (ports : List ServicePort)
      → InPhase 3 (update_ports c lb service nodes fops bops targets ports)
  unfolding update_ports
  update_ports-InPhase fops bops targets [] = search calls
  update_ports-InPhase fops bops targets (port ∷ ports) =
      Calls->> (update_port-InPhase fops bops targets port)
        (update_ports-InPhase fops bops (Option.map sort targets) ports)
