-- ===== src/LoadBalancers/Effects/Laws.antt =====
-- What a successful update changes.
use scaleway_cloud_controlle.Base.{String, Option, none, some, List, [], ◌∷◌, ◌++◌, map, Error}
use mathlib.Core.Option
use mathlib.Core.List.{append-nil}
use scaleway_cloud_controlle.Base.Sort.{sort}
use scaleway_cloud_controlle.Base.Dict.{lookup, int_key}
use scaleway_cloud_controlle.Kube.{Service, ServicePort, Node}
use scaleway_cloud_controlle.Scaleway.Slices.{Slice}
use scaleway_cloud_controlle.Scaleway.LoadBalancer.{Lb, Frontend, Backend, HealthCheck}
use scaleway_cloud_controlle.Scaleway.Api.{M, ◌>>=◌}
use scaleway_cloud_controlle.Scaleway.Api.Trace.{calls, Calls->>=}
use scaleway_cloud_controlle.LoadBalancers.Controller.{Controller}
use scaleway_cloud_controlle.LoadBalancers.Compare.{Ops}
use scaleway_cloud_controlle.LoadBalancers.Lifecycle.{delete_frontends, delete_backends}
use scaleway_cloud_controlle.LoadBalancers.Acls.{reconcile_acls, set_acls_call}
use scaleway_cloud_controlle.LoadBalancers.Requests.{
  create_backend, update_health_check, update_backend, create_frontend, update_frontend,
  new_backend, backend_settings, new_frontend, frontend_settings,
}
use scaleway_cloud_controlle.LoadBalancers.Update.{
  updated_backend, created_backend, kept, port_backend, set_servers, updated_frontend,
  created_frontend, port_frontend, update_port, update_ports, apply_ops,
}
use scaleway_cloud_controlle.LoadBalancers.Effects.{
  Effect, removes_frontend, removes_backend, updates_frontend, creates_frontend, updates_backend,
  creates_backend, Makes, Does-send, Makes-lift, Does-map_error, Makes->>=, Makes->>, Calls-Makes,
}

-- The effects that the operations on the frontends and the backends ask for.
abbrev backend_updates : Option Backend → List Effect
backend_updates none = []
backend_updates (some b) = updates_backend (backend_settings b) ∷ []

abbrev backend_creations : Option Backend → List Effect
backend_creations none = []
backend_creations (some b) = creates_backend (new_backend (record b { pool = none })) ∷ []

abbrev frontend_updates : Option Frontend → List Effect
frontend_updates none = []
frontend_updates (some f) = updates_frontend (frontend_settings f) ∷ []

abbrev frontend_creations : Option Frontend → List Effect
frontend_creations none = []
frontend_creations (some f) = creates_frontend (new_frontend f) ∷ []

module _ (fops : Ops Frontend) (bops : Ops Backend) where
  abbrev pub port_effects : ServicePort → List Effect
  port_effects port =
      (backend_updates (lookup port.node_port bops.update)
        ++ backend_creations (lookup port.node_port bops.create))
      ++ (frontend_updates (lookup port.port fops.update)
          ++ frontend_creations (lookup port.port fops.create))

  abbrev pub ports_effects : List ServicePort → List Effect
  ports_effects [] = []
  ports_effects (port ∷ ports) = port_effects port ++ ports_effects ports

  abbrev pub plan_effects : List ServicePort → List Effect
  plan_effects ports =
      map (λ f. removes_frontend f.id) fops.remove
      ++ (ports_effects ports ++ map (λ b. removes_backend b.id) bops.remove)

-- A part without effects behind others changes nothing.
Makes-then_quiet :
    {A B : Type 0} {m : M A} {f : A → M B} {es : List Effect}
    → Makes es m
    → ((a : A) → Makes [] (f a))
    → Makes es (m >>= f)
Makes-then_quiet {m = m} {f = f} {es = es} s t =
    let made : Makes (es ++ []) (m >>= f) = Makes->>= s t in rw append-nil at made

module _ (c : Controller) (lb : Lb) where
  delete_frontends-Makes :
      (fs : List Frontend)
      → Makes (map (λ f. removes_frontend f.id) fs) (delete_frontends c lb.zone fs)
  unfolding delete_frontends
  delete_frontends-Makes [] = Makes-lift
  delete_frontends-Makes (f ∷ fs) =
      Makes->> (Does-map_error _ (Does-send _ _)) (delete_frontends-Makes fs)

  delete_backends-Makes :
      (bs : List Backend)
      → Makes (map (λ b. removes_backend b.id) bs) (delete_backends c lb.zone bs)
  unfolding delete_backends
  delete_backends-Makes [] = Makes-lift
  delete_backends-Makes (b ∷ bs) =
      Makes->> (Does-map_error _ (Does-send _ _)) (delete_backends-Makes bs)

  update_health_check-Makes :
      (id : String) (check : Option HealthCheck) → Makes [] (update_health_check c lb id check)
  unfolding update_health_check
  update_health_check-Makes id none = Calls-Makes (search calls)
  update_health_check-Makes id (some check) = Calls-Makes (search calls)

module _ (c : Controller) (lb : Lb) (service : Service) (nodes : List Node) where
  updated_backend-Makes :
      (found : Option Backend)
      → Makes (backend_updates found) (updated_backend c lb service nodes found)
  unfolding updated_backend update_backend
  updated_backend-Makes none = Makes-lift
  updated_backend-Makes (some b) =
      Makes-then_quiet
        (Does-map_error _ (
          Makes-then_quiet (Does-send _ _)
            λ _. Makes->> (update_health_check-Makes c lb b.id _) Makes-lift))
        λ _. Makes-lift

  created_backend-Makes :
      (targets : Slice String) (new found : Option Backend)
      → Makes (backend_creations new) (created_backend c lb service nodes targets new found)
  unfolding created_backend create_backend
  created_backend-Makes targets none found = Makes-lift
  created_backend-Makes targets (some b) found =
      Makes-then_quiet (Does-map_error _ (Does-send _ _)) λ _. Makes-lift

  updated_frontend-Makes :
      (found : Option Frontend) (backend : Backend)
      → Makes (frontend_updates found) (updated_frontend c lb service nodes found backend)
  unfolding updated_frontend update_frontend
  updated_frontend-Makes none backend = Makes-lift
  updated_frontend-Makes (some f) backend =
      Makes-then_quiet (Does-map_error _ (Does-send _ _)) λ _. Makes-lift

  created_frontend-Makes :
      (new found : Option Frontend) (backend : Backend)
      → Makes (frontend_creations new) (created_frontend c lb service nodes new found backend)
  unfolding created_frontend create_frontend
  created_frontend-Makes none found backend = Makes-lift
  created_frontend-Makes (some f) found backend =
      Makes-then_quiet (Does-map_error _ (Does-send _ _)) λ _. Makes-lift

  kept-Makes :
      {T : Type 0} (e : Error) (t found : Option T) → Makes [] (kept c lb service nodes e t found)
  unfolding kept
  kept-Makes e (some t) found = Makes-lift
  kept-Makes e none found = Calls-Makes (search calls)

  set_servers-Makes :
      (backend : Backend) (targets : Slice String)
      → Makes [] (set_servers c lb service nodes backend targets)
  unfolding set_servers
  set_servers-Makes backend targets = Calls-Makes (search calls)

  reconcile_acls-Makes : (f : Frontend) → Makes [] (reconcile_acls c lb service nodes f)
  unfolding reconcile_acls set_acls_call
  reconcile_acls-Makes f = Calls-Makes (Calls->>= (search calls) λ _. search calls)

  update_port-Makes :
      (fops : Ops Frontend) (bops : Ops Backend) (targets : Slice String) (port : ServicePort)
      → Makes (port_effects fops bops port) (update_port c lb service nodes fops bops targets port)
  unfolding update_port port_backend port_frontend
  update_port-Makes fops bops targets port =
      Makes->>=
        (Makes->>= (updated_backend-Makes _) λ updated.
          Makes-then_quiet (created_backend-Makes targets _ updated) λ _. kept-Makes _ _ _)
        λ backend. Makes->> (set_servers-Makes backend targets) (
          Makes-then_quiet
            (Makes->>= (updated_frontend-Makes _ backend) λ updated.
              Makes-then_quiet (created_frontend-Makes _ updated backend) λ _. kept-Makes _ _ _)
            λ f. reconcile_acls-Makes f)

  update_ports-Makes :
      (fops : Ops Frontend) (bops : Ops Backend) (targets : Slice String) (ports : List ServicePort)
      → Makes
          (ports_effects fops bops ports)
          (update_ports c lb service nodes fops bops targets ports)
  unfolding update_ports
  update_ports-Makes fops bops targets [] = Makes-lift
  update_ports-Makes fops bops targets (port ∷ ports) =
      Makes->> (update_port-Makes fops bops targets port)
        (update_ports-Makes fops bops (Option.map sort targets) ports)

  pub apply_ops-Makes :
      (fops : Ops Frontend) (bops : Ops Backend) (targets : Slice String)
      → Makes
          (plan_effects fops bops service.ports)
          (apply_ops c lb service nodes fops bops targets)
  unfolding apply_ops
  apply_ops-Makes fops bops targets = Makes->> (delete_frontends-Makes c lb fops.remove) (
      Makes->> (update_ports-Makes fops bops targets service.ports)
        (delete_backends-Makes c lb bops.remove))
