-- ===== src/LoadBalancers/Effects/Update.antt =====
-- What a successful update changes, from what the APIs list.
use scaleway_cloud_controlle.Base.{
  or_errorf-ok, ℕ, ℤ, Bool, true, false, none, List, [], ◌∷◌, ◌++◌, Result, ok, ◌≡◌, refl, ◌∙◌,
  wrapf, arith,
}
use mathlib.Core.List.{append-nil}
use scaleway_cloud_controlle.Base.Dict.{Dict}
use scaleway_cloud_controlle.Kube.{Service, Node}
use scaleway_cloud_controlle.Scaleway.LoadBalancer.{Lb, Frontend, Backend}
use scaleway_cloud_controlle.Scaleway.Api.{Call, History, send, map_error}
use scaleway_cloud_controlle.Scaleway.Api.Trace.{calls, Calls-mono, Calls-map_error}
use scaleway_cloud_controlle.Annotations.Values.{svc_externally_managed}
use scaleway_cloud_controlle.LoadBalancers.Controller.{Controller}
use scaleway_cloud_controlle.LoadBalancers.Networks.{attach_private_networks}
use scaleway_cloud_controlle.LoadBalancers.Nodes.{filter_nodes}
use scaleway_cloud_controlle.LoadBalancers.Convert.{service_to_lb}
use scaleway_cloud_controlle.LoadBalancers.Compare.{compare_frontends, compare_backends}
use scaleway_cloud_controlle.LoadBalancers.Lifecycle.{list_frontends, list_backends}
use scaleway_cloud_controlle.LoadBalancers.Update.{
  target_ips, prefix_filter, migrate, set_ssl_level, update_settings, sync_resources,
  update_resources, update_load_balancer,
}
use scaleway_cloud_controlle.LoadBalancers.Phases.{phase}
use scaleway_cloud_controlle.LoadBalancers.Phases.Networks.{attach_private_networks-InPhase}
use scaleway_cloud_controlle.LoadBalancers.Effects.{
  Effect, effect, effects, Does, Makes, Does-mono, Does-lift, Makes-lift, Does-map_error, Does->>=,
  Makes->>, Calls-Makes, Does->>,
}
use scaleway_cloud_controlle.LoadBalancers.Effects.Laws.{plan_effects, apply_ops-Makes}

network-effect : (call : Call) → phase call ≡ 0 → effect call ≡ []
network-effect call e = ground arith

-- What the API answered is what the method goes on with.
Does-answer :
    {A : Type 0} (call : Call) (answer : History → Result A)
    → effect call ≡ []
    → Does (send call answer) (λ a made. (made ≡ []) × (h : History) × (answer h ≡ ok a))
unfolding send
Does-answer call answer quiet = record { done = λ h a e. (call ∷ [], refl, (quiet, h, e)) }

module _ (c : Controller) (lb : Lb) (service : Service) (nodes : List Node) where
  -- The effects are those of the comparison of what the APIs listed with what the service asks for.
  abbrev pub ArePlanned : Bool → List Effect → Type 0
  ArePlanned managed made =
      (got_frontends : List Frontend) × (got_backends : List Backend) × (maps : Dict ℤ Frontend
        × Dict ℤ Backend)
      × ((h : History) × (c.api.frontends h lb.zone lb.id none ≡ ok got_frontends))
      × ((h : History) × (c.api.backends h lb.zone lb.id none ≡ ok got_backends))
      × (service_to_lb c.packages service (target_ips c service nodes) ≡ ok maps)
      × (made
          ≡ plan_effects (compare_frontends got_frontends maps.0 (prefix_filter service managed))
              (compare_backends c.packages got_backends maps.1 (prefix_filter service managed))
              service.ports)

  update_settings-Makes : (managed : Bool) → Makes [] (update_settings c lb service nodes managed)
  unfolding update_settings migrate set_ssl_level
  update_settings-Makes true = Makes-lift
  update_settings-Makes false = Calls-Makes (search calls)

  sync_resources-ArePlanned :
      (managed : Bool)
      → Does (sync_resources c lb service nodes managed) (λ _ made. ArePlanned managed made)
  unfolding sync_resources list_frontends list_backends
  sync_resources-ArePlanned managed =
      Does->>= (Does-map_error _ (Does-answer (Call.list_frontends lb.zone lb.id none) _ refl))
        λ got_frontends es e.
          Does->>= (Does-map_error _ (Does-answer (Call.list_backends lb.zone lb.id none) _ refl))
            λ got_backends fs f. Does->>= (Does-lift _) λ maps gs g.
              let known = or_errorf-ok (service_to_lb c.packages service _) _ maps g.0 in
              Does-mono
                (λ _ made all. (
                  got_frontends,
                  got_backends,
                  maps,
                  (e.1, e.2),
                  (f.1, f.2),
                  known,
                  rw (e.0, f.0, g.1) (all ∙ append-nil _),
                ))
                (Makes->> (apply_ops-Makes c lb service nodes _ _ _)
                  (update_settings-Makes managed))

module _ (c : Controller) (now : ℕ) (lb : Lb) (service : Service) (nodes : List Node) where
  -- Whose load balancer it is decides which resources are compared.
  abbrev pub IsPlannedUpdate : List Effect → Type 0
  IsPlannedUpdate made =
      (managed : Bool) × (svc_externally_managed service ≡ ok managed)
      × ArePlanned c lb service (filter_nodes service nodes) managed made

  update_resources-IsPlanned :
      Does (update_resources c now lb service nodes) (λ _ made. IsPlannedUpdate made)
  unfolding update_resources
  update_resources-IsPlanned = Does->>= (Does-lift _) λ managed es e.
      let known = or_errorf-ok (svc_externally_managed service) _ managed e.0 in
      let attached : Makes [] (
          map_error (wrapf "failed to attach private networks")
            (attach_private_networks c lb service managed)) =
        Calls-Makes (
          Calls-map_error _
            (Calls-mono network-effect (attach_private_networks-InPhase c lb service managed))) in
      Does-mono (λ _ made planned. (managed, known, rw e.1 planned))
        (Does->> Makes-lift (
          Does->> attached
            (sync_resources-ArePlanned c lb service (filter_nodes service nodes) managed)))

  -- A successful update of a service that is not being deleted makes exactly these removals,
  -- updates and creations of frontends and backends, in this order: those that the comparison asks
  -- for of what the APIs have listed and what the service asks for. The frontends that go come
  -- first, then for each port in its order the backend and the frontend, and then the backends that
  -- go.
  pub update_load_balancer-IsPlanned :
      service.is_deleting ≡ false
      → (h : History) → (update_load_balancer c now lb service nodes h).0 ≡ ok tt
      → (calls : List Call) × ((update_load_balancer c now lb service nodes h).1 ≡ calls ++ h)
        × IsPlannedUpdate (effects calls)
  unfolding update_load_balancer
  update_load_balancer-IsPlanned stays h done =
      let planned : Does (update_load_balancer c now lb service nodes) (λ _. IsPlannedUpdate) =
        simp stays update_resources-IsPlanned in
      planned.done h tt done
