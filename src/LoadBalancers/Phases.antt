-- ===== src/LoadBalancers/Phases.antt =====
-- scaleway/loadbalancers.go: the phases of an update, by the calls that belong to each.
pub mod Networks
pub mod Ports
pub mod Order
use scaleway_cloud_controlle.Base.{ℕ, ◌≡◌, refl, String, Option, List, [], ◌∷◌}
use scaleway_cloud_controlle.Scaleway.LoadBalancer.{Lb, Frontend, Backend}
use scaleway_cloud_controlle.Scaleway.Api.{Call, M}
use scaleway_cloud_controlle.Scaleway.Api.Trace.{Calls, calls, Calls->>}
use scaleway_cloud_controlle.LoadBalancers.Controller.{Controller}
use scaleway_cloud_controlle.LoadBalancers.Lifecycle.{
  delete_frontends, delete_backends, list_frontends, list_backends,
}

-- The private networks; the frontends and backends that there are; the frontends that go; the ports,
-- with their rules; the backends that go; the load balancer itself; and what is no part of an update.
abbrev pub phase : Call → ℕ
phase (Call.list_lb_private_networks _ _) = 0
phase (Call.attach_private_network _ _ _ _) = 0
phase (Call.detach_private_network _ _ _) = 0
phase (Call.list_network_ips _ _ _) = 0
phase (Call.list_frontends _ _ _) = 1
phase (Call.list_backends _ _ _) = 1
phase (Call.delete_frontend _ _) = 2
phase (Call.create_backend _ _ _) = 3
phase (Call.update_backend _ _) = 3
phase (Call.set_backend_servers _ _ _) = 3
phase (Call.update_health_check _ _ _) = 3
phase (Call.create_frontend _ _ _ _) = 3
phase (Call.update_frontend _ _ _) = 3
phase (Call.list_acls _ _ _) = 3
phase (Call.set_acls _ _ _) = 3
phase (Call.delete_backend _ _) = 4
phase (Call.migrate_lb _ _ _) = 5
phase (Call.update_lb _ _) = 5
phase _ = 6

-- All calls are of one phase.
abbrev pub InPhase : ℕ → {A : Type 0} → M A → Type 0
InPhase n = Calls (λ call. phase call ≡ n)

module _ (c : Controller) (lb : Lb) where
  pub delete_frontends-InPhase : (fs : List Frontend) → InPhase 2 (delete_frontends c lb.zone fs)
  unfolding delete_frontends
  delete_frontends-InPhase [] = search calls
  delete_frontends-InPhase (f ∷ fs) = Calls->> (search calls) (delete_frontends-InPhase fs)

  pub delete_backends-InPhase : (bs : List Backend) → InPhase 4 (delete_backends c lb.zone bs)
  unfolding delete_backends
  delete_backends-InPhase [] = search calls
  delete_backends-InPhase (b ∷ bs) = Calls->> (search calls) (delete_backends-InPhase bs)

  pub list_frontends-InPhase :
      (name : Option String) → InPhase 1 (list_frontends c lb.zone lb.id name)
  unfolding list_frontends
  list_frontends-InPhase name = search calls

  pub list_backends-InPhase :
      (name : Option String) → InPhase 1 (list_backends c lb.zone lb.id name)
  unfolding list_backends
  list_backends-InPhase name = search calls
