-- ===== src/LoadBalancers/Managed.antt =====
-- scaleway/loadbalancers.go: what the controller may do to a load balancer that is managed by others.
mod Parts
pub mod Laws
use scaleway_cloud_controlle.Base.{ℕ, true, ◌≡◌, ◌≤◌, arith}
use scaleway_cloud_controlle.Scaleway.Api.{Call, M}
use scaleway_cloud_controlle.Scaleway.Api.Trace.{Calls, Calls-mono}
use scaleway_cloud_controlle.Kube.{Service}
use scaleway_cloud_controlle.Scaleway.LoadBalancer.{Lb}
use scaleway_cloud_controlle.LoadBalancers.Controller.{Controller}
use scaleway_cloud_controlle.LoadBalancers.Networks.{attach_private_networks}
use scaleway_cloud_controlle.LoadBalancers.Phases.{phase, InPhase}
use scaleway_cloud_controlle.LoadBalancers.Phases.Networks.{Touches, attach_private_networks-IsOwn}

-- A call that neither creates, deletes, migrates nor updates a load balancer, and that attaches and
-- detaches no private network but the one of the controller.
abbrev pub IsSparing : Controller → Call → Type 0
IsSparing c (Call.create_lb _) = ⊥
IsSparing c (Call.delete_lb _ _ _) = ⊥
IsSparing c (Call.migrate_lb _ _ _) = ⊥
IsSparing c (Call.update_lb _ _) = ⊥
IsSparing c (Call.attach_private_network _ _ pn_id _) = pn_id ≡ c.pn_id
IsSparing c (Call.detach_private_network _ _ pn_id) = pn_id ≡ c.pn_id
IsSparing c _ = Unit

abbrev pub Spares : Controller → {A : Type 0} → M A → Type 0
Spares c = Calls (IsSparing c)

module _ (c : Controller) where
  middle-IsSparing : (call : Call) → 1 ≤ phase call → phase call ≤ 4 → IsSparing c call
  middle-IsSparing call later early = ground arith

  own_network-IsSparing : (call : Call) → Touches (λ pn_id. pn_id ≡ c.pn_id) call → IsSparing c call
  own_network-IsSparing call touches = ground arith

  -- The phases of an update from the lists of resources to the deletion of backends are sparing.
  pub InPhase-Spares : {A : Type 0} {m : M A} (n : ℕ) → 1 ≤ n → n ≤ 4 → InPhase n m → Spares c m
  InPhase-Spares n later early s =
      Calls-mono (λ call e. middle-IsSparing call (rw e later) (rw e early)) s

  pub attach_private_networks-Spares :
      (lb : Lb) (service : Service) → Spares c (attach_private_networks c lb service true)
  attach_private_networks-Spares lb service =
      Calls-mono own_network-IsSparing (attach_private_networks-IsOwn c lb service)
