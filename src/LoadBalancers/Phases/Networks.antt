-- ===== src/LoadBalancers/Phases/Networks.antt =====
-- scaleway/loadbalancers.go: the calls of attachPrivateNetworks, and the networks that they attach
-- and detach.
use scaleway_cloud_controlle.Base.{
  String, Bool, true, false, not, List, [], ◌∷◌, ok, err, ◌≡◌, refl, arith, All, is_empty,
  Option-cases, inl, inr, Error, if◌then◌else◌,
}
use scaleway_cloud_controlle.Base.Dict.{lookup, insert, string_key, insert-All, lookup-All}
use scaleway_cloud_controlle.Kube.{Service}
use scaleway_cloud_controlle.Scaleway.LoadBalancer.{Lb, PrivateNetwork}
use scaleway_cloud_controlle.Scaleway.Api.{Call, when, ◌>>◌}
use scaleway_cloud_controlle.Scaleway.Api.Trace.{Calls, calls, Calls-mono, Calls-none, Calls->>}
use scaleway_cloud_controlle.Scaleway.Api.Yields.{
  IsGiven, Yields, Yields-lift, Calls-Yields, Yields-Calls, Yields->>=,
}
use scaleway_cloud_controlle.LoadBalancers.Controller.{Controller}
use scaleway_cloud_controlle.LoadBalancers.Networks.{
  Attachments, Status, detach, attach, mark_attached, match_attached, list_network_ips,
  query_networks, resolve_ips, initial_attachments, reconcile_network, reconcile_networks,
  sync_private_networks, attach_private_networks,
}
use scaleway_cloud_controlle.LoadBalancers.Phases.{phase, InPhase}

-- A call about private networks, that attaches and detaches none but those of K.
abbrev pub Touches : (String → Type 0) → Call → Type 0
Touches K (Call.list_lb_private_networks _ _) = Unit
Touches K (Call.list_network_ips _ _ _) = Unit
Touches K (Call.attach_private_network _ _ pn_id _) = K pn_id
Touches K (Call.detach_private_network _ _ pn_id) = K pn_id
Touches K _ = ⊥

module _ (c : Controller) (lb : Lb) (K : String → Type 0) where
  abbrev Touching : Call → Type 0
  Touching = Touches K

  -- The networks of a map.
  abbrev AreOf : Attachments → Type 0
  AreOf m = All (λ (entry : String × Status). K entry.0) m

  detach-Touches : (pn_id : String) → K pn_id → Calls Touching (detach c lb pn_id)
  unfolding detach
  detach-Touches pn_id k = search calls

  attach-Touches :
      (pn_id : String) (ids : List String) → K pn_id → Calls Touching (attach c lb pn_id ids)
  unfolding attach
  attach-Touches pn_id ids k = search calls

  detach_stray-Touches :
      (managed : Bool) (pn_id : String)
      → (managed ≡ false → (pn_id : String) → K pn_id)
      → Calls Touching (when (not managed) (detach c lb pn_id))
  unfolding when
  detach_stray-Touches true pn_id stray = Calls-none
  detach_stray-Touches false pn_id stray = detach-Touches pn_id (stray refl pn_id)

  -- A network that is not wanted is detached only if the load balancer is not managed by others.
  mark_attached-Touches :
      (managed : Bool) (nics : List PrivateNetwork) (m : Attachments)
      → (managed ≡ false → (pn_id : String) → K pn_id)
      → AreOf m
      → Yields Touching AreOf (mark_attached c lb managed nics m)
  unfolding mark_attached ◌>>◌
  mark_attached-Touches managed [] m stray own = Yields-lift (ok m) own
  mark_attached-Touches managed (nic ∷ nics) m stray own =
      elim (Option-cases (lookup nic.private_network_id m)) [
        | inr (status, found) ↦
            rw (mark_attached, found)
              (mark_attached-Touches managed nics _ stray (
                insert-All (λ (entry : String × Status). K entry.0) nic.private_network_id _ m
                  (lookup-All (λ (entry : String × Status). K entry.0) m nic.private_network_id
                    status own found)
                  own))
        | inl absent ↦
            rw (mark_attached, absent)
              (Yields->>= (Calls-Yields (detach_stray-Touches managed nic.private_network_id stray))
                (λ _ _. mark_attached-Touches managed nics m stray own))
      ]

  list_network_ips-Touches :
      (region pn_id : String) (ids : List String)
      → Calls Touching (list_network_ips c lb region pn_id ids)
  unfolding list_network_ips
  list_network_ips-Touches region pn_id ids = search calls

  match_attached-keys :
      (m : Attachments) (ids : List String) → AreOf m → AreOf (match_attached m ids).0
  unfolding match_attached
  match_attached-keys [] ids own = tt
  match_attached-keys ((pn_id, status) ∷ m) ids (k, own) = (k, match_attached-keys m _ own)

  query_networks-Touches :
      (region : String) (m : Attachments) (ids : List String)
      → AreOf m
      → Yields Touching (λ found. AreOf found.0) (query_networks c lb region m ids)
  unfolding query_networks
  query_networks-Touches region [] ids own = Yields-lift (ok ([], ids)) tt
  query_networks-Touches region ((pn_id, status) ∷ m) ids (k, own) =
      Yields->>= (Calls-Yields (list_network_ips-Touches region pn_id ids)) λ found _.
        Yields->>= (query_networks-Touches region m _ own) λ next kept. Yields-lift (ok _) (k, kept)

  if_all_found :
      (all : Bool) (done : Attachments) (e : Error)
      → AreOf done
      → IsGiven AreOf (if all then ok done else err e)
  if_all_found true done e kept = kept
  if_all_found false done e kept = tt

  resolve_ips-Touches :
      (m : Attachments) (ids : List String)
      → AreOf m
      → Yields Touching AreOf (resolve_ips c lb (m, ids))
  unfolding resolve_ips
  resolve_ips-Touches m [] own = Yields-lift (ok m) own
  resolve_ips-Touches m (id ∷ ids) own = Yields->>= (Calls-Yields (search calls)) λ region _.
      Yields->>= (query_networks-Touches region m (id ∷ ids) own)
        λ found kept. Yields-lift _ (if_all_found (is_empty found.1) found.0 _ kept)

  reconcile_network-Touches :
      (pn_id : String) (status : Status)
      → K pn_id
      → Calls Touching (reconcile_network c lb pn_id status)
  unfolding reconcile_network
  reconcile_network-Touches pn_id status k = search (calls, detach-Touches, attach-Touches)

  reconcile_networks-Touches :
      (m : Attachments) → AreOf m → Calls Touching (reconcile_networks c lb m)
  unfolding reconcile_networks
  reconcile_networks-Touches [] own = search calls
  reconcile_networks-Touches ((pn_id, status) ∷ m) (k, own) =
      Calls->> (reconcile_network-Touches pn_id status k) (reconcile_networks-Touches m own)

  sync_private_networks-Touches :
      (service : Service) (managed : Bool)
      → (managed ≡ false → (pn_id : String) → K pn_id)
      → AreOf (initial_attachments c.pn_id service managed)
      → Calls Touching (sync_private_networks c lb service managed)
  unfolding sync_private_networks
  sync_private_networks-Touches service managed stray own = Yields-Calls (
      Yields->>= (Calls-Yields (search calls)) λ nics _.
        Yields->>= (mark_attached-Touches managed nics _ stray own) λ marked kept.
          Yields->>= (resolve_ips-Touches _ _ (match_attached-keys marked _ kept))
            λ resolved same. Calls-Yields (reconcile_networks-Touches resolved same))

  attach_private_networks-Touches :
      (service : Service) (managed : Bool)
      → (managed ≡ false → (pn_id : String) → K pn_id)
      → AreOf (initial_attachments c.pn_id service managed)
      → Calls Touching (attach_private_networks c lb service managed)
  unfolding attach_private_networks
  attach_private_networks-Touches service managed stray own =
      search (calls, sync_private_networks-Touches service managed stray own)

module _ (c : Controller) (lb : Lb) (service : Service) where
  any_networks : (m : Attachments) → All {0, 0} (λ (entry : String × Status). Unit) m
  any_networks [] = tt
  any_networks (entry ∷ m) = (tt, any_networks m)

  network-phase : (call : Call) → Touches (λ pn_id. Unit) call → phase call ≡ 0
  network-phase call touches = ground arith

  pub attach_private_networks-InPhase :
      (managed : Bool) → InPhase 0 (attach_private_networks c lb service managed)
  attach_private_networks-InPhase managed = Calls-mono network-phase (
      attach_private_networks-Touches c lb (λ pn_id. Unit) service managed (λ _ _. tt)
        (any_networks _))

  -- Of a load balancer that is managed by others, no network is attached or detached but that of
  -- the controller.
  pub attach_private_networks-IsOwn :
      Calls (Touches (λ pn_id. pn_id ≡ c.pn_id)) (attach_private_networks c lb service true)
  unfolding initial_attachments insert
  attach_private_networks-IsOwn =
      attach_private_networks-Touches c lb (λ pn_id. pn_id ≡ c.pn_id) service true (λ e. cc)
        (refl, tt)
