-- ===== src/Sync/Controller/Laws.antt =====
-- What a synchronisation of tags sends.
use scaleway_cloud_controlle.Base.{
  is_empty, or_errorf-ok, String, false, List, [], ◌∷◌, Result, ok, err, ◌≡◌, refl, ◌==◌, inl, inr,
  Bool-cases, eq_iff, ap, ◌∙◌,
}
use mathlib.Core.List.{Memᴰ}
use scaleway_cloud_controlle.Annotations.Network.{get_load_balancer_id}
use scaleway_cloud_controlle.Kube.{Service, Node}
use scaleway_cloud_controlle.Scaleway.Api.{Call, M}
use scaleway_cloud_controlle.Scaleway.Api.Trace.{
  Calls, calls, Calls-mono, Calls-if, Calls-lift, Calls->>, Calls->>=, Calls-send, Calls-none,
}
use scaleway_cloud_controlle.LoadBalancers.Lifecycle.Laws.{patch-Calls}
use scaleway_cloud_controlle.Servers.ProviderId.{
  ServerInfo, server_info_from_provider_id, instance_type_instance,
}
use scaleway_cloud_controlle.Sync.Labels.{synced_node, synced_service}
use scaleway_cloud_controlle.Sync.Controller.{
  SyncController, ignore_error, patch_node, sync_server_tags, sync_server, sync_node_tags, sync_lb,
  sync_noted_lb, sync_service, sync_lb_tags,
}

pub ignore_error-Calls :
    {P : Call → Type 0} {m : M (Unit {0})} → Calls P m → Calls P (ignore_error m)
unfolding ignore_error
ignore_error-Calls s = record { added = λ h. s.added h }

module _ (s : SyncController) (node : Node) where
  -- The calls that a synchronisation of one node may make.
  abbrev pub IsNodeSync : Call → Type 0
  IsNodeSync (Call.get_server zone server_id) =
      (own_zone : String) × (server_info_from_provider_id node.provider_id
        ≡ ok (instance_type_instance, own_zone, server_id))
      × (s.parse_zone own_zone ≡ ok zone)
  IsNodeSync (Call.patch_node origin final) =
      (origin ≡ node) × (tags : List String) × (final ≡ synced_node s.validation node tags)
  IsNodeSync _ = ⊥

  patch_node-IsNodeSync :
      (tags : List String)
      → Calls IsNodeSync (patch_node s node (synced_node s.validation node tags))
  unfolding patch_node
  patch_node-IsNodeSync tags =
      let p : IsNodeSync (Call.patch_node node (synced_node s.validation node tags)) =
        (refl, tags, refl) in
      search (calls, p)

  sync_server_tags-IsNodeSync :
      (zone server_id : String)
      → server_info_from_provider_id node.provider_id ≡ ok (instance_type_instance, zone, server_id)
      → Calls IsNodeSync (sync_server_tags s node zone server_id)
  unfolding sync_server_tags
  sync_server_tags-IsNodeSync zone server_id own = Calls-lift _ _ (λ scw_zone known.
      Calls->>=
        (Calls-send (Call.get_server scw_zone server_id) _
          (zone, own, or_errorf-ok (s.parse_zone zone) _ scw_zone known))
        patch_node-IsNodeSync)

  sync_server-IsNodeSync :
      (info : ServerInfo)
      → server_info_from_provider_id node.provider_id ≡ ok info
      → Calls IsNodeSync (sync_server s node info)
  unfolding sync_server
  sync_server-IsNodeSync (type, zone, server_id) own =
      elim (Bool-cases (type == instance_type_instance)) [
        | inl instance_type ↦ rw instance_type (
            sync_server_tags-IsNodeSync zone server_id (
              own
              ∙ ap (λ t. ok (t, zone, server_id))
                  ((eq_iff type instance_type_instance).0 instance_type)))
        | inr other ↦ rw other Calls-none
      ]

  -- To synchronise a node, nothing is read but the instance that its provider ID names, in the zone
  -- that it names, and nothing is sent but a patch of this node to the labels and the taints that
  -- some tags give.
  pub sync_node_tags-IsNodeSync : Calls IsNodeSync (sync_node_tags s node)
  unfolding sync_node_tags
  sync_node_tags-IsNodeSync = elim (Bool-cases (node.provider_id == "")) [
    | inl blank ↦ rw blank Calls-none
    | inr given ↦ rw given (
        Calls-lift _ _ (λ info known.
          sync_server-IsNodeSync info
            (or_errorf-ok (server_info_from_provider_id node.provider_id) _ info known)))
  ]

module _ (s : SyncController) where
  module _ (service : Service) where
    -- The calls that a synchronisation of one service may make.
    abbrev pub IsServiceSync : Call → Type 0
    IsServiceSync (Call.get_lb zone load_balancer_id) =
        (is_empty service.status ≡ false)
        × (get_load_balancer_id s.controller.packages.is_region service
            ≡ ok (zone, load_balancer_id))
        × ((load_balancer_id == "") ≡ false)
    IsServiceSync (Call.patch_service origin final) =
        (origin ≡ service)
        × (tags : List String) × (final ≡ synced_service s.validation service tags)
    IsServiceSync _ = ⊥

    sync_lb-IsServiceSync :
        (zone id : String)
        → IsServiceSync (Call.get_lb zone id)
        → Calls IsServiceSync (sync_lb s service zone id)
    unfolding sync_lb
    sync_lb-IsServiceSync zone id noted =
        Calls->>= (Calls-send (Call.get_lb zone id) _ noted) (λ lb.
          patch-Calls s.controller service IsServiceSync service
            (synced_service s.validation service lb.tags) (refl, lb.tags, refl))

    sync_noted_lb-IsServiceSync :
        (noted : Result (String × String))
        → is_empty service.status ≡ false
        → get_load_balancer_id s.controller.packages.is_region service ≡ noted
        → Calls IsServiceSync (sync_noted_lb s service noted)
    unfolding sync_noted_lb
    sync_noted_lb-IsServiceSync (err e) exposed known = Calls-none
    sync_noted_lb-IsServiceSync (ok (zone, id)) exposed known = elim (Bool-cases (id == "")) [
      | inl blank ↦ rw blank Calls-none
      | inr given ↦ rw given (sync_lb-IsServiceSync zone id (exposed, known, given))
    ]

    pub sync_service-IsServiceSync : Calls IsServiceSync (sync_service s service)
    unfolding sync_service
    sync_service-IsServiceSync =
        Calls-if (λ bare. Calls-none) (λ exposed. sync_noted_lb-IsServiceSync _ exposed refl)

  -- A call for one of the services.
  abbrev pub IsSyncOf : List Service → Call → Type 0
  IsSyncOf services call = (service : Service) × Memᴰ service services × IsServiceSync service call

  -- A synchronisation of services makes no calls but these, whatever fails. It reads the load
  -- balancer whose zone and ID are noted in one of the services that have a status, if the ID is
  -- not empty; and it patches one of the services to the labels that some tags give, and in nothing
  -- else.
  pub sync_lb_tags-IsServiceSync :
      (services : List Service) → Calls (IsSyncOf services) (sync_lb_tags s services)
  unfolding sync_lb_tags
  sync_lb_tags-IsServiceSync [] = Calls-none
  sync_lb_tags-IsServiceSync (service ∷ services) =
      Calls->>
        (Calls-mono (λ call own. (service, Memᴰ.head refl, own))
          (ignore_error-Calls (sync_service-IsServiceSync service)))
        (Calls-mono (λ call (other, listed, own). (other, Memᴰ.tail listed, own))
          (sync_lb_tags-IsServiceSync services))
