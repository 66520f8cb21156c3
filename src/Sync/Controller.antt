-- ===== src/Sync/Controller.antt =====
-- scaleway/sync.go: syncController, with its answers of caches and of the instance API.
pub mod Laws
use scaleway_cloud_controlle.Base.{
  ℕ, ltb, String, Bool, true, not, ◌&&◌, ◌||◌, Option, none, some, List, [], ◌∷◌, Result, ok, err,
  errorf, ◌==◌, if◌then◌else◌, is_empty, or_errorf,
}
use scaleway_cloud_controlle.Kube.{Service, Node, Taint}
use scaleway_cloud_controlle.Scaleway.Packages.{Packages}
use scaleway_cloud_controlle.Scaleway.LoadBalancer.{Lb}
use scaleway_cloud_controlle.Scaleway.Api.{Call, M, return, lift, ◌>>=◌, ◌>>◌, send, or_fail}
use scaleway_cloud_controlle.LoadBalancers.Controller.{Controller, dict_eq, patch}
use scaleway_cloud_controlle.Annotations.Network.{get_load_balancer_id}
use scaleway_cloud_controlle.Servers.ProviderId.{
  ServerInfo, server_info_from_provider_id, instance_type_instance,
}
use scaleway_cloud_controlle.Sync.Tags.{Validation}
use scaleway_cloud_controlle.Sync.Labels.{synced_node, synced_service}

-- `get_node` is nodeIndexer.GetByKey, and `parse_zone` scw.ParseZone.
pub record SyncController : Type 0 where
  pub controller : Controller
  pub validation : Validation
  pub parse_zone : String → Result String
  pub get_node : String → Result (Option Node)

unfoldable pub taints_eq : List Taint → List Taint → Bool
taints_eq [] [] = true
taints_eq (s ∷ ss) (t ∷ ts) =
    s.key == t.key && s.value == t.value && s.effect == t.effect && taints_eq ss ts
taints_eq _ _ = Bool.false

-- An error is logged, and the loop goes on.
unfoldable pub ignore_error : M (Unit {0}) → M (Unit {0})
ignore_error m h = (ok tt, (m h).1)

module _ (s : SyncController) where
  open s use {controller, validation, parse_zone, get_node}
  open controller use {api}

  -- kubePatcher.Patch on a node whose labels and taints alone have changed.
  unfoldable pub patch_node : Node → Node → M (Unit {0})
  patch_node origin final =
      if dict_eq origin.labels final.labels && taints_eq origin.taints final.taints
      then return tt
      else or_fail
          (send (Call.patch_node origin final)
            (λ h. api.acknowledge h (Call.patch_node origin final)))
          (errorf "failed to patch node object")

  unfoldable pub sync_server_tags : Node → String → String → M (Unit {0})
  sync_server_tags node zone server_id = do
    scw_zone ← lift (or_errorf (parse_zone zone) (errorf "error parsing provider ID zone"))
    tags ← send (Call.get_server scw_zone server_id) (λ h. api.server_tags h scw_zone server_id)
    patch_node node (synced_node validation node tags)

  -- Servers of another type than an instance are passed over.
  unfoldable pub sync_server : Node → ServerInfo → M (Unit {0})
  sync_server node (type, zone, server_id) =
      if not (type == instance_type_instance)
      then return tt
      else sync_server_tags node zone server_id

  unfoldable pub sync_node_tags : Node → M (Unit {0})
  sync_node_tags node =
      if node.provider_id == ""
      then return tt
      else lift (
          or_errorf (server_info_from_provider_id node.provider_id)
            (errorf "error getting server info from provider ID"))
        >>= sync_server node

  unfoldable pub handle_found : Option Node → M (Unit {0})
  handle_found none = return tt
  handle_found (some node) = sync_node_tags node

  unfoldable pub handle_action : String → M (Unit {0})
  handle_action node_name = lift (get_node node_name) >>= handle_found

  unfoldable pub sync_nodes_tags : List Node → M (Unit {0})
  sync_nodes_tags [] = return tt
  sync_nodes_tags (node ∷ nodes) = do ignore_error (sync_node_tags node); sync_nodes_tags nodes

  unfoldable pub sync_lb : Service → String → String → M (Unit {0})
  sync_lb service zone load_balancer_id = do
    lb ← send (Call.get_lb zone load_balancer_id) (λ h. api.lb h zone load_balancer_id)
    patch controller service (synced_service validation service lb.tags)

  unfoldable pub sync_noted_lb : Service → Result (String × String) → M (Unit {0})
  sync_noted_lb service (err e) = return tt
  sync_noted_lb service (ok (zone, load_balancer_id)) =
      if load_balancer_id == "" then return tt else sync_lb service zone load_balancer_id

  -- One round of SyncLBTags: a service without a load balancer is passed over.
  unfoldable pub sync_service : Service → M (Unit {0})
  sync_service service =
      if is_empty service.status
      then return tt
      else sync_noted_lb service (get_load_balancer_id controller.packages.is_region service)

  unfoldable pub sync_lb_tags : List Service → M (Unit {0})
  sync_lb_tags [] = return tt
  sync_lb_tags (service ∷ services) = do ignore_error (sync_service service); sync_lb_tags services
