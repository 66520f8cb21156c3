-- ===== src/LoadBalancers/Networks.antt =====
-- scaleway/loadbalancers.go, attachPrivateNetworks. A map is an association list, and a range over
-- it takes the order of the list.
pub mod Laws
use scaleway_cloud_controlle.Base.{
  ltb, String, Bool, true, false, not, ◌&&◌, ◌||◌, none, some, List, [], ◌∷◌, ◌++◌, map, ok, err,
  errorf, wrapf, ◌==◌, if◌then◌else◌, length, is_empty, any, select,
}
use scaleway_cloud_controlle.Base.Sort.{sort, list_eq}
use scaleway_cloud_controlle.Base.Dict.{Dict, lookup, insert, string_key}
use scaleway_cloud_controlle.Kube.{Service}
use scaleway_cloud_controlle.Scaleway.Slices.{items}
use scaleway_cloud_controlle.Scaleway.LoadBalancer.{Lb, PrivateNetwork, IpamIp}
use scaleway_cloud_controlle.Scaleway.Api.{
  Call, M, return, fail, lift, ◌>>=◌, ◌>>◌, send, or_fail, map_error, when,
}
use scaleway_cloud_controlle.Annotations.Network.{get_private_network_ids, get_private_ip_ids}
use scaleway_cloud_controlle.LoadBalancers.Nodes.{appended}
use scaleway_cloud_controlle.LoadBalancers.Controller.{Controller}

-- privateNetworkStatus
pub record Status : Type 0 where
  pub attached : Bool
  pub attached_ip_ids : List String
  pub desired_ip_ids : List String

abbrev pub Attachments : Type 0
Attachments = Dict String Status

abbrev pub unattached : Status
unattached = record { attached = false; attached_ip_ids = []; desired_ip_ids = [] }

unfoldable pub wanted_networks : List String → Attachments → Attachments
wanted_networks [] m = m
wanted_networks (pn_id ∷ ids) m = wanted_networks ids (insert pn_id unattached m)

-- The networks of the annotation, or the one of the controller.
unfoldable pub initial_attachments : String → Service → Bool → Attachments
initial_attachments pn_id service managed =
    let m = if managed then [] else wanted_networks (items (get_private_network_ids service)) [] in
    if is_empty m then insert pn_id unattached m else m

-- `if _, ok := set[id]; ok { out = append(out, id); delete(set, id) }`, for each ID.
unfoldable pub claim : List String → List String × List String → List String × List String
claim [] (desired, ids) = (desired, ids)
claim (id ∷ rest) (desired, ids) = claim rest (
    if any (λ x. x == id) ids
    then (desired ++ id ∷ [], select (λ x. not (x == id)) ids)
    else (desired, ids))

-- The wanted IPs that are attached already.
unfoldable pub match_attached : Attachments → List String → Attachments × List String
match_attached [] ids = ([], ids)
match_attached ((pn_id, status) ∷ m) ids =
    let (desired, left) = claim status.attached_ip_ids (status.desired_ip_ids, ids) in
    let (done, rest) = match_attached m left in
    ((pn_id, record status { desired_ip_ids = desired }) ∷ done, rest)

module _ (c : Controller) (lb : Lb) where
  open c use {api, packages}

  unfoldable pub detach : String → M (Unit {0})
  detach pn_id =
      or_fail
        (send (Call.detach_private_network lb.zone lb.id pn_id)
          (λ h. api.acknowledge h (Call.detach_private_network lb.zone lb.id pn_id)))
        (errorf "unable to detach private network")

  unfoldable pub attach : String → List String → M (Unit {0})
  attach pn_id ip_ids =
      or_fail
        (send (Call.attach_private_network lb.zone lb.id pn_id (appended ip_ids)) (λ h.
          api.acknowledge h (Call.attach_private_network lb.zone lb.id pn_id (appended ip_ids))))
        (errorf "unable to attach private network")

  -- The current attachments: a wanted one is marked, another one is detached.
  unfoldable pub mark_attached : Bool → List PrivateNetwork → Attachments → M Attachments
  mark_attached managed [] m = return m
  mark_attached managed (nic ∷ nics) m = elim (lookup nic.private_network_id m) [
    | some status ↦ mark_attached managed nics (
        insert nic.private_network_id
          (record status { attached = true; attached_ip_ids = items nic.ipam_ids }) m)
    | none ↦ do when (not managed) (detach nic.private_network_id); mark_attached managed nics m
  ]

  unfoldable pub list_network_ips : String → String → List String → M (List IpamIp)
  list_network_ips region pn_id ip_ids =
      map_error (wrapf "failed to list IPs for private network") (
        send (Call.list_network_ips region pn_id ip_ids)
          (λ h. api.ipam_ips h (Call.list_network_ips region pn_id ip_ids)))

  -- The wanted IPs that IPAM knows in a network.
  unfoldable pub query_networks : String → Attachments → List String → M (Attachments × List String)
  query_networks region [] ids = return ([], ids)
  query_networks region ((pn_id, status) ∷ m) ids = do
    found ← list_network_ips region pn_id ids
    let claimed = claim (map (λ ip. ip.id) found) (status.desired_ip_ids, ids)
    (done, rest) ← query_networks region m claimed.1
    return ((pn_id, record status { desired_ip_ids = claimed.0 }) ∷ done, rest)

  -- The networks of the IPs that are not attached yet; each must be found.
  unfoldable pub resolve_ips : Attachments × List String → M Attachments
  resolve_ips (m, []) = return m
  resolve_ips (m, id ∷ ids) = do
    region ← or_fail (lift (packages.zone_region lb.zone)) (errorf "error getting region")
    (done, rest) ← query_networks region m (id ∷ ids)
    lift (
        if is_empty rest
        then ok done
        else err (errorf "ips were not found in any configured private network"))

  unfoldable pub is_settled : Status → Bool
  is_settled status =
      status.attached
      && (is_empty status.desired_ip_ids
          || list_eq (sort status.attached_ip_ids) (sort status.desired_ip_ids))

  unfoldable pub reconcile_network : String → Status → M (Unit {0})
  reconcile_network pn_id status =
      if ltb 1 (length status.desired_ip_ids)
      then fail (errorf "at most one IP can be set per private network")
      else if is_settled status
      then return tt
      else when status.attached (detach pn_id) >> attach pn_id status.desired_ip_ids

  unfoldable pub reconcile_networks : Attachments → M (Unit {0})
  reconcile_networks [] = return tt
  reconcile_networks ((pn_id, status) ∷ m) = do reconcile_network pn_id status; reconcile_networks m

  unfoldable pub sync_private_networks : Service → Bool → M (Unit {0})
  sync_private_networks service managed = do
    nics ←
        or_fail
          (send (Call.list_lb_private_networks lb.zone lb.id)
            (λ h. api.private_networks h lb.zone lb.id))
          (errorf "error listing private networks of load balancer")
    marked ← mark_attached managed nics (initial_attachments c.pn_id service managed)
    resolved ← resolve_ips (match_attached marked (get_private_ip_ids service))
    reconcile_networks resolved

  unfoldable pub attach_private_networks : Service → Bool → M (Unit {0})
  attach_private_networks service managed =
      if c.pn_id == "" then return tt else sync_private_networks service managed
