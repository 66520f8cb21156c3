-- ===== src/LoadBalancers/Ensure/Laws.antt =====
-- What EnsureLoadBalancer guarantees, and what it refuses before it calls anything.
use scaleway_cloud_controlle.Base.{
  load_balancer_not_found, Bool, true, false, is_empty, ok, err, ◌≡◌, ◌⊎◌, is_some,
}
use scaleway_cloud_controlle.Kube.{Service}
use scaleway_cloud_controlle.Scaleway.LoadBalancer.{Lb}
use scaleway_cloud_controlle.Scaleway.Api.{History}
use scaleway_cloud_controlle.Annotations.Values.{svc_private}
use scaleway_cloud_controlle.LoadBalancers.Controller.{
  Controller, has_load_balancer_static_ips, has_equal_load_balancer_static_ips,
}
use scaleway_cloud_controlle.LoadBalancers.Lifecycle.{
  fetch_load_balancer, create_load_balancer, delete_load_balancer,
}

module _ (c : Controller) (service : Service) where
  -- A load balancer of the service, and the history with it: it is found, or it is created because
  -- there was none.
  abbrev pub IsObtained : History → Lb → History → Type 0
  IsObtained h lb later =
      (fetch_load_balancer c service h ≡ (ok lb, later))
      ⊎ ((missed : History) × (fetch_load_balancer c service h
            ≡ (err load_balancer_not_found, missed))
          × (create_load_balancer c service missed ≡ (ok lb, later)))

  -- It has IPs if and only if it is public, and exactly the static ones if there are any.
  abbrev pub Fits : Bool → Lb → Type 0
  Fits private lb =
      (is_empty lb.ip ≡ private)
      × ((has_load_balancer_static_ips service ≡ false)
          ⊎ (has_equal_load_balancer_static_ips service lb ≡ true))

  -- Another one takes its place: that is deleted, and then this one is created.
  abbrev pub IsReplaced : Lb → History → Lb → History → Type 0
  IsReplaced existing h lb later =
      (deleted : History) × (delete_load_balancer c service existing h ≡ (ok tt, deleted))
      × (create_load_balancer c service deleted ≡ (ok lb, later))

  -- The one that is found or created is kept if others manage it or if it fits, and else replaced.
  abbrev pub IsChosen : Bool → Bool → History → Lb → History → Type 0
  IsChosen managed private h lb later =
      (existing : Lb) × (found : History) × IsObtained h existing found
      × ((((managed ≡ true) ⊎ Fits private existing) × (lb ≡ existing) × (later ≡ found))
          ⊎ ((managed ≡ false) × ¬ Fits private existing × IsReplaced existing found lb later))

  -- The services that are refused.
  abbrev pub IsRefused : Type 0
  IsRefused =
      (is_some service.load_balancer_class ≡ true)
      ⊎ ((svc_private service ≡ ok true)
          × ((c.pn_id ≡ "") ⊎ (has_load_balancer_static_ips service ≡ true)))
