-- ===== src/LoadBalancers/Controller/Laws.antt =====
-- The ID that the controller notes in a service, and the static IPs.
use scaleway_cloud_controlle.Base.{
  String, Bool, true, false, [], ◌∷◌, map, ok, ◌≡◌, refl, arith, is_empty, split, to_lower,
}
use Prim.Native.String.{◌++◌}
use mathlib.Core.List.{Perm}
use scaleway_cloud_controlle.Base.Sort.{perm_of_sort}
use scaleway_cloud_controlle.Base.Text.Laws.{Lacks, slash-append}
use text.Mathlib.TextLemmas.{nil-append, cons-append}
use scaleway_cloud_controlle.Base.Dict.{string_key, lookup-insert_self}
use scaleway_cloud_controlle.Kube.{Service}
use scaleway_cloud_controlle.Scaleway.Slices.{items}
use scaleway_cloud_controlle.Scaleway.LoadBalancer.{Lb}
use scaleway_cloud_controlle.Annotations.Keys
use scaleway_cloud_controlle.Annotations.Network.{get_load_balancer_id, id_parts, get_ip_ids}
use scaleway_cloud_controlle.LoadBalancers.Controller.{
  Controller, annotated, has_equal_load_balancer_static_ips,
}

split-Lacks : (s : String) → Lacks b'/' s → split b'/' s ≡ s ∷ []
unfolding split
split-Lacks String.[] h = refl
split-Lacks (String.◌∷◌ c s) (h, hs) = ground (arith, split-Lacks s hs)

split_at_slash :
    (s t : String) → Lacks b'/' s → Lacks b'/' t → split b'/' (s ++ ("/" ++ t)) ≡ s ∷ t ∷ []
unfolding split
split_at_slash String.[] t h k = rw (nil-append, slash-append t) (ground (arith, split-Lacks t k))
split_at_slash (String.◌∷◌ c s) t (h, hs) k =
    rw (cons-append c s ("/" ++ t)) (ground (arith, split_at_slash s t hs k))

-- The zone and the ID of a load balancer that the controller notes in a service are read back as
-- they are, if they are in lower case and without slashes, and the zone is no region.
pub get_load_balancer_id-annotated :
    (c : Controller) (service : Service) (lb : Lb) (is_region : String → Bool)
    → Lacks b'/' lb.zone
    → Lacks b'/' lb.id
    → to_lower (lb.zone ++ ("/" ++ lb.id)) ≡ lb.zone ++ ("/" ++ lb.id)
    → is_region lb.zone ≡ false
    → get_load_balancer_id is_region (annotated c service lb) ≡ ok (lb.zone, lb.id)
unfolding get_load_balancer_id annotated id_parts
get_load_balancer_id-annotated c service lb is_region hz hi lower zonal =
    rw
      (
        get_load_balancer_id,
        lookup-insert_self Keys.annotation_id (lb.zone ++ ("/" ++ lb.id)) service.annotations,
        lower,
        split_at_slash lb.zone lb.id hz hi,
        id_parts,
        zonal,
      )
      refl

-- For a service that names its static IPs by their IDs: hasEqualLoadBalancerStaticIPs accepts a load
-- balancer only if the IPs that it has are exactly those, in some order.
pub has_equal_load_balancer_static_ips-Perm :
    (service : Service) (lb : Lb)
    → is_empty (items (get_ip_ids service)) ≡ false
    → has_equal_load_balancer_static_ips service lb ≡ true
    → Perm (items (get_ip_ids service)) (map (λ ip. ip.id) lb.ip)
unfolding has_equal_load_balancer_static_ips
has_equal_load_balancer_static_ips-Perm service lb some_ids h =
    perm_of_sort (items (get_ip_ids service)) (map (λ ip. ip.id) lb.ip) (ground arith)
