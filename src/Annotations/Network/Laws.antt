-- ===== src/Annotations/Network/Laws.antt =====
-- The types of the IPs that a new load balancer books.
use scaleway_cloud_controlle.Base.{
  Bool, true, false, ok, ◌≡◌, arith, ◌==◌, split, ◌>>=◌, >>=-eq-ok, Bool-cases, inl, inr,
}
use scaleway_cloud_controlle.Kube.{Service}
use scaleway_cloud_controlle.Annotations.Keys
use scaleway_cloud_controlle.Annotations.Ports.{annotation}
use scaleway_cloud_controlle.Annotations.Network.{flexible_loop, require_v4, get_flexible_ip_types}

require_v4-ok : (types chosen : Bool × Bool) → require_v4 types ≡ ok chosen → chosen.0 ≡ true
unfolding require_v4
require_v4-ok (true, v6) chosen h = ground arith
require_v4-ok (false, v6) chosen h = cc

-- Whatever the annotation says, a choice of IP types that is accepted has an IPv4.
pub get_flexible_ip_types-v4 :
    (service : Service) (chosen : Bool × Bool)
    → get_flexible_ip_types service ≡ ok chosen
    → chosen.0 ≡ true
unfolding get_flexible_ip_types
get_flexible_ip_types-v4 service chosen h =
    elim (Bool-cases (annotation Keys.annotation_flexible_ip_types service == "")) [
      | inl blank ↦ ground arith
      | inr given ↦
          let types =
            flexible_loop false false
              (split b',' (annotation Keys.annotation_flexible_ip_types service)) in
          let e : (types >>= require_v4) ≡ ok chosen = ground arith in
          let (t, _, last) = >>=-eq-ok types require_v4 e in require_v4-ok t chosen last
    ]
