-- ===== src/Annotations/Values/Laws.antt =====
-- The conversion of counts to 32 bits.
use scaleway_cloud_controlle.Base.{
  ℕ, pos, negsuc, String, some, ok, ◌≡◌, arith, ◌<◌, ◌^◌, ◌-◌, if◌then◌else◌, ltb, ◌∙◌, ap,
}
use scaleway_cloud_controlle.Base.Int.{to_int32}
use scaleway_cloud_controlle.Base.Parse.{atoi}
use scaleway_cloud_controlle.Base.Dict.{lookup, string_key}
use scaleway_cloud_controlle.Kube.{Service}
use scaleway_cloud_controlle.Annotations.Keys
use scaleway_cloud_controlle.Annotations.Values.{get_max_connections}

to_int32-wraps :
    (n : ℕ)
    → n < 2 ^ 32
    → to_int32 (pos n) ≡ (if ltb n (2 ^ 31) then pos n else negsuc (2 ^ 32 - 1 - n))
unfolding to_int32
to_int32-wraps n h = ground arith

-- A number of connections below 2 ^ 31 is the one of the annotation. From there to 2 ^ 32 - 1 the
-- annotation is no error, and its number turns negative.
pub get_max_connections-atoi :
    (service : Service) (text : String) (n : ℕ)
    → lookup Keys.annotation_max_connections service.annotations ≡ some text
    → atoi text ≡ some (pos n)
    → n < 2 ^ 32
    → get_max_connections service
      ≡ ok (some (if ltb n (2 ^ 31) then pos n else negsuc (2 ^ 32 - 1 - n)))
unfolding get_max_connections
get_max_connections-atoi service text n h k small =
    let e : get_max_connections service ≡ ok (some (to_int32 (pos n))) = ground arith in
    e ∙ ap (λ i. ok (some i)) (to_int32-wraps n small)
