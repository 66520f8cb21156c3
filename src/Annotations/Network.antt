-- ===== src/Annotations/Network.antt =====
-- scaleway/loadbalancers_annotations.go: the identity, the zone and the networks of a load
-- balancer, and the labels of its target nodes.
pub mod Laws
use scaleway_cloud_controlle.Base.{
  String, Bool, true, false, none, some, List, [], ◌∷◌, Result, ok, err, errorf, invalid_annotation,
  invalid_load_balancer_id, ◌>>=◌, ◌==◌, if◌then◌else◌, any, to_lower, split,
}
use Prim.Native.String.{◌++◌}
use scaleway_cloud_controlle.Base.Text.{trim_space}
use scaleway_cloud_controlle.Base.Dict.{Dict, lookup, insert, string_key}
use scaleway_cloud_controlle.Kube.{Service}
use scaleway_cloud_controlle.Scaleway.Slices.{Slice}
use scaleway_cloud_controlle.Annotations.Keys
use scaleway_cloud_controlle.Annotations.Ports.{annotation}

-- The two parts of "zone/id"; validation.IsRegion is the first argument.
unfoldable pub id_parts : (String → Bool) → List String → Result (String × String)
id_parts is_region (zone ∷ id ∷ []) = ok (if is_region zone then (zone ++ "-1", id) else (zone, id))
id_parts is_region _ = err invalid_load_balancer_id

unfoldable pub get_load_balancer_id : (String → Bool) → Service → Result (String × String)
get_load_balancer_id is_region service = elim (lookup Keys.annotation_id service.annotations) [
  | none ↦ err invalid_annotation
  | some v ↦ id_parts is_region (split b'/' (to_lower v))
]

-- A comma separated list; nil if the annotation is missing or empty.
abbrev pub comma_list : String → Service → Slice String
comma_list key service =
    let value = annotation key service in if value == "" then none else some (split b',' value)

unfoldable pub get_ip_ids : Service → Slice String
get_ip_ids = comma_list Keys.annotation_ip_ids

unfoldable pub get_private_network_ids : Service → Slice String
get_private_network_ids = comma_list Keys.annotation_private_network_ids

-- `sets.New(…)`: a set as a list without repetitions.
unfoldable pub add_to_set : String → List String → List String
add_to_set x xs = if any (λ y. y == x) xs then xs else x ∷ xs

unfoldable pub new_set : List String → List String
new_set [] = []
new_set (x ∷ xs) = add_to_set x (new_set xs)

unfoldable pub get_private_ip_ids : Service → List String
get_private_ip_ids service =
    let value = annotation Keys.annotation_private_ip_ids service in
    if value == "" then [] else new_set (split b',' value)

-- The loop of getFlexibleIPTypes.
unfoldable pub flexible_loop : Bool → Bool → List String → Result (Bool × Bool)
flexible_loop v4 v6 [] = ok (v4, v6)
flexible_loop v4 v6 (ip_type ∷ rest) =
    let t = to_lower (trim_space ip_type) in
    let with_v4 = flexible_loop true v6 rest in
    let with_v6 = flexible_loop v4 true rest in
    if t == "ipv4"
    then with_v4
    else if t == "ipv6"
    then with_v6
    else err (errorf "unsupported value")

unfoldable pub require_v4 : Bool × Bool → Result (Bool × Bool)
require_v4 (true, v6) = ok (true, v6)
require_v4 (false, v6) = err (errorf "an IPv4 is always required")

unfoldable pub get_flexible_ip_types : Service → Result (Bool × Bool)
get_flexible_ip_types service =
    let types = annotation Keys.annotation_flexible_ip_types service in
    if types == ""
    then ok (true, false)
    else flexible_loop false false (split b',' types) >>= require_v4

-- One "Key=Val" of getKeyValueFromAnnotation; what stands behind a second "=" is dropped.
unfoldable pub add_tag : Dict String String → List String → Dict String String
add_tag tags [] = tags
add_tag tags (key ∷ []) = if key == "" then tags else insert key "" tags
add_tag tags (key ∷ value ∷ _) = if key == "" then tags else insert key value tags

unfoldable pub tag_loop : Dict String String → List String → Dict String String
tag_loop tags [] = tags
tag_loop tags (tag_set ∷ rest) = tag_loop (add_tag tags (split b'=' (trim_space tag_set))) rest

unfoldable pub get_key_value_from_annotation : String → Dict String String
get_key_value_from_annotation text = tag_loop [] (split b',' (trim_space text))
