-- ===== src/Servers/ProviderId.antt =====
-- scaleway/servers.go: provider IDs. The regular expression
-- "scaleway://((?P<product>.*?)/(?P<localization>.*?)/(?P<uuid>.*)|(?P<uuid>.*))" finds its first
-- occurrence anywhere in the text, matches no line break, and prefers its first alternative.
pub mod Laws
use scaleway_cloud_controlle.Base.{
  nat_eq, String, Bool, Option, none, some, Result, ok, err, bad_provider_id, ◌==◌, ◌≡◌, refl,
  if◌then◌else◌, has_prefix,
}
use Prim.Native.Char.{code}
use Prim.Native.String.{◌++◌}
use scaleway_cloud_controlle.Base.Text.{drop_prefix, cut}

abbrev pub marker : String
marker = "scaleway://"

-- What stands behind the first occurrence of the marker.
unfoldable pub after_marker : String → Option String
after_marker String.[] = none
after_marker (String.◌∷◌ c s) =
    let rest = after_marker s in
    if has_prefix (String.◌∷◌ c s) marker then some (drop_prefix (String.◌∷◌ c s) marker) else rest

-- `.*`: a text up to its first line break.
unfoldable pub first_line : String → String
first_line String.[] = ""
first_line (String.◌∷◌ c s) =
    let rest = String.◌∷◌ c (first_line s) in if nat_eq (code c) 10 then "" else rest

abbrev pub ServerInfo : Type 0
ServerInfo = String × String × String

abbrev pub instance_type_instance : String
instance_type_instance = "instance"

abbrev pub instance_type_baremetal : String
instance_type_baremetal = "baremetal"

-- The three groups if there are two slashes, else the ID alone.
unfoldable pub groups : String → Option (String × String) → ServerInfo
groups line none = ("", "", line)
groups line (some (product, rest)) = elim (cut b'/' rest) [
  | none ↦ ("", "", line)
  | some (localization, uuid) ↦ (product, localization, uuid)
]

-- An empty group is missing from the result, and a missing product is an instance.
unfoldable pub with_product : ServerInfo → ServerInfo
with_product (product, localization, uuid) =
    (if product == "" then instance_type_instance else product, localization, uuid)

unfoldable pub server_info_of : Option String → Result ServerInfo
server_info_of none = err bad_provider_id
server_info_of (some s) = ok (with_product (groups (first_line s) (cut b'/' (first_line s))))

unfoldable pub server_info_from_provider_id : String → Result ServerInfo
server_info_from_provider_id provider_id = server_info_of (after_marker provider_id)

unfoldable pub build_provider_id : String → String → String → String
build_provider_id product localization id =
    marker ++ (product ++ ("/" ++ (localization ++ ("/" ++ id))))

-- getImplementationByProviderID: whether the baremetal implementation is chosen.
unfoldable pub is_baremetal_id : String → Bool
is_baremetal_id provider_id = has_prefix provider_id "scaleway://baremetal"

server_infos :
    (server_info_from_provider_id "scaleway://baremetal/fr-par-2/x/y"
      ≡ ok ("baremetal", "fr-par-2", "x/y"))
    × (server_info_from_provider_id "scaleway://x" ≡ ok ("instance", "", "x"))
    × (server_info_from_provider_id "scaleway://fr-par-1/x" ≡ ok ("instance", "", "fr-par-1/x"))
    × (server_info_from_provider_id "aws://x" ≡ err bad_provider_id)
unfolding server_info_from_provider_id server_info_of with_product groups first_line after_marker
    cut has_prefix drop_prefix
server_infos = (refl, refl, refl, refl)
