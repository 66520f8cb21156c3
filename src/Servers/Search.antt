-- ===== src/Servers/Search.antt =====
-- The search for the one resource of a name, as getServerByName of scaleway/instances.go and of
-- scaleway/baremetal.go and getLoadbalancerByName of scaleway/loadbalancers.go make it.
pub mod Laws
use scaleway_cloud_controlle.Base.{
  String, Option, none, some, List, [], ◌∷◌, Result, ok, err, Error, instance_not_found,
  instance_duplicated, ◌>>=◌, ◌==◌, if◌then◌else◌, some_or,
}
use scaleway_cloud_controlle.Scaleway.Api.{is_404_error}

module _ {T : Type 0} (name_of : T → String) (duplicated : Error) where
  -- The loop over one list: a second match is an error.
  unfoldable pub match_name : String → Option T → List T → Result (Option T)
  match_name name found [] = ok found
  match_name name none (x ∷ xs) = match_name name (if name_of x == name then some x else none) xs
  match_name name (some found) (x ∷ xs) =
      let rest = match_name name (some found) xs in
      if name_of x == name then err duplicated else rest

-- A zone that the API does not know has no servers.
unfoldable pub zone_servers : {T : Type 0} → Result (List T) → Result (List T)
zone_servers (ok servers) = ok servers
zone_servers (err e) = if is_404_error e then ok [] else err e

module _ {T : Type 0} (name_of : T → String)
    (list_servers : String → String → Result (List T)) where
  -- The loop over the zones.
  unfoldable pub search_zones : String → Option T → List String → Result (Option T)
  search_zones name found [] = ok found
  search_zones name found (zone ∷ zones) = do
    servers ← zone_servers (list_servers zone name)
    next ← match_name name_of instance_duplicated name found servers
    search_zones name next zones

  unfoldable pub get_server_by_name : List String → String → Result T
  get_server_by_name zones name =
      if name == ""
      then err instance_not_found
      else search_zones name none zones >>= (λ found. some_or found instance_not_found)
