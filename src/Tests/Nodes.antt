-- ===== src/Tests/Nodes.antt =====
-- Examples of the nodes' servers.
use scaleway_cloud_controlle.Base.{
  String, false, List, [], ◌∷◌, concat, map, Result, ok, err, ◌≡◌, ◌↔◌, refl, resource_not_found,
  arith, eq_iff, All,
}
use scaleway_cloud_controlle.Servers.ProviderId.{server_info_from_provider_id, build_provider_id}
use scaleway_cloud_controlle.Servers.ProviderId.Laws.{server_info-build_provider_id}
use scaleway_cloud_controlle.Servers.Search.{
  match_name, search_zones, zone_servers, get_server_by_name,
}
use scaleway_cloud_controlle.Servers.Search.Laws.{get_server_by_name-only, only, named, Answers}
use scaleway_cloud_controlle.Servers.Instances
use scaleway_cloud_controlle.Servers.Instances.{Instances}
use scaleway_cloud_controlle.Servers.Baremetal
use scaleway_cloud_controlle.Servers.Baremetal.{Baremetal}
use scaleway_cloud_controlle.Servers.Dispatch.{instance_exists, has_no_lifecycle}
use scaleway_cloud_controlle.Servers.Dispatch.Laws.{IsGone, instance_exists-IsGone}
use scaleway_cloud_controlle.LoadBalancers.Nodes.{nodes_initialized}
use scaleway_cloud_controlle.LoadBalancers.Nodes.Laws.{IsSettled, nodes_initialized-IsSettled}
use scaleway_cloud_controlle.Tests.{some_node}

server_info-build_provider_id_example :
    server_info_from_provider_id (build_provider_id "instance" "fr-par-1" "11111111")
    ≡ ok ("instance", "fr-par-1", "11111111")
server_info-build_provider_id_example =
    server_info-build_provider_id "instance" "fr-par-1" "11111111"
      (λ e. ground (arith, (eq_iff _ "").1 e)) (omega arith) (omega arith) (omega arith)
      (omega arith) (omega arith)

-- Two zones with servers, of which the second has two of one name.
abbrev two_zones : String → List String
two_zones zone = "a" ∷ zone ∷ "b" ∷ zone ∷ []

abbrev zones : List String
zones = "z1" ∷ "z2" ∷ []

abbrev server_names : String → String → Result (List String)
server_names zone name = ok (two_zones zone)

zones-Answers : Answers (λ s. s) server_names "z2" two_zones zones
unfolding zone_servers
zones-Answers = (refl, (refl, tt))

get_server_by_name-only_example :
    get_server_by_name (λ s. s) server_names zones "z2"
    ≡ only (λ s. s) (named (λ s. s) "z2" (concat (map two_zones zones)))
get_server_by_name-only_example =
    get_server_by_name-only (λ s. s) server_names "z2" two_zones zones
      (λ e. ground (arith, (eq_iff "z2" "").1 e)) zones-Answers

-- APIs without servers.
abbrev pub no_instances : Instances
no_instances = record {
  list_servers = λ zone name. ok [];
  get_server = λ zone id. err resource_not_found;
  list_nic_ips = λ p n r. ok [];
  zones = "fr-par-1" ∷ [];
  zone_region = λ z. ok "fr-par";
  pn_id = "";
}

abbrev pub no_baremetal : Baremetal
no_baremetal = record {
  list_servers = λ zone name. ok [];
  get_server = λ id zone. err resource_not_found;
  get_offer = λ id zone. err resource_not_found;
  zones = "fr-par-2" ∷ [];
  zone_region = λ z. ok "fr-par";
}

instance_exists-IsGone_example :
    (instance_exists (Instances.instances no_instances) (Baremetal.baremetal no_baremetal) some_node
      ≡ ok false)
    ↔ ((has_no_lifecycle some_node ≡ false) × IsGone no_instances no_baremetal some_node)
instance_exists-IsGone_example = instance_exists-IsGone no_instances no_baremetal some_node

-- The node of the example is gone indeed.
some_node-IsGone : IsGone no_instances no_baremetal some_node
unfolding Instances.by_name get_server_by_name search_zones zone_servers match_name
    Baremetal.by_name
some_node-IsGone = (refl, refl)

nodes_initialized-IsSettled_example :
    (nodes_initialized 10 false (some_node ∷ []) ≡ ok tt)
    ↔ All (IsSettled 10 false) (some_node ∷ [])
nodes_initialized-IsSettled_example = nodes_initialized-IsSettled 10 false (some_node ∷ [])
