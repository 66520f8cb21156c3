-- ===== src/Tests/Resources.antt =====
-- Examples of the resources of a load balancer, and of its access rules.
use scaleway_cloud_controlle.Base.Sort.{insert_sorted, sort, list_eq}
use scaleway_cloud_controlle.Base.{
  ◌==◌, ℤ, pos, String, true, none, some, List, [], ◌∷◌, map, ◌≡◌, refl, has_prefix, All, concat,
  is_some, arith,
}
use mathlib.Core.List.{Perm}
use mathlib.Core.Option
use scaleway_cloud_controlle.Base.Dict.{Dict, lookup, int_key}
use scaleway_cloud_controlle.Scaleway.LoadBalancer.{Frontend, Backend, deny}
use scaleway_cloud_controlle.LoadBalancers.Equality.{
  string_array_equal, ptr_equal, frontend_head_equals, frontend_equals, backend_equals,
}
use scaleway_cloud_controlle.LoadBalancers.Equality.Laws.{
  frontend_equals_sound, backend_equals_sound,
}
use scaleway_cloud_controlle.LoadBalancers.Compare.Laws.{
  compare_resources-operations, compare_resources-remove, operations, bit,
}
use scaleway_cloud_controlle.LoadBalancers.Convert.Laws.{service_to_lb-HasPorts, AreKeyed, HasPorts}
use scaleway_cloud_controlle.LoadBalancers.Acls.{chunk_array, make_acl_specs, whitelist}
use scaleway_cloud_controlle.LoadBalancers.Acls.Laws.{
  chunk_array-concat, IsChunk, make_acl_specs-whitelist, decision, listed_or_denied, allowed,
  indices, final_action,
}
use scaleway_cloud_controlle.Tests.{
  some_packages, plain_service, guarded_service, some_node, some_frontend, some_backend,
}
use scaleway_cloud_controlle.LoadBalancers.Compare.{compare_resources, adopt_frontend}
use scaleway_cloud_controlle.Tests.Calls.{plain_maps, plain_service-maps}

abbrev wanted : Dict ℤ Frontend
wanted = (pos 80, some_frontend) ∷ (pos 443, record some_frontend { inbound_port = pos 443 }) ∷ []

-- Two frontends on one port, the second of them to be removed.
abbrev current : List Frontend
current = some_frontend ∷ record some_frontend { id = "f2" } ∷ []

compare_resources-operations_example :
    operations (pos 443) (
      compare_resources
        (λ f. f.name)
        (λ f. f.inbound_port)
        frontend_equals
        adopt_frontend
        wanted
        current
        "u1_")
    ≡ bit (is_some (lookup (pos 443) wanted))
compare_resources-operations_example =
    compare_resources-operations (λ f. f.name) (λ f. f.inbound_port) frontend_equals adopt_frontend
      wanted current "u1_" (pos 443) (refl, (refl, tt))

compare_resources-remove_example :
    All
      (λ (f : Frontend). (f.inbound_port ≡ pos 80) × (has_prefix f.name "u1_" ≡ true))
      (compare_resources
        (λ f. f.name)
        (λ f. f.inbound_port)
        frontend_equals
        adopt_frontend
        wanted
        current
        "u1_").remove
compare_resources-remove_example =
    compare_resources-remove (λ f. f.name) (λ f. f.inbound_port) frontend_equals adopt_frontend
      wanted (λ f. f.inbound_port ≡ pos 80) "u1_" current (refl, (refl, tt))

service_to_lb-HasPorts_example :
    AreKeyed some_packages plain_service plain_maps
    × HasPorts some_packages plain_service plain_service.ports ([], []) plain_maps
service_to_lb-HasPorts_example =
    service_to_lb-HasPorts some_packages plain_service none plain_maps plain_service-maps

-- The certificates in another order.
abbrev with_certificates : List String → Frontend
with_certificates ids = record some_frontend { certificate_ids = some ids }

abbrev doubled : Frontend
doubled = with_certificates ("c1" ∷ "c2" ∷ [])

abbrev reordered : Frontend
reordered = with_certificates ("c2" ∷ "c1" ∷ [])

some_frontend-equals : frontend_equals reordered doubled ≡ true
unfolding frontend_equals frontend_head_equals ptr_equal string_array_equal list_eq sort
    insert_sorted
some_frontend-equals = refl

frontend_equals_sound_example :
    (reordered.name ≡ doubled.name)
    × (reordered.inbound_port ≡ doubled.inbound_port)
    × (reordered.backend_forward_port ≡ doubled.backend_forward_port)
    × (reordered.timeout_client ≡ doubled.timeout_client)
    × Perm {A = String} ("c2" ∷ "c1" ∷ []) ("c1" ∷ "c2" ∷ [])
    × (reordered.connection_rate_limit ≡ doubled.connection_rate_limit)
    × (reordered.enable_access_logs ≡ doubled.enable_access_logs)
    × (reordered.enable_http3 ≡ doubled.enable_http3)
frontend_equals_sound_example = frontend_equals_sound reordered doubled some_frontend-equals

-- A backend with servers, which the comparison does not look at.
abbrev pooled : Backend
pooled = record some_backend { id = "b2"; pool = some ("10.0.0.1" ∷ []) }

pooled-equals : backend_equals some_packages pooled some_backend ≡ true
unfolding backend_equals ptr_equal
pooled-equals = refl

backend_equals_sound_example :
    (pooled.name ≡ some_backend.name)
    × (pooled.forward_port ≡ some_backend.forward_port)
    × (pooled.forward_port_algorithm ≡ some_backend.forward_port_algorithm)
    × (pooled.sticky_sessions ≡ some_backend.sticky_sessions)
    × (pooled.sticky_sessions_cookie_name ≡ some_backend.sticky_sessions_cookie_name)
    × (pooled.ssl_bridging ≡ some_backend.ssl_bridging)
    × (pooled.ignore_ssl_server_verify ≡ some_backend.ignore_ssl_server_verify)
    × (pooled.timeout_server ≡ some_backend.timeout_server)
    × (pooled.timeout_connect ≡ some_backend.timeout_connect)
    × (pooled.timeout_tunnel ≡ some_backend.timeout_tunnel)
    × (Option.map some_packages.to_time_duration pooled.timeout_queue
        ≡ Option.map some_packages.to_time_duration some_backend.timeout_queue)
    × (pooled.on_marked_down_action ≡ some_backend.on_marked_down_action)
    × (pooled.redispatch_attempt_count ≡ some_backend.redispatch_attempt_count)
    × (pooled.max_connections ≡ some_backend.max_connections)
    × (pooled.max_retries ≡ some_backend.max_retries)
    × (pooled.failover_host ≡ some_backend.failover_host)
backend_equals_sound_example = backend_equals_sound some_packages pooled some_backend pooled-equals

chunk_array-concat_example :
    (concat (chunk_array ("a" ∷ "b" ∷ "c" ∷ []) 2) ≡ "a" ∷ "b" ∷ "c" ∷ [])
    × All (IsChunk 2) (chunk_array ("a" ∷ "b" ∷ "c" ∷ []) 2)
chunk_array-concat_example = chunk_array-concat ("a" ∷ "b" ∷ "c" ∷ []) 2 (omega arith)

make_acl_specs-whitelist_example :
    (decision
        (λ subnet. subnet == "0.0.0.0/0")
        (make_acl_specs some_packages.is_cidr guarded_service (some_node ∷ []) some_frontend)
      ≡ listed_or_denied
          (λ subnet. subnet == "0.0.0.0/0")
          (whitelist some_packages.is_cidr guarded_service (some_node ∷ [])))
    × (allowed (make_acl_specs some_packages.is_cidr guarded_service (some_node ∷ []) some_frontend)
        ≡ whitelist some_packages.is_cidr guarded_service (some_node ∷ []))
    × (map
          (λ a. a.index)
          (make_acl_specs some_packages.is_cidr guarded_service (some_node ∷ []) some_frontend)
        ≡ indices 0
            (make_acl_specs some_packages.is_cidr guarded_service (some_node ∷ []) some_frontend))
    × (final_action
          (make_acl_specs some_packages.is_cidr guarded_service (some_node ∷ []) some_frontend)
        ≡ some deny)
make_acl_specs-whitelist_example =
    make_acl_specs-whitelist some_packages.is_cidr guarded_service (some_node ∷ []) some_frontend
      refl (λ subnet. subnet == "0.0.0.0/0")
