-- ===== src/LoadBalancers/Update/Convergence.antt =====
-- The reconciliation of frontends and backends reaches a fixed point in one step.
use scaleway_cloud_controlle.Base.{
  ℤ, String, Bool, true, false, List, ok, ◌≡◌, refl, All-mono, has_prefix,
}
use Prim.Native.String.{◌++◌}
use scaleway_cloud_controlle.Base.Text.Laws.{has_prefix_empty}
use scaleway_cloud_controlle.Base.Dict.{Dict, int_key}
use scaleway_cloud_controlle.Kube.{Service}
use scaleway_cloud_controlle.Scaleway.Slices.{Slice}
use scaleway_cloud_controlle.Scaleway.Packages.{Packages}
use scaleway_cloud_controlle.Scaleway.LoadBalancer.{Frontend, Backend}
use scaleway_cloud_controlle.LoadBalancers.Convert.{service_to_lb}
use scaleway_cloud_controlle.LoadBalancers.Convert.Laws.{service_to_lb-HasPorts}
use scaleway_cloud_controlle.LoadBalancers.Convert.Ownership.{service_to_lb-AreOwn}
use scaleway_cloud_controlle.LoadBalancers.Equality.{
  frontend_equals, frontend_head_equals, backend_equals,
}
use scaleway_cloud_controlle.LoadBalancers.Equality.Reflexive.{
  backend_equals-adopted, frontend_equals-certificates, string_array_equal-sort_if,
  string_array_equal-IsReflexive,
}
use scaleway_cloud_controlle.LoadBalancers.Compare.{
  compare_frontends, compare_backends, adopt_frontend, adopt_backend,
}
use scaleway_cloud_controlle.LoadBalancers.Compare.Rounds.{IsQuiet}
use scaleway_cloud_controlle.LoadBalancers.Compare.Soundness.{IsUpdatable}
use scaleway_cloud_controlle.LoadBalancers.Compare.Convergence.{
  carried_out, compare_resources-converges,
}
use scaleway_cloud_controlle.LoadBalancers.Update.{prefix_filter}

-- Each own name has the prefix of the resources that may be touched.
own_name-filtered :
    (service : Service) (managed : Bool) (name : String)
    → has_prefix name (service.uid ++ "_") ≡ true
    → has_prefix name (prefix_filter service managed) ≡ true
unfolding prefix_filter
own_name-filtered service true name own = own
own_name-filtered service false name own = has_prefix_empty name

module _ (packages : Packages) (service : Service) (node_ips : Slice String) (managed : Bool)
    (maps : Dict ℤ Frontend × Dict ℤ Backend)
    (wanted : service_to_lb packages service node_ips ≡ ok maps) where
  frontends-IsUpdatable :
      IsUpdatable
        (λ f. f.name)
        (λ f. f.inbound_port)
        frontend_equals
        adopt_frontend
        maps.0
        (prefix_filter service managed)
  unfolding adopt_frontend
  frontends-IsUpdatable =
      let own = service_to_lb-AreOwn packages service node_ips maps wanted in
      record {
        keyed = (service_to_lb-HasPorts packages service node_ips maps wanted).0.0;
        distinct = own.0.0;
        named = All-mono (λ entry. own_name-filtered service managed entry.1.name) maps.0 own.0.1;
        adopt_port = λ current target. refl;
        adopt_name = λ current target. refl;
        adopt_equals = λ current target. frontend_equals-certificates current.id _ target (
            string_array_equal-sort_if (frontend_head_equals current target)
              target.certificate_ids);
        equals_self = λ target.
            frontend_equals-certificates target.id target.certificate_ids target
              (string_array_equal-IsReflexive target.certificate_ids);
      }

  backends-IsUpdatable :
      IsUpdatable
        (λ b. b.name)
        (λ b. b.forward_port)
        (backend_equals packages)
        adopt_backend
        maps.1
        (prefix_filter service managed)
  unfolding adopt_backend
  backends-IsUpdatable =
      let own = service_to_lb-AreOwn packages service node_ips maps wanted in
      record {
        keyed = (service_to_lb-HasPorts packages service node_ips maps wanted).0.1;
        distinct = own.1.0;
        named = All-mono (λ entry. own_name-filtered service managed entry.1.name) maps.1 own.1.1;
        adopt_port = λ current target. refl;
        adopt_name = λ current target. refl;
        adopt_equals = λ current target. backend_equals-adopted packages current.id target;
        equals_self = λ target. backend_equals-adopted packages target.id target;
      }

  -- Whatever frontends and backends a load balancer has: once the operations are carried out that
  -- the comparison with the resources of a service asks for, the next comparison with them asks
  -- for no removal, no update and no creation.
  pub compare-converges :
      (got_frontends : List Frontend) (got_backends : List Backend)
      → IsQuiet (
          compare_frontends
            (carried_out
              (λ f. f.name)
              (prefix_filter service managed)
              got_frontends
              (compare_frontends got_frontends maps.0 (prefix_filter service managed)))
            maps.0
            (prefix_filter service managed))
        × IsQuiet (
            compare_backends packages
              (carried_out
                (λ b. b.name)
                (prefix_filter service managed)
                got_backends
                (compare_backends packages got_backends maps.1 (prefix_filter service managed)))
              maps.1
              (prefix_filter service managed))
  unfolding compare_frontends compare_backends
  compare-converges got_frontends got_backends = (
    compare_resources-converges _ _ _ _ maps.0 (prefix_filter service managed) frontends-IsUpdatable
        got_frontends,
    compare_resources-converges _ _ _ _ maps.1 (prefix_filter service managed) backends-IsUpdatable
        got_backends,
  )
