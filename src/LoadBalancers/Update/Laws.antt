-- ===== src/LoadBalancers/Update/Laws.antt =====
-- One round of the update for a port that the service does not want on the load balancer.
use scaleway_cloud_controlle.Base.{
  ℤ, int_eq, String, false, ◌&&◌, none, List, ok, err, ◌≡◌, refl, arith, is_some, any, errorf, ◌∙◌,
}
use scaleway_cloud_controlle.Base.Dict.{Dict, lookup, int_key}
use scaleway_cloud_controlle.Kube.{Service, ServicePort, Node, is_tcp}
use scaleway_cloud_controlle.Scaleway.Slices.{Slice}
use scaleway_cloud_controlle.Scaleway.LoadBalancer.{Lb, Frontend, Backend}
use scaleway_cloud_controlle.Scaleway.Api.{History, ◌>>=◌, ◌>>◌}
use scaleway_cloud_controlle.LoadBalancers.Controller.{Controller}
use scaleway_cloud_controlle.LoadBalancers.Equality.{backend_equals}
use scaleway_cloud_controlle.LoadBalancers.Convert.{service_to_lb}
use scaleway_cloud_controlle.LoadBalancers.Convert.Laws.{service_to_lb-HasPorts}
use scaleway_cloud_controlle.LoadBalancers.Compare.{Ops, compare_backends, adopt_backend}
use scaleway_cloud_controlle.LoadBalancers.Compare.Laws.{
  compare_resources-operations, operations, bit,
}
use scaleway_cloud_controlle.LoadBalancers.Update.{
  port_backend, updated_backend, created_backend, kept, update_port,
}

no_operations :
    {T : Type 0} (p : ℤ) (ops : Ops T)
    → operations p ops ≡ 0
    → (lookup p ops.update ≡ none) × (lookup p ops.create ≡ none) × (lookup p ops.keep ≡ none)
no_operations p ops h = (ground arith, ground arith, ground arith)

module _ (c : Controller) (lb : Lb) (service : Service) (nodes : List Node) where
  port_backend-none :
      (ops : Ops Backend) (targets : Slice String) (port : ServicePort) (h : History)
      → operations port.node_port ops ≡ 0
      → port_backend c lb service nodes ops targets port h ≡ (err (errorf "undefined backend"), h)
  unfolding port_backend updated_backend created_backend kept ◌>>=◌
  port_backend-none ops targets port h z =
      let (u, n, k) = no_operations port.node_port ops z in rw (u, n, k) refl

  -- A port of the service whose node port is not the node port of a TCP port ends the update with
  -- an error, at once and whatever the load balancer has, although serviceToLB passes it over.
  pub update_port-not_tcp :
      (fops : Ops Frontend) (got : List Backend) (prefix : String) (node_ips targets : Slice String)
      (maps : Dict ℤ Frontend × Dict ℤ Backend) (port : ServicePort) (h : History)
      → service_to_lb c.packages service node_ips ≡ ok maps
      → any (λ q. is_tcp q.protocol && int_eq q.node_port port.node_port) service.ports ≡ false
      → update_port c lb service nodes fops
          (compare_backends c.packages got maps.1 prefix)
          targets
          port
          h
        ≡ (err (errorf "undefined backend"), h)
  unfolding update_port compare_backends lookup ◌>>=◌ ◌>>◌
  update_port-not_tcp fops got prefix node_ips targets maps port h wanted not_tcp =
      let (keyed, ports) = service_to_lb-HasPorts c.packages service node_ips maps wanted in
      let count =
        compare_resources-operations (λ b. b.name) (λ b. b.forward_port) (backend_equals c.packages)
          adopt_backend maps.1 got prefix port.node_port keyed.1 in
      let unwanted : bit (is_some (lookup port.node_port maps.1)) ≡ 0 =
        ground (arith, (ports port.node_port).1, not_tcp) in
      rw
        (port_backend-none (compare_backends c.packages got maps.1 prefix) targets port h
          (count ∙ unwanted))
        refl
