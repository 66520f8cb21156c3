-- ===== src/LoadBalancers/Convert/Laws.antt =====
-- The maps of wanted resources have the TCP ports of the service as their keys.
use scaleway_cloud_controlle.Base.{
  ℤ, int_eq, String, true, ◌&&◌, ◌||◌, List, [], ◌∷◌, ok, >>=-eq-ok, Result-cases, ◌≡◌, arith,
  is_some, any, Bool-cases, inl, inr,
}
use scaleway_cloud_controlle.Base.Dict.{
  Dict, lookup, insert, int_key, lookup-insert, IsKeyed, insert-IsKeyed,
}
use scaleway_cloud_controlle.Kube.{Service, ServicePort, is_tcp}
use scaleway_cloud_controlle.Scaleway.Slices.{Slice}
use scaleway_cloud_controlle.Scaleway.Packages.{Packages}
use scaleway_cloud_controlle.Scaleway.LoadBalancer.{Frontend, Backend}
use scaleway_cloud_controlle.LoadBalancers.Convert.{
  resource_name, service_port_to_frontend, service_port_to_backend, add_port, add_ports,
  service_to_lb,
}

module _ (packages : Packages) (service : Service) where
  frontend-port :
      (port : ServicePort) (f : Frontend)
      → service_port_to_frontend packages service port ≡ ok f
      → f.inbound_port ≡ port.port
  unfolding service_port_to_frontend
  frontend-port port f h = ground arith

  backend-port :
      (port : ServicePort) (node_ips : Slice String) (b : Backend)
      → service_port_to_backend packages service port node_ips ≡ ok b
      → b.forward_port ≡ port.node_port
  unfolding service_port_to_backend
  backend-port port node_ips b h = ground arith

  frontend-name :
      (port : ServicePort) (f : Frontend)
      → service_port_to_frontend packages service port ≡ ok f
      → f.name ≡ resource_name service port.protocol port.port
  unfolding service_port_to_frontend
  frontend-name port f h = ground arith

  backend-name :
      (port : ServicePort) (node_ips : Slice String) (b : Backend)
      → service_port_to_backend packages service port node_ips ≡ ok b
      → b.name ≡ resource_name service port.protocol port.node_port
  unfolding service_port_to_backend
  backend-name port node_ips b h = ground arith

  -- The maps are keyed by the ports of their resources, and have the ports of earlier maps and
  -- those of the TCP ports of a list.
  abbrev pub HasPorts :
      List ServicePort
      → Dict ℤ Frontend × Dict ℤ Backend
      → Dict ℤ Frontend × Dict ℤ Backend
      → Type 0
  HasPorts ports before after =
      (p : ℤ)
      → (is_some (lookup p after.0)
          ≡ (is_some (lookup p before.0) || any (λ q. is_tcp q.protocol && int_eq q.port p) ports))
        × (is_some (lookup p after.1) ≡ (
            is_some (lookup p before.1)
            || any (λ q. is_tcp q.protocol && int_eq q.node_port p) ports))

  abbrev pub AreKeyed : Dict ℤ Frontend × Dict ℤ Backend → Type 0
  AreKeyed maps = IsKeyed (λ f. f.inbound_port) maps.0 × IsKeyed (λ b. b.forward_port) maps.1

  -- A round with a TCP port.
  pub add_port-ok :
      (port : ServicePort) (node_ips : Slice String) (maps after : Dict ℤ Frontend × Dict ℤ Backend)
      → is_tcp port.protocol ≡ true
      → add_port packages service port node_ips maps ≡ ok after
      → (f : Frontend) × (b : Backend) × (f.inbound_port ≡ port.port)
        × (b.forward_port ≡ port.node_port)
        × (f.name ≡ resource_name service port.protocol port.port)
        × (b.name ≡ resource_name service port.protocol port.node_port)
        × (after ≡ (insert port.port f maps.0, insert port.node_port b maps.1))
  unfolding add_port
  add_port-ok port node_ips (fs, bs) after tcp h =
      elim (Result-cases (service_port_to_frontend packages service port)) [
        | inr (e, q) ↦ absurd (ground arith)
        | inl (f, q) ↦
            elim (Result-cases (service_port_to_backend packages service port node_ips)) [
              | inr (e, r) ↦ absurd (ground arith)
              | inl (b, r) ↦ (
                f,
                b,
                frontend-port port f q,
                backend-port port node_ips b r,
                frontend-name port f q,
                backend-name port node_ips b r,
                ground arith,
              )
            ]
      ]

  add_port-HasPorts :
      (port : ServicePort) (node_ips : Slice String) (maps after : Dict ℤ Frontend × Dict ℤ Backend)
      → add_port packages service port node_ips maps ≡ ok after
      → AreKeyed maps
      → AreKeyed after × HasPorts (port ∷ []) maps after
  unfolding add_port
  add_port-HasPorts port node_ips (fs, bs) after h (k, l) =
      elim (Bool-cases (is_tcp port.protocol)) [
        | inl tcp ↦
            let (f, b, ef, eb, _, _, e) = add_port-ok port node_ips (fs, bs) after tcp h in
            rw e (
              (
                insert-IsKeyed (λ x. x.inbound_port) port.port f fs ef k,
                insert-IsKeyed (λ x. x.forward_port) port.node_port b bs eb l,
              ),
              λ p. (
                ground (arith, lookup-insert port.port p f fs, tcp),
                ground (arith, lookup-insert port.node_port p b bs, tcp),
              ),
            )
        | inr other ↦
            let e : after ≡ (fs, bs) = ground arith in
            rw e ((k, l), λ p. (ground (arith, other), ground (arith, other)))
      ]

  add_ports-HasPorts :
      (ports : List ServicePort) (node_ips : Slice String)
      (maps after : Dict ℤ Frontend × Dict ℤ Backend)
      → add_ports packages service ports node_ips maps ≡ ok after
      → AreKeyed maps
      → AreKeyed after × HasPorts ports maps after
  unfolding add_ports
  add_ports-HasPorts [] node_ips maps after h k =
      let e : after ≡ maps = ground arith in rw e (k, λ p. (ground arith, ground arith))
  add_ports-HasPorts (port ∷ ports) node_ips maps after h k =
      let (next, first, rest) = >>=-eq-ok (add_port packages service port node_ips maps) _ h in
      let (k1, p1) = add_port-HasPorts port node_ips maps next first k in
      let (k2, p2) = add_ports-HasPorts ports node_ips next after rest k1 in
      (k2, λ p. (ground (arith, (p1 p).0, (p2 p).0), ground (arith, (p1 p).1, (p2 p).1)))

  -- If serviceToLB succeeds, its maps are keyed by the ports of their resources; a frontend is
  -- wanted on exactly the ports, and a backend on exactly the node ports, of the TCP ports.
  pub service_to_lb-HasPorts :
      (node_ips : Slice String) (maps : Dict ℤ Frontend × Dict ℤ Backend)
      → service_to_lb packages service node_ips ≡ ok maps
      → AreKeyed maps × HasPorts service.ports ([], []) maps
  unfolding service_to_lb
  service_to_lb-HasPorts node_ips maps h =
      add_ports-HasPorts service.ports node_ips ([], []) maps h (tt, tt)
