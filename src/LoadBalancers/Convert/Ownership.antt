-- ===== src/LoadBalancers/Convert/Ownership.antt =====
-- The wanted resources have one entry for each port, and names that begin with the service's UID.
use scaleway_cloud_controlle.Base.{
  ℤ, String, true, List, [], ◌∷◌, ok, >>=-eq-ok, ◌≡◌, arith, Bool-cases, inl, inr, All, has_prefix,
  to_lower,
}
use Prim.Native.String.{◌++◌}
use scaleway_cloud_controlle.Base.Dict.{Dict, int_key, Distinct, insert-Distinct, insert-All}
use scaleway_cloud_controlle.Base.Text.{format_int}
use scaleway_cloud_controlle.Base.Text.Laws.{has_prefix-append, has_prefix-append_iff}
use scaleway_cloud_controlle.Kube.{Service, ServicePort, Protocol, protocol_name, is_tcp}
use scaleway_cloud_controlle.Scaleway.Slices.{Slice}
use scaleway_cloud_controlle.Scaleway.Packages.{Packages}
use scaleway_cloud_controlle.Scaleway.LoadBalancer.{Frontend, Backend}
use scaleway_cloud_controlle.LoadBalancers.Convert.{
  resource_name, add_port, add_ports, service_to_lb,
}
use scaleway_cloud_controlle.LoadBalancers.Convert.Laws.{add_port-ok}

module _ (packages : Packages) (service : Service) where
  abbrev IsOwnName : String → Type 0
  IsOwnName name = has_prefix name (service.uid ++ "_") ≡ true

  resource_name-IsOwnName :
      (protocol : Protocol) (port : ℤ) → IsOwnName (resource_name service protocol port)
  unfolding resource_name
  resource_name-IsOwnName protocol port =
      let name = to_lower (protocol_name protocol) in
      rw (has_prefix-append_iff service.uid ("_" ++ (name ++ ("_" ++ format_int port))) "_")
        (has_prefix-append "_" (name ++ ("_" ++ format_int port)))

  -- The maps of wanted resources, as the rounds leave them.
  abbrev pub AreOwn : Dict ℤ Frontend × Dict ℤ Backend → Type 0
  AreOwn maps =
      (Distinct maps.0 × All (λ (entry : ℤ × Frontend). IsOwnName entry.1.name) maps.0)
      × (Distinct maps.1 × All (λ (entry : ℤ × Backend). IsOwnName entry.1.name) maps.1)

  add_port-AreOwn :
      (port : ServicePort) (node_ips : Slice String) (maps after : Dict ℤ Frontend × Dict ℤ Backend)
      → add_port packages service port node_ips maps ≡ ok after
      → AreOwn maps
      → AreOwn after
  unfolding add_port
  add_port-AreOwn port node_ips (fs, bs) after h ((fd, fn), (bd, bn)) =
      elim (Bool-cases (is_tcp port.protocol)) [
        | inl tcp ↦
            let (f, b, fp, bp, nf, nb, e) =
              add_port-ok packages service port node_ips (fs, bs) after tcp h in
            rw e (
              (
                insert-Distinct port.port f fs fd,
                insert-All _ port.port f fs
                    (rw nf (resource_name-IsOwnName port.protocol port.port)) fn,
              ),
              (
                insert-Distinct port.node_port b bs bd,
                insert-All _ port.node_port b bs
                    (rw nb (resource_name-IsOwnName port.protocol port.node_port)) bn,
              ),
            )
        | inr other ↦ let e : after ≡ (fs, bs) = ground arith in rw e ((fd, fn), (bd, bn))
      ]

  add_ports-AreOwn :
      (ports : List ServicePort) (node_ips : Slice String)
      (maps after : Dict ℤ Frontend × Dict ℤ Backend)
      → add_ports packages service ports node_ips maps ≡ ok after
      → AreOwn maps
      → AreOwn after
  unfolding add_ports
  add_ports-AreOwn [] node_ips maps after h own = let e : after ≡ maps = ground arith in rw e own
  add_ports-AreOwn (port ∷ ports) node_ips maps after h own =
      let (next, first, rest) = >>=-eq-ok (add_port packages service port node_ips maps) _ h in
      add_ports-AreOwn ports node_ips next after rest
        (add_port-AreOwn port node_ips maps next first own)

  -- If serviceToLB succeeds, each port has one wanted resource, whose name begins with the UID.
  pub service_to_lb-AreOwn :
      (node_ips : Slice String) (maps : Dict ℤ Frontend × Dict ℤ Backend)
      → service_to_lb packages service node_ips ≡ ok maps
      → AreOwn maps
  unfolding service_to_lb
  service_to_lb-AreOwn node_ips maps h =
      add_ports-AreOwn service.ports node_ips ([], []) maps h ((tt, tt), (tt, tt))
