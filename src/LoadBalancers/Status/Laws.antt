-- ===== src/LoadBalancers/Status/Laws.antt =====
-- The mode of the IPs in the status of a service.
use scaleway_cloud_controlle.Base.{
  ℕ, suc, ◌+◌, ◌≤◌, nat_eq, String, Bool, false, none, List, [], ◌∷◌, Result, ok, ◌≡◌, refl, arith,
  length, is_empty, all, if◌then◌else◌, ◌∙◌, ap, All,
}
use scaleway_cloud_controlle.Kube.{Service, ServicePort}
use scaleway_cloud_controlle.Scaleway.LoadBalancer.{ProxyProtocol}
use scaleway_cloud_controlle.Annotations.Values.{get_load_balancer_ip_mode}
use scaleway_cloud_controlle.Annotations.Proxy.{get_proxy_protocol}
use scaleway_cloud_controlle.LoadBalancers.Status.{is_proxy, count_proxy, mode_of_ports, ip_mode}

abbrev as_mode : String → Result String
as_mode mode = ok mode

module _ (service : Service) (protocol : ServicePort → ProxyProtocol) where
  -- The protocols that the annotations give to the ports.
  abbrev pub HasProtocols : List ServicePort → Type 0
  HasProtocols = All (λ p. get_proxy_protocol service p.node_port ≡ ok (protocol p))

  abbrev proxied : List ServicePort → ℕ
  proxied [] = 0
  proxied (p ∷ ps) = if is_proxy (protocol p) then suc (proxied ps) else proxied ps

  count_proxy-proxied :
      (n : ℕ) (ports : List ServicePort)
      → HasProtocols ports
      → count_proxy service n ports ≡ ok (n + proxied ports)
  unfolding count_proxy
  count_proxy-proxied n [] h = ap ok (omega arith)
  count_proxy-proxied n (p ∷ ps) (h, hs) =
      rw (h, count_proxy-proxied (if is_proxy (protocol p) then suc n else n) ps hs)
        (ap ok (ground arith))

  proxied-length : (ports : List ServicePort) → proxied ports ≤ length ports
  proxied-length [] = omega arith
  proxied-length (p ∷ ps) = ground (arith, proxied-length ps)

  proxied-all :
      (ports : List ServicePort)
      → nat_eq (proxied ports) (length ports) ≡ all (λ p. is_proxy (protocol p)) ports
  proxied-all [] = refl
  proxied-all (p ∷ ps) = ground (arith, proxied-all ps, proxied-length ps)

  -- Without the annotation for the mode, a service with ports has the mode Proxy if every port
  -- speaks a proxy protocol, and VIP otherwise.
  pub ip_mode-all :
      is_empty service.ports ≡ false
      → get_load_balancer_ip_mode service ≡ none
      → HasProtocols service.ports
      → ip_mode service
        ≡ ok (if all (λ p. is_proxy (protocol p)) service.ports then "Proxy" else "VIP")
  unfolding ip_mode mode_of_ports
  ip_mode-all some_port no_mode h =
      let count : count_proxy service 0 service.ports ≡ ok (proxied service.ports) =
        count_proxy-proxied 0 service.ports h ∙ ap ok (omega arith) in
      rw (ip_mode, no_mode, mode_of_ports, some_port, count)
        (ap (λ (b : Bool). as_mode (if b then "Proxy" else "VIP")) (proxied-all service.ports))
