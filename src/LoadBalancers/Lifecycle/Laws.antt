-- ===== src/LoadBalancers/Lifecycle/Laws.antt =====
-- What deleting a load balancer sends, and which load balancers may be managed by others.
use scaleway_cloud_controlle.Base.{
  String, true, false, not, ok, ◌≡◌, ◌≢◌, refl, arith, inl, inr, Bool-cases, ◌==◌, eq_iff,
  has_prefix, sym,
}
use mathlib.Core.Path.{subst}
use scaleway_cloud_controlle.Kube.{Service}
use scaleway_cloud_controlle.Scaleway.LoadBalancer.{Lb}
use scaleway_cloud_controlle.Annotations.Values.{svc_externally_managed}
use scaleway_cloud_controlle.Scaleway.Api.Results.{>>=-eq-ok}
use scaleway_cloud_controlle.Scaleway.Api.{Call, History}
use scaleway_cloud_controlle.Scaleway.Api.Trace.{Calls, calls, Calls->>}
use scaleway_cloud_controlle.LoadBalancers.Controller.{
  Controller, get_load_balancer_name, has_load_balancer_static_ips, patch, unannotated,
  unannotate_and_patch,
}
use scaleway_cloud_controlle.LoadBalancers.Lifecycle.{
  delete_load_balancer, delete_unless_renamed, delete_call, fetch_by, get_lb_by_id, check_prefix,
  fetch_load_balancer,
}

has_prefix_nil : (s p : String) → p ≡ "" → has_prefix s p ≢ false
unfolding has_prefix
has_prefix_nil s p e = subst (λ q. has_prefix s q ≢ false) (sym e) (λ h. ground arith)

module _ (c : Controller) (service : Service) where
  -- A patch of the service's annotations is at most one call.
  pub patch-Calls :
      (P : Call → Type 0) (origin final : Service)
      → P (Call.patch_service origin final)
      → Calls P (patch c origin final)
  unfolding patch
  patch-Calls P origin final p = search (calls, p)

module _ (c : Controller) (service : Service) (lb : Lb) where
  -- The calls that a deletion may make.
  abbrev pub IsDeletion : Call → Type 0
  IsDeletion (Call.patch_service origin final) =
      (origin ≡ service) × (final ≡ unannotated c service)
  IsDeletion (Call.delete_lb zone id release_ip) =
      (lb.name ≡ get_load_balancer_name c.env service)
      × (zone ≡ lb.zone)
      × (id ≡ lb.id)
      × (release_ip ≡ not (has_load_balancer_static_ips service))
  IsDeletion _ = ⊥

  delete_call-IsDeletion :
      (lb.name == get_load_balancer_name c.env service) ≡ true
      → IsDeletion (delete_call c service lb)
  unfolding delete_call
  delete_call-IsDeletion same =
      ((eq_iff lb.name (get_load_balancer_name c.env service)).0 same, refl, refl, refl)

  -- Deleting a load balancer makes no other calls than the patch that takes the ID away from the
  -- service, and the deletion of this very load balancer; the latter only if its name is still the
  -- one that the controller gave it, and with its IPs only if the service has no static ones.
  pub delete_load_balancer-IsDeletion : Calls IsDeletion (delete_load_balancer c service lb)
  unfolding delete_load_balancer unannotate_and_patch delete_unless_renamed
  delete_load_balancer-IsDeletion =
      Calls->> (patch-Calls c service IsDeletion service (unannotated c service) (refl, refl))
        (search (calls, delete_call-IsDeletion))

module _ (c : Controller) (service : Service) where
  check_prefix-ok :
      (found lb : Lb)
      → check_prefix c service true found ≡ ok lb
      → has_prefix lb.name c.env.ccm_prefix ≡ false
  unfolding check_prefix
  check_prefix-ok found lb e = elim (Bool-cases (has_prefix found.name c.env.ccm_prefix)) [
    | inl own ↦ absurd (ground arith)
    | inr other ↦ let same : found ≡ lb = ground arith in rw (← same) other
  ]

  fetch_by-prefix :
      (zone_and_id : String × String) (h : History) (lb : Lb)
      → (fetch_by c service true zone_and_id h).0 ≡ ok lb
      → has_prefix lb.name c.env.ccm_prefix ≡ false
  unfolding fetch_by get_lb_by_id
  fetch_by-prefix (zone, id) h lb e = elim (Bool-cases (id == "")) [
    | inl missing ↦ absurd (ground arith)
    | inr given ↦
        let fetched : (get_lb_by_id c service true zone id h).0 ≡ ok lb = ground arith in
        let (found, p, q) = >>=-eq-ok _ _ h lb fetched in check_prefix-ok found lb q
  ]

  -- A load balancer that is found for a service with an externally managed one never has a name with
  -- the controller's prefix, so it is none that the controller made. With the prefix empty, every
  -- name has it, and none is ever found.
  pub fetch_load_balancer-prefix :
      (h : History) (lb : Lb)
      → svc_externally_managed service ≡ ok true
      → (fetch_load_balancer c service h).0 ≡ ok lb
      → (has_prefix lb.name c.env.ccm_prefix ≡ false) × (c.env.ccm_prefix ≢ "")
  unfolding fetch_load_balancer
  fetch_load_balancer-prefix h lb managed e =
      let (m, p, e1) = >>=-eq-ok _ _ h lb e in
      let (zone_and_id, q, e2) = >>=-eq-ok _ _ h lb e1 in
      let is_managed : m ≡ true = ground (arith, managed) in
      let found : (fetch_by c service true zone_and_id h).0 ≡ ok lb = rw (sym is_managed) e2 in
      let other = fetch_by-prefix zone_and_id h lb found in
      (other, λ blank. has_prefix_nil lb.name c.env.ccm_prefix blank other)
