-- ===== src/LoadBalancers/Ensure.antt =====
-- scaleway/loadbalancers.go: the methods that the service controller calls.
pub mod Laws
use scaleway_cloud_controlle.Base.{
  ℕ, Bool, true, false, not, ◌&&◌, ◌||◌, Option, none, some, List, Result, ok, err, Error, errorf,
  load_balancer_not_found, load_balancer_not_ready, ◌==◌, if◌then◌else◌, is_empty, is_some,
  or_errorf, ◌>>=◌ as bind,
}
use mathlib.Core.Bool.{xor}
use scaleway_cloud_controlle.Kube.{Service, Node, Ingress}
use scaleway_cloud_controlle.Scaleway.LoadBalancer.{Lb, LbStatus, ready, other_status}
use scaleway_cloud_controlle.Scaleway.Api.{History, M, return, fail, lift, ◌>>=◌, ◌>>◌}
use scaleway_cloud_controlle.Annotations.Values.{svc_private, svc_externally_managed}
use scaleway_cloud_controlle.LoadBalancers.Controller.{
  Controller, has_load_balancer_static_ips, has_equal_load_balancer_static_ips,
}
use scaleway_cloud_controlle.LoadBalancers.Lifecycle.{
  fetch_load_balancer, create_load_balancer, delete_load_balancer,
  remove_externally_managed_resources,
}
use scaleway_cloud_controlle.LoadBalancers.Update.{update_load_balancer}
use scaleway_cloud_controlle.LoadBalancers.Status.{create_service_status}

abbrev pub is_not_found : Error → Bool
is_not_found load_balancer_not_found = true
is_not_found _ = false

abbrev pub is_ready : LbStatus → Bool
is_ready ready = true
is_ready (other_status s) = false

-- Goes on with the result of a search: one way if there is no load balancer, another if there is.
unfoldable pub branch : {A : Type 0} → Result Lb → M A → (Lb → M A) → M A
branch (ok lb) missing found = found lb
branch (err e) missing found = if is_not_found e then missing else fail e

unfoldable pub or_missing : {A : Type 0} → M Lb → M A → (Lb → M A) → M A
or_missing find missing found h = branch (find h).0 missing found (find h).1

-- What GetLoadBalancer returns: whether there is a load balancer, and its status.
pub record Lookup : Type 0 where
  pub exists : Bool
  pub status : Result (Option (List Ingress))

abbrev with_status : Result (List Ingress) × History → Lookup × History
with_status (ok status, h) = (record { exists = true; status = ok (some status) }, h)
with_status (err e, h) = (record { exists = true; status = err e }, h)

module _ (c : Controller) (service : Service) where
  unfoldable pub found_status : Result Lb → History → Lookup × History
  found_status (ok lb) h = with_status (create_service_status c service lb h)
  found_status (err e) h =
      (record { exists = false; status = if is_not_found e then ok none else err e }, h)

  unfoldable pub get_load_balancer : History → Lookup × History
  get_load_balancer h =
      if is_some service.load_balancer_class
      then (record { exists = false; status = ok none }, h)
      else found_status (fetch_load_balancer c service h).0 (fetch_load_balancer c service h).1

  -- The tests before any call: whether the load balancer is externally managed, and private.
  unfoldable pub check_settings : Bool → Bool → Result (Bool × Bool)
  check_settings managed private =
      if private && c.pn_id == ""
      then err (errorf "cannot create private load balancers without a private network")
      else if private && has_load_balancer_static_ips service
      then err (errorf "can only handle static IPs for public load balancers")
      else ok (managed, private)

  unfoldable pub check_service : Result (Bool × Bool)
  check_service =
      if is_some service.load_balancer_class
      then err (errorf "cannot handle loadBalancerClass")
      else bind (or_errorf (svc_externally_managed service) (errorf "externally-managed"))
          (λ managed.
            bind (or_errorf (svc_private service) (errorf "private")) (check_settings managed))

  unfoldable pub fetch_or_create : M Lb
  fetch_or_create =
      or_missing (fetch_load_balancer c service) (create_load_balancer c service) return

  -- Whether a load balancer has to be replaced: it is private or public against the service's
  -- wish, or has other IPs than the static ones.
  unfoldable pub is_mismatch : Bool → Lb → Bool
  is_mismatch private lb =
      xor private (is_empty lb.ip)
      || has_load_balancer_static_ips service && not (has_equal_load_balancer_static_ips service lb)

  unfoldable pub recreate : Lb → M Lb
  recreate lb = do delete_load_balancer c service lb; create_load_balancer c service

  unfoldable pub recreate_on_mismatch : Bool → Bool → Lb → M Lb
  recreate_on_mismatch managed private lb =
      if not managed && is_mismatch private lb then recreate lb else return lb

  unfoldable pub check_ready : Lb → Result (Unit {0})
  check_ready lb = if is_ready lb.status then ok tt else err load_balancer_not_ready

  unfoldable pub ensure_load_balancer : ℕ → List Node → M (List Ingress)
  ensure_load_balancer now nodes = do
    (managed, private) ← lift check_service
    existing ← fetch_or_create
    lb ← recreate_on_mismatch managed private existing
    lift (check_ready lb)
    update_load_balancer c now lb service nodes
    create_service_status c service lb

  unfoldable pub update_existing : ℕ → List Node → M (Unit {0})
  update_existing now nodes = do
    lb ← fetch_load_balancer c service
    update_load_balancer c now lb service nodes

  -- The method UpdateLoadBalancer.
  unfoldable pub update_load_balancer_hosts : ℕ → List Node → M (Unit {0})
  update_load_balancer_hosts now nodes =
      if is_some service.load_balancer_class
      then fail (errorf "cannot handle loadBalancerClas")
      else update_existing now nodes

  unfoldable pub release : Bool → Lb → M (Unit {0})
  release true lb = remove_externally_managed_resources c service lb
  release false lb = delete_load_balancer c service lb

  unfoldable pub delete_or_release : Lb → M (Unit {0})
  delete_or_release lb = do
    managed ← lift (or_errorf (svc_externally_managed service) (errorf "externally-managed"))
    release managed lb

  unfoldable pub ensure_load_balancer_deleted : M (Unit {0})
  ensure_load_balancer_deleted =
      if is_some service.load_balancer_class
      then return tt
      else or_missing (fetch_load_balancer c service) (return tt) delete_or_release
