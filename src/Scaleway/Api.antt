-- ===== src/Scaleway/Api.antt =====
-- The load balancer, IPAM, VPC, instance and Kubernetes APIs as a service that answers calls.
-- The state of the world is the history of the calls made, the latest first, and the service's
-- answer to a call is a function of that history: an arbitrary service, which may fail at any call.
pub mod Trace
pub mod Yields
pub mod Results
use scaleway_cloud_controlle.Base.{
  nat_eq, true, false, none, some, resource_not_found, response_error, String, Bool, Option, List,
  ◌∷◌, Result, ok, err, Error,
}
use scaleway_cloud_controlle.Kube.{Service, Node}
use scaleway_cloud_controlle.Scaleway.Slices.{Slice}
use scaleway_cloud_controlle.Scaleway.LoadBalancer.{
  Lb, LbIp, Backend, Frontend, HealthCheck, Acl, PrivateNetwork, IpamIp, CreateLbRequest,
  UpdateLbRequest,
}

-- A request. The first text of a load balancer call is its zone. A request that carries a backend
-- or a frontend has the fields that it does not send blank.
pub data Call : Type 0 where
  list_lbs : String → String → Call
  get_lb : String → String → Call
  create_lb : CreateLbRequest → Call
  update_lb : String → UpdateLbRequest → Call
  delete_lb : String → String → Bool → Call
  migrate_lb : String → String → String → Call
  list_ips : String → String → Call
  list_backends : String → String → Option String → Call
  create_backend : String → String → Backend → Call
  update_backend : String → Backend → Call
  delete_backend : String → String → Call
  set_backend_servers : String → String → Slice String → Call
  update_health_check : String → String → HealthCheck → Call
  list_frontends : String → String → Option String → Call
  create_frontend : String → String → Frontend → String → Call
  update_frontend : String → Frontend → String → Call
  delete_frontend : String → String → Call
  list_acls : String → String → String → Call
  set_acls : String → String → List Acl → Call
  list_lb_private_networks : String → String → Call
  attach_private_network : String → String → String → Slice String → Call
  detach_private_network : String → String → String → Call
  list_network_ips : String → String → List String → Call
  list_resource_ips : String → String → String → String → Call
  get_private_network : String → String → Call
  patch_service : Service → Service → Call
  get_server : String → String → Call
  patch_node : Node → Node → Call

abbrev pub History : Type 0
History = List Call

-- The answers that carry a value; `acknowledge` answers all the other calls.
pub record Cloud : Type 0 where
  pub lbs : History → String → String → Result (List Lb)
  pub lb : History → String → String → Result Lb
  pub created_lb : History → CreateLbRequest → Result Lb
  pub ips : History → String → String → Result (List LbIp)
  pub backends : History → String → String → Option String → Result (List Backend)
  pub created_backend : History → String → String → Backend → Result Backend
  pub updated_backend : History → String → Backend → Result Backend
  pub frontends : History → String → String → Option String → Result (List Frontend)
  pub created_frontend : History → String → String → Frontend → String → Result Frontend
  pub updated_frontend : History → String → Frontend → String → Result Frontend
  pub acls : History → String → String → String → Result (List Acl)
  pub private_networks : History → String → String → Result (List PrivateNetwork)
  pub ipam_ips : History → Call → Result (List IpamIp)
  pub private_network_name : History → String → String → Result String
  -- The tags of a server.
  pub server_tags : History → String → String → Result (List String)
  pub acknowledge : History → Call → Result (Unit {0})

-- A Go method that calls the service.
abbrev pub M : Type 0 → Type 0
M A = History → Result A × History

abbrev pub return : {A : Type 0} → A → M A
return a h = (ok a, h)

abbrev pub fail : {A : Type 0} → Error → M A
fail e h = (err e, h)

-- A part of a method that makes no call.
abbrev pub lift : {A : Type 0} → Result A → M A
lift r h = (r, h)

abbrev pub continue_with : {A B : Type 0} → Result A → History → (A → M B) → Result B × History
continue_with (ok a) h f = f a h
continue_with (err e) h f = (err e, h)

infixl 5 ◌>>=◌ ◌>>◌
unfoldable pub ◌>>=◌ : {A B : Type 0} → M A → (A → M B) → M B
◌>>=◌ m f h = continue_with (m h).0 (m h).1 f

unfoldable pub ◌>>◌ : {B : Type 0} → M (Unit {0}) → M B → M B
◌>>◌ m k = m >>= λ _. k

-- Sends a request, and hands back what the service answers.
unfoldable pub send : {A : Type 0} → Call → (History → Result A) → M A
send c answer h = (answer h, c ∷ h)

-- The same call, with another error where it fails.
abbrev pub map_err : {A : Type 0} → (Error → Error) → Result A → Result A
map_err f (ok a) = ok a
map_err f (err e) = err (f e)

unfoldable pub map_error : {A : Type 0} → (Error → Error) → M A → M A
map_error f m h = (map_err f (m h).0, (m h).1)

-- `return fmt.Errorf(…)` where a call fails.
abbrev pub or_fail : {A : Type 0} → M A → Error → M A
or_fail m e = map_error (λ _. e) m

-- Makes a call, unless a test fails.
unfoldable pub when : Bool → M (Unit {0}) → M (Unit {0})
when true m = m
when false m = return tt

-- An optional value, or an error.
abbrev pub expect : {A : Type 0} → Option A → Error → M A
expect (some a) e = return a
expect none e = fail e

-- scaleway/utils.go
unfoldable pub is_404_error : Error → Bool
is_404_error resource_not_found = true
is_404_error (response_error status_code) = nat_eq status_code 404
is_404_error _ = false
