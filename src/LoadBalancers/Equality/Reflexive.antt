-- ===== src/LoadBalancers/Equality/Reflexive.antt =====
-- A resource is equal to itself, and to what it becomes by an update.
use scaleway_cloud_controlle.Base.{
  int_eq, int_eq_iff, nat_eq, nat_eq_iff, String, Bool, true, false, none, some, eq_iff, ◌≡◌, refl,
  arith, ◌==◌, if◌then◌else◌,
}
use mathlib.Core.Bool.{beq}
use mathlib.Core.Option
use scaleway_cloud_controlle.Base.Sort.{sort, list_eq, list_eq_refl}
use scaleway_cloud_controlle.Base.Sort.Sorted.{sort-sort}
use scaleway_cloud_controlle.Scaleway.Slices.{Slice}
use scaleway_cloud_controlle.Scaleway.Packages.{Packages}
use scaleway_cloud_controlle.Scaleway.LoadBalancer.{
  Frontend, Backend, ForwardProtocol, proxy_none, proxy_v1, proxy_v2, proxy_other,
}
use scaleway_cloud_controlle.LoadBalancers.Equality.{
  ptr_equal, string_array_equal, forward_protocol_eq, proxy_protocol_eq, scw_duration_eq,
  http_config_eq, health_check_eq, frontend_head_equals, frontend_equals, backend_equals,
}

-- A test that holds of each value and itself.
abbrev IsReflexive : {A : Type 0} → (A → A → Bool) → Type 0
IsReflexive {A} eq = (a : A) → eq a a ≡ true

ptr_equal-IsReflexive :
    {A : Type 0} (eq : A → A → Bool) → IsReflexive eq → IsReflexive (ptr_equal eq)
unfolding ptr_equal
ptr_equal-IsReflexive eq h none = refl
ptr_equal-IsReflexive eq h (some a) = h a

beq-IsReflexive : IsReflexive beq
beq-IsReflexive true = refl
beq-IsReflexive false = refl

int_eq-IsReflexive : IsReflexive int_eq
int_eq-IsReflexive a = (int_eq_iff a a).1 refl

nat_eq-IsReflexive : IsReflexive nat_eq
nat_eq-IsReflexive a = (nat_eq_iff a a).1 refl

text-IsReflexive : IsReflexive ◌==◌
text-IsReflexive s = (eq_iff s s).1 refl

forward_protocol_eq-IsReflexive : IsReflexive forward_protocol_eq
forward_protocol_eq-IsReflexive ForwardProtocol.tcp = refl
forward_protocol_eq-IsReflexive ForwardProtocol.http = refl
forward_protocol_eq-IsReflexive (ForwardProtocol.other s) = text-IsReflexive s

proxy_protocol_eq-IsReflexive : IsReflexive proxy_protocol_eq
proxy_protocol_eq-IsReflexive proxy_none = refl
proxy_protocol_eq-IsReflexive proxy_v1 = refl
proxy_protocol_eq-IsReflexive proxy_v2 = refl
proxy_protocol_eq-IsReflexive (proxy_other s) = text-IsReflexive s

scw_duration_eq-IsReflexive : IsReflexive scw_duration_eq
scw_duration_eq-IsReflexive d =
    ground (arith, int_eq-IsReflexive d.seconds, int_eq-IsReflexive d.nanos)

http_config_eq-IsReflexive : IsReflexive http_config_eq
unfolding http_config_eq
http_config_eq-IsReflexive c = rw (
  text-IsReflexive c.method,
  ptr_equal-IsReflexive int_eq int_eq-IsReflexive c.code,
  text-IsReflexive c.uri,
  text-IsReflexive c.host_header,
  text-IsReflexive c.sni,
)

health_check_eq-IsReflexive : IsReflexive health_check_eq
unfolding health_check_eq
health_check_eq-IsReflexive a = rw (
  int_eq-IsReflexive a.port,
  ptr_equal-IsReflexive int_eq int_eq-IsReflexive a.check_delay,
  ptr_equal-IsReflexive int_eq int_eq-IsReflexive a.check_timeout,
  int_eq-IsReflexive a.check_max_retries,
  beq-IsReflexive a.check_send_proxy,
  ptr_equal-IsReflexive _ scw_duration_eq-IsReflexive a.transient_check_delay,
  beq-IsReflexive a.tcp_config,
  beq-IsReflexive a.ldap_config,
  beq-IsReflexive a.redis_config,
  ptr_equal-IsReflexive ◌==◌ text-IsReflexive a.mysql_config,
  ptr_equal-IsReflexive ◌==◌ text-IsReflexive a.pgsql_config,
  ptr_equal-IsReflexive _ http_config_eq-IsReflexive a.http_config,
  ptr_equal-IsReflexive _ http_config_eq-IsReflexive a.https_config,
)

pub string_array_equal-IsReflexive : (a : Slice String) → string_array_equal a a ≡ true
unfolding string_array_equal
string_array_equal-IsReflexive a = ptr_equal-IsReflexive list_eq list_eq_refl (Option.map sort a)

string_array_equal-sort : (a : Slice String) → string_array_equal (Option.map sort a) a ≡ true
unfolding string_array_equal ptr_equal
string_array_equal-sort none = refl
string_array_equal-sort (some a) = rw (sort-sort a) (list_eq_refl (sort a))

module _ (packages : Packages) where
  -- A wanted backend with the ID of the current one is equal to the wanted one.
  pub backend_equals-adopted :
      (id : String) (target : Backend)
      → backend_equals packages (record target { id = id }) target ≡ true
  unfolding backend_equals
  backend_equals-adopted id t = rw (
    text-IsReflexive t.name,
    forward_protocol_eq-IsReflexive t.forward_protocol,
    ptr_equal-IsReflexive beq beq-IsReflexive t.ssl_bridging,
    ptr_equal-IsReflexive beq beq-IsReflexive t.ignore_ssl_server_verify,
    int_eq-IsReflexive t.forward_port,
    text-IsReflexive t.forward_port_algorithm,
    text-IsReflexive t.sticky_sessions,
    proxy_protocol_eq-IsReflexive t.proxy_protocol,
    ptr_equal-IsReflexive int_eq int_eq-IsReflexive t.timeout_server,
    ptr_equal-IsReflexive int_eq int_eq-IsReflexive t.timeout_connect,
    ptr_equal-IsReflexive int_eq int_eq-IsReflexive t.timeout_tunnel,
    ptr_equal-IsReflexive int_eq int_eq-IsReflexive
        (Option.map packages.to_time_duration t.timeout_queue),
    text-IsReflexive t.on_marked_down_action,
    ptr_equal-IsReflexive int_eq int_eq-IsReflexive t.redispatch_attempt_count,
    ptr_equal-IsReflexive int_eq int_eq-IsReflexive t.max_connections,
    ptr_equal-IsReflexive int_eq int_eq-IsReflexive t.max_retries,
    text-IsReflexive t.sticky_sessions_cookie_name,
    ptr_equal-IsReflexive ◌==◌ text-IsReflexive t.failover_host,
    ptr_equal-IsReflexive health_check_eq health_check_eq-IsReflexive t.health_check,
  )

-- A frontend with other certificates in the place of the wanted ones, which compare as equal.
pub frontend_equals-certificates :
    (id : String) (certificate_ids : Slice String) (target : Frontend)
    → string_array_equal certificate_ids target.certificate_ids ≡ true
    → frontend_equals (record target { id = id; certificate_ids = certificate_ids }) target ≡ true
unfolding frontend_equals frontend_head_equals
frontend_equals-certificates id certificate_ids t same = rw (
  text-IsReflexive t.name,
  int_eq-IsReflexive t.inbound_port,
  ptr_equal-IsReflexive int_eq int_eq-IsReflexive t.backend_forward_port,
  ptr_equal-IsReflexive int_eq int_eq-IsReflexive t.timeout_client,
  same,
  ptr_equal-IsReflexive nat_eq nat_eq-IsReflexive t.connection_rate_limit,
  beq-IsReflexive t.enable_access_logs,
  beq-IsReflexive t.enable_http3,
)

-- Whether the certificates were sorted or not, they compare as equal.
pub string_array_equal-sort_if :
    (b : Bool) (a : Slice String) → string_array_equal (if b then Option.map sort a else a) a ≡ true
string_array_equal-sort_if true a = string_array_equal-sort a
string_array_equal-sort_if false a = string_array_equal-IsReflexive a
