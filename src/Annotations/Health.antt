-- ===== src/Annotations/Health.antt =====
-- scaleway/loadbalancers_annotations.go: the health check of a backend.
use scaleway_cloud_controlle.Base.{
  ℤ, pos, String, Bool, true, false, Option, none, some, Result, ok, err, errorf, wrapf,
  invalid_annotation, ◌>>=◌, ◌==◌, if◌then◌else◌, int_eq, some_or,
}
use Prim.Native.String.{◌++◌}
use scaleway_cloud_controlle.Base.Int.{to_int32}
use scaleway_cloud_controlle.Base.Parse.{atoi}
use scaleway_cloud_controlle.Base.Dict.{lookup, string_key}
use scaleway_cloud_controlle.Kube.{Service}
use scaleway_cloud_controlle.Scaleway.Packages.{Packages, Url}
use scaleway_cloud_controlle.Scaleway.LoadBalancer.{HealthCheck, HttpConfig}
use scaleway_cloud_controlle.Annotations.Keys
use scaleway_cloud_controlle.Annotations.Ports.{
  annotation, is_port_in_range, is_valid_port, get_value_for_port,
}

-- A value per port, or another one if the annotation is missing.
abbrev value_or : String → String → Service → ℤ → Result String
value_or key default service node_port = elim (lookup key service.annotations) [
  | none ↦ ok default
  | some v ↦ get_value_for_port service node_port v
]

unfoldable pub get_health_check_type : Service → ℤ → Result String
get_health_check_type = value_or Keys.annotation_health_check_type "tcp"

unfoldable pub get_http_health_check_uri : Service → ℤ → Result String
get_http_health_check_uri = value_or Keys.annotation_health_check_http_uri "/"

unfoldable pub get_http_health_check_method : Service → ℤ → Result String
get_http_health_check_method = value_or Keys.annotation_health_check_http_method "GET"

-- The user of a database check; nil if the annotation is missing.
abbrev user_of : String → Service → ℤ → Result (Option String)
user_of key service node_port = elim (lookup key service.annotations) [
  | none ↦ ok none
  | some v ↦ get_value_for_port service node_port v >>= λ user. ok (some user)
]

unfoldable pub get_mysql_health_check : Service → ℤ → Result (Option String)
get_mysql_health_check = user_of Keys.annotation_health_check_mysql_user

unfoldable pub get_pgsql_health_check : Service → ℤ → Result (Option String)
get_pgsql_health_check = user_of Keys.annotation_health_check_pgsql_user

unfoldable pub get_http_health_check_code : Service → ℤ → Result ℤ
get_http_health_check_code service node_port =
    elim (lookup Keys.annotation_health_check_http_code service.annotations) [
      | none ↦ ok (pos 200)
      | some v ↦ do
        string_code ← get_value_for_port service node_port v
        code ← some_or (atoi string_code) invalid_annotation
        ok (to_int32 code)
    ]

module _ (packages : Packages) where
  open packages use {parse_url, request_uri}

  -- `url.Parse`, with an empty path read as "/".
  unfoldable pub check_url : String → Result Url
  check_url text = do
    uri ← parse_url text
    ok (if uri.path == "" then record uri { path = "/" } else uri)

  unfoldable pub get_http_health_check : Service → ℤ → Result HttpConfig
  get_http_health_check service node_port = do
    code ← get_http_health_check_code service node_port
    uri_str ← get_http_health_check_uri service node_port
    uri ← check_url ("http://" ++ uri_str)
    method ← get_http_health_check_method service node_port
    ok (record {
      method = method;
      code = some code;
      uri = request_uri uri;
      host_header = uri.host;
      sni = "";
    })

  unfoldable pub get_https_health_check : Service → ℤ → Result HttpConfig
  get_https_health_check service node_port = do
    code ← get_http_health_check_code service node_port
    uri_str ← get_http_health_check_uri service node_port
    uri ← check_url ("https://" ++ uri_str)
    method ← get_http_health_check_method service node_port
    ok (record {
      method = method;
      code = some code;
      uri = uri.path;
      host_header = uri.host;
      sni = uri.host;
    })

-- A health check with nothing but a port.
unfoldable pub new_health_check : ℤ → HealthCheck
new_health_check port = record {
  port = port;
  check_delay = none;
  check_timeout = none;
  check_max_retries = pos 0;
  check_send_proxy = false;
  transient_check_delay = none;
  tcp_config = false;
  ldap_config = false;
  redis_config = false;
  mysql_config = none;
  pgsql_config = none;
  http_config = none;
  https_config = none;
}

unfoldable pub healthz : HttpConfig
healthz = record {
  method = "GET";
  code = some (pos 200);
  uri = "/healthz";
  host_header = "";
  sni = "";
}

-- The check of the service's own healthCheckNodePort, if it is switched on and assigned.
unfoldable pub native_check : ℤ → Bool → Result (Option HealthCheck)
native_check port false = ok none
native_check port true =
    if int_eq port (pos 0)
    then ok none
    else if is_valid_port port
    then ok (some (record (new_health_check port) { http_config = some healthz }))
    else err (errorf "invalid healthCheckNodePort")

-- The error of the range test is wrapped.
abbrev wrap_range : {A : Type 0} → Result A → Result A
wrap_range (ok a) = ok a
wrap_range (err e) = err (wrapf "invalid health check annotation" e)

unfoldable pub get_native_health_check : Service → ℤ → Result (Option HealthCheck)
get_native_health_check service target_port = do
  is_enabled ←
      wrap_range (
        is_port_in_range (annotation Keys.annotation_health_check_from_service service) target_port)
  native_check service.health_check_node_port is_enabled
