-- ===== src/Annotations/Values.antt =====
-- scaleway/loadbalancers_annotations.go: the getters of single values.
pub mod Laws
use scaleway_cloud_controlle.Base.{
  ℕ, ℤ, pos, String, Bool, false, ◌||◌, Option, none, some, Result, ok, err, Error, errorf,
  invalid_annotation, ◌>>=◌, ◌==◌, if◌then◌else◌, any, to_lower, some_or,
}
use scaleway_cloud_controlle.Base.Int.{to_int32, to_uint32}
use scaleway_cloud_controlle.Base.Parse.{parse_bool, atoi}
use scaleway_cloud_controlle.Base.Dict.{lookup, string_key}
use scaleway_cloud_controlle.Kube.{Service}
use scaleway_cloud_controlle.Scaleway.Packages.{Packages, ScwDuration}
use scaleway_cloud_controlle.Annotations.Keys
use scaleway_cloud_controlle.Annotations.Ports.{annotation}

-- The value of a key, or another result if the key is missing.
abbrev pub with_annotation {ℓ} : {A : Type ℓ} → String → Service → A → (String → A) → A
with_annotation key service missing use_value = elim (lookup key service.annotations) [
  | none ↦ missing
  | some value ↦ use_value value
]

-- A failed conversion is reported as an invalid annotation.
abbrev pub valid {ℓ} : {A : Type ℓ} → Option A → Result A
valid o = some_or o invalid_annotation

-- An enumeration whose value must be one of a few texts.
abbrev one_of : String → String → (String → Bool) → Service → Result String
one_of key default allowed service =
    with_annotation key service (ok default)
      (λ v. if allowed v then ok v else err invalid_annotation)

unfoldable pub get_forward_port_algorithm : Service → Result String
get_forward_port_algorithm =
    one_of Keys.annotation_forward_port_algorithm "roundrobin"
      (λ v. v == "roundrobin" || v == "leastconn" || v == "first")

unfoldable pub get_sticky_sessions : Service → Result String
get_sticky_sessions =
    one_of Keys.annotation_sticky_sessions "none"
      (λ v. v == "none" || v == "cookie" || v == "table")

unfoldable pub get_on_marked_down_action : Service → Result String
get_on_marked_down_action =
    one_of Keys.annotation_on_marked_down_action "on_marked_down_action_none"
      (λ v. v == "on_marked_down_action_none" || v == "shutdown_sessions")

unfoldable pub get_sticky_sessions_cookie_name : Service → Result String
get_sticky_sessions_cookie_name service =
    ok (annotation Keys.annotation_sticky_sessions_cookie_name service)

unfoldable pub get_load_balancer_type : Service → String
get_load_balancer_type service = to_lower (annotation Keys.annotation_type service)

unfoldable pub get_load_balancer_zone : Service → String
get_load_balancer_zone service = to_lower (annotation Keys.annotation_zone service)

unfoldable pub get_failover_host : Service → Result (Option String)
get_failover_host service = ok (lookup Keys.annotation_failover_host service.annotations)

unfoldable pub get_load_balancer_ip_mode : Service → Option String
get_load_balancer_ip_mode service = lookup Keys.annotation_ip_mode service.annotations

-- Counts: `int32(strconv.Atoi(v))`.
abbrev get_int32 : String → Service → Result (Option ℤ) → Result (Option ℤ)
get_int32 key service missing =
    with_annotation key service missing (λ v. do n ← valid (atoi v); ok (some (to_int32 n)))

unfoldable pub get_redispatch_attempt_count : Service → Result (Option ℤ)
get_redispatch_attempt_count service =
    get_int32 Keys.annotation_redispatch_attempt_count service (ok (some (pos 0)))

unfoldable pub get_max_connections : Service → Result (Option ℤ)
get_max_connections service = get_int32 Keys.annotation_max_connections service (ok none)

unfoldable pub get_max_retries : Service → Result (Option ℤ)
get_max_retries service = get_int32 Keys.annotation_max_retries service (ok (some (pos 3)))

unfoldable pub get_health_check_max_retries : Service → Result ℤ
get_health_check_max_retries service =
    with_annotation Keys.annotation_health_check_max_retries service (ok (pos 5))
      (λ v. do n ← valid (atoi v); ok (to_int32 n))

unfoldable pub get_connection_rate_limit : Service → Result (Option ℕ)
get_connection_rate_limit service =
    with_annotation Keys.annotation_connection_rate_limit service (ok none)
      (λ v. do n ← valid (atoi v); ok (some (to_uint32 n)))

-- Flags.
abbrev get_bool : String → Error → Service → Result Bool
get_bool key e service = with_annotation key service (ok false) (λ v. some_or (parse_bool v) e)

abbrev get_bool_or_false : String → Service → Bool
get_bool_or_false key service =
    with_annotation key service false (λ v. elim (parse_bool v) [ none ↦ false | some b ↦ b ])

unfoldable pub get_health_check_send_proxy : Service → Result Bool
get_health_check_send_proxy = get_bool Keys.annotation_health_check_send_proxy invalid_annotation

unfoldable pub svc_private : Service → Result Bool
svc_private = get_bool Keys.annotation_private (errorf "strconv.ParseBool")

unfoldable pub svc_externally_managed : Service → Result Bool
svc_externally_managed = get_bool Keys.annotation_externally_managed (errorf "strconv.ParseBool")

unfoldable pub get_enable_access_logs : Service → Result Bool
get_enable_access_logs = get_bool Keys.annotation_enable_access_logs (errorf "strconv.ParseBool")

unfoldable pub get_enable_http3 : Service → Result Bool
get_enable_http3 = get_bool Keys.annotation_enable_http3 (errorf "strconv.ParseBool")

unfoldable pub get_force_internal_ip : Service → Bool
get_force_internal_ip = get_bool_or_false Keys.annotation_force_internal_ip

unfoldable pub get_use_hostname : Service → Bool
get_use_hostname = get_bool_or_false Keys.annotation_use_hostname

-- Durations, by `time.ParseDuration`.
module _ (packages : Packages) where
  open packages use {parse_duration, new_duration, durationpb, ssl_compatibility_levels}

  abbrev get_duration : String → String → Service → Result ℤ
  get_duration key default service =
      with_annotation key service (some_or (parse_duration default) (errorf "time.ParseDuration"))
        (λ v. valid (parse_duration v))

  unfoldable pub get_timeout_client : Service → Result ℤ
  get_timeout_client = get_duration Keys.annotation_timeout_client "10m"

  unfoldable pub get_timeout_server : Service → Result ℤ
  get_timeout_server = get_duration Keys.annotation_timeout_server "10s"

  unfoldable pub get_timeout_connect : Service → Result ℤ
  get_timeout_connect = get_duration Keys.annotation_timeout_connect "10m"

  unfoldable pub get_timeout_tunnel : Service → Result ℤ
  get_timeout_tunnel = get_duration Keys.annotation_timeout_tunnel "10m"

  unfoldable pub get_health_check_delay : Service → Result ℤ
  get_health_check_delay = get_duration Keys.annotation_health_check_delay "5s"

  unfoldable pub get_health_check_timeout : Service → Result ℤ
  get_health_check_timeout = get_duration Keys.annotation_health_check_timeout "5s"

  unfoldable pub get_timeout_queue : Service → Result (Option ScwDuration)
  get_timeout_queue service =
      with_annotation Keys.annotation_timeout_queue service (ok none)
        (λ v. do d ← valid (parse_duration v); ok (some (new_duration d)))

  unfoldable pub get_health_check_transient_check_delay : Service → Result (Option ScwDuration)
  get_health_check_transient_check_delay service =
      with_annotation Keys.annotation_health_transient_check_delay service (ok none)
        (λ v. do d ← valid (parse_duration v); ok (some (durationpb d)))

  unfoldable pub get_ssl_compatibility_level : Service → Result String
  get_ssl_compatibility_level service =
      let level = annotation Keys.annotation_ssl_compatibility_level service in
      if level == ""
      then ok "ssl_compatibility_level_intermediate"
      else if any (λ v. v == level) ssl_compatibility_levels
      then ok level
      else err invalid_annotation
