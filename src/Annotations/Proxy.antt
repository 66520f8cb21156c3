-- ===== src/Annotations/Proxy.antt =====
-- scaleway/loadbalancers_annotations.go: the settings that depend on the port.
use scaleway_cloud_controlle.Base.{
  ℤ, int_eq, String, Bool, true, false, Option, none, some, List, [], ◌∷◌, ◌++◌, Result, ok, err,
  errorf, invalid_annotation, ◌>>=◌, ◌==◌, if◌then◌else◌, split,
}
use scaleway_cloud_controlle.Base.Text.{remove_char, has_char}
use scaleway_cloud_controlle.Base.Parse.{parse_bool, parse_int}
use scaleway_cloud_controlle.Base.Dict.{lookup, string_key}
use scaleway_cloud_controlle.Kube.{Service}
use scaleway_cloud_controlle.Scaleway.LoadBalancer.{
  ProxyProtocol, proxy_none, proxy_v1, proxy_v2, ForwardProtocol,
}
use scaleway_cloud_controlle.Annotations.Keys
use scaleway_cloud_controlle.Annotations.Ports.{annotation, is_port_in_range, valid_service_port}

-- The loop of getSendProxyV2; here any number is let through.
unfoldable pub send_proxy_loop : ℤ → List String → Result ProxyProtocol
send_proxy_loop svc_port [] = ok proxy_none
send_proxy_loop svc_port (port ∷ ports) = elim (parse_int port) [
  | none ↦ err invalid_annotation
  | some int_port ↦ elim (int_eq svc_port int_port) [
    | true ↦ ok proxy_v2
    | false ↦ send_proxy_loop svc_port ports
  ]
]

unfoldable pub send_proxy_value : Service → ℤ → String → Result ProxyProtocol
send_proxy_value service node_port value = elim (parse_bool value) [
  | none ↦ do
    svc_port ← valid_service_port service node_port
    send_proxy_loop svc_port (split b',' (remove_char 32 value))
  | some on ↦ ok (if on then proxy_v2 else proxy_none)
]

unfoldable pub get_send_proxy_v2 : Service → ℤ → Result ProxyProtocol
get_send_proxy_v2 service node_port =
    elim (lookup Keys.annotation_send_proxy_v2 service.annotations) [
      | none ↦ ok proxy_none
      | some value ↦ send_proxy_value service node_port value
    ]

unfoldable pub choose_proxy : Bool → Bool → Result ProxyProtocol → Result ProxyProtocol
choose_proxy true true old = err (errorf "port is in both v1 and v2 proxy protocols")
choose_proxy true false old = ok proxy_v1
choose_proxy false true old = ok proxy_v2
choose_proxy false false old = old

unfoldable pub get_proxy_protocol : Service → ℤ → Result ProxyProtocol
get_proxy_protocol service node_port = do
  svc_port ← valid_service_port service node_port
  is_v1 ← is_port_in_range (annotation Keys.annotation_proxy_protocol_v1 service) svc_port
  is_v2 ← is_port_in_range (annotation Keys.annotation_proxy_protocol_v2 service) svc_port
  choose_proxy is_v1 is_v2 (get_send_proxy_v2 service node_port)

unfoldable pub get_forward_protocol : Service → ℤ → Result ForwardProtocol
get_forward_protocol service node_port = do
  svc_port ← valid_service_port service node_port
  is_http ← is_port_in_range (annotation Keys.annotation_protocol_http service) svc_port
  ok (if is_http then ForwardProtocol.http else ForwardProtocol.tcp)

unfoldable pub get_ssl_bridging : Service → ℤ → Result Bool
get_ssl_bridging service node_port =
    elim (lookup Keys.annotation_http_backend_tls service.annotations) [
      | none ↦ ok false
      | some tls_enabled ↦
          valid_service_port service node_port >>= λ p. is_port_in_range tls_enabled p
    ]

unfoldable pub get_ssl_bridging_skip_verify : Service → ℤ → Result (Option Bool)
get_ssl_bridging_skip_verify service node_port =
    elim (lookup Keys.annotation_http_backend_tls_skip_verify service.annotations) [
      | none ↦ ok none
      | some skip ↦ do
        svc_port ← valid_service_port service node_port
        b ← is_port_in_range skip svc_port
        ok (some b)
    ]

-- One part of the certificates annotation: the IDs that it gives to a port.
unfoldable pub certificate_step : ℤ → List String → Result (List String)
certificate_step port [] = ok []
certificate_step port (ids ∷ []) = ok (split b',' ids)
certificate_step port (ports ∷ ids ∷ _) = do
  in_range ← is_port_in_range ports port
  ok (if in_range then split b',' ids else [])

unfoldable pub certificate_loop : ℤ → List String → Result (List String)
certificate_loop port [] = ok []
certificate_loop port (per_port ∷ rest) = do
  ids ← certificate_step port (split b':' per_port)
  more ← certificate_loop port rest
  ok (ids ++ more)

unfoldable pub split_id : List String → Result String
split_id (region ∷ id ∷ []) = ok id
split_id _ = err (errorf "unable to get certificate ID")

-- An ID without its region.
unfoldable pub normalize_id : String → Result String
normalize_id id = if has_char b'/' id then split_id (split b'/' id) else ok id

unfoldable pub normalize_ids : List String → Result (List String)
normalize_ids [] = ok []
normalize_ids (id ∷ ids) = do first ← normalize_id id; rest ← normalize_ids ids; ok (first ∷ rest)

unfoldable pub get_certificate_ids : Service → ℤ → Result (List String)
get_certificate_ids service port =
    let certificates = annotation Keys.annotation_certificate_ids service in
    if certificates == ""
    then ok []
    else certificate_loop port (split b';' certificates) >>= normalize_ids
