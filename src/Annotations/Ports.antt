-- ===== src/Annotations/Ports.antt =====
-- scaleway/loadbalancers.go, isPortInRange; scaleway/loadbalancers_annotations.go, the search for
-- the service port of a node port and getValueForPort.
pub mod Laws
use scaleway_cloud_controlle.Base.{
  ℤ, pos, negsuc, int_eq, String, Bool, true, false, not, ◌&&◌, none, some, List, [], ◌∷◌, Result,
  ok, err, errorf, invalid_annotation, ◌>>=◌, ◌==◌, if◌then◌else◌, leb, split, get_or,
}
use scaleway_cloud_controlle.Base.Text.{remove_char}
use scaleway_cloud_controlle.Base.Parse.{parse_bool, parse_int}
use scaleway_cloud_controlle.Base.Dict.{lookup, string_key}
use scaleway_cloud_controlle.Kube.{Service, ServicePort}

-- `service.Annotations[key]`, which is "" if the key is missing.
unfoldable pub annotation : String → Service → String
annotation key service = get_or (lookup key service.annotations) ""

-- 1 to 65535
abbrev pub is_valid_port : ℤ → Bool
is_valid_port (pos n) = leb 1 n && leb n 65535
is_valid_port (negsuc n) = false

-- The loop of isPortInRange over the parts of the list.
unfoldable pub port_loop : ℤ → List String → Result Bool
port_loop p [] = ok false
port_loop p (port ∷ ports) = elim (parse_int port) [
  | none ↦ err (errorf "strconv.ParseInt")
  | some int_port ↦
      if not (is_valid_port int_port)
      then err (errorf "port is outside valid range (1-65535)")
      else elim (int_eq p int_port) [ true ↦ ok true | false ↦ port_loop p ports ]
]

unfoldable pub is_port_list : String → ℤ → Result Bool
is_port_list r p =
    if r == "*"
    then ok true
    else if r == ""
    then ok false
    else port_loop p (split b',' (remove_char 32 r))

unfoldable pub is_port_in_range : String → ℤ → Result Bool
is_port_in_range r p = elim (parse_bool r) [
  | none ↦ is_port_list r p
  | some bool_value ↦ if not (r == "1") && not (r == "0") then ok bool_value else is_port_list r p
]

-- The service port of a node port: the last that fits, -1 if none does.
unfoldable pub service_port_from : ℤ → ℤ → List ServicePort → ℤ
service_port_from svc_port node_port [] = svc_port
service_port_from svc_port node_port (p ∷ ports) =
    service_port_from (if int_eq p.node_port node_port then p.port else svc_port) node_port ports

unfoldable pub service_port : Service → ℤ → ℤ
service_port service node_port = service_port_from (negsuc 0) node_port service.ports

-- The same, with the error of the getters that refuse -1.
unfoldable pub valid_service_port : Service → ℤ → Result ℤ
valid_service_port service node_port =
    let svc_port = service_port service node_port in
    if int_eq svc_port (negsuc 0) then err invalid_annotation else ok svc_port

-- One round of getValueForPort: a value without ports is the default, until one is set.
unfoldable pub value_step : ℤ → String → List String → Result String
value_step svc_port value [] = ok value
value_step svc_port value (v ∷ []) = ok (if value == "" then v else value)
value_step svc_port value (ports ∷ v ∷ []) = do
  in_range ← is_port_in_range ports svc_port
  ok (if in_range then v else value)
value_step svc_port value (_ ∷ _ ∷ _ ∷ _) = err (errorf "annotation is wrongly formatted")

unfoldable pub value_loop : ℤ → String → List String → Result String
value_loop svc_port value [] = ok value
value_loop svc_port value (per_port ∷ rest) = do
  next ← value_step svc_port value (split b':' per_port)
  value_loop svc_port next rest

unfoldable pub get_value_for_port : Service → ℤ → String → Result String
get_value_for_port service node_port full_value =
    value_loop (service_port service node_port) "" (split b';' full_value)
