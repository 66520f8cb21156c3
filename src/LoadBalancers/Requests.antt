-- ===== src/LoadBalancers/Requests.antt =====
-- scaleway/loadbalancers.go: the requests that create and update frontends and backends.
use scaleway_cloud_controlle.Base.{String, Option, none, some, errorf}
use scaleway_cloud_controlle.Scaleway.LoadBalancer.{Lb, Frontend, Backend, HealthCheck}
use scaleway_cloud_controlle.Scaleway.Api.{Call, M, return, fail, ◌>>=◌, ◌>>◌, send, or_fail}
use scaleway_cloud_controlle.LoadBalancers.Controller.{Controller}

-- ZonedAPICreateBackendRequest has every field but the ID.
abbrev pub new_backend : Backend → Backend
new_backend backend = record backend { id = "" }

-- ZonedAPIUpdateBackendRequest has neither the servers nor the health check.
abbrev pub backend_settings : Backend → Backend
backend_settings backend = record backend { pool = none; health_check = none }

-- The requests for a frontend name its backend by its ID.
abbrev pub new_frontend : Frontend → Frontend
new_frontend frontend = record frontend { id = ""; backend_forward_port = none }

abbrev pub frontend_settings : Frontend → Frontend
frontend_settings frontend = record frontend { backend_forward_port = none }

module _ (c : Controller) (lb : Lb) where
  open c use {api}

  unfoldable pub create_backend : Backend → M Backend
  create_backend backend =
      send (Call.create_backend lb.zone lb.id (new_backend backend))
        (λ h. api.created_backend h lb.zone lb.id (new_backend backend))

  -- The health check has a request of its own. A backend without one would be a nil dereference.
  unfoldable pub update_health_check : String → Option HealthCheck → M (Unit {0})
  update_health_check backend_id none = fail (errorf "nil pointer dereference")
  update_health_check backend_id (some check) =
      or_fail
        (send (Call.update_health_check lb.zone backend_id check)
          (λ h. api.acknowledge h (Call.update_health_check lb.zone backend_id check)))
        (errorf "failed to update healthcheck")

  unfoldable pub update_backend : Backend → M Backend
  update_backend backend = do
    b ←
        send (Call.update_backend lb.zone (backend_settings backend))
          (λ h. api.updated_backend h lb.zone (backend_settings backend))
    update_health_check backend.id backend.health_check
    return b

  unfoldable pub create_frontend : Frontend → Backend → M Frontend
  create_frontend frontend backend =
      send (Call.create_frontend lb.zone lb.id (new_frontend frontend) backend.id)
        (λ h. api.created_frontend h lb.zone lb.id (new_frontend frontend) backend.id)

  unfoldable pub update_frontend : Frontend → Backend → M Frontend
  update_frontend frontend backend =
      send (Call.update_frontend lb.zone (frontend_settings frontend) backend.id)
        (λ h. api.updated_frontend h lb.zone (frontend_settings frontend) backend.id)
