-- ===== src/LoadBalancers/Compare.antt =====
-- scaleway/loadbalancers.go: the operations that lead from the resources of a load balancer to
-- those that a service asks for. compareFrontends and compareBackends are one function of the
-- resource's name, port, equality, and the update of a wanted resource by its current one.
pub mod Laws
pub mod Rounds
pub mod Soundness
pub mod Convergence
use scaleway_cloud_controlle.Base.{
  ℤ, String, Bool, not, none, some, List, [], ◌∷◌, ◌++◌, if◌then◌else◌, has_prefix,
}
use mathlib.Core.Option
use scaleway_cloud_controlle.Base.Dict.{Dict, lookup, insert, int_key}
use scaleway_cloud_controlle.Base.Sort.{sort}
use scaleway_cloud_controlle.Scaleway.Packages.{Packages}
use scaleway_cloud_controlle.Scaleway.LoadBalancer.{Frontend, Backend}
use scaleway_cloud_controlle.LoadBalancers.Equality.{
  frontend_head_equals, frontend_equals, backend_equals,
}

pub record Ops (T : Type 0) : Type 0 where
  pub remove : List T
  pub update : Dict ℤ T
  pub create : Dict ℤ T
  pub keep : Dict ℤ T
  -- The ports that were seen, which the source keeps in a map of its own.
  pub evaluated : Dict ℤ T

module _ {T : Type 0} (name : T → String) (port : T → ℤ) (equals : T → T → Bool) (adopt : T → T → T)
    (want : Dict ℤ T) where
  -- What becomes of the first resource on a port.
  unfoldable pub place : T → Ops T → Ops T
  place current ops = elim (lookup (port current) want) [
    | none ↦ record ops { remove = ops.remove ++ current ∷ [] }
    | some target ↦
        if equals current target
        then record ops { keep = insert (port target) current ops.keep }
        else record ops { update = insert (port target) (adopt current target) ops.update }
  ]

  -- One round of the first loop.
  unfoldable pub examine : String → T → Ops T → Ops T
  examine prefix current ops =
      if not (has_prefix (name current) prefix)
      then ops
      else elim (lookup (port current) ops.evaluated) [
        | some _ ↦ record ops { remove = ops.remove ++ current ∷ [] }
        | none ↦
            place current (record ops { evaluated = insert (port current) current ops.evaluated })
      ]

  unfoldable pub examine_all : String → List T → Ops T → Ops T
  examine_all prefix [] ops = ops
  examine_all prefix (current ∷ got) ops = examine_all prefix got (examine prefix current ops)

  -- The second loop, over the wanted resources.
  unfoldable pub add_missing : Dict ℤ T → Ops T → Ops T
  add_missing [] ops = ops
  add_missing ((_, target) ∷ targets) ops =
      add_missing targets (elim (lookup (port target) ops.evaluated) [
        | some _ ↦ ops
        | none ↦ record ops { create = insert (port target) target ops.create }
      ])

  unfoldable pub compare_resources : List T → String → Ops T
  compare_resources got prefix = add_missing want (
      examine_all prefix got
        (record { remove = []; update = []; create = []; keep = []; evaluated = [] }))

-- `target.ID = current.ID`. If the comparison came as far as the certificates, it has sorted them.
unfoldable pub adopt_frontend : Frontend → Frontend → Frontend
adopt_frontend current target = record target {
  id = current.id;
  certificate_ids =
      if frontend_head_equals current target
      then Option.map sort target.certificate_ids
      else target.certificate_ids;
}

unfoldable pub adopt_backend : Backend → Backend → Backend
adopt_backend current target = record target { id = current.id }

unfoldable pub compare_frontends : List Frontend → Dict ℤ Frontend → String → Ops Frontend
compare_frontends got want prefix =
    compare_resources (λ f. f.name) (λ f. f.inbound_port) frontend_equals adopt_frontend want got
      prefix

unfoldable pub compare_backends : Packages → List Backend → Dict ℤ Backend → String → Ops Backend
compare_backends packages got want prefix =
    compare_resources (λ b. b.name) (λ b. b.forward_port) (backend_equals packages) adopt_backend
      want got prefix
