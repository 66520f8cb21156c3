-- ===== src/LoadBalancers/Managed/Laws.antt =====
-- What the controller does to a load balancer that is managed by others.
use scaleway_cloud_controlle.Base.{
  ℕ, Bool, true, List, Result, ok, err, Error, ◌≡◌, refl, or_errorf, errorf, arith,
}
use scaleway_cloud_controlle.Kube.{Service, Node}
use scaleway_cloud_controlle.Scaleway.LoadBalancer.{Lb}
use scaleway_cloud_controlle.Scaleway.Api.{M, return}
use scaleway_cloud_controlle.Scaleway.Api.Trace.{
  calls, Calls-none, Calls-map_error, Calls->>=, Calls->>, Calls-lift_ok, Calls-lift_err,
  Calls-lift, Calls-then,
}
use scaleway_cloud_controlle.Annotations.Values.{svc_externally_managed}
use scaleway_cloud_controlle.LoadBalancers.Controller.{Controller}
use scaleway_cloud_controlle.LoadBalancers.Lifecycle.{fetch_load_balancer, create_load_balancer}
use scaleway_cloud_controlle.LoadBalancers.Update.{
  sync_resources, update_settings, update_resources, update_load_balancer,
}
use scaleway_cloud_controlle.LoadBalancers.Ensure.{
  branch, or_missing, fetch_or_create, recreate_on_mismatch, check_settings, ensure_load_balancer,
  check_service, ensure_load_balancer_deleted, update_load_balancer_hosts, update_existing,
  delete_or_release, release,
}
use scaleway_cloud_controlle.LoadBalancers.Managed.{Spares, attach_private_networks-Spares}
use scaleway_cloud_controlle.LoadBalancers.Managed.Parts.{
  list_frontends-Spares, list_backends-Spares, apply_ops-Spares, fetch_load_balancer-Spares,
  remove_externally_managed_resources-Spares, create_service_status-Spares,
}

module _ (c : Controller) (service : Service) where
  branch-Spares :
      {A : Type 0} (r : Result Lb) (missing : M A) (found : Lb → M A)
      → Spares c missing
      → ((lb : Lb) → Spares c (found lb))
      → Spares c (branch r missing found)
  unfolding branch
  branch-Spares (ok lb) missing found s t = t lb
  branch-Spares (err e) missing found s t = search (calls, s)

  or_missing-Spares :
      {A : Type 0} {find : M Lb} (missing : M A) (found : Lb → M A)
      → Spares c find
      → Spares c missing
      → ((lb : Lb) → Spares c (found lb))
      → Spares c (or_missing find missing found)
  unfolding or_missing
  or_missing-Spares missing found f s t =
      Calls-then (λ r. branch r missing found) f (λ r. branch-Spares r missing found s t)

  release-Spares : (lb : Lb) → Spares c (release c service true lb)
  unfolding release
  release-Spares lb = remove_externally_managed_resources-Spares c service lb

  module _ (managed : svc_externally_managed service ≡ ok true) where
    settled : (e : Error) → or_errorf (svc_externally_managed service) e ≡ ok true
    settled e = rw managed refl

    create_load_balancer-Spares : Spares c (create_load_balancer c service)
    unfolding create_load_balancer
    create_load_balancer-Spares = Calls-lift_ok _ _ true (settled _) (Calls-lift_err _ _)

    sync_resources-Spares :
        (lb : Lb) (nodes : List Node) → Spares c (sync_resources c lb service nodes true)
    unfolding sync_resources update_settings
    sync_resources-Spares lb nodes = Calls->>= (list_frontends-Spares c lb _) λ _.
        Calls->>= (list_backends-Spares c lb _) λ _.
          Calls->>= Calls-none
            λ want. Calls->> (apply_ops-Spares c lb service nodes _ _ _) Calls-none

    update_resources-Spares :
        (now : ℕ) (lb : Lb) (nodes : List Node) → Spares c (update_resources c now lb service nodes)
    unfolding update_resources
    update_resources-Spares now lb nodes = Calls-lift_ok _ _ true (settled _) (
        Calls->> Calls-none (
          Calls->> (Calls-map_error _ (attach_private_networks-Spares c lb service))
            (sync_resources-Spares lb _)))

    update_load_balancer-Spares :
        (now : ℕ) (lb : Lb) (nodes : List Node)
        → Spares c (update_load_balancer c now lb service nodes)
    unfolding update_load_balancer
    update_load_balancer-Spares now lb nodes = search (calls, update_resources-Spares)

    fetch_or_create-Spares : Spares c (fetch_or_create c service)
    unfolding fetch_or_create
    fetch_or_create-Spares =
        or_missing-Spares _ _ (fetch_load_balancer-Spares c service) create_load_balancer-Spares
          (λ _. Calls-none)

    -- The private or public kind of a service is read after that; a managed load balancer is kept.
    check_service-managed : (m p : Bool) → check_service c service ≡ ok (m, p) → m ≡ true
    unfolding check_service check_settings
    check_service-managed m p h = ground (arith, managed)

    recreate_on_mismatch-Spares :
        (m p : Bool) (lb : Lb) → m ≡ true → Spares c (recreate_on_mismatch c service m p lb)
    unfolding recreate_on_mismatch
    recreate_on_mismatch-Spares m p lb h = rw h Calls-none

    ensure-Spares :
        (now : ℕ) (nodes : List Node) → Spares c (ensure_load_balancer c service now nodes)
    unfolding ensure_load_balancer
    ensure-Spares now nodes = Calls-lift _ _ λ settings e.
        Calls->>= fetch_or_create-Spares λ existing.
          Calls->>=
            (recreate_on_mismatch-Spares settings.0 settings.1 existing
              (check_service-managed settings.0 settings.1 e))
            λ lb. Calls->> Calls-none (
              Calls->> (update_load_balancer-Spares now lb nodes)
                (create_service_status-Spares c service lb))

    update_existing-Spares :
        (now : ℕ) (nodes : List Node) → Spares c (update_existing c service now nodes)
    unfolding update_existing
    update_existing-Spares now nodes =
        Calls->>= (fetch_load_balancer-Spares c service)
          λ lb. update_load_balancer-Spares now lb nodes

    delete_or_release-Spares : (lb : Lb) → Spares c (delete_or_release c service lb)
    unfolding delete_or_release
    delete_or_release-Spares lb =
        Calls-lift_ok _ (λ m. release c service m lb) true (settled (errorf "externally-managed"))
          (release-Spares lb)

    deletion-Spares :
        Spares c
          (or_missing (fetch_load_balancer c service) (return tt) (delete_or_release c service))
    deletion-Spares =
        or_missing-Spares _ _ (fetch_load_balancer-Spares c service) Calls-none
          delete_or_release-Spares

    -- For a service whose load balancer is managed by others, EnsureLoadBalancer, UpdateLoadBalancer
    -- and EnsureLoadBalancerDeleted make no call that creates, deletes, migrates or updates a load
    -- balancer, and attach and detach no private network but the controller's own, whatever the APIs
    -- answer.
    pub ensure_load_balancer-Spares :
        (now : ℕ) (nodes : List Node)
        → Spares c (ensure_load_balancer c service now nodes)
          × Spares c (update_load_balancer_hosts c service now nodes)
          × Spares c (ensure_load_balancer_deleted c service)
    unfolding update_load_balancer_hosts ensure_load_balancer_deleted
    ensure_load_balancer-Spares now nodes = (
      ensure-Spares now nodes,
      search (calls, update_existing-Spares),
      search (calls, deletion-Spares),
    )
