-- ===== src/Tests/Order.antt =====
-- Examples of the order of an update's calls.
use scaleway_cloud_controlle.Base.{[], ◌∷◌}
use scaleway_cloud_controlle.LoadBalancers.Update.{update_load_balancer}
use scaleway_cloud_controlle.LoadBalancers.Phases.Order.{IsOrdered, update_load_balancer-IsOrdered}
use scaleway_cloud_controlle.Tests.{some_controller, some_lb, plain_service, some_node}

update_load_balancer-IsOrdered_example :
    IsOrdered 0 5 (update_load_balancer some_controller 0 some_lb plain_service (some_node ∷ []))
update_load_balancer-IsOrdered_example =
    update_load_balancer-IsOrdered some_controller 0 some_lb plain_service (some_node ∷ [])
