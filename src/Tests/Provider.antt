-- ===== src/Tests/Provider.antt =====
-- Examples of the provider.
use scaleway_cloud_controlle.Base.{
  String, true, false, some, ok, ◌≡◌, refl, ◌==◌, split, to_lower, if◌then◌else◌,
}
use scaleway_cloud_controlle.Cloud.{
  new_client, Sdk, Build, cloud_of, new_cloud, check_region, instances_interface, instances_v2,
  load_balancer, zones_interface,
}
use scaleway_cloud_controlle.Cloud.Laws.{new_cloud-interfaces}
use scaleway_cloud_controlle.Tests.{some_cloud, some_packages}
use scaleway_cloud_controlle.Tests.Nodes.{no_instances, no_baremetal}

-- A process that asks for the interfaces of the instances and of the load balancers to be left out;
-- its client is always the same one.
abbrev some_variables : String → String
some_variables name = if name == "DISABLE_INTERFACES" then "Instances,loadbalancer" else ""

abbrev some_sdk : Sdk (Unit {0})
some_sdk = record {
  scw_new_client = λ agent. ok tt;
  default_region = λ client. some "fr-par";
  instance_api = λ client. no_instances;
  baremetal_api = λ client. no_baremetal;
  lb_api = λ client. some_cloud;
  packages = some_packages;
}

abbrev some_build : Build
some_build = record { ccm_version = "v0.1"; git_commit = "abc" }

some_sdk-made :
    new_cloud some_sdk some_build some_variables
    ≡ ok (cloud_of some_sdk some_build some_variables (new_client tt))
unfolding new_cloud check_region
some_sdk-made = refl

new_cloud-interfaces_example :
    let c = cloud_of some_sdk some_build some_variables (new_client tt) in
    ((instances_interface c).1 ≡ false)
    × ((instances_v2 c).1 ≡ false)
    × ((load_balancer c).1 ≡ true)
    × ((zones_interface c).1 ≡ true)
unfolding split to_lower
new_cloud-interfaces_example =
    new_cloud-interfaces some_sdk some_build some_variables
      (cloud_of some_sdk some_build some_variables (new_client tt)) some_sdk-made
