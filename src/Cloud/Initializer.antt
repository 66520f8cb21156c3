-- ===== src/Cloud/Initializer.antt =====
-- cmd/scaleway-cloud-controller-manager/main.go: whether the process starts with a provider.
use scaleway_cloud_controlle.Base.{String, Bool, Option, none, some, Result, ok, err, if◌then◌else◌}
use scaleway_cloud_controlle.Cloud.{Cloud, has_cluster_id}

-- klog.Fatalf ends the process.
pub data Start (C : Type 0) : Type 0 where
  started : Cloud C → Start C
  fatal : String → Start C

module _ {C : Type 0} (allow_untagged_cloud : Bool) where
  unfoldable pub check_cluster_id : Cloud C → Start C
  check_cluster_id cloud =
      if has_cluster_id cloud
      then started cloud
      else if allow_untagged_cloud
      then started cloud
      else fatal "no ClusterID found"

  -- Of what cloudprovider.InitCloudProvider returns.
  unfoldable pub cloud_initializer : Result (Option (Cloud C)) → Start C
  cloud_initializer (err e) = fatal "Cloud provider could not be initialized"
  cloud_initializer (ok none) = fatal "Cloud provider is nil"
  cloud_initializer (ok (some cloud)) = check_cluster_id cloud
