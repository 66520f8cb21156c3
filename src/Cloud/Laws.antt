-- ===== src/Cloud/Laws.antt =====
-- Which interfaces the provider has, and when the process starts with it.
use scaleway_cloud_controlle.Base.{
  String, Bool, true, false, not, ◌↔◌, ◌>>=◌, Option, none, some, List, [], ◌∷◌, Result, ok, err,
  >>=-eq-ok, ◌≡◌, refl, arith, any, is_some, ◌==◌, split, to_lower, if◌then◌else◌,
}
use scaleway_cloud_controlle.Cloud.{
  Client, new_client, Sdk, Build, Parts, Cloud, is_not_nil, of_interface, of_pointer,
  disable_interface, disable_interfaces, new_parts, check_region, assemble, cloud_of, user_agent,
  new_cloud, load_balancer, instances_interface, instances_v2, zones_interface, has_cluster_id,
}
use scaleway_cloud_controlle.Cloud.Initializer.{started, check_cluster_id, cloud_initializer}

-- Whether a name is in the list of disabled interfaces, in any case of its letters.
abbrev pub is_disabled : String → List String → Bool
is_disabled name = any (λ n. to_lower n == name)

disable_interface-servers :
    (name : String) (parts : Parts)
    → is_some (disable_interface name parts).servers_part
      ≡ (if to_lower name == "instances" then false else is_some parts.servers_part)
unfolding disable_interface
disable_interface-servers name parts = ground arith

disable_interfaces-servers :
    (names : List String) (parts : Parts)
    → is_some (disable_interfaces names parts).servers_part
      ≡ (if is_disabled "instances" names then false else is_some parts.servers_part)
unfolding disable_interfaces
disable_interfaces-servers [] parts = refl
disable_interfaces-servers (name ∷ names) parts = ground (
  arith,
  disable_interfaces-servers names (disable_interface name parts),
  disable_interface-servers name parts,
)

of_interface-is_not_nil : {T : Type 0} (p : Option T) → is_not_nil (of_interface p) ≡ is_some p
unfolding of_interface
of_interface-is_not_nil none = refl
of_interface-is_not_nil (some t) = refl

module _ {C : Type 0} (sdk : Sdk C) (build : Build) (getenv : String → String) where
  abbrev pub disabled : List String
  disabled = split b',' (getenv "DISABLE_INTERFACES")

  new_cloud-eq-ok :
      (c : Cloud C)
      → new_cloud sdk build getenv ≡ ok c
      → (client : Client C) × (c ≡ cloud_of sdk build getenv client)
  unfolding new_cloud
  new_cloud-eq-ok c h =
      let (made, _, h1) =
        >>=-eq-ok (sdk.scw_new_client (user_agent sdk build getenv))
          (λ x.
            check_region sdk build getenv x >>= λ y. ok (cloud_of sdk build getenv (new_client y)))
          h in
      let (client, _, h2) =
        >>=-eq-ok (check_region sdk build getenv made)
          (λ y. ok (cloud_of sdk build getenv (new_client y))) h1 in
      (new_client client, ground arith)

  cloud_of-interfaces :
      (client : Client C)
      → let c = cloud_of sdk build getenv client in
        ((instances_interface c).1 ≡ not (is_disabled "instances" disabled))
        × ((instances_v2 c).1 ≡ not (is_disabled "instances" disabled))
        × ((load_balancer c).1 ≡ true)
        × ((zones_interface c).1 ≡ true)
  unfolding cloud_of new_parts instances_interface instances_v2 load_balancer zones_interface
      assemble of_pointer
  cloud_of-interfaces client =
      let made = new_parts sdk build getenv client in
      let some_servers = of_interface-is_not_nil (disable_interfaces disabled made).servers_part in
      let left = disable_interfaces-servers disabled made in
      (ground arith, ground arith, refl, refl)

  -- The provider has the Instances interfaces unless DISABLE_INTERFACES names them. It has the
  -- LoadBalancer and the Zones interfaces whatever DISABLE_INTERFACES says.
  pub new_cloud-interfaces :
      (c : Cloud C)
      → new_cloud sdk build getenv ≡ ok c
      → ((instances_interface c).1 ≡ not (is_disabled "instances" disabled))
        × ((instances_v2 c).1 ≡ not (is_disabled "instances" disabled))
        × ((load_balancer c).1 ≡ true)
        × ((zones_interface c).1 ≡ true)
  new_cloud-interfaces c h =
      let (client, e) = new_cloud-eq-ok c h in rw e (cloud_of-interfaces client)

-- The process starts with exactly the provider that was made, and only if clouds without an ID of
-- the cluster are allowed.
cloud_initializer-started :
    {C : Type 0} (allow_untagged_cloud : Bool) (made : Result (Option (Cloud C))) (c : Cloud C)
    → (cloud_initializer allow_untagged_cloud made ≡ started c)
      ↔ ((made ≡ ok (some c)) × (allow_untagged_cloud ≡ true))
unfolding cloud_initializer check_cluster_id has_cluster_id
cloud_initializer-started allow (err e) c = ground arith
cloud_initializer-started allow (ok none) c = ground arith
cloud_initializer-started true (ok (some d)) c = ground arith
cloud_initializer-started false (ok (some d)) c = ground arith
