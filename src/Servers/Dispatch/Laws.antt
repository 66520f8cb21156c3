-- ===== src/Servers/Dispatch/Laws.antt =====
-- What the dispatching implementation tells the node life cycle: when a node counts as gone.
use scaleway_cloud_controlle.Base.{
  Bool, true, false, Result, ok, err, instance_not_found, ◌==◌, ◌≡◌, arith, if◌then◌else◌,
  Bool-cases, inl, inr, ◌>>=◌, not, ◌↔◌,
}
use scaleway_cloud_controlle.Base.Dict.{string_key}
use scaleway_cloud_controlle.Kube.{Node}
use scaleway_cloud_controlle.Servers.Interface.{exists}
use scaleway_cloud_controlle.Servers.Instances.{Instances}
use scaleway_cloud_controlle.Servers.Instances
use scaleway_cloud_controlle.Servers.Baremetal.{Baremetal}
use scaleway_cloud_controlle.Servers.Baremetal
use scaleway_cloud_controlle.Servers.ProviderId.{is_baremetal_id}
use scaleway_cloud_controlle.Servers.Dispatch.{
  has_no_lifecycle, exists_by_name, get_implementation_by_provider_id, instance_exists,
}

-- An existence test is negative for the one error that says so.
exists-false : {T : Type 0} (r : Result T) → (exists r ≡ ok false) ↔ (r ≡ err instance_not_found)
unfolding exists
exists-false (ok t) = ground arith
exists-false (err e) = ground arith

bind-false :
    (r s : Result Bool)
    → ((r >>= λ found. if not found then s else ok found) ≡ ok false)
      ↔ ((r ≡ ok false) × (s ≡ ok false))
bind-false (ok true) s = ground arith
bind-false (ok false) s = ground arith
bind-false (err e) s = ground arith

module _ (i : Instances) (b : Baremetal) where
  -- The one search, or both, that must find nothing.
  abbrev pub IsGone : Node → Type 0
  IsGone node =
      if node.provider_id == ""
      then (Instances.by_name i node.name ≡ err instance_not_found)
        × (Baremetal.by_name b node.name ≡ err instance_not_found)
      else if is_baremetal_id node.provider_id
      then Baremetal.by_provider_id b node.provider_id ≡ err instance_not_found
      else Instances.by_provider_id i node.provider_id ≡ err instance_not_found

  -- A node is reported as gone if and only if its life cycle is not disabled and the searches for
  -- its server end in InstanceNotFound: both by name without a provider ID, and otherwise the one
  -- by the provider ID. No other error makes a node disappear.
  pub instance_exists-IsGone :
      (node : Node)
      → (instance_exists (Instances.instances i) (Baremetal.baremetal b) node ≡ ok false)
        ↔ ((has_no_lifecycle node ≡ false) × IsGone node)
  unfolding instance_exists exists_by_name get_implementation_by_provider_id Instances.instances
      Baremetal.baremetal Instances.by_node Baremetal.by_node
  instance_exists-IsGone node = elim (Bool-cases (has_no_lifecycle node)) [
    | inl on ↦ rw on (ground arith)
    | inr off ↦ elim (Bool-cases (node.provider_id == "")) [
      | inl named ↦
          rw (off, named)
            (ground (
              arith,
              bind-false (exists (Instances.by_name i node.name))
                  (exists (Baremetal.by_name b node.name)),
              exists-false (Instances.by_name i node.name),
              exists-false (Baremetal.by_name b node.name),
            ))
      | inr identified ↦ elim (Bool-cases (is_baremetal_id node.provider_id)) [
        | inl metal ↦
            rw (off, identified, metal)
              (ground (arith, exists-false (Baremetal.by_provider_id b node.provider_id)))
        | inr instance_id ↦
            rw (off, identified, instance_id)
              (ground (arith, exists-false (Instances.by_provider_id i node.provider_id)))
      ]
    ]
  ]
