-- ===== src/LoadBalancers/Nodes/Laws.antt =====
-- Which nodes may be given to a load balancer.
use scaleway_cloud_controlle.Base.{
  ℕ, ◌+◌, ◌<◌, ltb, Bool, false, List, [], ◌∷◌, ok, ◌≡◌, ◌↔◌, ◌⊎◌, refl, inl, inr, arith, any,
  is_empty, ◌==◌, if◌then◌else◌, All, Bool-cases, >>=-eq-ok,
}
use scaleway_cloud_controlle.Kube.{Node}
use scaleway_cloud_controlle.LoadBalancers.Nodes.{
  is_internal, is_external, node_addresses, taint_external_cloud_provider, grace_period,
  node_initialized, nodes_initialized,
}

module _ (now : ℕ) (use_internal_ips : Bool) where
  abbrev is_tainted : Node → Bool
  is_tainted node = any (λ taint. taint.key == taint_external_cloud_provider) node.taints

  abbrev lacks_ip : Node → Bool
  lacks_ip node =
      is_empty (node_addresses (if use_internal_ips then is_internal else is_external) (node ∷ []))

  -- A node is older than the grace period, or it has lost the taint and has an IP of the type that
  -- is used.
  abbrev pub IsSettled : Node → Type 0
  IsSettled node =
      (node.created + grace_period < now) ⊎ ((is_tainted node ≡ false) × (lacks_ip node ≡ false))

  node_initialized-IsSettled :
      (node : Node) → (node_initialized now use_internal_ips node ≡ ok tt) ↔ IsSettled node
  unfolding node_initialized
  node_initialized-IsSettled node = elim (Bool-cases (ltb (node.created + grace_period) now)) [
    | inl old ↦ (λ _. inl (ground arith), λ _. rw old refl)
    | inr young ↦ elim (Bool-cases (is_tainted node)) [
      | inl tainted ↦ (λ e. absurd (ground arith), λ k. absurd (ground arith))
      | inr clean ↦ elim (Bool-cases (lacks_ip node)) [
        | inl lacking ↦ (λ e. absurd (ground arith), λ k. absurd (ground arith))
        | inr reachable ↦ (λ _. inr (clean, reachable), λ _. rw (young, clean, reachable) refl)
      ]
    ]
  ]

  -- The nodes are taken for initialised exactly if each of them is older than the grace period, or
  -- has lost the taint of a new node and has an IP address of the type that is used.
  pub nodes_initialized-IsSettled :
      (nodes : List Node)
      → (nodes_initialized now use_internal_ips nodes ≡ ok tt) ↔ All IsSettled nodes
  unfolding nodes_initialized
  nodes_initialized-IsSettled [] = (λ _. tt, λ _. refl)
  nodes_initialized-IsSettled (node ∷ nodes) = (
    λ e.
        let (_, first, rest) = >>=-eq-ok _ _ e in
        ((node_initialized-IsSettled node).0 first, (nodes_initialized-IsSettled nodes).0 rest),
    λ (p, ps).
        rw ((node_initialized-IsSettled node).1 p) ((nodes_initialized-IsSettled nodes).1 ps),
  )
