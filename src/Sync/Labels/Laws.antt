-- ===== src/Sync/Labels/Laws.antt =====
-- Which labels and taints an object has behind a synchronisation of its tags.
use scaleway_cloud_controlle.Base.{
  String, Bool, not, ◌&&◌, Option, none, some, List, [], ◌∷◌, ◌==◌, ◌≡◌, refl, arith, if◌then◌else◌,
  has_prefix, is_none, is_some, eq_iff, inl, inr, Bool-cases,
}
use scaleway_cloud_controlle.Base.Dict.{
  Dict, lookup, insert, remove, string_key, lookup-insert, lookup-remove,
}
use scaleway_cloud_controlle.Kube.{Service, Node, Taint}
use scaleway_cloud_controlle.Sync.Tags.{
  Validation, labels_prefix, taints_prefix, label_taint_prefix, tag_label_parser,
}
use scaleway_cloud_controlle.Sync.Labels.{
  Labels, Tagged, add_label, add_parsed, add_node_label, label_node_role_exclude_balancer,
  add_node_tag, add_node_tags, add_lb_tags, is_managed_label, drop_stale, synced_labels, unique_key,
  keep_taints, tagged, lb_labels, synced_node, synced_service,
}

abbrev pub or_else {ℓ} : {A : Type ℓ} → Option A → Option A → Option A
or_else none o = o
or_else (some a) o = some a

-- The copied labels are the wanted ones on top of the labels that the object had.
abbrev Extends : Dict String String → Labels → Type 0
Extends base ls = (k : String) → lookup k ls.copied ≡ or_else (lookup k ls.wanted) (lookup k base)

module _ (base : Dict String String) where
  add_label-Extends :
      (key value : String) (ls : Labels) → Extends base ls → Extends base (add_label key value ls)
  unfolding add_label
  add_label-Extends key value ls h k =
      ground (arith, lookup-insert key k value ls.wanted, lookup-insert key k value ls.copied, h k)

  add_parsed-Extends :
      (label : String × String) (ls : Labels) → Extends base ls → Extends base (add_parsed label ls)
  unfolding add_parsed
  add_parsed-Extends (key, value) ls h k = elim (Bool-cases (key == "")) [
    | inl missing ↦ rw missing (h k)
    | inr given ↦ rw given (add_label-Extends key value ls h k)
  ]

  module _ (v : Validation) where
    add_node_label-Extends :
        (tag : String) (ls : Labels) → Extends base ls → Extends base (add_node_label v tag ls)
    unfolding add_node_label
    add_node_label-Extends tag ls h k =
        elim (Bool-cases (tag == label_node_role_exclude_balancer)) [
          | inl excludes ↦ rw excludes (add_label-Extends _ _ ls h k)
          | inr other ↦ rw other (add_parsed-Extends (tag_label_parser v tag) ls h k)
        ]

    add_node_tag-Extends :
        (tag : String) (t : Tagged)
        → Extends base t.labels
        → Extends base (add_node_tag v tag t).labels
    unfolding add_node_tag
    add_node_tag-Extends tag t h k = elim (Bool-cases (has_prefix tag label_taint_prefix)) [
      | inl taint ↦ rw taint (h k)
      | inr label ↦ rw label (add_node_label-Extends tag t.labels h k)
    ]

    add_node_tags-Extends :
        (tags : List String) (t : Tagged)
        → Extends base t.labels
        → Extends base (add_node_tags v tags t).labels
    unfolding add_node_tags
    add_node_tags-Extends [] t h = h
    add_node_tags-Extends (tag ∷ tags) t h =
        add_node_tags-Extends tags _ (add_node_tag-Extends tag t h)

    add_lb_tags-Extends :
        (tags : List String) (ls : Labels) → Extends base ls → Extends base (add_lb_tags v tags ls)
    unfolding add_lb_tags
    add_lb_tags-Extends [] ls h = h
    add_lb_tags-Extends (tag ∷ tags) ls h =
        add_lb_tags-Extends tags _ (add_parsed-Extends (tag_label_parser v tag) ls h)

module _ (is_managed : String → Bool) (wanted : Dict String String) where
  lookup-drop_stale :
      (k : String) (labels m : Dict String String)
      → lookup k (drop_stale is_managed wanted labels m) ≡ (
          if is_some (lookup k labels) && (is_managed k && is_none (lookup k wanted))
          then none
          else lookup k m)
  unfolding drop_stale lookup
  lookup-drop_stale k [] m = refl
  lookup-drop_stale k ((j, value) ∷ labels) m =
      elim (Bool-cases (is_managed j && is_none (lookup j wanted))) [
        | inl stale ↦
            rw stale ground
              (arith, lookup-drop_stale k labels (remove j m), lookup-remove j k m, eq_iff j k)
        | inr fresh ↦ rw fresh ground (arith, lookup-drop_stale k labels m, eq_iff j k)
      ]

-- The label of a key behind a synchronisation.
abbrev pub expected_label :
    (String → Bool) → Dict String String → Dict String String → String → Option String
expected_label is_managed wanted labels k =
    or_else (lookup k wanted) (if is_managed k then none else lookup k labels)

lookup-synced_labels :
    (is_managed : String → Bool) (labels : Dict String String) (ls : Labels) (k : String)
    → Extends labels ls
    → lookup k (synced_labels is_managed labels ls) ≡ expected_label is_managed ls.wanted labels k
unfolding synced_labels
lookup-synced_labels is_managed labels ls k h =
    ground (arith, lookup-drop_stale is_managed ls.wanted k labels ls.copied, h k)

module _ (v : Validation) where
  -- Behind a synchronisation, a node has the labels that its server's tags give. A label that the
  -- tags do not give stays as it was, unless the controller manages it: then it is gone.
  pub synced_node-labels :
      (node : Node) (tags : List String) (k : String)
      → lookup k (synced_node v node tags).labels
        ≡ expected_label
            (is_managed_label node.labels)
            (tagged v tags node.labels).labels.wanted
            node.labels
            k
  unfolding synced_node tagged lookup
  synced_node-labels node tags k =
      lookup-synced_labels _ node.labels (tagged v tags node.labels).labels k
        (add_node_tags-Extends node.labels v tags _ (λ k. refl))

  -- A service has the labels that its load balancer's tags give, and loses those with the
  -- controller's prefix that the tags do not give; all others stay as they were.
  pub synced_service-labels :
      (service : Service) (tags : List String) (k : String)
      → lookup k (synced_service v service tags).labels
        ≡ expected_label
            (λ key. has_prefix key labels_prefix)
            (lb_labels v tags service.labels).wanted
            service.labels
            k
  unfolding synced_service lb_labels lookup
  synced_service-labels service tags k =
      lookup-synced_labels _ service.labels (lb_labels v tags service.labels) k
        (add_lb_tags-Extends service.labels v tags _ (λ k. refl))

  add_node_tag-wanted :
      (tag : String) (s t : Tagged)
      → s.labels.wanted ≡ t.labels.wanted
      → (add_node_tag v tag s).labels.wanted ≡ (add_node_tag v tag t).labels.wanted
  unfolding add_node_tag add_node_label add_parsed add_label
  add_node_tag-wanted tag s t h = ground arith

  -- What the tags give does not depend on the labels that there are.
  add_node_tags-wanted :
      (tags : List String) (s t : Tagged)
      → s.labels.wanted ≡ t.labels.wanted
      → (add_node_tags v tags s).labels.wanted ≡ (add_node_tags v tags t).labels.wanted
  unfolding add_node_tags
  add_node_tags-wanted [] s t h = h
  add_node_tags-wanted (tag ∷ tags) s t h =
      add_node_tags-wanted tags (add_node_tag v tag s) (add_node_tag v tag t)
        (add_node_tag-wanted tag s t h)

  tagged-wanted :
      (m n : Dict String String) (tags : List String)
      → (tagged v tags m).labels.wanted ≡ (tagged v tags n).labels.wanted
  unfolding tagged
  tagged-wanted m n tags = add_node_tags-wanted tags _ _ refl

  -- A second synchronisation with the same tags changes no label.
  pub synced_node-settled :
      (node : Node) (tags : List String) (k : String)
      → lookup k (synced_node v (synced_node v node tags) tags).labels
        ≡ lookup k (synced_node v node tags).labels
  unfolding is_managed_label
  synced_node-settled node tags k =
      let once = synced_node v node tags in
      ground (
        arith,
        synced_node-labels node tags k,
        synced_node-labels once tags k,
        tagged-wanted node.labels once.labels tags,
      )

-- The first taint of a list that has a unique key, and a key of somebody else.
abbrev pub first_foreign : String → List Taint → Option Taint
first_foreign u [] = none
first_foreign u (taint ∷ taints) =
    let rest = first_foreign u taints in
    if unique_key taint == u && not (has_prefix taint.key taints_prefix) then some taint else rest

-- Behind a synchronisation, the taint of a key and an effect is the one of the tags, or else the
-- first that the node had whose key has not the controller's prefix.
pub lookup-keep_taints :
    (u : String) (taints : List Taint) (m : Dict String Taint)
    → lookup u (keep_taints taints m) ≡ or_else (lookup u m) (first_foreign u taints)
unfolding keep_taints
lookup-keep_taints u [] m = ground arith
lookup-keep_taints u (taint ∷ taints) m =
    elim (Bool-cases
      (is_none (lookup (unique_key taint) m) && not (has_prefix taint.key taints_prefix))) [
        | inl kept ↦ rw kept ground (
          arith,
          lookup-keep_taints u taints (insert (unique_key taint) taint m),
          lookup-insert (unique_key taint) u taint m,
          eq_iff (unique_key taint) u,
        )
        | inr dropped ↦
            rw dropped ground (arith, lookup-keep_taints u taints m, eq_iff (unique_key taint) u)
      ]
