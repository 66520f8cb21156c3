-- ===== src/Sync/Labels.antt =====
-- scaleway/sync.go: the labels and the taints that syncNodeTags and SyncLBTags compute of tags.
pub mod Laws
use scaleway_cloud_controlle.Base.{
  String, Bool, not, ◌&&◌, none, some, List, [], ◌∷◌, map, ◌==◌, if◌then◌else◌, has_prefix, is_none,
}
use Prim.Native.String.{◌++◌}
use scaleway_cloud_controlle.Base.Dict.{Dict, lookup, insert, remove, string_key}
use scaleway_cloud_controlle.Kube.{Service, Node, Taint}
use scaleway_cloud_controlle.Sync.Tags.{
  Validation, labels_prefix, taints_prefix, label_taint_prefix, tag_label_parser, tag_taint_parser,
}

abbrev pub label_node_role_exclude_balancer : String
label_node_role_exclude_balancer = "node.kubernetes.io/exclude-from-external-load-balancers"

abbrev pub label_node_role_exclude_balancer_value : String
label_node_role_exclude_balancer_value = "managed-by-scaleway-ccm"

-- The labels of the tags, and the labels of the copied object.
pub record Labels : Type 0 where
  pub wanted : Dict String String
  pub copied : Dict String String

-- The maps that the loop over the tags fills.
pub record Tagged : Type 0 where
  pub labels : Labels
  pub taints : Dict String Taint

unfoldable pub add_label : String → String → Labels → Labels
add_label key value ls = record {
  wanted = insert key value ls.wanted;
  copied = insert key value ls.copied;
}

-- A tag without a key is passed over.
unfoldable pub add_parsed : String × String → Labels → Labels
add_parsed (key, value) ls = if key == "" then ls else add_label key value ls

-- fmt.Sprintf("%s:%s", key, effect)
unfoldable pub unique_key : Taint → String
unique_key taint = taint.key ++ (":" ++ taint.effect)

unfoldable pub add_taint : String × String × String → Dict String Taint → Dict String Taint
add_taint (key, value, effect) taints =
    let taint : Taint = record { key = key; value = value; effect = effect } in
    if key == "" then taints else insert (unique_key taint) taint taints

module _ (v : Validation) where
  unfoldable pub add_node_label : String → Labels → Labels
  add_node_label tag ls =
      if tag == label_node_role_exclude_balancer
      then add_label label_node_role_exclude_balancer label_node_role_exclude_balancer_value ls
      else add_parsed (tag_label_parser v tag) ls

  unfoldable pub add_node_tag : String → Tagged → Tagged
  add_node_tag tag t =
      if has_prefix tag label_taint_prefix
      then record t { taints = add_taint (tag_taint_parser v tag) t.taints }
      else record t { labels = add_node_label tag t.labels }

  unfoldable pub add_node_tags : List String → Tagged → Tagged
  add_node_tags [] t = t
  add_node_tags (tag ∷ tags) t = add_node_tags tags (add_node_tag tag t)

  unfoldable pub add_lb_tags : List String → Labels → Labels
  add_lb_tags [] ls = ls
  add_lb_tags (tag ∷ tags) ls = add_lb_tags tags (add_parsed (tag_label_parser v tag) ls)

-- Whether the label of a key comes from tags: a map has the value that is found for the key.
unfoldable pub is_managed_label : Dict String String → String → Bool
is_managed_label labels key =
    if key == label_node_role_exclude_balancer
    then (elim (lookup key labels) [
      | some value ↦ value == label_node_role_exclude_balancer_value
      | none ↦ Bool.false
    ])
    else has_prefix key labels_prefix

module _ (is_managed : String → Bool) (wanted : Dict String String) where
  -- The loop over the labels that the object had.
  unfoldable pub drop_stale : Dict String String → Dict String String → Dict String String
  drop_stale [] copied = copied
  drop_stale ((key, _) ∷ labels) copied =
      drop_stale labels
        (if is_managed key && is_none (lookup key wanted) then remove key copied else copied)

unfoldable pub synced_labels : (String → Bool) → Dict String String → Labels → Dict String String
synced_labels is_managed labels ls = drop_stale is_managed ls.wanted labels ls.copied

-- The loop over the taints that the node had.
unfoldable pub keep_taints : List Taint → Dict String Taint → Dict String Taint
keep_taints [] m = m
keep_taints (taint ∷ taints) m = keep_taints taints (
    if is_none (lookup (unique_key taint) m) && not (has_prefix taint.key taints_prefix)
    then insert (unique_key taint) taint m
    else m)

module _ (v : Validation) where
  unfoldable pub tagged : List String → Dict String String → Tagged
  tagged tags labels =
      add_node_tags v tags
        (record { labels = record { wanted = []; copied = labels }; taints = [] })

  unfoldable pub lb_labels : List String → Dict String String → Labels
  lb_labels tags labels = add_lb_tags v tags (record { wanted = []; copied = labels })

  -- The node that the patch of syncNodeTags leads to. The taints have the order of the list.
  unfoldable pub synced_node : Node → List String → Node
  synced_node node tags =
      let t = tagged tags node.labels in
      record node {
        labels = synced_labels (is_managed_label node.labels) node.labels t.labels;
        taints = map (λ entry. entry.1) (keep_taints node.taints t.taints);
      }

  -- The service that the patch of SyncLBTags leads to.
  unfoldable pub synced_service : Service → List String → Service
  synced_service service tags = record service {
    labels =
        synced_labels (λ key. has_prefix key labels_prefix) service.labels
          (lb_labels tags service.labels);
  }
