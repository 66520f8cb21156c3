-- ===== src/Tests/Sync.antt =====
-- Examples of the synchronisation of tags.
use scaleway_cloud_controlle.Base.{
  true, none, some, [], ◌∷◌, ok, ◌≡◌, refl, arith, has_prefix, eq_iff,
}
use Prim.Native.String.{◌++◌}
use scaleway_cloud_controlle.Base.Dict.{insert, lookup, string_key}
use scaleway_cloud_controlle.Kube.{Service, Node, Taint}
use scaleway_cloud_controlle.Scaleway.Api.Trace.{Calls}
use scaleway_cloud_controlle.Sync.Tags.{
  label_value, split_runs, split_regexp, label_of, tag_prefix, parsed_label, byte_length,
  is_qualified_rest, is_qualified_name, Validation, tag_label_parser, tag_taint_parser,
}
use scaleway_cloud_controlle.Sync.Tags.Laws.{
  tag_label_parser-pair, tag_label_parser-key, tag_taint_parser-label,
}
use scaleway_cloud_controlle.Sync.Labels.{
  is_managed_label, add_label, add_lb_tags, lb_labels, add_parsed, add_node_label, add_node_tag,
  add_node_tags, tagged, unique_key, synced_node, synced_service, keep_taints,
}
use scaleway_cloud_controlle.Sync.Labels.Laws.{
  synced_node-labels, synced_node-settled, synced_service-labels, lookup-keep_taints,
}
use scaleway_cloud_controlle.Sync.Controller.{SyncController, sync_node_tags, sync_lb_tags}
use scaleway_cloud_controlle.Sync.Controller.Laws.{
  IsNodeSync, IsSyncOf, sync_node_tags-IsNodeSync, sync_lb_tags-IsServiceSync,
}
use scaleway_cloud_controlle.Tests.{some_node, some_controller, managed_service}

abbrev accepting : Validation
accepting = record { is_dns1123_subdomain = λ s. true; is_valid_label_value = λ s. true }

abbrev own_taint : Taint
own_taint = record { key = "k8s.scaleway.com/old"; value = "x"; effect = "NoSchedule" }

abbrev foreign_taint : Taint
foreign_taint = record { key = "dedicated"; value = "gpu"; effect = "NoSchedule" }

abbrev pub labelled_node : Node
labelled_node = record some_node {
  labels = ("k8s.scaleway.com/old", "x") ∷ ("zone", "a") ∷ [];
  taints = own_taint ∷ foreign_taint ∷ [];
  provider_id = "scaleway://instance/fr-par-1/11111111";
}

abbrev pub labelled_service : Service
labelled_service = record managed_service {
  labels = ("k8s.scaleway.com/old", "x") ∷ [];
  status = record { ip = "1.2.3.4"; hostname = ""; ip_mode = none } ∷ [];
}

abbrev pub some_sync : SyncController
some_sync = record {
  controller = some_controller;
  validation = accepting;
  parse_zone = ok;
  get_node = λ name. ok (some labelled_node);
}

synced_node-labels_example :
    lookup "k8s.scaleway.com/old" (synced_node accepting labelled_node ("word=x" ∷ [])).labels
    ≡ none
unfolding lookup tagged add_node_tags add_node_tag has_prefix add_node_label add_parsed
    tag_label_parser parsed_label tag_prefix label_of split_regexp split_runs byte_length
    is_qualified_name is_qualified_rest label_value add_label insert is_managed_label
synced_node-labels_example =
    synced_node-labels accepting labelled_node ("word=x" ∷ []) "k8s.scaleway.com/old"

synced_node-settled_example :
    lookup "zone"
      (synced_node accepting
        (synced_node accepting labelled_node ("word=x" ∷ []))
        ("word=x" ∷ [])).labels
    ≡ lookup "zone" (synced_node accepting labelled_node ("word=x" ∷ [])).labels
synced_node-settled_example = synced_node-settled accepting labelled_node ("word=x" ∷ []) "zone"

synced_service-labels_example :
    lookup "k8s.scaleway.com/word"
      (synced_service accepting labelled_service ("word=x" ∷ [])).labels
    ≡ some "x"
unfolding lookup lb_labels add_lb_tags add_parsed tag_label_parser parsed_label tag_prefix
    has_prefix label_of split_regexp split_runs byte_length is_qualified_name is_qualified_rest
    label_value add_label insert
synced_service-labels_example =
    synced_service-labels accepting labelled_service ("word=x" ∷ []) "k8s.scaleway.com/word"

lookup-keep_taints_example :
    lookup "dedicated:NoSchedule" (keep_taints labelled_node.taints []) ≡ some foreign_taint
unfolding lookup unique_key has_prefix
lookup-keep_taints_example = lookup-keep_taints "dedicated:NoSchedule" labelled_node.taints []

tag_label_parser-pair_example :
    tag_label_parser accepting ("word" ++ ("=" ++ "x")) ≡ ("k8s.scaleway.com/" ++ "word", "x")
unfolding is_qualified_name is_qualified_rest byte_length has_prefix
tag_label_parser-pair_example =
    tag_label_parser-pair accepting "word" "x" refl (omega arith) (refl, tt) refl refl

tag_label_parser-key_example :
    has_prefix (tag_label_parser accepting "word=x").0 "k8s.scaleway.com/" ≡ true
unfolding has_prefix tag_label_parser parsed_label tag_prefix label_of split_regexp split_runs
    byte_length is_qualified_name is_qualified_rest label_value
tag_label_parser-key_example =
    tag_label_parser-key accepting "word=x" refl
      (λ e. ground (arith, (eq_iff "k8s.scaleway.com/word" "").1 e))

tag_taint_parser-label_example :
    tag_taint_parser accepting ("taint=" ++ ("word=x" ++ (":" ++ "NoExecute"))) ≡ (
      (tag_label_parser accepting "word=x").0,
      (tag_label_parser accepting "word=x").1,
      "NoExecute",
    )
tag_taint_parser-label_example =
    tag_taint_parser-label accepting "word=x" "NoExecute"
      (omega arith, (omega arith, (omega arith, (omega arith, (omega arith, (omega arith, tt))))))
      refl

sync_node_tags-IsNodeSync_example :
    Calls (IsNodeSync some_sync labelled_node) (sync_node_tags some_sync labelled_node)
sync_node_tags-IsNodeSync_example = sync_node_tags-IsNodeSync some_sync labelled_node

sync_lb_tags-IsServiceSync_example :
    Calls
      (IsSyncOf some_sync (labelled_service ∷ []))
      (sync_lb_tags some_sync (labelled_service ∷ []))
sync_lb_tags-IsServiceSync_example = sync_lb_tags-IsServiceSync some_sync (labelled_service ∷ [])
