-- ===== src/Servers/ProviderId/Laws.antt =====
-- Provider IDs are read back as they were built.
use scaleway_cloud_controlle.Base.{
  String, true, some, ok, ◌≡◌, ◌≢◌, refl, ap, ◌∙◌, arith, eq_iff, has_prefix,
}
use Prim.Native.String.{◌++◌}
use scaleway_cloud_controlle.Base.Text.{drop_prefix}
use scaleway_cloud_controlle.Base.Text.Laws.{
  Lacks, has_prefix-append, drop_prefix-append, cut_at_slash, Lacks-append, has_prefix-append_iff,
}
use scaleway_cloud_controlle.Servers.ProviderId.{
  marker, after_marker, first_line, groups, with_product, server_info_of,
  server_info_from_provider_id, build_provider_id, is_baremetal_id, instance_type_baremetal,
}

-- A text that begins with the marker is read from there.
after_marker_of_prefix :
    (s : String) → has_prefix s marker ≡ true → after_marker s ≡ some (drop_prefix s marker)
unfolding after_marker has_prefix
after_marker_of_prefix String.[] h = cc
after_marker_of_prefix (String.◌∷◌ c s) h = rw h

after_marker-marker : (s : String) → after_marker (marker ++ s) ≡ some s
after_marker-marker s =
    after_marker_of_prefix (marker ++ s) (has_prefix-append marker s)
    ∙ ap some (drop_prefix-append marker s)

first_line_of_Lacks : (s : String) → Lacks 10 s → first_line s ≡ s
unfolding first_line
first_line_of_Lacks String.[] h = refl
first_line_of_Lacks (String.◌∷◌ c s) (h, hs) = ground (arith, first_line_of_Lacks s hs)

groups-slashes :
    (line product zone id : String)
    → Lacks b'/' zone
    → groups line (some (product, zone ++ ("/" ++ id))) ≡ (product, zone, id)
unfolding groups
groups-slashes line product zone id hz = rw (groups, cut_at_slash zone id hz)

-- A provider ID made of a product and a zone without slashes gives its three parts back, line
-- breaks excluded; the product must not be empty.
pub server_info-build_provider_id :
    (product zone id : String)
    → product ≢ ""
    → Lacks b'/' product
    → Lacks b'/' zone
    → Lacks 10 product
    → Lacks 10 zone
    → Lacks 10 id
    → server_info_from_provider_id (build_provider_id product zone id) ≡ ok (product, zone, id)
unfolding server_info_from_provider_id build_provider_id server_info_of with_product
server_info-build_provider_id product zone id h hp hz lp lz li =
    let rest = zone ++ ("/" ++ id) in
    let rest_line = Lacks-append 10 zone ("/" ++ id) lz (Lacks-append 10 "/" id (omega arith) li) in
    let line = first_line_of_Lacks (product ++ ("/" ++ rest)) (
      Lacks-append 10 product ("/" ++ rest) lp
        (Lacks-append 10 "/" rest (omega arith) rest_line)) in
    rw
      (
        after_marker-marker (product ++ ("/" ++ rest)),
        line,
        cut_at_slash product rest hp,
        groups-slashes (product ++ ("/" ++ rest)) product zone id hz,
      )
      (ground (arith, eq_iff product ""))

-- The implementation that a provider ID chooses is the baremetal one exactly when its product
-- begins with "baremetal".
pub is_baremetal_id-build_provider_id :
    (product zone id : String)
    → is_baremetal_id (build_provider_id product zone id)
      ≡ has_prefix (product ++ ("/" ++ (zone ++ ("/" ++ id)))) instance_type_baremetal
unfolding is_baremetal_id build_provider_id
is_baremetal_id-build_provider_id product zone id =
    has_prefix-append_iff marker (product ++ ("/" ++ (zone ++ ("/" ++ id)))) instance_type_baremetal
