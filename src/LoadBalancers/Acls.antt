-- ===== src/LoadBalancers/Acls.antt =====
-- scaleway/acl.go: the access rules of a frontend.
pub mod Laws
use scaleway_cloud_controlle.Base.{
  ℕ, zero, suc, pos, int_eq, nat_eq, ltb, String, Bool, true, false, not, ◌&&◌, some, List, [], ◌∷◌,
  ◌++◌, errorf, ◌==◌, if◌then◌else◌, length, take, drop, is_empty,
}
use Prim.Native.String
use mathlib.Core.Bool.{beq}
use scaleway_cloud_controlle.Base.Int.{int32_before}
use scaleway_cloud_controlle.Base.Text.{format_int, has_char, trim_suffix}
use scaleway_cloud_controlle.Base.Sort.{sort}
use scaleway_cloud_controlle.Kube.{Service, Node}
use scaleway_cloud_controlle.Scaleway.Slices.{items}
use scaleway_cloud_controlle.Scaleway.LoadBalancer.{
  Lb, Frontend, Acl, AclAction, AclMatch, allow, deny, other_action,
}
use scaleway_cloud_controlle.Scaleway.Api.{Call, M, ◌>>=◌, send, or_fail, when}
use scaleway_cloud_controlle.LoadBalancers.Nodes.{
  extract_nodes_internal_ips, extract_nodes_external_ips,
}
use scaleway_cloud_controlle.LoadBalancers.Equality.{ptr_equal, string_array_equal}
use scaleway_cloud_controlle.LoadBalancers.Controller.{Controller}

-- MaxEntriesPerACL
abbrev pub max_entries_per_acl : ℕ
max_entries_per_acl = 60

-- The loop of chunkArray: one round for each unit of fuel.
unfoldable pub chunk_loop : ℕ → List String → ℕ → List (List String)
chunk_loop zero array max_chunk_size = []
chunk_loop (suc fuel) [] max_chunk_size = []
chunk_loop (suc fuel) (x ∷ xs) max_chunk_size =
    let chunk_size =
      if ltb (length (x ∷ xs)) max_chunk_size then length (x ∷ xs) else max_chunk_size in
    take chunk_size (x ∷ xs) ∷ chunk_loop fuel (drop chunk_size (x ∷ xs)) max_chunk_size

-- A round takes an element at least, so the length is fuel enough.
unfoldable pub chunk_array : List String → ℕ → List (List String)
chunk_array array max_chunk_size = chunk_loop (length array) array max_chunk_size

-- makeACLPrefix, on a frontend that is there.
unfoldable pub make_acl_prefix : Frontend → String
make_acl_prefix frontend = String.◌++◌ frontend.id "-lb-source-range"

-- A source range without the mask of a single address.
unfoldable pub trim_mask : String → String
trim_mask range = if has_char b':' range then trim_suffix range "/128" else trim_suffix range "/32"

-- The source ranges that parse as CIDRs.
unfoldable pub trim_ranges : (String → Bool) → List String → List String
trim_ranges is_cidr [] = []
trim_ranges is_cidr (range ∷ ranges) =
    let rest = trim_ranges is_cidr ranges in if is_cidr range then trim_mask range ∷ rest else rest

unfoldable pub allow_spec : String → ℕ → List String → Acl
allow_spec prefix idx subnets = record {
  name = String.◌++◌ prefix (String.◌++◌ "-" (format_int (pos idx)));
  index = pos idx;
  action = some allow;
  match = some (record { ip_subnet = some subnets; invert = false });
}

unfoldable pub deny_spec : String → ℕ → Acl
deny_spec prefix idx = record {
  name = String.◌++◌ prefix "-end";
  index = pos idx;
  action = some deny;
  match = some (record { ip_subnet = some ("0.0.0.0/0" ∷ "::/0" ∷ []); invert = false });
}

-- The rules from an index on: one for each chunk, and the last that denies all.
unfoldable pub number_specs : String → ℕ → List (List String) → List Acl
number_specs prefix idx [] = deny_spec prefix idx ∷ []
number_specs prefix idx (chunk ∷ chunks) =
    allow_spec prefix idx chunk ∷ number_specs prefix (suc idx) chunks

unfoldable pub whitelist : (String → Bool) → Service → List Node → List String
whitelist is_cidr service nodes = sort (
    items (extract_nodes_internal_ips nodes)
    ++ (items (extract_nodes_external_ips nodes) ++ trim_ranges is_cidr service.source_ranges))

unfoldable pub make_acl_specs : (String → Bool) → Service → List Node → Frontend → List Acl
make_acl_specs is_cidr service nodes frontend =
    if is_empty service.source_ranges
    then []
    else number_specs (make_acl_prefix frontend) 0
        (chunk_array (whitelist is_cidr service nodes) max_entries_per_acl)

abbrev pub action_eq : AclAction → AclAction → Bool
action_eq allow allow = true
action_eq deny deny = true
action_eq (other_action s) (other_action t) = s == t
action_eq _ _ = false

abbrev pub match_eq : AclMatch → AclMatch → Bool
match_eq a b = string_array_equal a.ip_subnet b.ip_subnet && beq a.invert b.invert

unfoldable pub acl_eq : Acl → Acl → Bool
acl_eq got want =
    want.name == got.name
    && int_eq want.index got.index
    && ptr_equal action_eq want.action got.action
    && ptr_equal match_eq want.match got.match

unfoldable pub acl_lists_eq : List Acl → List Acl → Bool
acl_lists_eq [] [] = true
acl_lists_eq (g ∷ gs) (w ∷ ws) = acl_eq g w && acl_lists_eq gs ws
acl_lists_eq _ _ = false

-- slices.SortStableFunc by int(a.Index - b.Index), a difference of 32 bits.
unfoldable pub insert_by_index : Acl → List Acl → List Acl
insert_by_index a [] = a ∷ []
insert_by_index a (b ∷ bs) =
    let rest = insert_by_index a bs in if int32_before b.index a.index then b ∷ rest else a ∷ b ∷ bs

unfoldable pub sort_by_index : List Acl → List Acl
sort_by_index [] = []
sort_by_index (a ∷ others) = insert_by_index a (sort_by_index others)

unfoldable pub acls_equals : List Acl → List Acl → Bool
acls_equals got want =
    nat_eq (length got) (length want) && acl_lists_eq (sort_by_index got) (sort_by_index want)

module _ (c : Controller) (lb : Lb) (service : Service) (nodes : List Node) where
  open c use {api, packages}

  unfoldable pub set_acls_call : Frontend → Call
  set_acls_call frontend =
      Call.set_acls lb.zone frontend.id (make_acl_specs packages.is_cidr service nodes frontend)

  unfoldable pub reconcile_acls : Frontend → M (Unit {0})
  reconcile_acls frontend = do
    acls ←
        or_fail
          (send (Call.list_acls lb.zone frontend.id (make_acl_prefix frontend))
            (λ h. api.acls h lb.zone frontend.id (make_acl_prefix frontend)))
          (errorf "failed to list ACLs for frontend")
    when (not (acls_equals acls (make_acl_specs packages.is_cidr service nodes frontend))) (
        or_fail (send (set_acls_call frontend) (λ h. api.acknowledge h (set_acls_call frontend)))
          (errorf "failed setting ACLs for frontend"))
