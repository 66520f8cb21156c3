-- ===== src/LoadBalancers/Acls/Laws.antt =====
-- The access rules: how a white list becomes rules, and when nothing is sent.
use scaleway_cloud_controlle.Base.{
  any, not, ◌||◌, ℕ, ℤ, zero, suc, pos, int_eq_iff, nat_eq_iff, ltb, String, Bool, true, false,
  Option, none, some, List, [], ◌∷◌, ◌++◌, map, ok, ◌≡◌, refl, arith, eq_iff, if◌then◌else◌, length,
  take, drop, is_empty, concat, All, take-append-drop, length-take, length-drop, ◌≤◌, ap, ◌∙◌,
}
use mathlib.Core.Bool.{beq}
use mathlib.Core.Option
use scaleway_cloud_controlle.Scaleway.Api.{Call, History, ◌>>=◌, map_error, send, when}
use scaleway_cloud_controlle.LoadBalancers.Controller.{Controller}
use scaleway_cloud_controlle.LoadBalancers.Equality.{ptr_equal, string_array_equal}
use scaleway_cloud_controlle.Base.Sort.{sort, list_eq, list_eq_refl}
use scaleway_cloud_controlle.Kube.{Service, Node}
use scaleway_cloud_controlle.Scaleway.Slices.{items}
use scaleway_cloud_controlle.Scaleway.LoadBalancer.{
  Lb, Frontend, Acl, AclAction, AclMatch, allow, deny, other_action,
}
use scaleway_cloud_controlle.LoadBalancers.Acls.{
  chunk_loop, chunk_array, max_entries_per_acl, make_acl_specs, make_acl_prefix, number_specs,
  whitelist, allow_spec, deny_spec, acl_eq, acl_lists_eq, acls_equals, sort_by_index, action_eq,
  match_eq, reconcile_acls,
}

-- A chunk is not empty, and not larger than allowed.
abbrev pub IsChunk : ℕ → List String → Type 0
IsChunk max_chunk_size chunk = (1 ≤ length chunk) × (length chunk ≤ max_chunk_size)

chunk_loop-concat :
    (fuel : ℕ) (array : List String) (max_chunk_size : ℕ)
    → 1 ≤ max_chunk_size
    → length array ≤ fuel
    → (concat (chunk_loop fuel array max_chunk_size) ≡ array)
      × All (IsChunk max_chunk_size) (chunk_loop fuel array max_chunk_size)
unfolding chunk_loop
chunk_loop-concat zero [] m h k = (refl, tt)
chunk_loop-concat zero (x ∷ xs) m h k = ground arith
chunk_loop-concat (suc fuel) [] m h k = (refl, tt)
chunk_loop-concat (suc fuel) (x ∷ xs) m h k =
    let n = if ltb (length (x ∷ xs)) m then length (x ∷ xs) else m in
    let rest =
      chunk_loop-concat fuel (drop n (x ∷ xs)) m h (ground (arith, length-drop n (x ∷ xs))) in
    (
      ap (λ ys. take n (x ∷ xs) ++ ys) rest.0 ∙ take-append-drop n (x ∷ xs),
      ((ground (arith, length-take n (x ∷ xs)), ground (arith, length-take n (x ∷ xs))), rest.1),
    )

-- Chunks of an array, of a size of at least 1, make up the array again in order, and none is empty
-- or larger than the size.
pub chunk_array-concat :
    (array : List String) (max_chunk_size : ℕ)
    → 1 ≤ max_chunk_size
    → (concat (chunk_array array max_chunk_size) ≡ array)
      × All (IsChunk max_chunk_size) (chunk_array array max_chunk_size)
unfolding chunk_array
chunk_array-concat array m h = chunk_loop-concat (length array) array m h (omega arith)

-- The addresses of the rules that allow, in the order of the rules.
abbrev pub allowed : List Acl → List String
allowed [] = []
allowed (rule ∷ rules) = elim rule.match [
  | none ↦ allowed rules
  | some m ↦ elim rule.action [
    | some allow ↦ if m.invert then allowed rules else items m.ip_subnet ++ allowed rules
    | _ ↦ allowed rules
  ]
]

-- Whether a rule is about an address, of which `contains` tells the subnets that have it.
abbrev pub applies : (String → Bool) → AclMatch → Bool
applies contains m =
    let within = any contains (items m.ip_subnet) in if m.invert then not within else within

-- The action for an address: that of the first rule that is about it.
abbrev pub decision : (String → Bool) → List Acl → Option AclAction
decision contains [] = none
decision contains (rule ∷ rules) = elim rule.match [
  | none ↦ decision contains rules
  | some m ↦ if applies contains m then rule.action else decision contains rules
]

-- What an address is for: allowed if it is in a subnet of the list, and denied if it is in one of
-- the two that have all addresses of their version.
abbrev pub listed_or_denied : (String → Bool) → List String → Option AclAction
listed_or_denied contains list =
    if any contains list
    then some allow
    else if contains "0.0.0.0/0" || contains "::/0"
    then some deny
    else none

abbrev pub indices : ℕ → List Acl → List ℤ
indices from [] = []
indices from (rule ∷ rules) = pos from ∷ indices (suc from) rules

abbrev pub final_action : List Acl → Option AclAction
final_action [] = none
final_action (rule ∷ []) = rule.action
final_action (_ ∷ rule ∷ rules) = final_action (rule ∷ rules)

any-append : (p : String → Bool) (xs ys : List String) → any p (xs ++ ys) ≡ (any p xs || any p ys)
any-append p [] ys = refl
any-append p (x ∷ xs) ys = ground (arith, any-append p xs ys)

number_specs-decision :
    (contains : String → Bool) (prefix : String) (idx : ℕ) (chunks : List (List String))
    → decision contains (number_specs prefix idx chunks) ≡ listed_or_denied contains (concat chunks)
unfolding number_specs allow_spec deny_spec
number_specs-decision contains prefix idx [] = ground arith
number_specs-decision contains prefix idx (chunk ∷ chunks) = ground (
  arith,
  any-append contains chunk (concat chunks),
  number_specs-decision contains prefix (suc idx) chunks,
)

number_specs-allowed :
    (prefix : String) (idx : ℕ) (chunks : List (List String))
    → (allowed (number_specs prefix idx chunks) ≡ concat chunks)
      × (map (λ a. a.index) (number_specs prefix idx chunks)
          ≡ indices idx (number_specs prefix idx chunks))
      × (final_action (number_specs prefix idx chunks) ≡ some deny)
unfolding number_specs allow_spec deny_spec
number_specs-allowed prefix idx [] = (refl, refl, refl)
number_specs-allowed prefix idx (chunk ∷ []) = (refl, refl, refl)
number_specs-allowed prefix idx (chunk ∷ next ∷ chunks) =
    let (a, b, c) = number_specs-allowed prefix (suc idx) (next ∷ chunks) in
    (ap (λ ys. chunk ++ ys) a, ap (λ ys. pos idx ∷ ys) b, c)

-- The rules of a service with source ranges, of which the first that is about an address decides:
-- they allow an address if it is in a subnet of the white list, and else deny it if it is in
-- "0.0.0.0/0" or "::/0". The subnets that the allowing rules name are the white list in its order,
-- the rules are numbered from 0 on, and the action of the last of them is to deny.
pub make_acl_specs-whitelist :
    (is_cidr : String → Bool) (service : Service) (nodes : List Node) (frontend : Frontend)
    → is_empty service.source_ranges ≡ false
    → (contains : String → Bool)
    → (decision contains (make_acl_specs is_cidr service nodes frontend)
        ≡ listed_or_denied contains (whitelist is_cidr service nodes))
      × (allowed (make_acl_specs is_cidr service nodes frontend) ≡ whitelist is_cidr service nodes)
      × (map (λ a. a.index) (make_acl_specs is_cidr service nodes frontend)
          ≡ indices 0 (make_acl_specs is_cidr service nodes frontend))
      × (final_action (make_acl_specs is_cidr service nodes frontend) ≡ some deny)
unfolding make_acl_specs
make_acl_specs-whitelist is_cidr service nodes frontend h contains =
    let list = whitelist is_cidr service nodes in
    let (a, b, c) =
      number_specs-allowed (make_acl_prefix frontend) 0 (chunk_array list max_entries_per_acl) in
    let whole = (chunk_array-concat list max_entries_per_acl (omega arith)).0 in
    let decided =
      number_specs-decision contains (make_acl_prefix frontend) 0
        (chunk_array list max_entries_per_acl) in
    rw h (decided ∙ ap (listed_or_denied contains) whole, a ∙ whole, b, c)

ptr_equal_refl :
    {A : Type 0} (eq : A → A → Bool)
    → ((a : A) → eq a a ≡ true)
    → (o : Option A) → ptr_equal eq o o ≡ true
unfolding ptr_equal
ptr_equal_refl eq h none = refl
ptr_equal_refl eq h (some a) = h a

action_eq_refl : (a : AclAction) → action_eq a a ≡ true
action_eq_refl allow = refl
action_eq_refl deny = refl
action_eq_refl (other_action s) = ground (arith, eq_iff s s)

beq_refl : (b : Bool) → beq b b ≡ true
beq_refl true = refl
beq_refl false = refl

match_eq_refl : (m : AclMatch) → match_eq m m ≡ true
unfolding string_array_equal
match_eq_refl m =
    ground
      (arith, ptr_equal_refl list_eq list_eq_refl (Option.map sort m.ip_subnet), beq_refl m.invert)

acl_eq_refl : (a : Acl) → acl_eq a a ≡ true
unfolding acl_eq
acl_eq_refl a = ground (
  arith,
  eq_iff a.name a.name,
  int_eq_iff a.index a.index,
  ptr_equal_refl action_eq action_eq_refl a.action,
  ptr_equal_refl match_eq match_eq_refl a.match,
)

acl_lists_eq_refl : (xs : List Acl) → acl_lists_eq xs xs ≡ true
unfolding acl_lists_eq
acl_lists_eq_refl [] = refl
acl_lists_eq_refl (a ∷ xs) = ground (arith, acl_eq_refl a, acl_lists_eq_refl xs)

acls_equals_refl : (xs : List Acl) → acls_equals xs xs ≡ true
unfolding acls_equals
acls_equals_refl xs =
    ground (arith, nat_eq_iff (length xs) (length xs), acl_lists_eq_refl (sort_by_index xs))

-- A frontend that has its rules already is read once, and nothing is sent for it.
pub reconcile_acls-settled :
    (c : Controller) (lb : Lb) (service : Service) (nodes : List Node) (frontend : Frontend)
    (h : History)
    → c.api.acls h lb.zone frontend.id (make_acl_prefix frontend)
      ≡ ok (make_acl_specs c.packages.is_cidr service nodes frontend)
    → reconcile_acls c lb service nodes frontend h
      ≡ (ok tt, Call.list_acls lb.zone frontend.id (make_acl_prefix frontend) ∷ h)
unfolding reconcile_acls ◌>>=◌ map_error send when
reconcile_acls-settled c lb service nodes frontend h e =
    rw
      (
        reconcile_acls,
        e,
        acls_equals_refl (make_acl_specs c.packages.is_cidr service nodes frontend),
      )
      refl
