-- ===== src/LoadBalancers/Networks/Laws.antt =====
-- The static private IPs: each one that is wanted ends up in a network.
use scaleway_cloud_controlle.Base.{
  String, Bool, true, false, not, ◌&&◌, ◌||◌, List, [], ◌∷◌, ◌++◌, map, ok, ◌≡◌, refl, arith, any,
  select, is_empty, ◌==◌, eq_iff, Bool-cases, inl, inr, ◌∙◌,
}
use scaleway_cloud_controlle.Scaleway.LoadBalancer.{Lb}
use scaleway_cloud_controlle.Scaleway.Api.{History}
use scaleway_cloud_controlle.Scaleway.Api.Results.{>>=-eq-ok}
use scaleway_cloud_controlle.LoadBalancers.Controller.{Controller}
use scaleway_cloud_controlle.LoadBalancers.Networks.{
  Attachments, claim, match_attached, query_networks, resolve_ips,
}

abbrev pub has : String → List String → Bool
has x xs = any (λ y. y == x) xs

-- An IP is one of those that a network shall have.
abbrev pub is_desired : String → Attachments → Bool
is_desired x m = any (λ entry. has x entry.1.desired_ip_ids) m

has-append : (x : String) (xs ys : List String) → has x (xs ++ ys) ≡ (has x xs || has x ys)
has-append x [] ys = refl
has-append x (y ∷ xs) ys = ground (arith, has-append x xs ys)

has-select :
    (x id : String) (xs : List String)
    → has x (select (λ y. not (y == id)) xs) ≡ (has x xs && not (x == id))
has-select x id [] = refl
has-select x id (y ∷ xs) = ground (arith, has-select x id xs, eq_iff y id, eq_iff y x, eq_iff x id)

-- Claiming moves IPs, and loses none.
claim-keeps :
    (x : String) (rest desired ids : List String)
    → (has x (claim rest (desired, ids)).0 || has x (claim rest (desired, ids)).1)
      ≡ (has x desired || has x ids)
unfolding claim
claim-keeps x [] desired ids = refl
claim-keeps x (id ∷ rest) desired ids = elim (Bool-cases (has id ids)) [
  | inl found ↦
      rw (claim, found)
        (claim-keeps x rest (desired ++ id ∷ []) (select (λ y. not (y == id)) ids)
          ∙ rw (has-append x desired (id ∷ []), has-select x id ids)
              (ground (arith, eq_iff id x, eq_iff x id)))
  | inr other ↦ rw (claim, other) (claim-keeps x rest desired ids)
]

match_attached-keeps :
    (x : String) (m : Attachments) (ids : List String)
    → (is_desired x (match_attached m ids).0 || has x (match_attached m ids).1)
      ≡ (is_desired x m || has x ids)
unfolding match_attached
match_attached-keeps x [] ids = refl
match_attached-keeps x ((pn_id, status) ∷ m) ids =
    let out = claim status.attached_ip_ids (status.desired_ip_ids, ids) in
    ground (
      arith,
      match_attached-keeps x m out.1,
      claim-keeps x status.attached_ip_ids status.desired_ip_ids ids,
    )

module _ (c : Controller) (lb : Lb) where
  query_networks-keeps :
      (x region : String) (m : Attachments) (ids : List String) (h : History)
      (out : Attachments × List String)
      → (query_networks c lb region m ids h).0 ≡ ok out
      → (is_desired x out.0 || has x out.1) ≡ (is_desired x m || has x ids)
  unfolding query_networks
  query_networks-keeps x region [] ids h out e =
      let same : out ≡ ([], ids) = ground arith in rw same refl
  query_networks-keeps x region ((pn_id, status) ∷ m) ids h out e =
      let (found, p, e1) = >>=-eq-ok _ _ h out e in
      let claimed = claim (map (λ ip. ip.id) found) (status.desired_ip_ids, ids) in
      let (next, q, e2) = >>=-eq-ok _ _ _ out e1 in
      let same : out ≡ ((pn_id, record status { desired_ip_ids = claimed.0 }) ∷ next.0, next.1) =
        ground arith in
      rw same (
        ground (
          arith,
          query_networks-keeps x region m claimed.1 _ next q,
          claim-keeps x (map (λ ip. ip.id) found) status.desired_ip_ids ids,
        ))

  has_nothing : (x : String) (xs : List String) → is_empty xs ≡ true → has x xs ≡ false
  has_nothing x [] e = refl
  has_nothing x (y ∷ xs) e = ground arith

  resolve_ips-keeps :
      (x : String) (m : Attachments) (ids : List String) (h : History) (out : Attachments)
      → (resolve_ips c lb (m, ids) h).0 ≡ ok out
      → is_desired x out ≡ (is_desired x m || has x ids)
  unfolding resolve_ips
  resolve_ips-keeps x m [] h out e = let same : out ≡ m = ground arith in rw same (ground arith)
  resolve_ips-keeps x m (id ∷ ids) h out e =
      let (region, p, e1) = >>=-eq-ok _ _ h out e in
      let (found, q, e2) = >>=-eq-ok _ _ _ out e1 in
      let all_found : is_empty found.1 ≡ true = ground arith in
      let same : out ≡ found.0 = ground arith in
      rw same (
        ground (
          arith,
          query_networks-keeps x region m (id ∷ ids) _ found q,
          has_nothing x found.1 all_found,
        ))

  -- Where the networks of the static private IPs are resolved without an error, each of the wanted
  -- IPs is one that some network of the load balancer shall have, and no IP that was not wanted is.
  pub resolve_ips_complete :
      (x : String) (m : Attachments) (ids : List String) (h : History) (out : Attachments)
      → is_desired x m ≡ false
      → (resolve_ips c lb (match_attached m ids) h).0 ≡ ok out
      → is_desired x out ≡ has x ids
  resolve_ips_complete x m ids h out fresh e = ground (
    arith,
    resolve_ips-keeps x (match_attached m ids).0 (match_attached m ids).1 h out e,
    match_attached-keeps x m ids,
  )
