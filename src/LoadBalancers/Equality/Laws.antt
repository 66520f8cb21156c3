-- ===== src/LoadBalancers/Equality/Laws.antt =====
-- What the comparison of frontends tells.
use scaleway_cloud_controlle.Base.{
  int_eq, int_eq_iff, nat_eq, nat_eq_iff, String, Bool, true, false, Option, none, some, eq_iff,
  ◌≡◌, refl, arith, ◌↔◌, ◌==◌,
}
use mathlib.Core.Bool.{beq}
use mathlib.Core.List.{Perm}
use mathlib.Core.List.Perm
use mathlib.Core.Option
use scaleway_cloud_controlle.Base.Sort.{perm_of_sort}
use scaleway_cloud_controlle.Scaleway.Slices.{Slice, items}
use scaleway_cloud_controlle.Scaleway.LoadBalancer.{Frontend, Backend}
use scaleway_cloud_controlle.Scaleway.Packages.{Packages}
use scaleway_cloud_controlle.LoadBalancers.Equality.{
  ptr_equal, string_array_equal, frontend_head_equals, frontend_equals, backend_equals,
}

-- Pointers are equal if both are nil or their values are.
pub ptr_equal_iff :
    {A : Type 0} (eq : A → A → Bool) (a b : Option A)
    → ((x y : A) → (eq x y ≡ true) ↔ (x ≡ y))
    → (ptr_equal eq a b ≡ true) ↔ (a ≡ b)
unfolding ptr_equal
ptr_equal_iff eq none none h = (λ _. refl, λ _. refl)
ptr_equal_iff eq (some a) (some b) h = ground (arith, h a b)
ptr_equal_iff eq none (some b) h = ground arith
ptr_equal_iff eq (some a) none h = ground arith

-- String arrays that compare as equal are permutations of one another.
pub string_array_equal-Perm :
    (got want : Slice String) → string_array_equal got want ≡ true → Perm (items got) (items want)
unfolding string_array_equal ptr_equal
string_array_equal-Perm none none h = Perm.refl _
string_array_equal-Perm (some a) (some b) h = perm_of_sort a b h
string_array_equal-Perm none (some b) h = cc
string_array_equal-Perm (some a) none h = cc

beq_sound : (a b : Bool) → beq a b ≡ true → a ≡ b
beq_sound true true h = refl
beq_sound false false h = refl
beq_sound true false h = ground arith
beq_sound false true h = ground arith

beq_self : (b : Bool) → beq b b ≡ true
beq_self true = refl
beq_self false = refl

beq_iff : (a b : Bool) → (beq a b ≡ true) ↔ (a ≡ b)
beq_iff a b = (beq_sound a b, λ e. rw e (beq_self b))

-- A frontend is left alone only if it agrees with the wanted one in its name, port, timeout, rate
-- limit and flags, in the forward port of its backend, and in its certificates up to their order.
pub frontend_equals_sound :
    (got want : Frontend)
    → frontend_equals got want ≡ true
    → (got.name ≡ want.name)
      × (got.inbound_port ≡ want.inbound_port)
      × (got.backend_forward_port ≡ want.backend_forward_port)
      × (got.timeout_client ≡ want.timeout_client)
      × Perm (items got.certificate_ids) (items want.certificate_ids)
      × (got.connection_rate_limit ≡ want.connection_rate_limit)
      × (got.enable_access_logs ≡ want.enable_access_logs)
      × (got.enable_http3 ≡ want.enable_http3)
unfolding frontend_equals frontend_head_equals
frontend_equals_sound got want h = (
  ground (arith, eq_iff got.name want.name),
  ground (arith, int_eq_iff got.inbound_port want.inbound_port),
  (ptr_equal_iff int_eq _ _ int_eq_iff).0 (ground arith),
  (ptr_equal_iff int_eq _ _ int_eq_iff).0 (ground arith),
  string_array_equal-Perm got.certificate_ids want.certificate_ids (ground arith),
  (ptr_equal_iff nat_eq _ _ nat_eq_iff).0 (ground arith),
  beq_sound _ _ (ground arith),
  beq_sound _ _ (ground arith),
)

-- A backend is left alone only if it agrees with the wanted one in its name, forward port and
-- algorithm, sticky sessions and their cookie, TLS bridging, timeouts, the action on a marked
-- server, the counts of attempts, connections and retries, and the failover host.
pub backend_equals_sound :
    (packages : Packages) (got want : Backend)
    → backend_equals packages got want ≡ true
    → (got.name ≡ want.name)
      × (got.forward_port ≡ want.forward_port)
      × (got.forward_port_algorithm ≡ want.forward_port_algorithm)
      × (got.sticky_sessions ≡ want.sticky_sessions)
      × (got.sticky_sessions_cookie_name ≡ want.sticky_sessions_cookie_name)
      × (got.ssl_bridging ≡ want.ssl_bridging)
      × (got.ignore_ssl_server_verify ≡ want.ignore_ssl_server_verify)
      × (got.timeout_server ≡ want.timeout_server)
      × (got.timeout_connect ≡ want.timeout_connect)
      × (got.timeout_tunnel ≡ want.timeout_tunnel)
      × (Option.map packages.to_time_duration got.timeout_queue
          ≡ Option.map packages.to_time_duration want.timeout_queue)
      × (got.on_marked_down_action ≡ want.on_marked_down_action)
      × (got.redispatch_attempt_count ≡ want.redispatch_attempt_count)
      × (got.max_connections ≡ want.max_connections)
      × (got.max_retries ≡ want.max_retries)
      × (got.failover_host ≡ want.failover_host)
unfolding backend_equals
backend_equals_sound packages got want h = (
  (eq_iff got.name want.name).0 (ground arith),
  (int_eq_iff got.forward_port want.forward_port).0 (ground arith),
  (eq_iff got.forward_port_algorithm want.forward_port_algorithm).0 (ground arith),
  (eq_iff got.sticky_sessions want.sticky_sessions).0 (ground arith),
  (eq_iff got.sticky_sessions_cookie_name want.sticky_sessions_cookie_name).0 (ground arith),
  (ptr_equal_iff beq _ _ beq_iff).0 (ground arith),
  (ptr_equal_iff beq _ _ beq_iff).0 (ground arith),
  (ptr_equal_iff int_eq _ _ int_eq_iff).0 (ground arith),
  (ptr_equal_iff int_eq _ _ int_eq_iff).0 (ground arith),
  (ptr_equal_iff int_eq _ _ int_eq_iff).0 (ground arith),
  (ptr_equal_iff int_eq _ _ int_eq_iff).0 (ground arith),
  (eq_iff got.on_marked_down_action want.on_marked_down_action).0 (ground arith),
  (ptr_equal_iff int_eq _ _ int_eq_iff).0 (ground arith),
  (ptr_equal_iff int_eq _ _ int_eq_iff).0 (ground arith),
  (ptr_equal_iff int_eq _ _ int_eq_iff).0 (ground arith),
  (ptr_equal_iff ◌==◌ _ _ eq_iff).0 (ground arith),
)
