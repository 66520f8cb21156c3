-- ===== src/LoadBalancers/Effects/Settled.antt =====
-- An update of a load balancer that is as the last one has left it.
use scaleway_cloud_controlle.Base.{
  ℕ, ℤ, String, Bool, false, none, List, [], ◌∷◌, ◌++◌, ok, ◌≡◌, refl, ◌∙◌, sym,
}
use scaleway_cloud_controlle.Base.Dict.{Dict, lookup, int_key}
use scaleway_cloud_controlle.Kube.{Service, ServicePort, Node}
use scaleway_cloud_controlle.Scaleway.LoadBalancer.{Lb, Frontend, Backend}
use scaleway_cloud_controlle.Scaleway.Api.{Call, History}
use scaleway_cloud_controlle.Annotations.Values.{svc_externally_managed}
use scaleway_cloud_controlle.LoadBalancers.Controller.{Controller}
use scaleway_cloud_controlle.LoadBalancers.Nodes.{filter_nodes}
use scaleway_cloud_controlle.LoadBalancers.Convert.{service_to_lb}
use scaleway_cloud_controlle.LoadBalancers.Compare.{Ops, compare_frontends, compare_backends}
use scaleway_cloud_controlle.LoadBalancers.Compare.Rounds.{IsQuiet}
use scaleway_cloud_controlle.LoadBalancers.Compare.Convergence.{carried_out}
use scaleway_cloud_controlle.LoadBalancers.Update.{target_ips, prefix_filter, update_load_balancer}
use scaleway_cloud_controlle.LoadBalancers.Update.Convergence.{compare-converges}
use scaleway_cloud_controlle.LoadBalancers.Effects.{effects}
use scaleway_cloud_controlle.LoadBalancers.Effects.Laws.{ports_effects, plan_effects}
use scaleway_cloud_controlle.LoadBalancers.Effects.Update.{update_load_balancer-IsPlanned}

ok_inj : {A : Type 0} (a b : A) → ok a ≡ ok b → a ≡ b
ok_inj a b e = cc

-- Operations without removals, updates and creations have no effects.
ports_effects-quiet :
    (fops : Ops Frontend) (bops : Ops Backend) (ports : List ServicePort)
    → IsQuiet fops
    → IsQuiet bops
    → ports_effects fops bops ports ≡ []
unfolding lookup
ports_effects-quiet fops bops [] q r = refl
ports_effects-quiet fops bops (port ∷ ports) (q1, q2, q3) (r1, r2, r3) =
    rw (q2, q3, r2, r3) (ports_effects-quiet fops bops ports (q1, q2, q3) (r1, r2, r3))

plan_effects-quiet :
    (fops : Ops Frontend) (bops : Ops Backend) (ports : List ServicePort)
    → IsQuiet fops
    → IsQuiet bops
    → plan_effects fops bops ports ≡ []
plan_effects-quiet fops bops ports q r = rw (ports_effects-quiet fops bops ports q r, q.0, r.0) refl

module _ (c : Controller) (now : ℕ) (lb : Lb) (service : Service) (nodes : List Node)
    (managed : Bool) (known : svc_externally_managed service ≡ ok managed)
    (maps : Dict ℤ Frontend × Dict ℤ Backend)
    (wanted : service_to_lb c.packages service (target_ips c service (filter_nodes service nodes))
      ≡ ok maps)
    (got_frontends : List Frontend) (got_backends : List Backend) where
  abbrev prefix : String
  prefix = prefix_filter service managed

  -- What the operations leave of the resources that there were.
  abbrev pub left_frontends : List Frontend
  left_frontends =
      carried_out (λ f. f.name) prefix got_frontends (compare_frontends got_frontends maps.0 prefix)

  abbrev pub left_backends : List Backend
  left_backends =
      carried_out (λ b. b.name) prefix got_backends
        (compare_backends c.packages got_backends maps.1 prefix)

  -- Whatever frontends and backends a load balancer had: if the APIs list what the operations of
  -- the comparison leave of them, a successful update of a service that is not being deleted makes
  -- no removal, no update and no creation of a frontend or a backend.
  pub update_load_balancer-settled :
      ((h : History) → c.api.frontends h lb.zone lb.id none ≡ ok left_frontends)
      → ((h : History) → c.api.backends h lb.zone lb.id none ≡ ok left_backends)
      → service.is_deleting ≡ false
      → (h : History) → (update_load_balancer c now lb service nodes h).0 ≡ ok tt
      → (calls : List Call) × ((update_load_balancer c now lb service nodes h).1 ≡ calls ++ h)
        × (effects calls ≡ [])
  update_load_balancer-settled lists_frontends lists_backends stays h done =
      let (calls, added, (own, own_known, from_listed)) =
        update_load_balancer-IsPlanned c now lb service nodes stays h done in
      let (fs, bs, own_maps, (h1, fs_listed), (h2, bs_listed), made, planned) = from_listed in
      let same_managed : own ≡ managed = ok_inj own managed (sym own_known ∙ known) in
      let same_maps : own_maps ≡ maps = ok_inj own_maps maps (sym made ∙ wanted) in
      let same_fs : fs ≡ left_frontends =
        ok_inj fs left_frontends (sym fs_listed ∙ lists_frontends h1) in
      let same_bs : bs ≡ left_backends =
        ok_inj bs left_backends (sym bs_listed ∙ lists_backends h2) in
      let quiet =
        compare-converges c.packages service (target_ips c service (filter_nodes service nodes))
          managed maps wanted got_frontends got_backends in
      let nothing =
        plan_effects-quiet (compare_frontends left_frontends maps.0 prefix)
          (compare_backends c.packages left_backends maps.1 prefix) service.ports quiet.0 quiet.1 in
      (calls, added, planned ∙ rw (same_managed, same_maps, same_fs, same_bs) nothing)
