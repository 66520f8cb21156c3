-- ===== src/LoadBalancers/Phases/Order.antt =====
-- The order of the calls of an update.
use scaleway_cloud_controlle.Base.{
  ℕ, ◌≤◌, String, Bool, true, false, List, [], ◌∷◌, ◌++◌, Result, ok, err, ◌≡◌, refl, ap, ◌∙◌, sym,
  All, arith, if◌then◌else◌,
}
use mathlib.Core.List.{append_assoc}
use scaleway_cloud_controlle.Kube.{Service, Node}
use scaleway_cloud_controlle.Scaleway.LoadBalancer.{Lb, Frontend, Backend}
use scaleway_cloud_controlle.Scaleway.Slices.{Slice}
use scaleway_cloud_controlle.Scaleway.Api.{Call, History, M, ◌>>=◌, ◌>>◌, continue_with}
use scaleway_cloud_controlle.Scaleway.Api.Trace.{calls, Calls-map_error}
use scaleway_cloud_controlle.LoadBalancers.Controller.{Controller}
use scaleway_cloud_controlle.LoadBalancers.Compare.{Ops}
use scaleway_cloud_controlle.LoadBalancers.Update.{
  apply_ops, migrate, set_ssl_level, update_settings, sync_resources, update_resources,
  update_load_balancer,
}
use scaleway_cloud_controlle.LoadBalancers.Phases.Networks.{attach_private_networks-InPhase}
use scaleway_cloud_controlle.LoadBalancers.Phases.Ports.{update_ports-InPhase}
use scaleway_cloud_controlle.LoadBalancers.Phases.{
  phase, InPhase, delete_frontends-InPhase, delete_backends-InPhase, list_frontends-InPhase,
  list_backends-InPhase,
}

-- Some calls, of which the latest is the first: none is of an earlier phase than the one before it,
-- and all are of the phases from `low` to `high`.
abbrev pub Ascends : ℕ → ℕ → List Call → Type 0
Ascends low high [] = low ≤ high
Ascends low high (call ∷ calls) = (phase call ≤ high) × Ascends low (phase call) calls

-- Whatever was called before and whatever is answered, the calls that are added ascend.
pub record IsOrdered (low high : ℕ) {A : Type 0} (m : M A) : Type 0 where
  pub added : (h : History) → (calls : List Call) × ((m h).1 ≡ calls ++ h) × Ascends low high calls

Ascends-raise :
    (low high top : ℕ) (calls : List Call)
    → high ≤ top
    → Ascends low high calls
    → Ascends low top calls
Ascends-raise low high top [] b a = omega arith
Ascends-raise low high top (call ∷ calls) b (p, a) = (omega arith, a)

Ascends-append :
    (low middle high : ℕ) (later earlier : List Call)
    → Ascends middle high later
    → Ascends low middle earlier
    → Ascends low high (later ++ earlier)
Ascends-append low middle high [] earlier a b = Ascends-raise low middle high earlier a b
Ascends-append low middle high (call ∷ later) earlier (p, a) b =
    (p, Ascends-append low middle (phase call) later earlier a b)

All-Ascends :
    (low n high : ℕ) (calls : List Call)
    → low ≤ n
    → n ≤ high
    → All (λ call. phase call ≡ n) calls
    → Ascends low high calls
All-Ascends low n high [] l r a = omega arith
All-Ascends low n high (call ∷ calls) l r (e, a) =
    (omega arith, All-Ascends low n (phase call) calls l (omega arith) a)

Ascends-lower :
    (bottom low high : ℕ) (calls : List Call)
    → bottom ≤ low
    → Ascends low high calls
    → Ascends bottom high calls
Ascends-lower bottom low high [] b a = omega arith
Ascends-lower bottom low high (call ∷ calls) b (p, a) =
    (p, Ascends-lower bottom low (phase call) calls b a)

IsOrdered-lower :
    {bottom low high : ℕ} {A : Type 0} {m : M A}
    → bottom ≤ low
    → IsOrdered low high m
    → IsOrdered bottom high m
IsOrdered-lower {bottom} {low} {high} b s = record {
  added = λ h. let (calls, e, a) = s.added h in (calls, e, Ascends-lower bottom low high calls b a);
}

module _ {low high : ℕ} where
  IsOrdered-none : {A : Type 0} {r : Result A} → low ≤ high → IsOrdered low high (λ h. (r, h))
  IsOrdered-none b = record { added = λ h. ([], refl, b) }

  InPhase-IsOrdered :
      {A : Type 0} {m : M A} (n : ℕ) → low ≤ n → n ≤ high → InPhase n m → IsOrdered low high m
  InPhase-IsOrdered n l r s = record {
    added = λ h. let (calls, e, a) = s.added h in (calls, e, All-Ascends low n high calls l r a);
  }

  IsOrdered-if :
      {A : Type 0} (b : Bool) {m k : M A}
      → IsOrdered low high m
      → IsOrdered low high k
      → IsOrdered low high (if b then m else k)
  IsOrdered-if true s t = s
  IsOrdered-if false s t = t

  continue_with-IsOrdered :
      {A B : Type 0} (f : A → M B) (r : Result A)
      → low ≤ high
      → ((a : A) → IsOrdered low high (f a))
      → IsOrdered low high (λ h. continue_with r h f)
  continue_with-IsOrdered f (ok a) b s = s a
  continue_with-IsOrdered f (err e) b s = IsOrdered-none b

-- One method after the other: the second begins where the first has ended, or later.
module _ {low high : ℕ} (middle : ℕ) (b : middle ≤ high) where
  IsOrdered->>= :
      {A B : Type 0} {m : M A} {f : A → M B}
      → IsOrdered low middle m
      → ((a : A) → IsOrdered middle high (f a))
      → IsOrdered low high (m >>= f)
  unfolding ◌>>=◌
  IsOrdered->>= {m = m} {f = f} s t = record {
    added = λ h.
        let (xs, e, p) = s.added h in
        let (ys, d, q) = (continue_with-IsOrdered f (m h).0 b t).added (m h).1 in
        (
          ys ++ xs,
          d ∙ ap (λ h'. ys ++ h') e ∙ sym (append_assoc ys xs h),
          Ascends-append low middle high ys xs q p,
        );
  }

  IsOrdered->> :
      {B : Type 0} {m : M (Unit {0})} {k : M B}
      → IsOrdered low middle m
      → IsOrdered middle high k
      → IsOrdered low high (m >> k)
  unfolding ◌>>◌
  IsOrdered->> s t = IsOrdered->>= s (λ _. t)

module _ (c : Controller) (lb : Lb) (service : Service) (nodes : List Node) where
  apply_ops-IsOrdered :
      (fops : Ops Frontend) (bops : Ops Backend) (targets : Slice String)
      → IsOrdered 1 4 (apply_ops c lb service nodes fops bops targets)
  unfolding apply_ops
  apply_ops-IsOrdered fops bops targets =
      IsOrdered->> 2 (omega arith)
        (InPhase-IsOrdered 2 (omega arith) (omega arith) (delete_frontends-InPhase c lb _))
        (IsOrdered->> 3 (omega arith)
          (InPhase-IsOrdered 3 (omega arith) (omega arith)
            (update_ports-InPhase c lb service nodes fops bops targets _))
          (InPhase-IsOrdered 4 (omega arith) (omega arith) (delete_backends-InPhase c lb _)))

  update_settings-InPhase :
      (managed : Bool) → InPhase 5 (update_settings c lb service nodes managed)
  unfolding update_settings migrate set_ssl_level
  update_settings-InPhase true = search calls
  update_settings-InPhase false = search calls

  sync_resources-IsOrdered :
      (managed : Bool) → IsOrdered 1 5 (sync_resources c lb service nodes managed)
  unfolding sync_resources
  sync_resources-IsOrdered managed =
      IsOrdered->>= 1 (omega arith)
        (InPhase-IsOrdered 1 (omega arith) (omega arith) (list_frontends-InPhase c lb _))
        λ _.
          IsOrdered->>= 1 (omega arith)
            (InPhase-IsOrdered 1 (omega arith) (omega arith) (list_backends-InPhase c lb _))
            λ _. IsOrdered->>= 1 (omega arith) (IsOrdered-none (omega arith)) λ want.
              IsOrdered->> 4 (omega arith) (apply_ops-IsOrdered _ _ _)
                (InPhase-IsOrdered 5 (omega arith) (omega arith) (update_settings-InPhase managed))

module _ (c : Controller) (now : ℕ) (lb : Lb) (service : Service) (nodes : List Node) where
  update_resources-IsOrdered : IsOrdered 0 5 (update_resources c now lb service nodes)
  unfolding update_resources
  update_resources-IsOrdered =
      IsOrdered->>= 0 (omega arith) (IsOrdered-none (omega arith)) λ managed.
        IsOrdered->> 0 (omega arith) (IsOrdered-none (omega arith)) (
          IsOrdered->> 0 (omega arith)
            (InPhase-IsOrdered 0 (omega arith) (omega arith)
              (Calls-map_error _ (attach_private_networks-InPhase c lb service managed)))
            (IsOrdered-lower (omega arith) (sync_resources-IsOrdered c lb service _ managed)))

  -- Wherever an update ends, its calls are in this order: those for the private networks, the lists
  -- of frontends and backends, the deletions of frontends, the creations and updates for the ports,
  -- with their rules, the deletions of backends, and the changes of the load balancer itself. It
  -- makes no other calls.
  pub update_load_balancer-IsOrdered : IsOrdered 0 5 (update_load_balancer c now lb service nodes)
  unfolding update_load_balancer
  update_load_balancer-IsOrdered =
      IsOrdered-if service.is_deleting (IsOrdered-none {r = ok tt} (omega arith))
        update_resources-IsOrdered
