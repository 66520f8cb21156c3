-- ===== src/LoadBalancers/Compare/Convergence.antt =====
-- Once the operations of a comparison are carried out, the next comparison finds nothing to do.
use scaleway_cloud_controlle.Base.{
  ℤ, String, Bool, true, not, List, [], ◌∷◌, ◌++◌, has_prefix, ◌≡◌, refl, sym, ap, ◌∙◌, arith,
  is_some, Option-cases, inl, inr, All, All-mono, select,
}
use mathlib.Core.Path.{subst}
use scaleway_cloud_controlle.LoadBalancers.Compare.Rounds
use scaleway_cloud_controlle.LoadBalancers.Compare.Rounds.{IsQuiet}
use scaleway_cloud_controlle.Base.Dict.{Dict, lookup, values, int_key, entries-lookup}
use scaleway_cloud_controlle.LoadBalancers.Compare.{
  Ops, examine_all, add_missing, compare_resources,
}
use scaleway_cloud_controlle.LoadBalancers.Compare.Laws.{
  bit, operations, no_ops, exclusive, compare_resources-operations,
}
use scaleway_cloud_controlle.LoadBalancers.Compare.Soundness.{
  IsUpdatable, AreSound, target_port, compare-AreSound,
}

-- The resources of a load balancer behind the operations: those of others, those that are kept, and
-- those that were updated and created.
abbrev pub carried_out : {T : Type 0} → (T → String) → String → List T → Ops T → List T
carried_out name prefix got ops =
    select (λ t. not (has_prefix (name t) prefix)) got
    ++ (values ops.keep ++ (values ops.update ++ values ops.create))

module _ {T : Type 0} (name : T → String) (port : T → ℤ) (equals : T → T → Bool) (adopt : T → T → T)
    (want : Dict ℤ T) (prefix : String) where
  abbrev rounds : List T → Ops T → Ops T
  rounds = examine_all name port equals adopt want prefix

  abbrev compare : List T → Ops T
  compare got = compare_resources name port equals adopt want got prefix

  module _ (u : IsUpdatable name port equals adopt want prefix) where
    -- No resource is created for a port that was seen.
    add_missing-seen :
        (m : Dict ℤ T) (ops : Ops T)
        → All (λ (entry : ℤ × T). is_some (lookup (port entry.1) ops.evaluated) ≡ true) m
        → add_missing name port equals adopt want m ops ≡ ops
    unfolding add_missing
    add_missing-seen [] ops h = refl
    add_missing-seen ((k, target) ∷ m) ops (seen, h) =
        elim (Option-cases (lookup (port target) ops.evaluated)) [
          | inl new ↦ absurd (ground (arith, seen, new))
          | inr (t, found) ↦ rw (add_missing, found) (add_missing-seen m ops h)
        ]

    -- Every wanted port was seen, if the ports that were seen are the wanted ones.
    wanted-seen :
        (ops : Ops T)
        → ((p : ℤ) → is_some (lookup p ops.evaluated) ≡ is_some (lookup p want))
        → All (λ (entry : ℤ × T). is_some (lookup (port entry.1) ops.evaluated) ≡ true) want
    wanted-seen ops h =
        All-mono
          (λ (entry : ℤ × T) found.
            let at : port entry.1 ≡ entry.0 =
              target_port name port equals adopt want prefix u entry.0 entry.1 found in
            rw at (ground (arith, h entry.0, found)))
          want (entries-lookup want u.distinct)

    rounds-parts :
        (got : List T) (ops : Ops T)
        → rounds (carried_out name prefix got ops) no_ops
          ≡ rounds
              (values ops.create)
              (rounds (values ops.update) (rounds (values ops.keep) no_ops))
    rounds-parts got ops =
        Rounds.rounds-append name port equals adopt want prefix
          (select (λ t. not (has_prefix (name t) prefix)) got) _ no_ops
        ∙ ap (rounds _) (Rounds.rounds-foreign name port equals adopt want prefix got no_ops)
        ∙ Rounds.rounds-append name port equals adopt want prefix (values ops.keep) _ no_ops
        ∙ Rounds.rounds-append name port equals adopt want prefix (values ops.update) _ _

    -- The rounds over the resources that the operations leave.
    rounds-carried_out :
        (got : List T) (ops : Ops T)
        → AreSound name port equals adopt want prefix ops
        → ((p : ℤ) → operations p ops ≡ bit (is_some (lookup p want)))
        → IsQuiet (rounds (carried_out name prefix got ops) no_ops)
          × ((p : ℤ)
              → is_some (lookup p (rounds (carried_out name prefix got ops) no_ops).evaluated)
                ≡ is_some (lookup p want))
    unfolding lookup
    rounds-carried_out got ops ((kg, kd), (ug, ud), (cg, cd)) count =
        let once : (p : ℤ) → _ = λ p. exclusive _ _ _ _ (count p) in
        let (q1, s1) =
          Rounds.rounds-values name port equals adopt want prefix ops.keep no_ops kg kd
            (λ p. ground arith) (refl, refl, refl) in
        let o1 = rounds (values ops.keep) no_ops in
        let (q2, s2) =
          Rounds.rounds-values name port equals adopt want prefix ops.update o1 ug ud
            (λ p. ground (arith, once p, s1 p)) q1 in
        let o2 = rounds (values ops.update) o1 in
        let (q3, s3) =
          Rounds.rounds-values name port equals adopt want prefix ops.create o2 cg cd
            (λ p. ground (arith, once p, s1 p, s2 p)) q2 in
        subst
          (λ (after : Ops T).
            IsQuiet after
            × ((p : ℤ) → is_some (lookup p after.evaluated) ≡ is_some (lookup p want)))
          (sym (rounds-parts got ops)) (q3, λ p. ground (arith, once p, s1 p, s2 p, s3 p))

    -- Once its operations are carried out, a comparison asks for no removal, update or creation.
    pub compare_resources-converges :
        (got : List T) → IsQuiet (compare (carried_out name prefix got (compare got)))
    unfolding compare_resources
    compare_resources-converges got =
        let (quiet, seen) =
          rounds-carried_out got (compare got)
            (compare-AreSound name port equals adopt want prefix u got)
            (λ p. compare_resources-operations name port equals adopt want got prefix p u.keyed) in
        subst IsQuiet
          (sym (
            add_missing-seen want (rounds (carried_out name prefix got (compare got)) no_ops)
              (wanted-seen (rounds (carried_out name prefix got (compare got)) no_ops) seen)))
          quiet
