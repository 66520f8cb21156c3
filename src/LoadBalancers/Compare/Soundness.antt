-- ===== src/LoadBalancers/Compare/Soundness.antt =====
-- The maps of a comparison hold resources that are as they are wanted.
use scaleway_cloud_controlle.Base.{
  ℤ, String, Bool, true, some, List, [], ◌∷◌, has_prefix, ◌≡◌, refl, sym, Bool-cases, Option-cases,
  inl, inr, All,
}
use scaleway_cloud_controlle.LoadBalancers.Compare.Rounds
use scaleway_cloud_controlle.LoadBalancers.Compare.Rounds.{IsQuiet}
use scaleway_cloud_controlle.Base.Dict.{
  Dict, lookup, insert, int_key, IsKeyed, lookup-key, Distinct, insert-Distinct, insert-All,
  entries-lookup, lookup-All,
}
use scaleway_cloud_controlle.LoadBalancers.Compare.{
  Ops, place, examine, examine_all, add_missing, compare_resources,
}
use scaleway_cloud_controlle.LoadBalancers.Compare.Laws.{no_ops}

module _ {T : Type 0} (name : T → String) (port : T → ℤ) (equals : T → T → Bool) (adopt : T → T → T)
    (want : Dict ℤ T) (prefix : String) where
  -- What a comparison relies on: a map with one resource for each port, names of the prefix, and
  -- an update that leads to a resource which is equal to the wanted one.
  pub record IsUpdatable : Type 0 where
    pub keyed : IsKeyed port want
    pub distinct : Distinct want
    pub named : All (λ (entry : ℤ × T). has_prefix (name entry.1) prefix ≡ true) want
    pub adopt_port : (current target : T) → port (adopt current target) ≡ port target
    pub adopt_name : (current target : T) → name (adopt current target) ≡ name target
    pub adopt_equals : (current target : T) → equals (adopt current target) target ≡ true
    pub equals_self : (target : T) → equals target target ≡ true

  abbrev round : T → Ops T → Ops T
  round = examine name port equals adopt want prefix

  abbrev rounds : List T → Ops T → Ops T
  rounds = examine_all name port equals adopt want prefix

  abbrev pub IsGood : ℤ × T → Type 0
  IsGood = Rounds.IsGood name port equals adopt want prefix

  abbrev compare : List T → Ops T
  compare got = compare_resources name port equals adopt want got prefix

  -- A map of resources that are as they are wanted.
  abbrev pub IsSound : Dict ℤ T → Type 0
  IsSound m = All IsGood m × Distinct m

  insert-IsSound :
      (k : ℤ) (v : T) (m : Dict ℤ T) → IsGood (k, v) → IsSound m → IsSound (insert k v m)
  insert-IsSound k v m g (good, distinct) =
      (insert-All IsGood k v m g good, insert-Distinct k v m distinct)

  abbrev pub AreSound : Ops T → Type 0
  AreSound ops = IsSound ops.keep × IsSound ops.update × IsSound ops.create

  module _ (u : IsUpdatable) where
    pub target_port : (p : ℤ) (target : T) → lookup p want ≡ some target → port target ≡ p
    target_port p target wanted = lookup-key port want p target u.keyed wanted

    target_name :
        (p : ℤ) (target : T) → lookup p want ≡ some target → has_prefix (name target) prefix ≡ true
    target_name p target wanted =
        lookup-All (λ entry. has_prefix (name entry.1) prefix ≡ true) want p target u.named wanted

    kept-IsGood :
        (current target : T)
        → has_prefix (name current) prefix ≡ true
        → lookup (port current) want ≡ some target
        → equals current target ≡ true
        → IsGood (port target, current)
    kept-IsGood current target own wanted same =
        (sym (target_port (port current) target wanted), own, target, wanted, same)

    updated-IsGood :
        (current target : T)
        → lookup (port current) want ≡ some target
        → IsGood (port target, adopt current target)
    updated-IsGood current target wanted = (
      u.adopt_port current target,
      rw (u.adopt_name current target) (target_name (port current) target wanted),
      target,
      rw (u.adopt_port current target, target_port (port current) target wanted) wanted,
      u.adopt_equals current target,
    )

    created-IsGood :
        (p : ℤ) (target : T) → lookup p want ≡ some target → IsGood (port target, target)
    created-IsGood p target wanted = (
      refl,
      target_name p target wanted,
      target,
      rw (target_port p target wanted) wanted,
      u.equals_self target,
    )

    round-AreSound : (current : T) (ops : Ops T) → AreSound ops → AreSound (round current ops)
    unfolding examine place
    round-AreSound current ops (k, up, cr) = elim (Bool-cases (has_prefix (name current) prefix)) [
      | inr out ↦ rw (examine, out) (k, up, cr)
      | inl on ↦ elim (Option-cases (lookup (port current) ops.evaluated)) [
        | inr (t, seen) ↦ rw (examine, on, seen) (k, up, cr)
        | inl new ↦ elim (Option-cases (lookup (port current) want)) [
          | inl unwanted ↦ rw (examine, on, new, place, unwanted) (k, up, cr)
          | inr (target, wanted) ↦ elim (Bool-cases (equals current target)) [
            | inl same ↦
                rw (examine, on, new, place, wanted, same)
                  (
                    insert-IsSound _ _ ops.keep (kept-IsGood current target on wanted same) k,
                    up,
                    cr,
                  )
            | inr other ↦
                rw (examine, on, new, place, wanted, other)
                  (k, insert-IsSound _ _ ops.update (updated-IsGood current target wanted) up, cr)
          ]
        ]
      ]
    ]

    rounds-AreSound : (got : List T) (ops : Ops T) → AreSound ops → AreSound (rounds got ops)
    unfolding examine_all
    rounds-AreSound [] ops h = h
    rounds-AreSound (t ∷ got) ops h = rounds-AreSound got (round t ops) (round-AreSound t ops h)

    -- The entries of the wanted map are what is found at their keys.
    abbrev IsWanted : ℤ × T → Type 0
    IsWanted (k, target) = lookup k want ≡ some target

    add_missing-AreSound :
        (m : Dict ℤ T) (ops : Ops T)
        → All IsWanted m
        → AreSound ops
        → AreSound (add_missing name port equals adopt want m ops)
    unfolding add_missing
    add_missing-AreSound [] ops w h = h
    add_missing-AreSound ((k, target) ∷ m) ops (wanted, w) (ks, up, cr) =
        elim (Option-cases (lookup (port target) ops.evaluated)) [
          | inr (t, seen) ↦ rw (add_missing, seen) (add_missing-AreSound m ops w (ks, up, cr))
          | inl new ↦
              rw (add_missing, new)
                (add_missing-AreSound m
                  (record ops { create = insert (port target) target ops.create }) w
                  (ks, up, insert-IsSound _ _ ops.create (created-IsGood k target wanted) cr))
        ]

    pub compare-AreSound : (got : List T) → AreSound (compare got)
    unfolding compare_resources
    compare-AreSound got =
        add_missing-AreSound want _ (entries-lookup want u.distinct)
          (rounds-AreSound got no_ops ((tt, tt), (tt, tt), (tt, tt)))
