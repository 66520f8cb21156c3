-- ===== src/LoadBalancers/Compare/Rounds.antt =====
-- The rounds of a comparison over resources that are as they are wanted: each is kept.
use scaleway_cloud_controlle.Base.{
  ℤ, int_eq_iff, String, Bool, true, false, not, ◌&&◌, ◌||◌, none, some, List, [], ◌∷◌, ◌++◌,
  has_prefix, ◌≡◌, refl, sym, ap, arith, is_some, Bool-cases, inl, inr, All, select,
}
use mathlib.Core.Path.{subst}
use scaleway_cloud_controlle.Base.Dict.{
  Dict, lookup, insert, values, int_key, lookup-insert, Distinct,
}
use scaleway_cloud_controlle.LoadBalancers.Compare.{Ops, place, examine, examine_all}

-- A comparison that asks for no removal, update or creation.
abbrev pub IsQuiet : {T : Type 0} → Ops T → Type 0
IsQuiet ops = (ops.remove ≡ []) × (ops.update ≡ []) × (ops.create ≡ [])

module _ {T : Type 0} (name : T → String) (port : T → ℤ) (equals : T → T → Bool) (adopt : T → T → T)
    (want : Dict ℤ T) (prefix : String) where
  abbrev pub round : T → Ops T → Ops T
  round = examine name port equals adopt want prefix

  abbrev pub rounds : List T → Ops T → Ops T
  rounds = examine_all name port equals adopt want prefix

  -- A resource that is as it is wanted, at its port.
  abbrev pub IsGood : ℤ × T → Type 0
  IsGood (p, t) =
      (port t ≡ p)
      × (has_prefix (name t) prefix ≡ true)
      × (target : T) × (lookup (port t) want ≡ some target)
      × (equals t target ≡ true)

  -- A resource as it is wanted, on a port that was not seen, is kept.
  round-keep :
      (t target : T) (ops : Ops T)
      → has_prefix (name t) prefix ≡ true
      → lookup (port t) want ≡ some target
      → equals t target ≡ true
      → lookup (port t) ops.evaluated ≡ none
      → round t ops ≡ record ops {
        evaluated = insert (port t) t ops.evaluated;
        keep = insert (port target) t ops.keep;
      }
  unfolding examine place
  round-keep t target ops own wanted same new = rw (examine, own, new, place, wanted, same) refl

  pub rounds-append :
      (xs ys : List T) (ops : Ops T) → rounds (xs ++ ys) ops ≡ rounds ys (rounds xs ops)
  unfolding examine_all
  rounds-append [] ys ops = refl
  rounds-append (x ∷ xs) ys ops = rounds-append xs ys (round x ops)

  -- The resources of others are passed over.
  pub rounds-foreign :
      (got : List T) (ops : Ops T)
      → rounds (select (λ t. not (has_prefix (name t) prefix)) got) ops ≡ ops
  unfolding examine_all examine
  rounds-foreign [] ops = refl
  rounds-foreign (t ∷ got) ops = elim (Bool-cases (has_prefix (name t) prefix)) [
    | inl own ↦ rw own (rounds-foreign got ops)
    | inr other ↦ rw other (rw (other, examine) (rounds-foreign got ops))
  ]

  -- Whether a port was seen, behind some rounds.
  abbrev pub Sees : Dict ℤ T → Ops T → Ops T → Type 0
  Sees m ops after =
      (p : ℤ)
      → is_some (lookup p after.evaluated)
        ≡ (is_some (lookup p m) || is_some (lookup p ops.evaluated))

  abbrev pub IsFresh : Dict ℤ T → Ops T → Type 0
  IsFresh m ops = (p : ℤ) → (is_some (lookup p m) && is_some (lookup p ops.evaluated)) ≡ false

  still_fresh :
      (k : ℤ) (v : T) (m : Dict ℤ T) (ops : Ops T) (p : ℤ)
      → port v ≡ k
      → lookup k m ≡ none
      → (is_some (lookup p ((k, v) ∷ m)) && is_some (lookup p ops.evaluated)) ≡ false
      → (is_some (lookup p m) && is_some (lookup p (insert (port v) v ops.evaluated))) ≡ false
  unfolding lookup
  still_fresh k v m ops p at alone fresh =
      ground
        (arith, lookup-insert (port v) p v ops.evaluated, int_eq_iff (port v) p, int_eq_iff k p)

  seen_more :
      (k : ℤ) (v : T) (m : Dict ℤ T) (ops : Ops T) (p : ℤ) {b : Bool}
      → port v ≡ k
      → b ≡ (is_some (lookup p m) || is_some (lookup p (insert (port v) v ops.evaluated)))
      → b ≡ (is_some (lookup p ((k, v) ∷ m)) || is_some (lookup p ops.evaluated))
  unfolding lookup
  seen_more k v m ops p at h =
      ground
        (arith, lookup-insert (port v) p v ops.evaluated, int_eq_iff (port v) p, int_eq_iff k p)

  pub rounds-values :
      (m : Dict ℤ T) (ops : Ops T)
      → All IsGood m
      → Distinct m
      → IsFresh m ops
      → IsQuiet ops
      → IsQuiet (rounds (values m) ops) × Sees m ops (rounds (values m) ops)
  unfolding examine_all lookup
  rounds-values [] ops good distinct fresh quiet = (quiet, λ p. refl)
  rounds-values ((k, v) ∷ m) ops ((at, own, target, wanted, same), good) (alone, distinct) fresh
        quiet =
      let new : lookup (port v) ops.evaluated ≡ none = ground (arith, fresh k, int_eq_iff k k) in
      let next : Ops T = record ops {
        evaluated = insert (port v) v ops.evaluated;
        keep = insert (port target) v ops.keep;
      } in
      let fresh' : IsFresh m next = λ p. still_fresh k v m ops p at alone (fresh p) in
      let (still, seen) = rounds-values m next good distinct fresh' quiet in
      subst (λ after. IsQuiet after × Sees ((k, v) ∷ m) ops after)
        (sym (ap (rounds (values m)) (round-keep v target ops own wanted same new)))
        (still, λ p. seen_more k v m ops p at (seen p))
