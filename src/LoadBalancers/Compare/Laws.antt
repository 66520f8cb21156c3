-- ===== src/LoadBalancers/Compare/Laws.antt =====
-- The comparison of wanted and current resources: every wanted port gets one operation, and only
-- resources of the prefix are removed.
use scaleway_cloud_controlle.Base.{
  ℕ, ℤ, int_eq_iff, String, Bool, true, false, ◌&&◌, ◌||◌, none, List, [], ◌∷◌, has_prefix, ◌≡◌,
  refl, arith, is_some, is_none, Bool-cases, Option-cases, inl, inr, All, All-append, ◌+◌, ◌∙◌,
}
use scaleway_cloud_controlle.Base.Dict.{
  Dict, lookup, insert, int_key, lookup-insert, IsKeyed, lookup-key,
}
use scaleway_cloud_controlle.LoadBalancers.Compare.{
  Ops, place, examine, examine_all, add_missing, compare_resources,
}

abbrev pub bit : Bool → ℕ
bit true = 1
bit false = 0

-- In how many of the three maps a port is.
abbrev pub operations : {T : Type 0} → ℤ → Ops T → ℕ
operations p ops =
    bit (is_some (lookup p ops.update))
    + (bit (is_some (lookup p ops.create)) + bit (is_some (lookup p ops.keep)))

abbrev pub no_ops : {T : Type 0} → Ops T
no_ops = record { remove = []; update = []; create = []; keep = []; evaluated = [] }

-- What the sum of the bits of three maps, if it is a bit, tells of them.
pub exclusive :
    (k u c w : Bool)
    → bit u + (bit c + bit k) ≡ bit w
    → ((u && k) ≡ false) × ((c && (u || k)) ≡ false) × ((c || (u || k)) ≡ w)
exclusive k u c w h = (ground arith, ground arith, ground arith)

module _ {T : Type 0} (name : T → String) (port : T → ℤ) (equals : T → T → Bool) (adopt : T → T → T)
    (want : Dict ℤ T) where
  -- Between the rounds of the first loop: the ports seen that are wanted are updated or kept.
  abbrev IsPlaced : ℤ → Ops T → Type 0
  IsPlaced p ops =
      (lookup p ops.create ≡ none)
      × (bit (is_some (lookup p ops.update)) + bit (is_some (lookup p ops.keep))
          ≡ bit (is_some (lookup p ops.evaluated) && is_some (lookup p want)))

  -- A wanted port that is new is placed.
  place-IsPlaced :
      (current : T) (ops : Ops T) (p : ℤ)
      → IsKeyed port want
      → lookup (port current) ops.evaluated ≡ none
      → IsPlaced p ops
      → IsPlaced p (
          place name port equals adopt want current
            (record ops { evaluated = insert (port current) current ops.evaluated }))
  unfolding place
  place-IsPlaced current ops p k new h = elim (Option-cases (lookup (port current) want)) [
    | inl unwanted ↦
        rw (place, unwanted, lookup-insert (port current) p current ops.evaluated)
          (grind (arith, int_eq_iff (port current) p))
    | inr (target, wanted) ↦ elim (Bool-cases (equals current target)) [
      | inl same ↦
          rw
            (
              place,
              wanted,
              same,
              lookup-key port want (port current) target k wanted,
              lookup-insert (port current) p current ops.evaluated,
              lookup-insert (port current) p current ops.keep,
            )
            (grind (arith, int_eq_iff (port current) p))
      | inr other ↦
          rw
            (
              place,
              wanted,
              other,
              lookup-key port want (port current) target k wanted,
              lookup-insert (port current) p current ops.evaluated,
              lookup-insert (port current) p (adopt current target) ops.update,
            )
            (grind (arith, int_eq_iff (port current) p))
    ]
  ]

  examine-IsPlaced :
      (prefix : String) (current : T) (ops : Ops T) (p : ℤ)
      → IsKeyed port want
      → IsPlaced p ops
      → IsPlaced p (examine name port equals adopt want prefix current ops)
  unfolding examine
  examine-IsPlaced prefix current ops p k h = elim (Bool-cases (has_prefix (name current) prefix)) [
    | inr out ↦ rw (examine, out) h
    | inl on ↦ elim (Option-cases (lookup (port current) ops.evaluated)) [
      | inr (t, seen) ↦ rw (examine, on, seen) h
      | inl new ↦ rw (examine, on, new) (place-IsPlaced current ops p k new h)
    ]
  ]

  examine_all-IsPlaced :
      (prefix : String) (got : List T) (ops : Ops T) (p : ℤ)
      → IsKeyed port want
      → IsPlaced p ops
      → IsPlaced p (examine_all name port equals adopt want prefix got ops)
  unfolding examine_all
  examine_all-IsPlaced prefix [] ops p k h = h
  examine_all-IsPlaced prefix (current ∷ got) ops p k h =
      examine_all-IsPlaced prefix got (examine name port equals adopt want prefix current ops) p k
        (examine-IsPlaced prefix current ops p k h)

  -- The second loop creates the wanted ports that were not seen.
  abbrev missing_count : ℤ → Dict ℤ T → Ops T → ℕ
  missing_count p m ops =
      bit (
        is_some (lookup p ops.create) || (is_some (lookup p m) && is_none (lookup p ops.evaluated)))

  add_missing-create :
      (m : Dict ℤ T) (ops : Ops T) (p : ℤ)
      → IsKeyed port m
      → operations p (add_missing name port equals adopt want m ops)
        ≡ bit (is_some (lookup p ops.update))
          + (missing_count p m ops + bit (is_some (lookup p ops.keep)))
  unfolding add_missing lookup
  add_missing-create [] ops p k = ground arith
  add_missing-create ((j, target) ∷ m) ops p (e, k) =
      elim (Option-cases (lookup (port target) ops.evaluated)) [
        | inl new ↦
            rw
              (
                add_missing,
                new,
                add_missing-create m
                    (record ops { create = insert (port target) target ops.create }) p k,
                lookup-insert (port target) p target ops.create,
                e,
              )
              (grind (arith, int_eq_iff j p))
        | inr (t, seen) ↦
            rw (add_missing, seen, add_missing-create m ops p k) (grind (arith, int_eq_iff j p))
      ]

  -- Each wanted port is in exactly one of the three maps, of updates, creations and resources to
  -- keep, and a port that is not wanted is in none of them.
  pub compare_resources-operations :
      (got : List T) (prefix : String) (p : ℤ)
      → IsKeyed port want
      → operations p (compare_resources name port equals adopt want got prefix)
        ≡ bit (is_some (lookup p want))
  unfolding compare_resources lookup
  compare_resources-operations got prefix p k =
      let h = examine_all-IsPlaced prefix got no_ops p k (refl, ground arith) in
      add_missing-create want (examine_all name port equals adopt want prefix got no_ops) p k
      ∙ ground (arith, h)

  -- What the removed resources have in common: a predicate of the current ones, and the prefix.
  module _ (P : T → Type 0) (prefix : String) where
    abbrev IsOwned : T → Type 0
    IsOwned t = P t × (has_prefix (name t) prefix ≡ true)

    examine-remove :
        (current : T) (ops : Ops T)
        → P current
        → All IsOwned ops.remove
        → All IsOwned (examine name port equals adopt want prefix current ops).remove
    unfolding examine place
    examine-remove current ops p h = elim (Bool-cases (has_prefix (name current) prefix)) [
      | inr out ↦ rw (examine, out) h
      | inl on ↦
          let more = All-append IsOwned ops.remove (current ∷ []) h ((p, on), tt) in
          elim (Option-cases (lookup (port current) ops.evaluated)) [
            | inr (t, seen) ↦ rw (examine, on, seen) more
            | inl new ↦ elim (Option-cases (lookup (port current) want)) [
              | inl unwanted ↦ rw (examine, on, new, place, unwanted) more
              | inr (target, wanted) ↦ elim (Bool-cases (equals current target)) [
                | inl same ↦ rw (examine, on, new, place, wanted, same) h
                | inr other ↦ rw (examine, on, new, place, wanted, other) h
              ]
            ]
          ]
    ]

    examine_all-remove :
        (got : List T) (ops : Ops T)
        → All P got
        → All IsOwned ops.remove
        → All IsOwned (examine_all name port equals adopt want prefix got ops).remove
    unfolding examine_all
    examine_all-remove [] ops p h = h
    examine_all-remove (current ∷ got) ops (p, ps) h =
        examine_all-remove got (examine name port equals adopt want prefix current ops) ps
          (examine-remove current ops p h)

    add_missing-remove :
        (m : Dict ℤ T) (ops : Ops T)
        → (add_missing name port equals adopt want m ops).remove ≡ ops.remove
    unfolding add_missing
    add_missing-remove [] ops = refl
    add_missing-remove ((j, target) ∷ m) ops =
        elim (Option-cases (lookup (port target) ops.evaluated)) [
          | inl new ↦
              rw (add_missing, new)
                (add_missing-remove m
                  (record ops { create = insert (port target) target ops.create }))
          | inr (t, seen) ↦ rw (add_missing, seen) (add_missing-remove m ops)
        ]

    -- A resource is removed only if it is a current one (it has each predicate that they all have)
    -- and its name begins with the prefix.
    pub compare_resources-remove :
        (got : List T)
        → All P got
        → All IsOwned (compare_resources name port equals adopt want got prefix).remove
    unfolding compare_resources
    compare_resources-remove got h =
        rw (add_missing-remove want (examine_all name port equals adopt want prefix got no_ops))
          (examine_all-remove got no_ops h tt)
